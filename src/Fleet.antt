-- ===== src/Fleet.antt =====
-- A thread of src/wrk.c with all its connections, and what happens to them in any order: the
-- callbacks for one of them, as the event loop and the parser make them, and the timers of the
-- thread. `socket_readable` is made of the calls `answers`, `receives` and `fails`, as Reads says, and
-- `quic_writeable` of `quic_hears` and `quic_writes`; `parses` stands for the parser's other callbacks,
-- which work on the two buffers of the connection.
pub mod Totals
pub mod Reads
mod Tests
use wrk_quic.Prelude.{ℕ, ◌+◌, ◌≡◌, Bool, some, List, [], ◌∷◌, ◌++◌, add64, ℤ}
use wrk_quic.Platform.{Floating, Histogram}
use wrk_quic.EventLoop.{EventLoop}
use wrk_quic.Stats.{Stats}
use wrk_quic.Connection.{Connection, Thread, Buffer, HeaderState, Config, Ctx}
use wrk_quic.Net.{Attempt, Outcome, tcp_connect_socket, tcp_reconnect_socket}
use wrk_quic.Send.{Sending, sock_writeable, delay_request_timer}
use wrk_quic.Response.{socket_connected_as, response_complete, read_failed}
use wrk_quic.Response.Counting.{counts}
use wrk_quic.Quic
use wrk_quic.Quic.Callback
use wrk_quic.Quic.{Picoquic, Wr, World, quic_connect_socket, delay_recon_timer}
use wrk_quic.Quic.Callback.{quic_callback}
use wrk_quic.Quic.Sockets.{connected, write_request_timer, quic_read, quic_writeable_as, Prepared}
use wrk_quic.Quic.Counting.{heard}
use wrk_quic.Timers.{check_timeouts, calibrate, sample_rate_timer, delayed_initial_connect}

pub record Fleet (V Hist Loop : Type 0) : Type 0 where
  pub thread : Thread V Hist Loop
  pub conns : List (Connection V)

module _ {V Hist Loop Q : Type 0} (f : Floating V) (h : Histogram V Hist) (ae : EventLoop Loop)
    (pico : Picoquic Q) (cfg : Config) where
  abbrev in_world : Ctx V Hist Loop → (ℕ → Wr) → Q → World V Hist Loop Q
  in_world x fds q = record { ctx = x; fd_to_cnx = fds; quic = q }

  -- What happens to one connection, with the number of responses that come before the end of the run.
  -- Over QUIC, the table of descriptors and picoquic may be in any state.
  pub data Call (x : Ctx V Hist Loop) : ℕ → Ctx V Hist Loop → Type 0 where
    opens :
        (now : ℕ) (a : Attempt)
        → Call x 0 (delayed_initial_connect ae (tcp_connect_socket ae a) now x).1
    connects :
        (o : Outcome) (a : Attempt)
        → Call x 0 (socket_connected_as f h ae cfg (tcp_reconnect_socket ae a) o x)
    writes :
        (r : Sending) (a : Attempt) (y : Ctx V Hist Loop)
        → sock_writeable f ae cfg (tcp_reconnect_socket ae a) r x ≡ some y
        → Call x 0 y
    fires : (now : ℕ) → Call x 0 (delay_request_timer f ae now x).1
    answers :
        (status at : ℕ) (keep_alive : Bool) (a : Attempt)
        → Call x
            (counts f h ae cfg at x)
            (response_complete f h ae cfg (tcp_reconnect_socket ae a) status keep_alive at x)
    receives :
        (n : ℕ)
        → Call x 0 (record x { thread = record (x.thread) { bytes = add64 x.thread.bytes n } })
    parses :
        (headers body : Buffer) (state : HeaderState)
        → Call x 0
            (record x { conn = record (x.conn) { headers = headers; body = body; state = state } })
    fails : (a : Attempt) → Call x 0 (read_failed f h ae cfg (tcp_reconnect_socket ae a) x)
    quic_opens :
        (now : ℕ) (a : Quic.Attempt) (fds : ℕ → Wr) (q : Q)
        → Call x 0
            (delayed_initial_connect ae
              (λ y. (quic_connect_socket ae a (in_world y fds q)).ctx)
              now
              x).1
    quic_reopens :
        (a : Quic.Attempt) (fds : ℕ → Wr) (q : Q)
        → Call x 0 (delay_recon_timer ae a (in_world x fds q)).1.ctx
    quic_connects :
        (fuel fd : ℕ) (a : Quic.Attempt) (fds : ℕ → Wr) (q : Q) (w : World V Hist Loop Q)
        → connected ae pico fuel fd a (in_world x fds q) ≡ some w
        → Call x 0 w.ctx
    quic_reads :
        (fd : ℕ) (fds : ℕ → Wr) (q : Q)
        → Call x 0 (quic_read ae pico fd (λ w. w) (in_world x fds q)).1.ctx
    quic_writes :
        (fd : ℕ) (p : Prepared) (fds : ℕ → Wr) (q : Q)
        → Call x 0 (quic_writeable_as ae pico fd (λ w. (w, p)) (in_world x fds q)).ctx
    quic_wakes :
        (fd : ℕ) (fds : ℕ → Wr) (q : Q)
        → Call x 0 (write_request_timer ae pico fd (in_world x fds q)).1.ctx
    quic_hears :
        (at : ℕ) (a : Quic.Attempt) (e : Quic.Callback.Event) (fds : ℕ → Wr) (q : Q)
        → Call x
            (heard f h ae pico cfg at e (in_world x fds q))
            (quic_callback f h ae pico cfg at a e (in_world x fds q)).1.ctx

  -- What happens to a thread, with the number of responses.
  pub data Event (s : Fleet V Hist Loop) : ℕ → Fleet V Hist Loop → Type 0 where
    on :
        (before after : List (Connection V)) (c : Connection V) (n : ℕ) (y : Ctx V Hist Loop)
        → s.conns ≡ before ++ (c ∷ after)
        → Call (record { thread = s.thread; conn = c }) n y
        → Event s n (record { thread = y.thread; conns = before ++ (y.conn ∷ after) })
    checks :
        (stop : Bool) (now : ℕ)
        → Event s 0 (record s { thread = (check_timeouts ae cfg stop now s.conns s.thread).1 })
    calibrates : (now : ℕ) → Event s 0 (record s { thread = (calibrate f h ae now s.thread).1 })
    samples :
        (now after : ℕ) (statistics : Stats Hist)
        → Event s 0
            (record s { thread = (sample_rate_timer f h ae now after s.thread statistics).1 })

  pub data Run (s : Fleet V Hist Loop) : ℕ → Fleet V Hist Loop → Type 0 where
    here : Run s 0 s
    next : {m n : ℕ} {t u : Fleet V Hist Loop} → Run s m t → Event t n u → Run s (m + n) u
