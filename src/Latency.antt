-- ===== src/Latency.antt =====
-- The life of a connection over TCP, as the event loop drives the callbacks of src/wrk.c and
-- src/tcp.h, and what its latencies mean. Every step takes time; the environment chooses which
-- callback comes next, what the system calls answer and when responses arrive, what the parser's other
-- callbacks leave in the two buffers, and what other connections and timers do to the thread.
mod Tests
use wrk_quic.Prelude.{
  ℕ, ◌+◌, ◌-◌, ◌≡◌, ◌≢◌, Bool, true, false, not, ◌||◌, arith, Option, some, none, ◌==◌, ◌<◌, ◌≤◌,
  ◌^◌, pos, refl, if◌then◌else◌,
}
use wrk_quic.Platform.{Floating, IsExact, Histogram}
use wrk_quic.EventLoop.{EventLoop}
use wrk_quic.Connection.{Connection, Thread, Buffer, HeaderState, Config, Ctx}
use wrk_quic.Pacing.{due, SameSchedule}
use wrk_quic.Pacing.Paced.{Paced, Paced-later, SameSchedule-Paced}
use wrk_quic.Net.{Attempt, Outcome, tcp_reconnect_socket, tcp_connect_socket}
use wrk_quic.Net.Keeps.{
  tcp_connect_socket-SameSchedule, tcp_reconnect_socket-SameSchedule,
  histograms-tcp_reconnect_socket,
}
use wrk_quic.Send.{Sending, sock_writeable, delay_request_timer}
use wrk_quic.Send.Batch.{sock_writeable-Paced, delay_request_timer-SameSchedule}
use wrk_quic.Response.{response_complete, read_failed, socket_connected_as}
use wrk_quic.Response.Recorded.{
  response_complete-Paced, response_complete_latency, socket_connected_as-SameSchedule,
  read_failed-SameSchedule,
}

module _ {V Hist Loop : Type 0} (f : Floating V) (h : Histogram V Hist) (ae : EventLoop Loop)
    (cfg : Config) where
  -- From one time and state to a later one. A response comes only to a request that is pending.
  pub data Step (now : ℕ) (x : Ctx V Hist Loop) (later : ℕ) (y : Ctx V Hist Loop) : Type 0 where
    waits : now ≤ later → y ≡ x → Step now x later y
    connects :
        (o : Outcome) (a : Attempt)
        → now ≤ later
        → y ≡ socket_connected_as f h ae cfg (tcp_reconnect_socket ae a) o x
        → Step now x later y
    writes :
        (r : Sending) (a : Attempt)
        → now ≤ r.checked
        → r.checked ≤ r.started
        → r.started ≤ later
        → later < 2 ^ 64
        → sock_writeable f ae cfg (tcp_reconnect_socket ae a) r x ≡ some y
        → Step now x later y
    fires :
        (at : ℕ)
        → now ≤ at
        → at ≤ later
        → y ≡ (delay_request_timer f ae at x).1
        → Step now x later y
    fails :
        (a : Attempt)
        → now ≤ later
        → y ≡ read_failed f h ae cfg (tcp_reconnect_socket ae a) x
        → Step now x later y
    parses :
        (headers body : Buffer) (state : HeaderState)
        → now ≤ later
        → y ≡ record x { conn = record (x.conn) { headers = headers; body = body; state = state } }
        → Step now x later y
    elsewhere :
        (t : Thread V Hist Loop) → now ≤ later → y ≡ record x { thread = t } → Step now x later y
    answers :
        (status at : ℕ) (keep_alive : Bool) (a : Attempt)
        → now ≤ at
        → at ≤ later
        → 0 < x.conn.pending
        → y ≡ response_complete f h ae cfg (tcp_reconnect_socket ae a) status keep_alive at x
        → Step now x later y

  pub data Reach (start : ℕ) (s : Ctx V Hist Loop) : ℕ → Ctx V Hist Loop → Type 0 where
    here : Reach start s start s
    next :
        {now later : ℕ} {x y : Ctx V Hist Loop}
        → Reach start s now x
        → Step now x later y
        → Reach start s later y

  -- A connection that has sent nothing yet.
  pub record IsNew (c : Connection V) : Type 0 where
    pub idle : c.has_pending ≡ false
    pub nothing_pending : c.pending ≡ 0

  IsNew-Paced : (now : ℕ) {c : Connection V} → IsNew c → Paced f now c
  IsNew-Paced now n = record {
    batch = λ e. cc (n.idle);
    past = λ e. cc (n.idle);
    awaiting = λ ne. absurd (ne n.nothing_pending);
    small = omega (arith, n.nothing_pending);
  }

  module _ (IsPositive : V → Type 0) (laws : IsExact f IsPositive)
      (pipeline : cfg.pipeline < 2 ^ 64) where
    -- Every callback keeps the connection paced.
    Step-Paced :
        {now later : ℕ} {x y : Ctx V Hist Loop}
        → Step now x later y
        → Paced f now x.conn
        → Paced f later y.conn
    Step-Paced (waits le e) p = rw e (Paced-later f le p)
    Step-Paced {x = x} (connects o a le e) p = rw e (
        Paced-later f le (
          SameSchedule-Paced f
            (socket_connected_as-SameSchedule f h ae cfg (tcp_reconnect_socket ae a)
              (tcp_reconnect_socket-SameSchedule f ae a) o x)
            p))
    Step-Paced {now = now} {x = x} (writes r a le le' le'' small e) p = Paced-later f le'' (
        sock_writeable-Paced f ae cfg (tcp_reconnect_socket ae a)
          (tcp_reconnect_socket-SameSchedule f ae a) pipeline IsPositive laws r x now le le'
          (omega arith) p e)
    Step-Paced {x = x} (fires at le le' e) p = rw e (
        Paced-later f (omega arith)
          (SameSchedule-Paced f (delay_request_timer-SameSchedule f ae at x) p))
    Step-Paced {x = x} (fails a le e) p = rw e (
        Paced-later f le (
          SameSchedule-Paced f
            (read_failed-SameSchedule f h ae cfg (tcp_reconnect_socket ae a)
              (tcp_reconnect_socket-SameSchedule f ae a) x)
            p))
    Step-Paced (parses headers body state le e) p =
        rw e (Paced-later f le (SameSchedule-Paced f (ground arith) p))
    Step-Paced (elsewhere t le e) p = rw e (Paced-later f le p)
    Step-Paced {now = now} {x = x} (answers status at keep_alive a le le' pending e) p = rw e (
        Paced-later f (omega arith) (
          response_complete-Paced f h ae cfg (tcp_reconnect_socket ae a)
            (tcp_reconnect_socket-SameSchedule f ae a) now status at keep_alive x pending p))

    Reach-Paced :
        {start : ℕ} {s : Ctx V Hist Loop} {now : ℕ} {x : Ctx V Hist Loop}
        → IsNew s.conn
        → Reach start s now x
        → Paced f now x.conn
    Reach-Paced {start = start} new here = IsNew-Paced start new
    Reach-Paced new (next r st) = Step-Paced st (Reach-Paced new r)

    -- No latency is ever negative, and correcting for delayed starts never makes one smaller. Take
    -- any run of a connection from its first state, whatever the network and the clock do, in which
    -- responses come only to pending requests. When a response completes before the end of the run,
    -- and is the last of its batch or all responses are recorded, the histogram of corrected
    -- latencies gets the time `e` since the batch was due, that of uncorrected latencies the time `u`
    -- since the batch was sent, and `u` is at most `e`.
    pub response_complete-Reach :
        (start now : ℕ) (s x : Ctx V Hist Loop) (status at : ℕ) (keep_alive : Bool) (a : Attempt)
        → IsNew s.conn
        → Reach start s now x
        → now ≤ at
        → 0 < x.conn.pending
        → at < x.thread.stop_at
        → at < 2 ^ 63
        → (cfg.record_all_responses || (x.conn.pending == 1)) ≡ true
        → (e u : ℕ) × (e ≡ at - due f x.conn x.conn.complete_at_last_batch_start)
          × (u ≡ at - x.conn.actual_latency_start)
          × (u ≤ e)
          × (let y =
                response_complete f h ae cfg (tcp_reconnect_socket ae a) status keep_alive at x in
              (y.thread.latency_histogram ≡ h.record_value x.thread.latency_histogram (pos e))
              × (y.thread.u_latency_histogram
                  ≡ h.record_value x.thread.u_latency_histogram (pos u)))
    response_complete-Reach start now s x status at keep_alive a new run le pending running small
          all =
        response_complete_latency f h ae cfg (tcp_reconnect_socket ae a)
          (tcp_reconnect_socket-SameSchedule f ae a) status at keep_alive x pending
          (Paced-later f le (Reach-Paced new run)) running small all
          (histograms-tcp_reconnect_socket f ae a)
