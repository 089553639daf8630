-- ===== src/Fleet/Totals.antt =====
-- What `main` of src/wrk.c reports, against the responses on all connections of all threads.
use wrk_quic.Prelude.{ℕ, ◌+◌, ◌%◌, ◌^◌, ◌≡◌, refl, ap, List, [], ◌∷◌, ◌++◌, arith}
use wrk_quic.Platform.{Floating, Histogram}
use wrk_quic.EventLoop.{EventLoop}
use wrk_quic.Connection.{Connection, Thread, Config, Ctx}
use wrk_quic.Counted.{completed, Counted, uncounted}
use wrk_quic.Net.Keeps.{tcp_connect_socket-Counted, tcp_reconnect_socket-Counted}
use wrk_quic.Send.Counting.{sock_writeable-Counted, delay_request_timer-Counted}
use wrk_quic.Response.Counting.{
  response_complete-Counted, read_failed-Counted, socket_connected_as-Counted,
}
use wrk_quic.Timers.Counting.{
  check_timeouts-SameCount, calibrate-SameCount, sample_rate_timer-SameCount,
  delayed_initial_connect-Counted, SameCount,
}
use wrk_quic.Quic.{Picoquic}
use wrk_quic.Quic.Counting.{
  quic_connect_socket-Counted, delay_recon_timer-Counted, connected-Counted, quic_read-Counted,
  quic_writeable-Counted, write_request_timer-Counted, quic_callback-Counted,
}
use wrk_quic.Report.{no_totals, add_threads, no_totals-zero}
use wrk_quic.Report.Sums.{sum, add_threads-sum}
use wrk_quic.Startup.{thread_main}
use wrk_quic.Startup.Counting.{thread_main-complete}
use wrk_quic.Fleet.{
  Fleet, Call, opens, connects, writes, fires, answers, receives, parses, fails, quic_opens,
  quic_reopens, quic_connects, quic_reads, quic_writes, quic_wakes, quic_hears, Event, on, checks,
  calibrates, samples, Run, here, next,
}

completed-append :
    {V : Type 0} (xs ys : List (Connection V)) → completed (xs ++ ys) ≡ completed xs + completed ys
completed-append [] ys = omega arith
completed-append (x ∷ xs) ys = omega (arith, completed-append xs ys)

module _ {V Hist Loop Q : Type 0} (f : Floating V) (h : Histogram V Hist) (ae : EventLoop Loop)
    (pico : Picoquic Q) (cfg : Config) where
  Call-Counted : {x y : Ctx V Hist Loop} {n : ℕ} → Call f h ae pico cfg x n y → Counted n x y
  Call-Counted {x = x} (opens now a) =
      delayed_initial_connect-Counted ae _ (tcp_connect_socket-Counted f ae a) now x
  Call-Counted {x = x} (connects o a) =
      socket_connected_as-Counted f h ae cfg _ (tcp_reconnect_socket-Counted f ae a) o x
  Call-Counted {x = x} (writes r a y e) =
      sock_writeable-Counted f ae cfg _ (tcp_reconnect_socket-Counted f ae a) r x y e
  Call-Counted {x = x} (fires now) = delay_request_timer-Counted f ae now x
  Call-Counted {x = x} (answers status at keep_alive a) =
      response_complete-Counted f h ae cfg _ (tcp_reconnect_socket-Counted f ae a) status at
        keep_alive x
  Call-Counted {x = x} (receives n) = uncounted x _ refl refl refl
  Call-Counted {x = x} (parses headers body state) = uncounted x _ refl refl refl
  Call-Counted {x = x} (fails a) =
      read_failed-Counted f h ae cfg _ (tcp_reconnect_socket-Counted f ae a) x
  Call-Counted {x = x} (quic_opens now a fds q) =
      delayed_initial_connect-Counted ae _ (λ y. quic_connect_socket-Counted f ae pico a _) now x
  Call-Counted (quic_reopens a fds q) = delay_recon_timer-Counted f ae pico a _
  Call-Counted (quic_connects fuel fd a fds q w e) = connected-Counted f ae pico fuel fd a _ w e
  Call-Counted (quic_reads fd fds q) = quic_read-Counted f ae pico fd _
  Call-Counted (quic_writes fd p fds q) = quic_writeable-Counted f ae pico fd p _
  Call-Counted (quic_wakes fd fds q) = write_request_timer-Counted f ae pico fd _
  Call-Counted (quic_hears at a e fds q) = quic_callback-Counted f h ae pico cfg at a e _

  -- From one state of a thread to another one, `n` responses are counted on both sides.
  record Balanced (n : ℕ) (s t : Fleet V Hist Loop) : Type 0 where
    by_thread : t.thread.complete % 2 ^ 64 ≡ (s.thread.complete + n) % 2 ^ 64
    by_conns : completed t.conns % 2 ^ 64 ≡ (completed s.conns + n) % 2 ^ 64

  same-Balanced :
      (s : Fleet V Hist Loop) (t : Thread V Hist Loop)
      → SameCount s.thread t
      → Balanced 0 s (record s { thread = t })
  same-Balanced s t same = record { by_thread = omega (arith, same.0); by_conns = omega arith }

  Event-Balanced : {s t : Fleet V Hist Loop} {n : ℕ} → Event f h ae pico cfg s n t → Balanced n s t
  Event-Balanced {s = s} (on before after c n y e call) =
      let counted = Call-Counted call in
      record {
        by_thread = counted.by_thread;
        by_conns = omega (
          arith,
          counted.by_conn,
          completed-append before (c ∷ after),
          completed-append before (y.conn ∷ after),
          ap completed e,
        );
      }
  Event-Balanced {s = s} (checks stop now) =
      same-Balanced s _ (check_timeouts-SameCount ae cfg stop now s.conns s.thread)
  Event-Balanced {s = s} (calibrates now) =
      same-Balanced s _ (calibrate-SameCount f h ae now s.thread)
  Event-Balanced {s = s} (samples now after statistics) =
      same-Balanced s _ (sample_rate_timer-SameCount f h ae now after s.thread statistics)

  Run-Balanced : {s t : Fleet V Hist Loop} {n : ℕ} → Run f h ae pico cfg s n t → Balanced n s t
  Run-Balanced here = record { by_thread = omega arith; by_conns = omega arith }
  Run-Balanced (next run event) =
      let a = Run-Balanced run in
      let b = Event-Balanced event in
      record {
        by_thread = omega (arith, a.by_thread, b.by_thread);
        by_conns = omega (arith, a.by_conns, b.by_conns);
      }

  -- Threads that have ended, each of them started by `thread_main` with nothing counted: how many
  -- responses their connections have counted, and how many came before the end of the run.
  pub data Ended : List (Thread V Hist Loop) → ℕ → ℕ → Type 0 where
    all_ended : Ended [] 0 0
    ended :
        (now : ℕ) (request : List ℕ) (length : ℕ) (t : Thread V Hist Loop) (s : Fleet V Hist Loop)
        (n : ℕ) (rest : List (Thread V Hist Loop)) (on_conns came : ℕ)
        → t.complete ≡ 0
        → (let (t', cs) = thread_main f ae now cfg request length t in
            Run f h ae pico cfg (record { thread = t'; conns = cs }) n s)
        → Ended rest on_conns came
        → Ended (s.thread ∷ rest) (completed s.conns + on_conns) (n + came)

  Ended-sum :
      {threads : List (Thread V Hist Loop)} {on_conns came : ℕ}
      → Ended threads on_conns came
      → (sum (λ t. t.complete) threads % 2 ^ 64 ≡ came % 2 ^ 64)
        × (on_conns % 2 ^ 64 ≡ came % 2 ^ 64)
  Ended-sum all_ended = (refl, refl)
  Ended-sum (ended now request length t s n rest on_conns came fresh run more) =
      let (a, b) = Ended-sum more in
      let begun = thread_main-complete f ae now cfg request length t in
      let run' = Run-Balanced run in
      (omega (arith, run'.by_thread, begun.0, fresh, a), omega (arith, run'.by_conns, begun.1, b))

  -- `main` reports what happened: for threads that were started with nothing counted, whatever the
  -- callbacks and timers did to their connections and in which order, the number of requests that it
  -- prints is the number of responses that came before the end of the run, and the number that the
  -- connections have counted, modulo 2 ^ 64.
  pub add_threads-Ended :
      (latency u_latency : Hist) (threads : List (Thread V Hist Loop)) (on_conns came : ℕ)
      → Ended threads on_conns came
      → let reported = (add_threads h (no_totals latency u_latency) threads).complete in
        (reported ≡ came % 2 ^ 64) × (reported ≡ on_conns % 2 ^ 64)
  add_threads-Ended latency u_latency threads on_conns came e =
      let (from, bytes, status) = no_totals-zero latency u_latency in
      let added =
        add_threads-sum h (no_totals latency u_latency) threads (omega (arith, from))
          (omega (arith, bytes)) (omega (arith, status)) in
      let (a, b) = Ended-sum e in
      (omega (arith, added.0, from, a), omega (arith, added.0, from, a, b))
