-- ===== src/Startup/Armed.antt =====
-- What `thread_main` of src/wrk.c has set up when it runs the event loop.
use wrk_quic.Prelude.{ℕ, ◌+◌, ◌*◌, ◌≡◌, true, false, some, List, get_elem?}
use wrk_quic.Platform.{Floating}
use wrk_quic.EventLoop.{
  EventLoop, IsEventLoop, Writer, TimeProc, ClientData, delayed_initial_connect, calibrate,
  check_timeouts, of_connection, of_thread,
}
use wrk_quic.Connection.{Connection, Thread}

module _ {Loop : Type 0} (ae : EventLoop Loop) (size : Loop → ℕ) (writer : Loop → ℕ → Writer)
    (timers : Loop → ℕ → TimeProc → ClientData → Type 0)
    (is_loop : IsEventLoop ae size writer timers) where
  module _ {V Hist : Type 0} (f : Floating V) where
    -- The state of a thread with `n` connections.
    pub record IsArmed (n : ℕ) (thread : Thread V Hist Loop) (cs : List (Connection V)) (i : ℕ)
        : Type 0 where
      pub opens : timers thread.loop (5 * i) delayed_initial_connect (of_connection i)
      pub calibrates : timers thread.loop (10000 + 5 * n) calibrate of_thread
      pub checks : timers thread.loop (2000 + 5 * n) check_timeouts of_thread
      pub conn : Connection V
      pub found : get_elem? cs i ≡ some conn
      pub id : conn.id ≡ i
      pub idle : conn.has_pending ≡ false
      pub nothing_pending : conn.pending ≡ 0
      pub nothing_written : conn.written ≡ 0
      pub caught_up : conn.caught_up ≡ true
