-- ===== src/Startup/Counting.antt =====
-- Nothing is counted yet when `thread_main` of src/wrk.c runs the event loop.
use wrk_quic.Prelude.{ℕ, zero, suc, ◌≡◌, refl, List, arith}
use wrk_quic.Platform.{Floating}
use wrk_quic.EventLoop.{EventLoop}
use wrk_quic.Counted.{completed}
use wrk_quic.Connection.{Thread, Config}
use wrk_quic.Startup.{new_connection, new_connections, thread_main}

module _ {V : Type 0} (f : Floating V) where
  completed-new_connections :
      (cfg : Config) (throughput : V) (request : List ℕ) (length count i : ℕ)
      → completed (new_connections f cfg throughput request length count i) ≡ 0
  unfolding new_connections new_connection
  completed-new_connections cfg throughput request length zero i = refl
  completed-new_connections cfg throughput request length (suc count) i =
      omega (arith, completed-new_connections cfg throughput request length count (suc i))

module _ {V Hist Loop : Type 0} (f : Floating V) (ae : EventLoop Loop) where
  pub thread_main-complete :
      (now : ℕ) (cfg : Config) (request : List ℕ) (length : ℕ) (t : Thread V Hist Loop)
      → let (t', cs) = thread_main f ae now cfg request length t in
        (t'.complete ≡ t.complete) × (completed cs ≡ 0)
  unfolding thread_main
  thread_main-complete now cfg request length t =
      (refl, completed-new_connections f cfg _ request length t.connections 0)
