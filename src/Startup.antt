-- ===== src/Startup.antt =====
-- How src/wrk.c starts: what `main` gives to each thread, and what `thread_main` sets up before it
-- runs the event loop. The event loop and the histograms that the libraries create, and the request
-- that the script makes, are arguments. TLS, QUIC and Lua are left out.
pub mod Shares
pub mod Armed
pub mod Counting
mod Tests
use wrk_quic.Prelude.{ℕ, zero, suc, ◌/◌, true, false, List, [], ◌∷◌, add64, mul64}
use wrk_quic.Platform.{Floating}
use wrk_quic.EventLoop.{
  EventLoop, delayed_initial_connect, calibrate, check_timeouts, of_connection, of_thread,
}
use wrk_quic.Stats.{Errors}
use wrk_quic.Connection.{Buffer, field, Connection, Thread, Config}
use wrk_quic.Timers.{calibrate_delay_ms, timeout_interval_ms}

-- What `zcalloc` leaves in the buffers and the counters.
abbrev pub no_buffer : Buffer
no_buffer = record { bytes = []; length = 0; cursor = 0 }

abbrev pub no_errors : Errors
no_errors = record { connect = 0; read = 0; write = 0; status = 0; timeout = 0 }

-- `connections` of `main`: the connections of each thread.
unfoldable pub share : Config → ℕ
share cfg = cfg.connections / cfg.threads

module _ {Loop : Type 0} (ae : EventLoop Loop) where
  -- The timers of `count` connections from the place `i` on, which are opened 5 milliseconds apart.
  unfoldable pub stagger : ℕ → ℕ → Loop → Loop
  stagger zero i loop = loop
  stagger (suc count) i loop =
      stagger count (suc i)
        (ae.create_time_event loop (mul64 i 5) delayed_initial_connect (of_connection i)).0

module _ {V : Type 0} (f : Floating V) where
  -- One round of the loop of `thread_main` over its connections.
  unfoldable pub new_connection : Config → V → List ℕ → ℕ → ℕ → Connection V
  new_connection cfg throughput request length i = record {
    id = i;
    state = field;
    fd = 0;
    bind = cfg.bind;
    throughput = throughput;
    catch_up_throughput = f.mul throughput (f.of_u64 2);
    complete = 0;
    complete_at_last_batch_start = 0;
    catch_up_start_time = 0;
    complete_at_catch_up_start = 0;
    thread_start = 0;
    start = 0;
    request = request;
    length = length;
    written = 0;
    pending = 0;
    headers = no_buffer;
    body = no_buffer;
    actual_latency_start = 0;
    has_pending = false;
    caught_up = true;
    latest_should_send_time = 0;
    latest_expected_start = 0;
    latest_connect = 0;
    latest_write = 0;
  }

  -- `count` connections from the place `i` on.
  unfoldable pub new_connections : Config → V → List ℕ → ℕ → ℕ → ℕ → List (Connection V)
  unfolding new_connection
  new_connections cfg throughput request length zero i = []
  new_connections cfg throughput request length (suc count) i =
      new_connection cfg throughput request length i
      ∷ new_connections cfg throughput request length count (suc i)

module _ {V Hist Loop : Type 0} (f : Floating V) where
  -- A thread as `main` starts it, at the time `now`.
  unfoldable pub new_thread : ℕ → Config → Loop → Hist → Hist → Thread V Hist Loop
  unfolding share
  new_thread now cfg loop latency u_latency = record {
    loop = loop;
    connections = share cfg;
    interval = 0;
    stop_at = add64 now (mul64 cfg.duration 1000000);
    complete = 0;
    requests = 0;
    bytes = 0;
    start = 0;
    throughput = f.div (f.of_u64 cfg.rate) (f.of_u64 cfg.threads);
    mean = 0;
    latency_histogram = latency;
    u_latency_histogram = u_latency;
    errors = no_errors;
  }

module _ {V Hist Loop : Type 0} (f : Floating V) (ae : EventLoop Loop) where
  -- `thread_main` up to `aeMain`, which it calls at the time `now`. Without a request that is made
  -- once, `request` and `length` are what the variables hold.
  unfoldable pub thread_main :
      ℕ → Config → List ℕ → ℕ → Thread V Hist Loop → Thread V Hist Loop × List (Connection V)
  thread_main now cfg request length thread =
      let n = thread.connections in
      let throughput = f.div (f.div thread.throughput (f.of_u64 1000000)) (f.of_u64 n) in
      let loop' = stagger ae n 0 thread.loop in
      let (loop'', calibrating) =
        ae.create_time_event loop' (add64 calibrate_delay_ms (mul64 n 5)) calibrate of_thread in
      let (loop''', checking) =
        ae.create_time_event loop'' (add64 timeout_interval_ms (mul64 n 5)) check_timeouts
          of_thread in
      (
        record thread { loop = loop'''; start = now },
        new_connections f cfg throughput request length n 0,
      )
