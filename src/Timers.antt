-- ===== src/Timers.antt =====
-- The timers of a thread in src/wrk.c: `delayed_initial_connect`, `calibrate`, `check_timeouts` and
-- `sample_rate`. Each returns the milliseconds until it runs again, or `none` for `AE_NOMORE`; the
-- readings of the clock are arguments. What `calibrate` prints is left out.
pub mod Timeouts
pub mod Answered
pub mod Counting
mod Tests
use wrk_quic.Prelude.{
  ℕ, ◌/◌, Bool, true, false, ◌&&◌, ◌||◌, Option, none, some, List, [], ◌∷◌, ltb, leb, ◌==◌,
  if◌then◌else◌, add32, sub64, mul64,
}
use wrk_quic.Platform.{Floating, Histogram}
use wrk_quic.EventLoop.{EventLoop, sample_rate, of_thread}
use wrk_quic.Stats.{Stats, Errors, record_one}
use wrk_quic.Connection.{Connection, Thread, Config, Ctx}

abbrev pub calibrate_delay_ms : ℕ
calibrate_delay_ms = 10000

abbrev pub timeout_interval_ms : ℕ
timeout_interval_ms = 2000

count_timeout : Errors → Errors
count_timeout e = record e { timeout = add32 e.timeout 1 }

-- The loop of `check_timeouts` over `thread->cs`.
pub count_timeouts : {V : Type 0} → ℕ → List (Connection V) → Errors → Errors
unfolding count_timeout
count_timeouts max_age [] e = e
count_timeouts max_age (c ∷ cs) e =
    count_timeouts max_age cs (if ltb c.start max_age then count_timeout e else e)

module _ {V Hist Loop : Type 0} (ae : EventLoop Loop) where
  -- `check_timeouts`; `stop` is set by the handler of SIGINT.
  pub check_timeouts :
      Config → Bool → ℕ → List (Connection V) → Thread V Hist Loop → Option ℕ × Thread V Hist Loop
  check_timeouts cfg stop now cs thread =
      let max_age = sub64 now (mul64 cfg.timeout 1000) in
      let thread' : Thread V Hist Loop = record thread {
        errors = count_timeouts max_age cs thread.errors;
      } in
      let stopped : Thread V Hist Loop = record thread' { loop = ae.stop thread'.loop } in
      (some timeout_interval_ms, if stop || leb thread.stop_at now then stopped else thread')

  -- `delayed_initial_connect` with `cfg.proto->connect` as the parameter `connect`.
  pub delayed_initial_connect :
      (Ctx V Hist Loop → Ctx V Hist Loop) → ℕ → Ctx V Hist Loop → Option ℕ × Ctx V Hist Loop
  delayed_initial_connect connect now x =
      (none, connect (record x { conn = record (x.conn) { thread_start = now } }))

module _ {V Hist Loop : Type 0} (f : Floating V) (h : Histogram V Hist) (ae : EventLoop Loop) where
  -- `MAX(latency * 2, 10)` for the 90th percentile in milliseconds, converted to an `int`.
  pub sampling_interval : Thread V Hist Loop → ℕ
  sampling_interval thread =
      let p90 = h.value_at_percentile thread.latency_histogram (f.of_u64 90) in
      let twice = f.mul (f.div (f.of_int64 p90) (f.of_u64 1000)) (f.of_u64 2) in
      f.to_u64 (if f.ltb (f.of_u64 10) twice then twice else f.of_u64 10)

  -- `mean == 0`, which no order of the numbers decides for one that is not a number.
  pub is_zero : V → Bool
  is_zero v = f.leb v (f.of_u64 0) && f.leb (f.of_u64 0) v

  pub calibrate : ℕ → Thread V Hist Loop → Option ℕ × Thread V Hist Loop
  calibrate now thread =
      let mean = h.mean thread.latency_histogram in
      let interval = sampling_interval thread in
      if is_zero mean
      then (some calibrate_delay_ms, thread)
      else (let (loop', id) = ae.create_time_event thread.loop interval sample_rate of_thread in
          (
            none,
            record thread {
              mean = f.to_u64 mean;
              latency_histogram = h.reset thread.latency_histogram;
              u_latency_histogram = h.reset thread.u_latency_histogram;
              start = now;
              interval = interval;
              requests = 0;
              loop = loop';
            },
          ))

  -- `sample_rate`, with the readings of the clock at its start and end, and `statistics.requests`.
  pub sample_rate_timer :
      ℕ → ℕ → Thread V Hist Loop → Stats Hist → Option ℕ × Thread V Hist Loop × Stats Hist
  sample_rate_timer now after thread statistics =
      let elapsed_ms = sub64 now thread.start / 1000 in
      let requests =
        f.to_u64 (f.mul (f.div (f.of_u64 thread.requests) (f.of_u64 elapsed_ms)) (f.of_u64 1000)) in
      (
        some thread.interval,
        record thread { requests = 0; start = after },
        record_one h statistics requests,
      )
