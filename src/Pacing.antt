-- ===== src/Pacing.antt =====
-- `usec_to_next_send` of src/wrk.h: when a connection sends its next request.
pub mod Exact
pub mod Paced
mod Tests
use wrk_quic.Prelude.{
  ℕ, ◌≤◌, ◌≡◌, Bool, true, false, arith, ltb, if◌then◌else◌, sub64, suc, ◌<◌, ◌^◌, ◌%◌, ◌+◌, ◌-◌,
}
use wrk_quic.Platform.{Floating}
use wrk_quic.Connection.{Connection}

-- `base + (count / rate)` in `double`, converted back to `uint64_t`: the time of the request after
-- `count` others.
unfoldable pub start_time : {V : Type 0} → Floating V → ℕ → ℕ → V → ℕ
start_time f base count rate = f.to_u64 (f.add (f.of_u64 base) (f.div (f.of_u64 count) rate))

module _ {V : Type 0} (f : Floating V) where
  -- The schedule of the connection.
  abbrev pub due : Connection V → ℕ → ℕ
  due c count = start_time f c.thread_start count c.throughput

  -- The lines under "We are behind" up to the computation of the second `next_start_time`.
  pub fall_behind : ℕ → Connection V → Connection V
  fall_behind now c =
      if c.caught_up
      then record c {
        caught_up = false;
        catch_up_start_time = now;
        complete_at_catch_up_start = c.complete;
      }
      else c

  pub catch_up_due : Connection V → ℕ
  catch_up_due c =
      start_time f c.catch_up_start_time (sub64 c.complete c.complete_at_catch_up_start)
        c.catch_up_throughput

  -- The time still to wait, 0 for none, with `time_us()` as `now`.
  unfoldable pub usec_to_next_send : ℕ → Connection V → ℕ × Connection V
  unfolding fall_behind catch_up_due
  usec_to_next_send now c =
      if ltb now (due c c.complete)
      then (sub64 (due c c.complete) now, record c { caught_up = true })
      else (let c' = fall_behind now c in
          let next_start_time = catch_up_due c' in
          if ltb now next_start_time then (sub64 next_start_time now, c') else (
            0,
            record c' { latest_should_send_time = now; latest_expected_start = next_start_time },
          ))

  -- It touches neither the schedule nor the accounts of the last batch.
  pub record SameSchedule (c c' : Connection V) : Type 0 where
    pub same_complete : c'.complete ≡ c.complete
    pub same_start : c'.thread_start ≡ c.thread_start
    pub same_throughput : c'.throughput ≡ c.throughput
    pub same_batch : c'.complete_at_last_batch_start ≡ c.complete_at_last_batch_start
    pub same_latency : c'.actual_latency_start ≡ c.actual_latency_start
    pub same_has_pending : c'.has_pending ≡ c.has_pending
    pub same_pending : c'.pending ≡ c.pending

  pub usec_to_next_send-SameSchedule :
      (now : ℕ) (c : Connection V) → SameSchedule c (usec_to_next_send now c).1
  unfolding usec_to_next_send
  usec_to_next_send-SameSchedule now c = ground arith

  pub written-usec_to_next_send :
      (now : ℕ) (c : Connection V) → (usec_to_next_send now c).1.written ≡ c.written
  unfolding usec_to_next_send
  written-usec_to_next_send now c = ground arith

  pub same_address :
      (now : ℕ) (c : Connection V)
      → let c' = (usec_to_next_send now c).1 in (c'.fd ≡ c.fd) × (c'.id ≡ c.id)
  unfolding usec_to_next_send
  same_address now c = (ground arith, ground arith)
