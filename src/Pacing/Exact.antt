-- ===== src/Pacing/Exact.antt =====
-- The wait that `usec_to_next_send` returns is exact.
use wrk_quic.Prelude.{ℕ, ◌≤◌, ◌≡◌, ◌↔◌, arith, sub64, ◌<◌, ◌^◌, ◌+◌, ap, ◌∙◌}
use wrk_quic.Platform.{Floating, IsExact}
use wrk_quic.Connection.{Connection}
use wrk_quic.Pacing.{start_time, due, usec_to_next_send}

module _ {V : Type 0} (f : Floating V) (IsPositive : V → Type 0) (laws : IsExact f IsPositive) where
  start_time-lt : (base count : ℕ) (rate : V) → start_time f base count rate < 2 ^ 64
  unfolding start_time
  start_time-lt base count rate = laws.range _

  -- A catch-up phase that begins at `now` allows its first request at `now`.
  pub start_time_fresh :
      (now count : ℕ) (rate : V)
      → IsPositive rate
      → now < 2 ^ 53
      → start_time f now (sub64 count count) rate ≡ now
  unfolding start_time
  start_time_fresh now count rate pos small =
      let none_since : sub64 count count ≡ 0 = omega arith in
      ap (λ n. start_time f now n rate) none_since
      ∙ ap (λ v. f.to_u64 (f.add (f.of_u64 now) v)) (laws.zero_div rate pos)
      ∙ ap f.to_u64 (laws.add_zero (f.of_u64 now))
      ∙ laws.exact now small

  -- No request is sent before its time: the connection may send only when the schedule has come to
  -- the request after the complete ones.
  pub due-le-now :
      (now : ℕ) (c : Connection V)
      → now < 2 ^ 64
      → (usec_to_next_send f now c).0 ≡ 0
      → due f c c.complete ≤ now
  unfolding usec_to_next_send
  due-le-now now c small h = ground (arith, start_time-lt c.thread_start c.complete c.throughput)

  -- The wait reaches the schedule: when it has passed, the request is due.
  pub due-le-wait :
      (now : ℕ) (c : Connection V)
      → now < 2 ^ 64
      → due f c c.complete ≤ now + (usec_to_next_send f now c).0
  unfolding usec_to_next_send
  due-le-wait now c small = ground (arith, start_time-lt c.thread_start c.complete c.throughput)

  -- The wait is exact: with nothing else changed, a later call lets the connection send if and only
  -- if at least the wait has passed. So it is neither sent early nor delayed again.
  pub usec_to_next_send_exact :
      (now later : ℕ) (c : Connection V)
      → IsPositive c.catch_up_throughput
      → now ≤ later
      → later < 2 ^ 53
      → let (wait, c') = usec_to_next_send f now c in
        ((usec_to_next_send f later c').0 ≡ 0) ↔ (now + wait ≤ later)
  unfolding usec_to_next_send
  usec_to_next_send_exact now later c pos le small = (
    λ h. ground (
      arith,
      start_time_fresh now c.complete c.catch_up_throughput pos (omega arith),
      start_time_fresh later c.complete c.catch_up_throughput pos (omega arith),
      start_time-lt c.thread_start c.complete c.throughput,
      start_time-lt c.catch_up_start_time (sub64 c.complete c.complete_at_catch_up_start)
          c.catch_up_throughput,
    ),
    λ h. ground (
      arith,
      start_time_fresh now c.complete c.catch_up_throughput pos (omega arith),
      start_time_fresh later c.complete c.catch_up_throughput pos (omega arith),
      start_time-lt c.thread_start c.complete c.throughput,
      start_time-lt c.catch_up_start_time (sub64 c.complete c.complete_at_catch_up_start)
          c.catch_up_throughput,
    ),
  )
