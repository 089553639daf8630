-- ===== src/Stats/Compare.antt =====
-- `stats_compare`, the order by which `stats_summarize` sorts.
use wrk_quic.Prelude.{ℕ, ◌+◌, ◌^◌, ◌<◌, ◌≤◌, ◌≡◌, arith, ltb, pos, ltb_ℤ, true}
use wrk_quic.Stats.{compare_values}

-- For two samples less than 2 ^ 31 apart the result has the sign of their difference, which is what
-- `qsort` asks of it.
pub compare_values_near :
    (x y : ℕ)
    → x < 2 ^ 64
    → y < 2 ^ 64
    → x < y + 2 ^ 31
    → y < x + 2 ^ 31
    → (ltb_ℤ (compare_values x y) (pos 0) ≡ ltb x y)
      × (ltb_ℤ (pos 0) (compare_values x y) ≡ ltb y x)
unfolding compare_values
compare_values_near x y hx hy h k = ground arith

-- Samples 2 ^ 31 or more apart, up to 2 ^ 32, compare the wrong way round.
pub compare_values_far :
    (x y : ℕ)
    → x < 2 ^ 64
    → y + 2 ^ 31 ≤ x
    → x < y + 2 ^ 32
    → ltb_ℤ (compare_values x y) (pos 0) ≡ true
unfolding compare_values
compare_values_far x y hx h k = ground arith
