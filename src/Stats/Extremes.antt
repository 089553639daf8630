-- ===== src/Stats/Extremes.antt =====
-- `min` and `max` of src/stats.c against the extremes of all samples.
use wrk_quic.Prelude.{ℕ, ◌≤◌, min, max, ◌≡◌, List, [], ◌∷◌, ◌++◌, arith}
use wrk_quic.Platform.{Histogram}
use wrk_quic.Stats.{Stats, reset, rewind, record_one, uint64_max}
use wrk_quic.Stats.Ring.{record_all}

-- The extremes of a list, with the values that `stats_reset` starts from.
pub least : List ℕ → ℕ
least [] = uint64_max
least (x ∷ xs) = min x (least xs)

pub greatest : List ℕ → ℕ
greatest [] = 0
greatest (x ∷ xs) = max x (greatest xs)

least-le : (xs : List ℕ) → least xs ≤ uint64_max
unfolding least
least-le [] = omega arith
least-le (x ∷ xs) = omega (arith, least-le xs)

extremes-append :
    (xs ys : List ℕ)
    → (least (xs ++ ys) ≡ min (least xs) (least ys))
      × (greatest (xs ++ ys) ≡ max (greatest xs) (greatest ys))
unfolding least greatest
extremes-append [] ys = omega (arith, least-le ys)
extremes-append (x ∷ xs) ys = omega (arith, extremes-append xs ys)

module _ {V Hist : Type 0} (hist : Histogram V Hist) where
  extremes-record_one :
      (s : Stats Hist) (x : ℕ)
      → ((record_one hist s x).min ≡ min x s.min) × ((record_one hist s x).max ≡ max x s.max)
  unfolding record_one
  extremes-record_one s x = ground arith

  extremes-record_all :
      (xs : List ℕ) (s : Stats Hist)
      → s.min ≤ uint64_max
      → ((record_all hist s xs).min ≡ min s.min (least xs))
        × ((record_all hist s xs).max ≡ max s.max (greatest xs))
  unfolding record_all least greatest
  extremes-record_all [] s h = omega arith
  extremes-record_all (x ∷ xs) s h = omega (
    arith,
    extremes-record_one s x,
    extremes-record_all xs (record_one hist s x) (omega (arith, extremes-record_one s x)),
  )

  -- From a reset on, in both modes, `min` and `max` are the extremes of all the samples that were
  -- recorded: neither the size of the ring nor a `stats_rewind` between them forgets one.
  pub extremes-record_all-rewind :
      (s : Stats Hist) (xs ys : List ℕ)
      → let t = record_all hist (rewind (record_all hist (reset s) xs)) ys in
        (t.min ≡ least (xs ++ ys)) × (t.max ≡ greatest (xs ++ ys))
  unfolding rewind reset
  extremes-record_all-rewind s xs ys = omega (
    arith,
    extremes-append xs ys,
    extremes-record_all xs (reset s) (omega arith),
    extremes-record_all ys (rewind (record_all hist (reset s) xs))
        (omega (arith, extremes-record_all xs (reset s) (omega arith))),
    least-le xs,
  )
