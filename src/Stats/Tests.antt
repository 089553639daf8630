-- ===== src/Stats/Tests.antt =====
-- Runs of src/stats.c, and its theorems at concrete samples.
use wrk_quic.Prelude.{
  ℕ, ◌⊎◌, sym, subst, if◌then◌else◌, ◌+◌, ◌*◌, ◌/◌, ◌%◌, ◌^◌, ◌<◌, ◌≤◌, ◌≡◌, refl, true, List, [],
  ◌∷◌, ℤ, pos, ltb_ℤ, arith, some, none, length,
}
use wrk_quic.Stats.{
  Stats, percentile, summarize, rank_of, alloc, reset, rewind, record_one, compare_values,
  uint64_max,
}
use wrk_quic.Stats.Ring.{Holds, record_all, record_all-alloc-Holds}
use wrk_quic.Stats.Extremes.{least, greatest, extremes-record_all-rewind}
use wrk_quic.Stats.Compare.{compare_values_far}
use wrk_quic.Stats.Rand.{rand64, sample, AllFrom, rand64_uniform, sample_total}
use wrk_quic.Stats.Sorted.{AreNear, IsSortOf}
use wrk_quic.Stats.Percentile.{IsAtRank, IsRounded, percentile-summarize, percentile-whole}
use mathlib.Core.List.{Mem, Permᴰ, Pairwise, Pairwise-singleton, forall_mem-cons, not-mem-nil}
use native.Mathlib.Nat.{mul-div_cancel, mul_comm}
use native.Mathlib.Bridge.{le_prop}
use wrk_quic.Platform.{IterState}
use wrk_quic.Examples.{unit, fixed, log}

abbrev five : List ℕ
five = 7 ∷ 3 ∷ 9 ∷ 4 ∷ 5 ∷ []

abbrev three_slots : Stats (List ℤ)
three_slots = record {
  samples = 3;
  index = 2;
  limit = 3;
  min = 3;
  max = 9;
  histogram = none;
  values = 4 ∷ 5 ∷ 9 ∷ [];
}

ring_of_five : record_all log (alloc 3) five ≡ three_slots
unfolding record_all record_one alloc
ring_of_five = refl

record_all-alloc-Holds_example : Holds (record_all log (alloc 3) five) five
record_all-alloc-Holds_example = record_all-alloc-Holds log 3 five (omega arith) (omega arith)

extremes-record_all-rewind_example :
    let t = record_all log (rewind (record_all log (reset three_slots) (8 ∷ 2 ∷ []))) (6 ∷ []) in
    (t.min ≡ least (8 ∷ 2 ∷ 6 ∷ [])) × (t.max ≡ greatest (8 ∷ 2 ∷ 6 ∷ []))
extremes-record_all-rewind_example =
    extremes-record_all-rewind log three_slots (8 ∷ 2 ∷ []) (6 ∷ [])

compare_values_far_example : ltb_ℤ (compare_values (2 ^ 31 + 1) 1) (pos 0) ≡ true
compare_values_far_example =
    compare_values_far (2 ^ 31 + 1) 1 (omega arith) (omega arith) (omega arith)

-- A generator that counts.
abbrev counter : ℕ → ℕ × ℕ
counter s = (s % 8, s + 1)

rand64_uniform_example :
    ((r : ℕ) × (k : ℕ) × (r < 3)
      × (k < uint64_max / 3)
      × (5 ≡ k * 3 + r)
      × (rand64 counter 1 3 5 ≡ some (r, 6)))
    ⊎ ((uint64_max / 3 * 3 ≤ 5) × (rand64 counter 1 3 5 ≡ rand64 counter 0 3 6))
rand64_uniform_example = rand64_uniform counter 0 3 5 (omega arith)

sample_total_example :
    (xs : List ℕ) × (state' : ℕ) × (sample counter log 1 4 (alloc 2) 0 three_slots
      ≡ some (record_all log (alloc 2) xs, state'))
    × (length xs ≡ 4)
    × AllFrom three_slots xs
sample_total_example =
    sample_total counter log 1 4 (alloc 2) 0 three_slots (omega arith) (omega arith)
      (λ s. (0, omega arith, omega arith))

-- Two samples out of order in four slots.
abbrev two_of_four : Stats (List ℤ)
two_of_four = record {
  samples = 4;
  index = 2;
  limit = 2;
  min = 4;
  max = 9;
  histogram = none;
  values = 9 ∷ 4 ∷ 0 ∷ 0 ∷ [];
}

abbrev insert_by : (ℕ → ℕ → ℤ) → ℕ → List ℕ → List ℕ
insert_by cmp x [] = x ∷ []
insert_by cmp x (y ∷ ys) =
    let rest = insert_by cmp x ys in if ltb_ℤ (pos 0) (cmp x y) then y ∷ rest else x ∷ y ∷ ys

abbrev sort_by : (ℕ → ℕ → ℤ) → List ℕ → List ℕ
sort_by cmp [] = []
sort_by cmp (x ∷ xs) = insert_by cmp x (sort_by cmp xs)

all_of_two :
    (P : ℕ → Type 0) → ((x : ℕ) → IsProp (P x)) → P 9 → P 4 → (x : ℕ) → Mem x (9 ∷ 4 ∷ []) → P x
all_of_two P prop a b =
    (forall_mem-cons prop).1 (a, (forall_mem-cons prop).1 (b, λ x m. absurd (not-mem-nil m)))

two_near : AreNear (9 ∷ 4 ∷ [])
two_near = record {
  words = all_of_two (λ x. x < 2 ^ 64) (λ x. le_prop) (omega arith) (omega arith);
  near = λ x y mx my.
      let small = all_of_two (λ x. x ≤ 9) (λ x. le_prop) (omega arith) (omega arith) x mx in
      omega (arith, small);
}

two_sorted : IsSortOf compare_values (9 ∷ 4 ∷ []) (4 ∷ 9 ∷ [])
unfolding compare_values
two_sorted = record {
  permutes = ∣ Permᴰ.swap refl refl ∣₁;
  ascends =
      Pairwise.cons ((forall_mem-cons (λ x. hlevel)).1 (refl, λ x m. absurd (not-mem-nil m)))
        (Pairwise-singleton _ 9);
}

sort_two : sort_by compare_values (9 ∷ 4 ∷ []) ≡ 4 ∷ 9 ∷ []
unfolding compare_values
sort_two = refl

half : rank_of fixed 2 (fixed.of_u64 50) ≡ 2
unfolding rank_of
half = refl

percentile-summarize_example :
    (v : ℕ) × (percentile fixed log (summarize fixed log sort_by two_of_four).1 (fixed.of_u64 50)
      ≡ some v)
    × IsAtRank (rank_of fixed 2 (fixed.of_u64 50)) (9 ∷ 4 ∷ []) v
percentile-summarize_example =
    percentile-summarize fixed log sort_by two_of_four (fixed.of_u64 50) refl (omega arith)
      (omega arith) two_near
      (λ c. subst (IsSortOf compare_values (9 ∷ 4 ∷ [])) (sym sort_two) two_sorted)
      (omega (arith, half)) (omega (arith, half))

div_cancel : (n : ℕ) → 0 < n → n * unit * unit / (n * unit) ≡ unit
div_cancel n p = rw (mul_comm (n * unit) unit) (mul-div_cancel unit (omega arith))

fixed-IsRounded : IsRounded fixed
fixed-IsRounded = record {
  div_same = λ n p h. omega (arith, div_cancel n p);
  one_mul = λ n h. omega arith;
  half_up = λ n h. omega arith;
}

percentile-whole_example :
    percentile fixed log (record_all log (alloc 3) five) (fixed.of_u64 100) ≡ none
unfolding record_all record_one alloc
percentile-whole_example =
    percentile-whole fixed log fixed-IsRounded (record_all log (alloc 3) five) five
      (record_all-alloc-Holds log 3 five (omega arith) (omega arith)) (omega arith)

abbrev buckets : List IterState
buckets =
    record { value_from_index = pos 1; highest_equivalent_value = pos 1; count_to_index = 2 }
    ∷ record { value_from_index = pos 2; highest_equivalent_value = pos 2; count_to_index = 5 }
    ∷ record { value_from_index = pos 3; highest_equivalent_value = pos 3; count_to_index = 6 }
    ∷ []
