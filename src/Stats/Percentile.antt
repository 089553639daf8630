-- ===== src/Stats/Percentile.antt =====
-- `stats_percentile` of src/stats.c behind `stats_summarize`, without a histogram.
use wrk_quic.Prelude.{
  ℕ, ◌+◌, ◌-◌, ◌^◌, ◌<◌, ◌≤◌, ◌≡◌, refl, arith, some, none, List, ◌++◌, leb, sub64, ℤ, take, drop,
  length, get_elem?, get_elem?-some, get_elem?-none, if◌then◌else◌, ltb, subst, length-take,
  get_elem?-append_left, ◌∙◌, ap,
}
use mathlib.Core.List.{Mem, Perm, Pairwise}
use mathlib.Core.List.Perm
use native.Mathlib.Decide.{dec_lt}
use wrk_quic.Platform.{Floating, Histogram}
use wrk_quic.Stats.{Stats, compare_values, sort_values, summarize, percentile, rank_of}
use wrk_quic.Stats.Ring.{Holds}
use native.Mathlib.Nat.{mod-eq_of_lt}
use wrk_quic.Stats.Sorted.{
  IsConsistent, IsSortOf, AreNear, compare_values-IsConsistent, sorted_ascending, count_if,
  count_if-perm, length-Perm, get_elem?-Mem, count_if-below, count_if-above,
}

-- The value is one of the elements; at least `rank` of them are not above it, and at most `rank - 1` are
-- below it.
pub record IsAtRank (rank : ℕ) (xs : List ℕ) (v : ℕ) : Type 0 where
  pub element : Mem v xs
  pub reached : rank ≤ count_if (λ x. leb x v) xs
  pub others : length xs < count_if (λ x. leb v x) xs + rank

-- In an ascending permutation, the element at a place has the rank that counts from 1.
IsAtRank-of_place :
    (xs ys : List ℕ) (i v : ℕ)
    → Perm ys xs
    → Pairwise ◌≤◌ ys
    → get_elem? ys i ≡ some v
    → IsAtRank (i + 1) xs v
IsAtRank-of_place xs ys i v p asc e = record {
  element = (Perm.mem_iff p).0 (get_elem?-Mem ys i v e);
  reached = omega (arith, count_if-below ys i v asc e, count_if-perm (λ x. leb x v) p);
  others =
      omega (arith, count_if-above ys i v asc e, count_if-perm (λ x. leb v x) p, length-Perm p);
}

module _ {V Hist : Type 0} (f : Floating V) (h : Histogram V Hist) where
  percentile-plain :
      (s : Stats Hist) (p : V)
      → s.histogram ≡ none
      → percentile f h s p ≡ get_elem? s.values (sub64 (rank_of f s.limit p) 1)
  unfolding percentile
  percentile-plain s p plain = rw plain refl

  -- For samples less than 2 ^ 31 apart and a rank among them, `stats_percentile` behind
  -- `stats_summarize` returns a sample of this rank.
  pub percentile-summarize :
      (qsort : (ℕ → ℕ → ℤ) → List ℕ → List ℕ) (s : Stats Hist) (p : V)
      → s.histogram ≡ none
      → s.limit < 2 ^ 64
      → s.limit ≤ length s.values
      → AreNear (take s.limit s.values)
      → (let xs = take s.limit s.values in
          IsConsistent compare_values xs → IsSortOf compare_values xs (qsort compare_values xs))
      → 1 ≤ rank_of f s.limit p
      → rank_of f s.limit p ≤ s.limit
      → (v : ℕ) × (percentile f h (summarize f h qsort s).1 p ≡ some v)
        × IsAtRank (rank_of f s.limit p) (take s.limit s.values) v
  unfolding summarize sort_values
  percentile-summarize qsort s p plain small fits near sorts low high =
      let xs = take s.limit s.values in
      let ys = qsort compare_values xs in
      let sorted = sorts (compare_values-IsConsistent xs near) in
      let size : length ys ≡ s.limit =
        length-Perm sorted.permutes ∙ omega (arith, length-take s.limit s.values, fits) in
      let i = rank_of f s.limit p - 1 in
      let (v, e) = get_elem?-some ys i (omega (arith, size, low, high)) in
      let at = IsAtRank-of_place xs ys i v sorted.permutes (sorted_ascending xs near ys sorted) e in
      let same : i + 1 ≡ rank_of f s.limit p = omega (arith, low) in
      let place : sub64 (rank_of f s.limit p) 1 ≡ i = ground (arith, low, high, small) in
      (
        v,
        percentile-plain (sort_values qsort s) p plain
            ∙ ap (get_elem? (ys ++ drop s.limit s.values)) place
            ∙ get_elem?-append_left ys _ i (omega (arith, size, low, high))
            ∙ e,
        subst (λ n. IsAtRank n xs v) same at,
      )

-- What C and IEEE 754 say of whole numbers below 2 ^ 52: a positive one divided by itself is 1, a
-- factor of 1 does not round, and a half above them is rounded up.
pub record IsRounded {V : Type 0} (f : Floating V) : Type 0 where
  pub div_same : (n : ℕ) → 0 < n → n < 2 ^ 52 → f.div (f.of_u64 n) (f.of_u64 n) ≡ f.of_u64 1
  pub one_mul : (n : ℕ) → n < 2 ^ 52 → f.mul (f.of_u64 1) (f.of_u64 n) ≡ f.of_u64 n
  pub half_up :
      (n : ℕ) → n < 2 ^ 52 → f.to_u64 (f.round (f.add (f.of_u64 n) (f.literal 1 2))) ≡ n + 1

module _ {V Hist : Type 0} (f : Floating V) (h : Histogram V Hist) (r : IsRounded f) where
  rank_of-whole : (limit : ℕ) → limit < 2 ^ 52 → rank_of f limit (f.of_u64 100) ≡ limit + 1
  unfolding rank_of
  rank_of-whole limit small =
      ap (λ x. f.to_u64 (f.round (f.add (f.mul x (f.of_u64 limit)) (f.literal 1 2))))
        (r.div_same 100 (omega arith) (omega arith))
      ∙ ap (λ x. f.to_u64 (f.round (f.add x (f.literal 1 2)))) (r.one_mul limit small)
      ∙ r.half_up limit small

  -- After the samples `xs`, the percentile of 100 is read from the slot that is written next, and out
  -- of the array once all slots are in use.
  pub percentile-whole :
      (s : Stats Hist) (xs : List ℕ)
      → Holds s xs
      → s.samples < 2 ^ 52
      → percentile f h s (f.of_u64 100)
        ≡ (if ltb (length xs) s.samples then get_elem? s.values s.index else none)
  percentile-whole s xs held small =
      let limited : s.limit < 2 ^ 52 = omega (arith, held.filled, small) in
      let place : sub64 (rank_of f s.limit (f.of_u64 100)) 1 ≡ s.limit =
        ground (arith, rank_of-whole s.limit limited) in
      percentile-plain f h s (f.of_u64 100) held.plain
      ∙ ap (get_elem? s.values) place
      ∙ elim (dec_lt (length xs) s.samples) [
        | yes lt ↦
            let next : s.limit ≡ s.index =
              omega (arith, lt, held.filled, held.next, mod-eq_of_lt lt) in
            ap (get_elem? s.values) next ∙ ground (arith, lt)
        | no ge ↦
            get_elem?-none s.values s.limit (omega (arith, ge, held.filled, held.size))
            ∙ ground (arith, ge)
      ]
