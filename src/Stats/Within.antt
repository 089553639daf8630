-- ===== src/Stats/Within.antt =====
-- `stats_within_stdev`: the share of the samples, or of the histogram's count, near the mean.
use wrk_quic.Prelude.{
  ℕ, ◌+◌, ◌≤◌, ◌<◌, ◌^◌, ◌≡◌, ◌&&◌, List, [], ◌∷◌, arith, length, add64, if◌then◌else◌,
}
use wrk_quic.Platform.{Floating, IterState}
use wrk_quic.Stats.{count_within}

-- The samples that lie in the closed interval, counted one by one.
pub inside : {V : Type 0} → Floating V → V → V → List ℕ → ℕ
inside f lower upper [] = 0
inside f lower upper (x ∷ xs) =
    (if f.leb lower (f.of_u64 x) && f.leb (f.of_u64 x) upper then 1 else 0)
    + inside f lower upper xs

-- An array of fewer than 2 ^ 64 samples is counted without wrap.
pub count_within-eq-inside :
    {V : Type 0} (f : Floating V) (lower upper : V) (sum : ℕ) (xs : List ℕ)
    → sum + length xs < 2 ^ 64
    → (count_within f lower upper sum xs ≡ sum + inside f lower upper xs)
      × (inside f lower upper xs ≤ length xs)
unfolding count_within inside
count_within-eq-inside f lower upper sum [] h = omega arith
count_within-eq-inside f lower upper sum (x ∷ xs) h = ground (
  arith,
  count_within-eq-inside f lower upper sum xs (omega arith),
  count_within-eq-inside f lower upper (add64 sum 1) xs (omega arith),
)

-- The counts of an iteration never fall, and end at the total at most.
abbrev pub Cumulative : ℕ → ℕ → List IterState → Type 0
Cumulative count total [] = count ≤ total
Cumulative count total (it ∷ rest) =
    (count ≤ it.count_to_index) × Cumulative it.count_to_index total rest
