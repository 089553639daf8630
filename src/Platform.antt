-- ===== src/Platform.antt =====
-- What src/ calls and does not implement itself, as records of operations that the models take as
-- parameters: C's floating-point arithmetic (`double` and `long double`), and the histogram of
-- src/hdr_histogram.c, which is a copy of the HdrHistogram library.
use wrk_quic.Prelude.{ℕ, ◌≡◌, ◌<◌, ◌^◌, Bool, List, ℤ}

-- One floating-point format with values `V`. `literal n d` is the constant that the source writes
-- for the ratio n / d, such as 0.85; `of_u64`, `to_u64` and `to_int64` are
-- C's conversions, `square` is `powl(_, 2)`.
pub record Floating (V : Type 0) : Type 0 where
  pub of_u64 : ℕ → V
  pub of_int64 : ℤ → V
  pub to_u64 : V → ℕ
  pub to_int64 : V → ℤ
  pub literal : ℕ → ℕ → V
  pub add : V → V → V
  pub sub : V → V → V
  pub mul : V → V → V
  pub div : V → V → V
  pub square : V → V
  pub sqrt : V → V
  pub round : V → V
  pub ltb : V → V → Bool
  pub leb : V → V → Bool

-- What C and IEEE 754 say of whole numbers: a `uint64_t` is below 2 ^ 64, numbers below 2 ^ 53 are represented exactly, and neither
-- adding a zero nor dividing it by a positive number rounds.
pub record IsExact {V : Type 0} (f : Floating V) (IsPositive : V → Type 0) : Type 0 where
  pub range : (x : V) → f.to_u64 x < 2 ^ 64
  pub exact : (n : ℕ) → n < 2 ^ 53 → f.to_u64 (f.of_u64 n) ≡ n
  pub add_zero : (x : V) → f.add x (f.of_u64 0) ≡ x
  pub zero_div : (x : V) → IsPositive x → f.div (f.of_u64 0) x ≡ f.of_u64 0

-- What an iterator over a histogram shows after each successful `hdr_iter_next`.
pub record IterState : Type 0 where
  pub value_from_index : ℤ
  pub highest_equivalent_value : ℤ
  pub count_to_index : ℕ

-- `struct hdr_histogram` and the functions of src/hdr_histogram.h that the program calls.
-- `iterate` lists the states that `hdr_iter_init` and a `hdr_iter_next` loop run through.
pub record Histogram (V Hist : Type 0) : Type 0 where
  pub record_value : Hist → ℤ → Hist
  pub reset : Hist → Hist
  pub add : Hist → Hist → Hist
  pub total_count : Hist → ℕ
  pub mean : Hist → V
  pub stddev : Hist → V
  pub value_at_percentile : Hist → V → ℤ
  pub iterate : Hist → List IterState
