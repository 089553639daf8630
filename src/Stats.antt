-- ===== src/Stats.antt =====
-- src/stats.c and src/stats.h: a ring of the latest samples with their extremes, or a histogram.
-- An operation on `stats *` returns the new state. `long double` is the parameter `f`, and the
-- histogram behind `stats->histogram` the parameter `h`.
pub mod Ring
pub mod Extremes
pub mod Compare
pub mod Sorted
pub mod Percentile
pub mod Rand
pub mod Within
mod Tests
use wrk_quic.Prelude.{
  ℕ, ◌-◌, ◌^◌, ◌&&◌, Option, none, some, List, [], ◌∷◌, ◌++◌, ltb, ◌==◌, if◌then◌else◌, get_elem?,
  set, take, drop, replicate, add64, sub64, ℤ, pos_part, sub_ℕ, ltb_ℤ, to_int64, to_int32,
}
use wrk_quic.Platform.{Floating, Histogram, IterState}

-- `errors`, the counters of a thread.
pub record Errors : Type 0 where
  pub connect : ℕ
  pub read : ℕ
  pub write : ℕ
  pub status : ℕ
  pub timeout : ℕ

-- `stats`; `values` is the array `data`.
pub record Stats (Hist : Type 0) : Type 0 where
  pub samples : ℕ
  pub index : ℕ
  pub limit : ℕ
  pub min : ℕ
  pub max : ℕ
  pub histogram : Option Hist
  pub values : List ℕ

abbrev pub uint64_max : ℕ
uint64_max = 2 ^ 64 - 1

-- `zcalloc` fills the array with zeros.
pub alloc : {Hist : Type 0} → ℕ → Stats Hist
alloc samples = record {
  samples = samples;
  index = 0;
  limit = 0;
  min = uint64_max;
  max = 0;
  histogram = none;
  values = replicate samples 0;
}

pub reset : {Hist : Type 0} → Stats Hist → Stats Hist
reset s = record s { limit = 0; index = 0; min = uint64_max; max = 0 }

pub rewind : {Hist : Type 0} → Stats Hist → Stats Hist
rewind s = record s { limit = 0; index = 0 }

-- The first two lines of `stats_record`.
extremes : {Hist : Type 0} → Stats Hist → ℕ → Stats Hist
extremes s x = record s {
  min = if ltb x s.min then x else s.min;
  max = if ltb s.max x then x else s.max;
}

-- The last three lines: `data[index++] = x`, where a write out of the array changes nothing (the
-- ring's invariant rules it out).
push : {Hist : Type 0} → Stats Hist → ℕ → Stats Hist
push s x =
    let index' = add64 s.index 1 in
    record s {
      values = set s.values s.index x;
      limit = if ltb s.limit s.samples then add64 s.limit 1 else s.limit;
      index = if index' == s.samples then 0 else index';
    }

-- `stats_record`
pub record_one : {V Hist : Type 0} → Histogram V Hist → Stats Hist → ℕ → Stats Hist
unfolding extremes push
record_one h s x = elim s.histogram [
  | some hist ↦ record (extremes s x) { histogram = some (h.record_value hist (to_int64 x)) }
  | none ↦ push (extremes s x) x
]

-- `stats_compare`, whose `int` result keeps the low 32 bits of the difference.
pub compare_values : ℕ → ℕ → ℤ
compare_values x y = to_int32 (sub64 x y)

-- `stats_summarize` before it returns the mean; `qsort` is the C library's.
pub sort_values : {Hist : Type 0} → ((ℕ → ℕ → ℤ) → List ℕ → List ℕ) → Stats Hist → Stats Hist
sort_values qsort s = record s {
  values = qsort compare_values (take s.limit s.values) ++ drop s.limit s.values;
}

sum_from : ℕ → List ℕ → ℕ
sum_from sum [] = sum
sum_from sum (x ∷ xs) = sum_from (add64 sum x) xs

pub count_within : {V : Type 0} → Floating V → V → V → ℕ → List ℕ → ℕ
count_within f lower upper sum [] = sum
count_within f lower upper sum (x ∷ xs) =
    let v = f.of_u64 x in
    count_within f lower upper (if f.leb lower v && f.leb v upper then add64 sum 1 else sum) xs

-- The loop of `stats_within_stdev` over the histogram, with `lower_count` and `upper_count`.
pub scan_buckets : ℤ → ℤ → ℕ → ℕ → List IterState → ℕ × ℕ
scan_buckets lower upper total lower_count [] = (lower_count, total)
scan_buckets lower upper total lower_count (it ∷ rest) =
    let lower_count' = if ltb_ℤ it.value_from_index lower then it.count_to_index else lower_count in
    let later = scan_buckets lower upper total lower_count' rest in
    if ltb_ℤ upper it.highest_equivalent_value then (lower_count', it.count_to_index) else later

-- The rank of a percentage among `limit` samples.
pub rank_of : {V : Type 0} → Floating V → ℕ → V → ℕ
rank_of f limit p =
    let scaled = f.mul (f.div p (f.of_u64 100)) (f.of_u64 limit) in
    f.to_u64 (f.round (f.add scaled (f.literal 1 2)))

module _ {V Hist : Type 0} (f : Floating V) (h : Histogram V Hist) where
  pub mean : Stats Hist → V
  unfolding sum_from
  mean s = elim s.histogram [
    | some hist ↦ h.mean hist
    | none ↦
        if s.limit == 0
        then f.of_u64 0
        else f.div (f.of_u64 (sum_from 0 (take s.limit s.values))) (f.of_u64 s.limit)
  ]

  pub summarize : ((ℕ → ℕ → ℤ) → List ℕ → List ℕ) → Stats Hist → V × Stats Hist
  unfolding sort_values mean
  summarize qsort s = let s' = sort_values qsort s in (mean s', s')

  deviations : V → V → List ℕ → V
  deviations m sum [] = sum
  deviations m sum (x ∷ xs) = deviations m (f.add sum (f.square (f.sub (f.of_u64 x) m))) xs

  pub stdev : Stats Hist → V → V
  unfolding deviations
  stdev s m = elim s.histogram [
    | some hist ↦ h.stddev hist
    | none ↦
        if ltb s.limit 2
        then f.of_u64 0
        else f.sqrt
            (f.div (deviations m (f.of_u64 0) (take s.limit s.values)) (f.of_u64 (s.limit - 1)))
  ]

  -- `stats_within_stdev`; a difference of counts is an `int64_t`.
  pub within_stdev : Stats Hist → V → V → ℕ → V
  unfolding scan_buckets count_within
  within_stdev s m sd n =
      let upper = f.add m (f.mul sd (f.of_u64 n)) in
      let lower = f.sub m (f.mul sd (f.of_u64 n)) in
      elim s.histogram [
        | some hist ↦
            let total = h.total_count hist in
            let (lower_count, upper_count) =
              scan_buckets (f.to_int64 lower) (f.to_int64 upper) total 0 (h.iterate hist) in
            if total == 0
            then f.of_u64 0
            else f.div (f.mul (f.of_u64 100) (f.of_int64 (sub_ℕ upper_count lower_count)))
                (f.of_u64 total)
        | none ↦
            let sum = count_within f lower upper 0 (take s.limit s.values) in
            f.mul (f.div (f.of_u64 sum) (f.of_u64 s.limit)) (f.of_u64 100)
      ]

  -- `stats_percentile`; `none` is a read out of the array.
  pub percentile : Stats Hist → V → Option ℕ
  unfolding rank_of
  percentile s p = elim s.histogram [
    | some hist ↦ some (pos_part (h.value_at_percentile hist p))
    | none ↦ get_elem? s.values (sub64 (rank_of f s.limit p) 1)
  ]
