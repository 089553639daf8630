-- ===== src/Units.antt =====
-- src/units.c: amounts with units, read from arguments and printed in reports. Strings are lists of
-- bytes without the final zero; `long double` is the parameter `f`.
pub mod Scan
pub mod Format
pub mod Labels
mod Tests
use wrk_quic.Prelude.{
  ℕ, zero, suc, ◌+◌, ◌*◌, ◌-◌, ◌^◌, ◌%◌, min, Bool, true, false, not, ◌&&◌, ◌||◌, Option, none,
  some, List, [], ◌∷◌, ltb, leb, ◌==◌, if◌then◌else◌, mul64,
}
use wrk_quic.Platform.{Floating}

-- `units`; the list ends where the source's array has NULL.
pub record Units : Type 0 where
  pub scale : ℕ
  pub base : List ℕ
  pub units : List (List ℕ)

abbrev pub time_units_us : Units
time_units_us = record {
  scale = 1000;
  base = b'u' ∷ b's' ∷ [];
  units = (b'm' ∷ b's' ∷ []) ∷ (b's' ∷ []) ∷ [];
}

abbrev pub time_units_s : Units
time_units_s = record { scale = 60; base = b's' ∷ []; units = (b'm' ∷ []) ∷ (b'h' ∷ []) ∷ [] }

abbrev pub binary_units : Units
binary_units = record {
  scale = 1024;
  base = [];
  units = (b'K' ∷ []) ∷ (b'M' ∷ []) ∷ (b'G' ∷ []) ∷ (b'T' ∷ []) ∷ (b'P' ∷ []) ∷ [];
}

abbrev pub metric_units : Units
metric_units = record {
  scale = 1000;
  base = [];
  units = (b'k' ∷ []) ∷ (b'M' ∷ []) ∷ (b'G' ∷ []) ∷ (b'T' ∷ []) ∷ (b'P' ∷ []) ∷ [];
}

-- `isspace`, `isdigit`, `isalpha` and `tolower` of the C library, for bytes in the locale "C".
unfoldable pub is_space : ℕ → Bool
is_space c = c == 32 || leb 9 c && leb c 13

unfoldable pub is_digit : ℕ → Bool
is_digit c = leb b'0' c && leb c b'9'

abbrev pub is_letter : ℕ → Bool
is_letter c = leb b'A' c && leb c b'Z' || leb b'a' c && leb c b'z'

pub to_lower : ℕ → ℕ
to_lower c = if leb b'A' c && leb c b'Z' then c + 32 else c

-- `strncasecmp(a, b, n) == 0`
unfoldable pub same_word : ℕ → List ℕ → List ℕ → Bool
unfolding to_lower
same_word zero a b = true
same_word (suc n) [] [] = true
same_word (suc n) [] (y ∷ ys) = false
same_word (suc n) (x ∷ xs) [] = false
same_word (suc n) (x ∷ xs) (y ∷ ys) =
    let rest = same_word n xs ys in to_lower x == to_lower y && rest

-- What `sscanf` does for the format "%" SCNu64 "%2s": white space is skipped before each part.
unfoldable pub skip_space : List ℕ → List ℕ
unfolding is_space
skip_space [] = []
skip_space (c ∷ cs) = let rest = skip_space cs in if is_space c then rest else c ∷ cs

-- The digits at the front, added to the number before them, and what is left.
unfoldable pub scan_digits : ℕ → List ℕ → ℕ × List ℕ
unfolding is_digit
scan_digits n [] = (n, [])
scan_digits n (c ∷ cs) =
    let rest = scan_digits (n * 10 + (c - b'0')) cs in if is_digit c then rest else (n, c ∷ cs)

-- At least one digit. A number that does not fit becomes the largest one.
unfoldable pub scan_unsigned : List ℕ → Option (ℕ × List ℕ)
unfolding is_digit
scan_unsigned [] = none
scan_unsigned (c ∷ cs) =
    if is_digit c then (let (n, rest) = scan_digits 0 (c ∷ cs) in some (n, rest)) else none

abbrev uint64_max : ℕ
uint64_max = 2 ^ 64 - 1

-- An unsigned conversion of the C library takes a sign, and a minus sign negates modulo 2 ^ 64.
unfoldable pub scan_u64 : List ℕ → Option (ℕ × List ℕ)
scan_u64 [] = none
scan_u64 (c ∷ cs) =
    if c == b'-'
    then elim (scan_unsigned cs) [
      | none ↦ none
      | some (n, rest) ↦ some (if ltb uint64_max n then uint64_max else (2 ^ 64 - n) % 2 ^ 64, rest)
    ]
    else elim (scan_unsigned (if c == b'+' then cs else c ∷ cs)) [
      | none ↦ none
      | some (n, rest) ↦ some (min n uint64_max, rest)
    ]

-- At most `n` bytes up to white space.
unfoldable pub scan_word : ℕ → List ℕ → List ℕ
unfolding is_space
scan_word zero cs = []
scan_word (suc n) [] = []
scan_word (suc n) (c ∷ cs) = let rest = scan_word n cs in if is_space c then [] else c ∷ rest

-- The loop of `scan_units` over the table, from `scale` on. `none` is the NULL at its end.
unfoldable pub find_scale : ℕ → ℕ → List ℕ → List (List ℕ) → Option ℕ
unfolding same_word
find_scale step scale unit [] = none
find_scale step scale unit (u ∷ us) =
    let scale' = mul64 scale step in
    let rest = find_scale step scale' unit us in if same_word 3 unit u then some scale' else rest

-- `scan_units`; `none` is the result -1.
unfoldable pub scan_units : List ℕ → Units → Option ℕ
scan_units s m = elim (scan_u64 (skip_space s)) [
  | none ↦ none
  | some (base, rest) ↦ elim (scan_word 2 (skip_space rest)) [
    | [] ↦ some (mul64 base 1)
    | c ∷ cs ↦
        if same_word 3 (c ∷ cs) m.base
        then some (mul64 base 1)
        else elim (find_scale m.scale 1 (c ∷ cs) m.units) [
          | none ↦ none
          | some scale ↦ some (mul64 base scale)
        ]
  ]
]

unfoldable pub scan_metric : List ℕ → Option ℕ
unfolding scan_units
scan_metric s = scan_units s metric_units

unfoldable pub scan_time : List ℕ → Option ℕ
unfolding scan_units
scan_time s = scan_units s time_units_s

module _ {V : Type 0} (f : Floating V) where
  -- The loop of `format_units`, with the number and the unit to print.
  unfoldable pub reduce : V → V → V → List ℕ → List (List ℕ) → V × List ℕ
  reduce scale limit amt unit [] = (amt, unit)
  reduce scale limit amt unit (u ∷ []) = (amt, unit)
  reduce scale limit amt unit (u ∷ v ∷ rest) =
      let more = reduce scale limit (f.div amt scale) u (v ∷ rest) in
      if f.leb limit amt then more else (amt, unit)

  -- `format_units` before it prints the number with `p` decimal places and the unit.
  unfoldable pub format_units : V → Units → Bool → V × List ℕ
  unfolding reduce
  format_units n m raw =
      let scale = f.of_u64 m.scale in
      if raw then (n, m.base) else reduce scale (f.mul scale (f.literal 85 100)) n m.base m.units

  pub format_binary : V → Bool → V × List ℕ
  unfolding format_units
  format_binary n raw = format_units n binary_units raw

  pub format_metric : V → Bool → V × List ℕ
  unfolding format_units
  format_metric n raw = format_units n metric_units raw

  pub format_time_us : V → Bool → V × List ℕ
  unfolding format_units
  format_time_us n raw =
      let million = f.literal 1000000 1 in
      if not (raw) && f.leb million n
      then format_units (f.div n million) time_units_s raw
      else format_units n time_units_us raw

  pub format_time_s : V → Bool → V × List ℕ
  unfolding format_units
  format_time_s n raw = format_units n time_units_s raw
