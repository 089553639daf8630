-- ===== src/Print.antt =====
-- How src/wrk.c prints numbers: src/aprintf.c, the texts of src/units.c, `print_units`, the head of the
-- table and the lines before a run. The conversions of numbers are the C library's.
pub mod Aligned
pub mod Ending
pub mod Latencies
mod Tests
use wrk_quic.Prelude.{
  ℕ, zero, suc, ◌+◌, ◌-◌, Bool, false, Option, none, some, List, [], ◌∷◌, ◌++◌, ◌==◌, if◌then◌else◌,
  get_elem?, take, length, replicate, ℤ, pos, negsuc, sub_ℕ,
}
use wrk_quic.Platform.{Floating}
use wrk_quic.Lua.{bytes}
use wrk_quic.Stats.{Stats, alloc}
use wrk_quic.Connection.{Config}
use wrk_quic.Units.{is_letter, format_binary, format_metric, format_time_us, format_time_s}

-- The conversions "%.*Lf", "%"PRIu64 and "%d".
pub record Conversions (V : Type 0) : Type 0 where
  pub fixed_point : ℕ → V → List ℕ
  pub unsigned : ℕ → List ℕ
  pub signed : ℤ → List ℕ

abbrev pub space : ℕ
space = 32

abbrev pub pad_left : ℕ → List ℕ → List ℕ
pad_left width s = replicate (width - length s) space ++ s

abbrev pub pad_right : ℕ → List ℕ → List ℕ
pad_right width s = s ++ replicate (width - length s) space

-- "%*.*s" with the width as both numbers: a negative width pads on the right, and a negative precision
-- is none.
abbrev pub field_of : ℤ → List ℕ → List ℕ
field_of (pos width) s = pad_left width (take width s)
field_of (negsuc n) s = pad_right (suc n) s

-- `width -= pad`
abbrev pub narrower : ℤ → ℕ → ℤ
narrower (pos n) m = sub_ℕ n m
narrower (negsuc n) m = negsuc (n + m)

-- `isalpha(msg[len-k])`; a text that is printed has more than two bytes.
abbrev pub letter_from_end : ℕ → List ℕ → Bool
letter_from_end k msg = elim (get_elem? msg (length msg - k)) [
  | none ↦ false
  | some c ↦ is_letter c
]

-- The columns that `print_units` leaves free for a unit that is shorter than two letters.
unfoldable pub padding : List ℕ → ℕ
padding msg =
    2 - (if letter_from_end 1 msg then 1 else 0) - (if letter_from_end 2 msg then 1 else 0)

-- `print_units`, where `msg` is the text that the parameter `fmt` makes.
unfoldable pub print_units : Bool → List ℕ → ℤ → List ℕ
unfolding padding
print_units raw msg width =
    let pad = padding msg in
    if raw
    then space ∷ msg ++ (space ∷ [])
    else field_of (narrower width pad) msg ++ replicate pad space

-- `print_stats_header`
pub print_stats_header : Bool → List ℕ
print_stats_header raw =
    if raw
    then bytes "  Thread Stats;Avg;Stdev;Max;+/- Stdev\n"
    else bytes "  Thread Stats"
      ++ pad_left 6 (bytes "Avg")
      ++ pad_left 11 (bytes "Stdev")
      ++ pad_left 8 (bytes "Max")
      ++ pad_left 12 (bytes "+/- Stdev")
      ++ bytes "\n"

-- The text before the first zero of a block.
unfoldable pub text_of : List ℕ → List ℕ
text_of [] = []
text_of (c ∷ cs) = let rest = text_of cs in if c == 0 then [] else c ∷ rest

-- `aprintf` for the text that the format gives: the block afterwards, and where the text begins in it.
-- `got` is whether `realloc` succeeds.
unfoldable pub aprintf : Bool → Option (List ℕ) → List ℕ → Option (List ℕ) × Option ℕ
aprintf got s text =
    let old : List ℕ = elim s [ none ↦ [] | some block ↦ text_of block ] in
    if got then (some (old ++ text ++ (0 ∷ [])), some (length old)) else (none, none)

module _ {V : Type 0} (f : Floating V) (c : Conversions V) where
  -- The text of `format_units`, with `p` decimal places.
  pub with_unit : ℕ → V × List ℕ → List ℕ
  with_unit p (amt, unit) = c.fixed_point p amt ++ unit

  pub metric_text : V → Bool → List ℕ
  unfolding with_unit
  metric_text n raw = with_unit 2 (format_metric f n raw)

  pub binary_text : V → Bool → List ℕ
  unfolding with_unit
  binary_text n raw = with_unit 2 (format_binary f n raw)

  pub time_us_text : V → Bool → List ℕ
  unfolding with_unit
  time_us_text n raw = with_unit 2 (format_time_us f n raw)

  pub time_s_text : V → Bool → List ℕ
  unfolding with_unit
  time_s_text n raw = with_unit 0 (format_time_s f n raw)

  -- The two lines of `main` before the run, without the texts that follow.
  pub print_start : Config → List ℕ → List ℕ
  unfolding time_s_text
  print_start cfg url =
      bytes "Running "
      ++ time_s_text (f.of_u64 cfg.duration) cfg.raw
      ++ bytes " test @ "
      ++ url
      ++ bytes "\n  "
      ++ c.unsigned cfg.threads
      ++ bytes " threads and "
      ++ c.unsigned cfg.connections
      ++ bytes " connections\n"
