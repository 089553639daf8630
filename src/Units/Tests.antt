-- ===== src/Units/Tests.antt =====
-- Arguments with units, and numbers as the reports print them.
use wrk_quic.Prelude.{ℕ, ◌≡◌, ◌*◌, ◌^◌, ◌%◌, ◌-◌, min, refl, some, none, [], ◌∷◌, false}
use mathlib.Core.Option
use wrk_quic.Examples.{fixed, unit}
use wrk_quic.Units.{
  time_units_s, scan_units, is_digit, is_space, scan_metric, scan_time, skip_space, scan_u64,
  scan_unsigned, scan_digits, scan_word, find_scale, same_word, format_units,
}
use wrk_quic.Units.Scan.{place, scan_units-place}
use wrk_quic.Units.Format.{Fits, format_units-Fits}

-- "2K"
two_thousand : scan_metric (b'2' ∷ b'K' ∷ []) ≡ some 2000
unfolding scan_metric scan_units skip_space scan_u64 scan_unsigned scan_digits scan_word find_scale
    same_word
two_thousand = refl

-- " -1" is the largest number.
minus_one : scan_metric (b' ' ∷ b'-' ∷ b'1' ∷ []) ≡ some (2 ^ 64 - 1)
unfolding scan_metric scan_units skip_space scan_u64 scan_unsigned scan_digits scan_word find_scale
    same_word
minus_one = refl

-- "3w"
unknown : scan_time (b'3' ∷ b'w' ∷ []) ≡ none
unfolding scan_time scan_units skip_space scan_u64 scan_unsigned scan_digits scan_word find_scale
    same_word
unknown = refl

-- "12h"
scan_units-place_example :
    scan_units (b'1' ∷ b'2' ∷ b'h' ∷ []) time_units_s
    ≡ Option.map (λ k. min 12 (2 ^ 64 - 1) * 60 ^ k % 2 ^ 64) (place (b'h' ∷ []) time_units_s)
unfolding is_digit is_space
scan_units-place_example =
    scan_units-place time_units_s b'1' (b'2' ∷ []) (b'h' ∷ []) (refl, (refl, tt)) (refl, refl)

-- Two hours, in seconds.
format_units-Fits_example :
    (k : ℕ) × Fits fixed
      (fixed.of_u64 60)
      (fixed.mul (fixed.of_u64 60) (fixed.literal 85 100))
      (7200 * unit)
      (b's' ∷ [])
      ((b'm' ∷ []) ∷ (b'h' ∷ []) ∷ [])
      (format_units fixed (7200 * unit) time_units_s false)
      k
format_units-Fits_example =
    format_units-Fits fixed (7200 * unit) 60 (b's' ∷ []) (b'm' ∷ []) ((b'h' ∷ []) ∷ [])
