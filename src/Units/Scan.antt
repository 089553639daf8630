-- ===== src/Units/Scan.antt =====
-- What `scan_units` of src/units.c reads, against the value of a decimal number and the place of a
-- unit in its table.
use wrk_quic.Prelude.{
  ℕ, suc, ◌+◌, ◌*◌, ◌-◌, ◌^◌, ◌%◌, min, ◌≡◌, refl, ap, sym, ◌∙◌, true, false, Option, none, some,
  List, [], ◌∷◌, ◌++◌, arith, if◌then◌else◌, Bool-cases, Option-cases, mod-mul-mod, inl, inr, mul64,
}
use mathlib.Core.Option
use native.Mathlib.Nat.{pow-suc, pow-zero, mul_comm}
use wrk_quic.Units.{
  Units, is_space, is_digit, same_word, scan_digits, scan_word, skip_space, find_scale, scan_u64,
  scan_unsigned, scan_units,
}

-- The number that decimal digits stand for, behind the digits of `n`.
abbrev pub value_from : ℕ → List ℕ → ℕ
value_from n [] = n
value_from n (d ∷ ds) = value_from (n * 10 + (d - b'0')) ds

abbrev pub IsDigits : List ℕ → Type 0
IsDigits [] = Unit
IsDigits (d ∷ ds) = (is_digit d ≡ true) × IsDigits ds

-- A word as it may stand behind a number: one or two bytes, no space, and no digit first.
abbrev pub IsWord : List ℕ → Type 0
IsWord [] = ⊥
IsWord (a ∷ []) = (is_digit a ≡ false) × (is_space a ≡ false)
IsWord (a ∷ b ∷ []) = (is_digit a ≡ false) × (is_space a ≡ false) × (is_space b ≡ false)
IsWord (a ∷ b ∷ c ∷ cs) = ⊥

-- The place of the first unit that is the word, upper and lower case alike.
abbrev pub place_from : List ℕ → List (List ℕ) → Option ℕ
place_from word [] = none
place_from word (u ∷ us) =
    let rest = place_from word us in if same_word 3 word u then some 1 else Option.map suc rest

-- How often the base is scaled for a word: not at all for the base itself.
abbrev pub place : List ℕ → Units → Option ℕ
place word m = if same_word 3 word m.base then some 0 else place_from word m.units

scan_digits-append :
    (n : ℕ) (ds : List ℕ) (a : ℕ) (rest : List ℕ)
    → IsDigits ds
    → is_digit a ≡ false
    → scan_digits n (ds ++ (a ∷ rest)) ≡ (value_from n ds, a ∷ rest)
unfolding scan_digits
scan_digits-append n [] a rest digits stop = ground (arith, stop)
scan_digits-append n (d ∷ ds) a rest digits stop =
    ground (arith, digits.0, scan_digits-append (n * 10 + (d - b'0')) ds a rest digits.1 stop)

-- A product that wraps at each step wraps once.
mul64-pow :
    (scale step k : ℕ) → mul64 scale step * step ^ k % 2 ^ 64 ≡ scale * step ^ suc k % 2 ^ 64
mul64-pow scale step k =
    mod-mul-mod (scale * step) (step ^ k) (2 ^ 64)
    ∙ ap (λ t. t % 2 ^ 64) (grind (arith, pow-suc step k))

find_scale-place :
    (step scale : ℕ) (word : List ℕ) (us : List (List ℕ))
    → find_scale step scale word us
      ≡ Option.map (λ k. scale * step ^ k % 2 ^ 64) (place_from word us)
unfolding find_scale
find_scale-place step scale word [] = refl
find_scale-place step scale word (u ∷ us) = elim (Bool-cases (same_word 3 word u)) [
  | inl e ↦
      rw e (ap some (ap (λ t. scale * t % 2 ^ 64) (grind (arith, pow-suc step 0, pow-zero step))))
  | inr e ↦ elim (Option-cases (place_from word us)) [
    | inl absent ↦ rw (e, find_scale-place step (mul64 scale step) word us, absent) refl
    | inr (k, found) ↦
        rw (e, find_scale-place step (mul64 scale step) word us, found)
          (ap some (mul64-pow scale step k))
  ]
]

skip_space-digit : (d : ℕ) (rest : List ℕ) → is_digit d ≡ true → skip_space (d ∷ rest) ≡ d ∷ rest
unfolding skip_space is_digit is_space
skip_space-digit d rest h = ground arith

scan_u64-digits :
    (d a : ℕ) (ds rest : List ℕ)
    → IsDigits (d ∷ ds)
    → is_digit a ≡ false
    → scan_u64 (d ∷ (ds ++ (a ∷ rest))) ≡ some (min (value_from 0 (d ∷ ds)) (2 ^ 64 - 1), a ∷ rest)
unfolding scan_u64 scan_unsigned is_digit
scan_u64-digits d a ds rest digits stop =
    ground (arith, digits.0, scan_digits-append 0 (d ∷ ds) a rest digits stop)

-- The word is read whole.
scan_word-IsWord : (word : List ℕ) → IsWord word → scan_word 2 (skip_space word) ≡ word
unfolding scan_word skip_space
scan_word-IsWord [] w = absurd w
scan_word-IsWord (a ∷ []) w = ground (arith, w)
scan_word-IsWord (a ∷ b ∷ []) w = ground (arith, w)
scan_word-IsWord (a ∷ b ∷ c ∷ cs) w = absurd w

IsWord-head : (a : ℕ) (rest : List ℕ) → IsWord (a ∷ rest) → is_digit a ≡ false
IsWord-head a [] w = w.0
IsWord-head a (b ∷ []) w = w.0
IsWord-head a (b ∷ c ∷ cs) w = absurd w

mul64_reduced : (n p : ℕ) → mul64 n (1 * p % 2 ^ 64) ≡ n * p % 2 ^ 64
mul64_reduced n p =
    ap (λ t. t % 2 ^ 64) (mul_comm n (1 * p % 2 ^ 64))
    ∙ mod-mul-mod (1 * p) n (2 ^ 64)
    ∙ ap (λ t. t % 2 ^ 64) (grind arith)

scale-place :
    (n : ℕ) (m : Units) (word : List ℕ)
    → (if same_word 3 word m.base
        then some (mul64 n 1)
        else Option.map (mul64 n) (find_scale m.scale 1 word m.units))
      ≡ Option.map (λ k. n * m.scale ^ k % 2 ^ 64) (place word m)
scale-place n m word = elim (Bool-cases (same_word 3 word m.base)) [
  | inl e ↦ rw e (ap some (ap (λ t. n * t % 2 ^ 64) (sym (pow-zero m.scale))))
  | inr e ↦ elim (Option-cases (place_from word m.units)) [
    | inl absent ↦ rw (e, find_scale-place m.scale 1 word m.units, absent) refl
    | inr (k, found) ↦
        rw (e, find_scale-place m.scale 1 word m.units, found)
          (ap some (mul64_reduced n (m.scale ^ k)))
  ]
]

-- An amount is read exactly: digits and a word behind them give the number that the digits stand
-- for, times the power of the table's scale at the place of the word, modulo 2 ^ 64. A number that
-- does not fit 64 bits is the largest one, and a word that is no unit is refused.
pub scan_units-place :
    (m : Units) (d : ℕ) (ds word : List ℕ)
    → IsDigits (d ∷ ds)
    → IsWord word
    → scan_units ((d ∷ ds) ++ word) m
      ≡ Option.map
          (λ k. min (value_from 0 (d ∷ ds)) (2 ^ 64 - 1) * m.scale ^ k % 2 ^ 64)
          (place word m)
unfolding scan_units
scan_units-place m d ds [] digits is_word = absurd is_word
scan_units-place m d ds (a ∷ rest) digits is_word =
    rw
      (
        skip_space-digit d (ds ++ (a ∷ rest)) digits.0,
        scan_u64-digits d a ds rest digits (IsWord-head a rest is_word),
        scan_word-IsWord (a ∷ rest) is_word,
        scan_units,
      )
      (scale-place (min (value_from 0 (d ∷ ds)) (2 ^ 64 - 1)) m (a ∷ rest))
