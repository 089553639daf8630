-- ===== src/Print/Aligned.antt =====
-- The columns of the tables that src/wrk.c prints.
use wrk_quic.Prelude.{
  ℕ, zero, suc, ◌+◌, ◌-◌, ◌≤◌, ◌≡◌, refl, ap, ap₂, sym, ◌∙◌, arith, Bool, false, some, List, [],
  ◌∷◌, ◌++◌, get_elem?, take, length, length-append, replicate, append_assoc, pos, if◌then◌else◌,
}
use wrk_quic.Platform.{Floating}
use wrk_quic.Units.{Units, is_letter, format_units}
use wrk_quic.Units.Labels.{AllLetters, IsLabelled, format_units-IsLabel}
use wrk_quic.Print.{
  Conversions, with_unit, space, field_of, narrower, letter_from_end, padding, print_units,
}

get_elem?-middle :
    (xs : List ℕ) (y : ℕ) (ys : List ℕ) → get_elem? (xs ++ (y ∷ ys)) (length xs) ≡ some y
get_elem?-middle [] y ys = refl
get_elem?-middle (x ∷ xs) y ys = get_elem?-middle xs y ys

-- The byte with `length ys` bytes behind it.
letter_from_end-middle :
    (xs : List ℕ) (y : ℕ) (ys : List ℕ)
    → letter_from_end (length ys + 1) (xs ++ (y ∷ ys)) ≡ is_letter y
letter_from_end-middle xs y ys =
    let place : length (xs ++ (y ∷ ys)) - (length ys + 1) ≡ length xs =
      omega (arith, length-append xs (y ∷ ys)) in
    let found : get_elem? (xs ++ (y ∷ ys)) (length (xs ++ (y ∷ ys)) - (length ys + 1)) ≡ some y =
      ap (get_elem? (xs ++ (y ∷ ys))) place ∙ get_elem?-middle xs y ys in
    rw (found, letter_from_end) refl

take-all : (n : ℕ) (s : List ℕ) → length s ≤ n → take n s ≡ s
take-all zero [] h = refl
take-all (suc n) [] h = refl
take-all zero (c ∷ s) h = elim h [ ]
take-all (suc n) (c ∷ s) h = ap (c ∷◌) (take-all n s (omega arith))

two_of :
    {p q v w : Bool}
    → p ≡ v
    → q ≡ w
    → 2 - (if q then 1 else 0) - (if p then 1 else 0)
      ≡ 2 - (if w then 1 else 0) - (if v then 1 else 0)
two_of e e' = ap₂ (λ p q. 2 - (if q then 1 else 0) - (if p then 1 else 0)) e e'

padding-last :
    (front : List ℕ) (y z : ℕ)
    → padding (front ++ (y ∷ z ∷ []))
      ≡ 2 - (if is_letter z then 1 else 0) - (if is_letter y then 1 else 0)
unfolding padding
padding-last front y z =
    let msg = front ++ (y ∷ z ∷ []) in
    let last : letter_from_end 1 msg ≡ is_letter z =
      ap (letter_from_end 1) (sym (append_assoc front (y ∷ []) (z ∷ [])))
      ∙ letter_from_end-middle (front ++ (y ∷ [])) z [] in
    ap (λ l. 2 - (if l then 1 else 0) - (if letter_from_end 2 msg then 1 else 0)) last
    ∙ ap (λ l. 2 - (if is_letter z then 1 else 0) - (if l then 1 else 0))
        (letter_from_end-middle front y (z ∷ []))

-- A unit of at most two letters behind a number whose last two bytes are no letters leaves as many
-- columns as it is shorter than two.
padding-unit :
    (front : List ℕ) (a b : ℕ) (unit : List ℕ)
    → is_letter a ≡ false
    → is_letter b ≡ false
    → AllLetters unit
    → length unit ≤ 2
    → padding (front ++ (a ∷ b ∷ unit)) ≡ 2 - length unit
padding-unit front a b [] na nb l short = padding-last front a b ∙ two_of na nb
padding-unit front a b (u ∷ []) na nb (l, _) short =
    ap padding (sym (append_assoc front (a ∷ []) (b ∷ u ∷ [])))
    ∙ padding-last (front ++ (a ∷ [])) b u
    ∙ two_of nb l
padding-unit front a b (u ∷ v ∷ []) na nb (l, (m, _)) short =
    ap padding (sym (append_assoc front (a ∷ b ∷ []) (u ∷ v ∷ [])))
    ∙ padding-last (front ++ (a ∷ b ∷ [])) u v
    ∙ two_of l m
padding-unit front a b (u ∷ v ∷ w ∷ more) na nb l short = absurd (omega (arith, short))

-- Unless the output is raw, a number whose last two bytes are no letters, with a unit of at most two
-- letters behind it, is printed so that it ends two columns before the end of a field with room for it.
print_units-aligned :
    (front : List ℕ) (a b : ℕ) (unit : List ℕ) (width : ℕ)
    → is_letter a ≡ false
    → is_letter b ≡ false
    → AllLetters unit
    → length unit ≤ 2
    → length (front ++ (a ∷ b ∷ [])) + 2 ≤ width
    → let number = front ++ (a ∷ b ∷ []) in
      print_units false (number ++ unit) (pos width)
      ≡ replicate (width - 2 - length number) space
        ++ number
        ++ unit
        ++ replicate (2 - length unit) space
unfolding print_units
print_units-aligned front a b unit width na nb l short fits =
    let number = front ++ (a ∷ b ∷ []) in
    let msg = number ++ unit in
    let pad : padding msg ≡ 2 - length unit =
      ap padding (append_assoc front (a ∷ b ∷ []) unit)
      ∙ padding-unit front a b unit na nb l short in
    let size : length msg ≡ length number + length unit = length-append number unit in
    let narrow : narrower (pos width) (2 - length unit) ≡ pos (width - (2 - length unit)) =
      ground (arith, short, fits) in
    let columns : width - (2 - length unit) - length msg ≡ width - 2 - length number =
      omega (arith, size, short, fits) in
    ap (λ k. field_of (narrower (pos width) k) msg ++ replicate k space) pad
    ∙ ap (λ w. field_of w msg ++ replicate (2 - length unit) space) narrow
    ∙ ap
        (λ s.
          (replicate (width - (2 - length unit) - length s) space ++ s)
          ++ replicate (2 - length unit) space)
        (take-all (width - (2 - length unit)) msg (omega (arith, size, short, fits)))
    ∙ ap (λ k. (replicate k space ++ msg) ++ replicate (2 - length unit) space) columns
    ∙ ap (λ s. s ++ replicate (2 - length unit) space)
        (sym (append_assoc (replicate (width - 2 - length number) space) number unit))

-- The numbers of a table end in the same column: unless the output is raw, for a table of units of at
-- most two letters each, and a number that the C library prints with two digits at its end and that
-- leaves two columns free, `print_units` fills the field exactly, with the number to the left of its
-- last two columns and the unit in these.
pub print_units-format :
    {V : Type 0} (f : Floating V) (c : Conversions V) (m : Units) (n : V) (width : ℕ)
    (front : List ℕ) (a b : ℕ)
    → IsLabelled m
    → is_letter a ≡ false
    → is_letter b ≡ false
    → c.fixed_point 2 (format_units f n m false).0 ≡ front ++ (a ∷ b ∷ [])
    → length (c.fixed_point 2 (format_units f n m false).0) + 2 ≤ width
    → let (amt, unit) = format_units f n m false in
      let number = c.fixed_point 2 amt in
      print_units false (with_unit f c 2 (amt, unit)) (pos width)
      ≡ replicate (width - 2 - length number) space
        ++ number
        ++ unit
        ++ replicate (2 - length unit) space
unfolding with_unit
print_units-format f c m n width front a b labelled na nb ends fits =
    let label = format_units-IsLabel f n m false labelled in
    let unit = (format_units f n m false).1 in
    rw ends (
      print_units-aligned front a b unit width na nb label.letters label.short
        (omega (arith, fits, ap length ends)))
