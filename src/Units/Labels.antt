-- ===== src/Units/Labels.antt =====
-- The words of the tables of src/units.c.
use wrk_quic.Prelude.{
  ℕ, ◌≤◌, ◌≡◌, refl, Bool, true, List, [], ◌∷◌, length, arith, Bool-cases, inl, inr, false,
}
use wrk_quic.Platform.{Floating}
use wrk_quic.Units.{Units, is_letter, time_units_us, metric_units, reduce, format_units}

abbrev pub AllLetters : List ℕ → Type 0
AllLetters [] = Unit
AllLetters (c ∷ cs) = (is_letter c ≡ true) × AllLetters cs

-- At most two_letters letters.
pub record IsLabel (unit : List ℕ) : Type 0 where
  pub letters : AllLetters unit
  pub short : length unit ≤ 2

abbrev pub AllLabels : List (List ℕ) → Type 0
AllLabels [] = Unit
AllLabels (u ∷ us) = IsLabel u × AllLabels us

-- Every word of the table is a label.
pub record IsLabelled (m : Units) : Type 0 where
  pub base : IsLabel m.base
  pub units : AllLabels m.units

module _ {V : Type 0} (f : Floating V) where
  reduce-IsLabel :
      (scale limit amt : V) (unit : List ℕ) (us : List (List ℕ))
      → IsLabel unit
      → AllLabels us
      → IsLabel (reduce f scale limit amt unit us).1
  unfolding reduce
  reduce-IsLabel scale limit amt unit [] l ls = l
  reduce-IsLabel scale limit amt unit (u ∷ []) l ls = l
  reduce-IsLabel scale limit amt unit (u ∷ v ∷ rest) l (k, ls) =
      elim (Bool-cases (f.leb limit amt)) [
        | inl more ↦ rw more (reduce-IsLabel scale limit (f.div amt scale) u (v ∷ rest) k ls)
        | inr fits ↦ rw fits l
      ]

  pub format_units-IsLabel :
      (n : V) (m : Units) (raw : Bool) → IsLabelled m → IsLabel (format_units f n m raw).1
  unfolding format_units
  format_units-IsLabel n m true l = l.base
  format_units-IsLabel n m false l = reduce-IsLabel _ _ n m.base m.units l.base l.units

two_letters : (a b : ℕ) → is_letter a ≡ true → is_letter b ≡ true → IsLabel (a ∷ b ∷ [])
two_letters a b l k = record { letters = (l, (k, tt)); short = omega arith }

one_letter : (a : ℕ) → is_letter a ≡ true → IsLabel (a ∷ [])
one_letter a l = record { letters = (l, tt); short = omega arith }

no_letter : IsLabel []
no_letter = record { letters = tt; short = omega arith }

pub time_units_us-IsLabelled : IsLabelled time_units_us
time_units_us-IsLabelled = record {
  base = two_letters _ _ refl refl;
  units = (two_letters _ _ refl refl, (one_letter _ refl, tt));
}

pub metric_units-IsLabelled : IsLabelled metric_units
metric_units-IsLabelled = record {
  base = no_letter;
  units = (
    one_letter _ refl,
    (one_letter _ refl, (one_letter _ refl, (one_letter _ refl, (one_letter _ refl, tt)))),
  );
}
