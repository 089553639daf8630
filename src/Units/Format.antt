-- ===== src/Units/Format.antt =====
-- Which unit `format_units` of src/units.c prints a number in.
use wrk_quic.Prelude.{
  ℕ, zero, suc, ◌<◌, ◌≡◌, ◌⊎◌, inl, inr, refl, true, false, some, List, [], ◌∷◌, arith, length,
  get_elem?, Bool-cases,
}
use wrk_quic.Platform.{Floating}
use wrk_quic.Units.{Units, reduce, format_units}

module _ {V : Type 0} (f : Floating V) (scale limit : V) where
  -- The number in the unit `k` places up the table.
  abbrev pub divided : ℕ → V → V
  divided zero n = n
  divided (suc k) n = divided k (f.div n scale)

  -- In each of `k` units the number is at least the limit.
  abbrev pub StillLarge : ℕ → V → Type 0
  StillLarge zero n = Unit
  StillLarge (suc k) n = (f.leb limit n ≡ true) × StillLarge k (f.div n scale)

  -- The unit `k` places up the table `unit ∷ rest` is the first one in which the number is below
  -- the limit, or the last but one of the table.
  pub record Fits (n : V) (unit : List ℕ) (rest : List (List ℕ)) (r : V × List ℕ) (k : ℕ)
      : Type 0 where
    pub place : k < length rest
    pub amount : r.0 ≡ divided k n
    pub name : get_elem? (unit ∷ rest) k ≡ some r.1
    pub large : StillLarge k n
    pub stops : (suc k ≡ length rest) ⊎ (f.leb limit (divided k n) ≡ false)

  reduce-Fits :
      (n : V) (unit u : List ℕ) (us : List (List ℕ))
      → (k : ℕ) × Fits n unit (u ∷ us) (reduce f scale limit n unit (u ∷ us)) k
  unfolding reduce
  reduce-Fits n unit u [] =
      (0, record { place = omega arith; amount = refl; name = refl; large = tt; stops = inl refl })
  reduce-Fits n unit u (v ∷ rest) = elim (Bool-cases (f.leb limit n)) [
    | inl e ↦
        let (k, up) = reduce-Fits (f.div n scale) u v rest in
        rw e (
          suc k,
          record {
            place = omega (arith, up.place);
            amount = up.amount;
            name = up.name;
            large = (e, up.large);
            stops = elim up.stops [ inl h ↦ inl (omega (arith, h)) | inr h ↦ inr h ];
          },
        )
    | inr e ↦
        rw e
          (0, record { place = omega arith; amount = refl; name = refl; large = tt; stops = inr e })
  ]

module _ {V : Type 0} (f : Floating V) where
  -- Unless the output is raw, a number is printed in the first unit in which it is below 0.85 of the
  -- table's scale, or else in the last unit but one, divided by the scale once for each unit that it
  -- went up, so the last unit of a table is never printed then.
  pub format_units-Fits :
      (n : V) (scale : ℕ) (base u : List ℕ) (us : List (List ℕ))
      → let m : Units = record { scale = scale; base = base; units = u ∷ us } in
        let limit = f.mul (f.of_u64 scale) (f.literal 85 100) in
        (k : ℕ) × Fits f (f.of_u64 scale) limit n base (u ∷ us) (format_units f n m false) k
  unfolding format_units
  format_units-Fits n scale base u us =
      reduce-Fits f (f.of_u64 scale) (f.mul (f.of_u64 scale) (f.literal 85 100)) n base u us
