-- ===== src/Stats/Rand.antt =====
-- `rand64` and `stats_sample` of src/stats.c. The generator of src/tinymt64.h, a copy of the
-- TinyMT library, is the parameter `next`.
use wrk_quic.Prelude.{
  ℕ, ◌⊎◌, zero, suc, ◌+◌, ◌-◌, ◌*◌, ◌/◌, ◌%◌, ◌<◌, ◌≤◌, ◌≡◌, refl, Option, none, some, List, [],
  ◌∷◌, arith, ltb, if◌then◌else◌, length, get_elem?, Bool-cases, inl, inr, get_elem?-some, lt→ltb,
  sym, subst, ◌∙◌,
}
use native.Mathlib.Nat.{mod-lt, div-lt_iff_lt-mul, div-add-mod'}
use wrk_quic.Platform.{Histogram}
use wrk_quic.Stats.{Stats, record_one, uint64_max}
use wrk_quic.Stats.Ring.{record_all}

-- `max` after its second line: draws from here on are rejected.
abbrev pub bound : ℕ → ℕ
bound n = uint64_max - uint64_max % n

module _ {S : Type 0} (next : S → ℕ × S) where
  -- The draws are counted by fuel, and `none` is running out of it. With `n` 0 the source divides by
  -- zero; here no draw is accepted.
  pub rand64 : ℕ → ℕ → S → Option (ℕ × S)
  rand64 zero n s = none
  rand64 (suc fuel) n s =
      let (x, s') = next s in
      let again = rand64 fuel n s' in if ltb x (bound n) then some (x % n, s') else again

  -- The generator after `k` draws.
  pub draw : ℕ → S → S
  draw zero s = s
  draw (suc k) s = draw k (next s).1

  -- If one of the draws that the fuel allows is accepted, there is a result; and every result is
  -- below `n`.
  pub rand64_total :
      (fuel n : ℕ) (s : S) (k : ℕ)
      → 0 < n
      → k < fuel
      → (next (draw k s)).0 < bound n
      → (r : ℕ) × (s' : S) × (rand64 fuel n s ≡ some (r, s')) × (r < n)
  unfolding rand64 draw
  rand64_total zero n s k pos h ok = elim h [ ]
  rand64_total (suc fuel) n s zero pos h ok =
      ((next s).0 % n, (next s).1, rw (lt→ltb _ _ ok), mod-lt (next s).0 pos)
  rand64_total (suc fuel) n s (suc k) pos h ok = elim (Bool-cases (ltb (next s).0 (bound n))) [
    | inl accepted ↦ ((next s).0 % n, (next s).1, rw accepted, mod-lt (next s).0 pos)
    | inr rejected ↦ rw rejected (rand64_total fuel n (next s).1 k pos (omega arith) ok)
  ]

bound-mul : (n : ℕ) → bound n ≡ uint64_max / n * n
bound-mul n = omega (arith, div-add-mod' uint64_max n)

module _ {S : Type 0} (next : S → ℕ × S) where
  -- `rand64` is uniform if the generator is: a draw is either `k * n + r` with `r` below `n` and `k`
  -- below a quotient that does not depend on the draw, and then `r` is the result, so that each number
  -- below `n` is the result of equally many draws; or it is at least that quotient times `n`, and then
  -- the next draw decides.
  pub rand64_uniform :
      (fuel n : ℕ) (s : S)
      → 0 < n
      → let (x, s') = next s in
        let q = uint64_max / n in
        ((r : ℕ) × (k : ℕ) × (r < n)
          × (k < q)
          × (x ≡ k * n + r)
          × (rand64 next (suc fuel) n s ≡ some (r, s')))
        ⊎ ((q * n ≤ x) × (rand64 next (suc fuel) n s ≡ rand64 next fuel n s'))
  unfolding rand64
  rand64_uniform fuel n s pos =
      let x = (next s).0 in
      elim (Bool-cases (ltb x (bound n))) [
        | inl accepted ↦
            let below : x < bound n = ground (arith, accepted) in
            inl (
              x % n,
              x / n,
              mod-lt x pos,
              (div-lt_iff_lt-mul pos).1 (subst (λ t. x < t) (bound-mul n) below),
              sym (div-add-mod' x n),
              rw accepted refl,
            )
        | inr rejected ↦
            let above : bound n ≤ x = ground (arith, rejected) in
            inr (subst (λ t. t ≤ x) (bound-mul n) above, rw rejected refl)
      ]

module _ {S V Hist : Type 0} (next : S → ℕ × S) (h : Histogram V Hist) where
  -- `stats_sample`: `count` draws from `src`, each recorded into `dst`. `none` is a draw that the
  -- fuel does not suffice for, or a read out of the array.
  pub sample : ℕ → ℕ → Stats Hist → S → Stats Hist → Option (Stats Hist × S)
  sample fuel zero dst state src = some (dst, state)
  sample fuel (suc count) dst state src = elim (rand64 next fuel src.limit state) [
    | none ↦ none
    | some (n, state') ↦ elim (get_elem? src.values n) [
      | none ↦ none
      | some x ↦ sample fuel count (record_one h dst x) state' src
    ]
  ]

-- Every number of the list stands in one of the slots in use.
abbrev pub AllFrom : {Hist : Type 0} → Stats Hist → List ℕ → Type 0
AllFrom src [] = Unit
AllFrom src (x ∷ xs) =
    ((i : ℕ) × (i < src.limit) × (get_elem? src.values i ≡ some x)) × AllFrom src xs

module _ {S V Hist : Type 0} (next : S → ℕ × S) (h : Histogram V Hist) where
  sample-suc :
      (fuel count : ℕ) (dst : Stats Hist) (state : S) (src : Stats Hist) (n : ℕ) (state' : S)
      (x : ℕ)
      → rand64 next fuel src.limit state ≡ some (n, state')
      → get_elem? src.values n ≡ some x
      → sample next h fuel (suc count) dst state src
        ≡ sample next h fuel count (record_one h dst x) state' src
  unfolding sample
  sample-suc fuel count dst state src n state' x drawn found =
      rw (drawn, sample) (rw (found, sample))

  -- Where no state of the generator rejects all the draws that the fuel allows and the slots in use
  -- lie in the array, sampling does not fail: it records exactly `count` samples of `src`.
  pub sample_total :
      (fuel count : ℕ) (dst : Stats Hist) (state : S) (src : Stats Hist)
      → 0 < src.limit
      → src.limit ≤ length src.values
      → ((s : S) → (k : ℕ) × (k < fuel) × ((next (draw next k s)).0 < bound src.limit))
      → (xs : List ℕ) × (state' : S) × (sample next h fuel count dst state src
          ≡ some (record_all h dst xs, state'))
        × (length xs ≡ count)
        × AllFrom src xs
  unfolding sample record_all
  sample_total fuel zero dst state src pos fits lucky = ([], state, refl, refl, tt)
  sample_total fuel (suc count) dst state src pos fits lucky =
      let (k, below, ok) = lucky state in
      let (n, state', drawn, small) = rand64_total next fuel src.limit state k pos below ok in
      let (x, found) = get_elem?-some src.values n (omega arith) in
      let (xs, end, e, len, from) =
        sample_total fuel count (record_one h dst x) state' src pos fits lucky in
      (
        x ∷ xs,
        end,
        sample-suc fuel count dst state src n state' x drawn found ∙ e,
        omega arith,
        ((n, small, found), from),
      )
