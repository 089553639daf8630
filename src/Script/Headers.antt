-- ===== src/Script/Headers.antt =====
-- The split of a header in `script_create` of src/script.c.
use wrk_quic.Prelude.{
  ℕ, ◌≡◌, refl, ap, ap₂, ◌∙◌, true, false, Bool-cases, inl, inr, none, some, List, [], ◌∷◌, ==_iff,
  ◌⊎◌, subst, ◌++◌, ◌==◌, ◌↔◌,
}
use wrk_quic.Script.{split_header}

-- A name has no colon.
abbrev pub IsName : List ℕ → Type 0
IsName [] = Unit
IsName (c ∷ cs) = ((c == b':') ≡ false) × IsName cs

split_header-join :
    (name text : List ℕ)
    → IsName name
    → split_header (name ++ (b':' ∷ b' ' ∷ text)) ≡ some (name, text)
unfolding split_header
split_header-join [] text h = refl
split_header-join (c ∷ cs) text h = rw (h.0, split_header-join cs text h.1) refl

-- What the split finds: a name and a text, or nothing.
abbrev Found : List ℕ → Type 0
Found h =
    (name text : List ℕ) × IsName name
    × (h ≡ name ++ (b':' ∷ b' ' ∷ text))
    × (split_header h ≡ some (name, text))

split-colon :
    (c : ℕ) (cs : List ℕ) → (c == b':') ≡ true → Found (c ∷ cs) ⊎ (split_header (c ∷ cs) ≡ none)
unfolding split_header
split-colon c [] e = inr (rw e refl)
split-colon c (d ∷ rest) e = elim (Bool-cases (d == b' ')) [
  | inl space ↦ inl (
    [],
    rest,
    tt,
    ap₂ (λ x y. x ∷ y ∷ rest) ((==_iff c b':').0 e) ((==_iff d b' ').0 space),
    rw (e, space) refl,
  )
  | inr other ↦ inr (rw (e, other) refl)
]

found : (h : List ℕ) → Found h ⊎ (split_header h ≡ none)
unfolding split_header
found [] = inr refl
found (c ∷ cs) = elim (Bool-cases (c == b':')) [
  | inl e ↦ split-colon c cs e
  | inr e ↦ elim (found cs) [
    | inl (name, text, h, same, split) ↦
        inl (c ∷ name, text, (e, h), ap (λ t. c ∷ t) same, rw (e, split) refl)
    | inr split ↦ inr (rw (e, split) refl)
  ]
]

-- The split of `script_create` finds a name and a text exactly if the header is that name, which has
-- no colon, followed by a colon, one space and that text.
pub split_header_iff :
    (h name text : List ℕ)
    → (split_header h ≡ some (name, text)) ↔ (IsName name × (h ≡ name ++ (b':' ∷ b' ' ∷ text)))
split_header_iff h name text = (
  (λ s. elim (found h) [
    | inl (n, t, is_name, same, split) ↦ (subst IsName (cc (s, split)) is_name, cc (s, split, same))
    | inr split ↦ absurd (cc (s, split))
  ]),
  (λ p. ap split_header p.1 ∙ split_header-join name text p.0),
)
