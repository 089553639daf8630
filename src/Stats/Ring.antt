-- ===== src/Stats/Ring.antt =====
-- The array of src/stats.c as a ring, against the sequence of all samples.
use wrk_quic.Prelude.{
  ℕ, ◌+◌, ◌%◌, ◌≤◌, ◌<◌, ◌^◌, min, ◌≡◌, refl, none, List, [], ◌∷◌, ◌++◌, arith, length, get_elem?,
  set, length-append, length-set, length-replicate, get_elem?-set_self, get_elem?-set_ne,
  get_elem?-append_left, get_elem?-append_last, mod_ne_of_near, mod-suc, sym, ◌∙◌, append-nil,
  append_assoc, subst,
}
use native.Mathlib.Decide.{dec_lt}
use native.Mathlib.Nat.{mod-lt, mod-eq_of_lt}
use wrk_quic.Platform.{Histogram}
use wrk_quic.Stats.{Stats, alloc, push, extremes, record_one}

-- The ring after the samples `xs`, oldest first.
pub record Holds {Hist : Type 0} (s : Stats Hist) (xs : List ℕ) : Type 0 where
  pub plain : s.histogram ≡ none
  pub room : 0 < s.samples
  pub small : s.samples < 2 ^ 64
  pub size : length s.values ≡ s.samples
  pub next : s.index ≡ length xs % s.samples
  pub filled : s.limit ≡ min (length xs) s.samples
  pub latest :
      (j : ℕ)
      → j < length xs
      → length xs ≤ j + s.samples
      → get_elem? s.values (j % s.samples) ≡ get_elem? xs j

pub alloc-Holds :
    (Hist : Type 0) (samples : ℕ)
    → 0 < samples
    → samples < 2 ^ 64
    → Holds (alloc {Hist = Hist} samples) []
unfolding alloc
alloc-Holds Hist samples room small = record {
  plain = refl;
  room = room;
  small = small;
  size = length-replicate samples 0;
  next = sym (mod-eq_of_lt room);
  filled = omega arith;
  latest = λ j lt. absurd (omega arith);
}

module _ {Hist : Type 0} (s : Stats Hist) (xs : List ℕ) (x : ℕ) (h : Holds s xs) where
  latest-push :
      (j : ℕ)
      → j < length xs + 1
      → length xs + 1 ≤ j + s.samples
      → get_elem? (set s.values s.index x) (j % s.samples) ≡ get_elem? (xs ++ (x ∷ [])) j
  latest-push j lt near = elim (dec_lt j (length xs)) [
    | yes old ↦
        get_elem?-set_ne s.values x
          (λ e. mod_ne_of_near s.samples j (length xs) old (omega arith) (sym e ∙ h.next))
        ∙ h.latest j old (omega arith)
        ∙ sym (get_elem?-append_left xs (x ∷ []) j old)
    | no new ↦
        let here : j ≡ length xs = omega arith in
        rw (here, ← h.next)
          (get_elem?-set_self s.values s.index x (omega (arith, mod-lt (length xs) h.room))
            ∙ sym (get_elem?-append_last xs x))
  ]

  push-Holds : Holds (push s x) (xs ++ (x ∷ []))
  unfolding push
  push-Holds = record {
    plain = h.plain;
    room = h.room;
    small = h.small;
    size = length-set s.values s.index x ∙ h.size;
    next = ground (
      arith,
      length-append xs (x ∷ []),
      mod-suc s.samples (length xs) h.room,
      mod-lt (length xs) h.room,
      h.next,
      h.small,
    );
    filled = ground (arith, length-append xs (x ∷ []), h.filled, h.small);
    latest = λ j lt near.
        latest-push j (omega (arith, length-append xs (x ∷ [])))
          (omega (arith, length-append xs (x ∷ [])));
  }

  extremes-Holds : Holds (extremes s x) xs
  unfolding extremes
  extremes-Holds = record {
    plain = h.plain;
    room = h.room;
    small = h.small;
    size = h.size;
    next = h.next;
    filled = h.filled;
    latest = h.latest;
  }

record_one-Holds :
    {V Hist : Type 0} (hist : Histogram V Hist) (s : Stats Hist) (xs : List ℕ) (x : ℕ)
    → Holds s xs
    → Holds (record_one hist s x) (xs ++ (x ∷ []))
unfolding record_one
record_one-Holds hist s xs x h =
    rw (h.plain, record_one) (push-Holds (extremes s x) xs x (extremes-Holds s xs x h))

-- Calls of `stats_record` in a row.
unfoldable pub record_all : {V Hist : Type 0} → Histogram V Hist → Stats Hist → List ℕ → Stats Hist
record_all hist s [] = s
record_all hist s (x ∷ xs) = record_all hist (record_one hist s x) xs

record_all-Holds :
    {V Hist : Type 0} (hist : Histogram V Hist) (xs : List ℕ) (s : Stats Hist) (ys : List ℕ)
    → Holds s ys
    → Holds (record_all hist s xs) (ys ++ xs)
unfolding record_all
record_all-Holds hist [] s ys h = rw append-nil h
record_all-Holds hist (x ∷ xs) s ys h =
    subst (Holds (record_all hist (record_one hist s x) xs)) (append_assoc ys (x ∷ []) xs) (
      record_all-Holds hist xs (record_one hist s x) (ys ++ (x ∷ []))
        (record_one-Holds hist s ys x h))

-- After any samples are recorded into a fresh `stats` of `samples` slots, the ring holds exactly the
-- latest ones: the j-th sample stands in slot j modulo `samples` as long as at most `samples`
-- samples are as recent, `index` is the next slot in turn, and `limit` counts the slots in use.
pub record_all-alloc-Holds :
    {V Hist : Type 0} (hist : Histogram V Hist) (samples : ℕ) (xs : List ℕ)
    → 0 < samples
    → samples < 2 ^ 64
    → Holds (record_all hist (alloc samples) xs) xs
record_all-alloc-Holds {Hist = Hist} hist samples xs room small =
    record_all-Holds hist xs (alloc samples) [] (alloc-Holds Hist samples room small)
