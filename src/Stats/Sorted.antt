-- ===== src/Stats/Sorted.antt =====
-- What `stats_summarize` of src/stats.c leaves: `qsort` of the C library is a parameter, with what C says
-- of it.
use wrk_quic.Prelude.{
  ℕ, zero, suc, ◌+◌, ◌^◌, ◌<◌, ◌≤◌, ◌≡◌, refl, arith, Bool, true, false, List, [], ◌∷◌, ltb, leb,
  pos, ltb_ℤ, ℤ, some, get_elem?, length, if◌then◌else◌, sym, ◌∙◌,
}
use mathlib.Core.List.{Mem, forall_mem-cons, Perm, Permᴰ, Pairwise, mem-cons_self, mem-cons_of_mem}
use mathlib.Core.List.Perm
use mathlib.Core.Logic.{∥∥₁_elim}
use mathlib.Core.Option.{some-injective, none-ne-some}
use native.Mathlib.Bridge.{le_prop}
use wrk_quic.Stats.{compare_values}
use wrk_quic.Stats.Compare.{compare_values_near}

-- The first does not come behind the second.
abbrev pub NotAfter : (ℕ → ℕ → ℤ) → ℕ → ℕ → Type 0
NotAfter cmp x y = ltb_ℤ (pos 0) (cmp x y) ≡ false

-- What `qsort` asks of the function that compares: on the elements, it is the order of a total order.
pub record IsConsistent (cmp : ℕ → ℕ → ℤ) (xs : List ℕ) : Type 0 where
  pub flips : (x y : ℕ) → Mem x xs → Mem y xs → ltb_ℤ (cmp x y) (pos 0) ≡ ltb_ℤ (pos 0) (cmp y x)
  pub chains :
      (x y z : ℕ)
      → Mem x xs
      → Mem y xs
      → Mem z xs
      → NotAfter cmp x y
      → NotAfter cmp y z
      → NotAfter cmp x z

-- What `qsort` gives then.
pub record IsSortOf (cmp : ℕ → ℕ → ℤ) (xs ys : List ℕ) : Type 0 where
  pub permutes : Perm ys xs
  pub ascends : Pairwise (NotAfter cmp) ys

-- Samples whose differences fit the `int` of `stats_compare`.
pub record AreNear (xs : List ℕ) : Type 0 where
  pub words : (x : ℕ) → Mem x xs → x < 2 ^ 64
  pub near : (x y : ℕ) → Mem x xs → Mem y xs → x < y + 2 ^ 31

module _ (xs : List ℕ) (n : AreNear xs) where
  signs :
      (x y : ℕ)
      → Mem x xs
      → Mem y xs
      → (ltb_ℤ (compare_values x y) (pos 0) ≡ ltb x y)
        × (ltb_ℤ (pos 0) (compare_values x y) ≡ ltb y x)
  signs x y mx my =
      compare_values_near x y (n.words x mx) (n.words y my) (n.near x y mx my) (n.near y x my mx)

  NotAfter-le : (x y : ℕ) → Mem x xs → Mem y xs → NotAfter compare_values x y → x ≤ y
  NotAfter-le x y mx my e = ground (arith, (signs x y mx my).1, e)

  le-NotAfter : (x y : ℕ) → Mem x xs → Mem y xs → x ≤ y → NotAfter compare_values x y
  le-NotAfter x y mx my le = (signs x y mx my).1 ∙ ground (arith, le)

  pub compare_values-IsConsistent : IsConsistent compare_values xs
  compare_values-IsConsistent = record {
    flips = λ x y mx my. (signs x y mx my).0 ∙ sym (signs y x my mx).1;
    chains = λ x y z mx my mz a b.
        le-NotAfter x z mx mz (omega (arith, NotAfter-le x y mx my a, NotAfter-le y z my mz b));
  }

  ascending :
      (ys : List ℕ)
      → ((y : ℕ) → Mem y ys → Mem y xs)
      → Pairwise (NotAfter compare_values) ys
      → Pairwise ◌≤◌ ys
  ascending [] within Pairwise.nil = Pairwise.nil
  ascending (y ∷ ys) within (Pairwise.cons below more) =
      Pairwise.cons
        (λ z m.
          NotAfter-le y z (within y mem-cons_self) (within z (mem-cons_of_mem y m)) (below z m))
        (ascending ys (λ z m. within z (mem-cons_of_mem y m)) more)

  pub sorted_ascending : (ys : List ℕ) → IsSortOf compare_values xs ys → Pairwise ◌≤◌ ys
  sorted_ascending ys s = ascending ys (λ y m. (Perm.mem_iff s.permutes).0 m) s.ascends

-- How many elements pass a test.
abbrev pub count_if : (ℕ → Bool) → List ℕ → ℕ
count_if test [] = 0
count_if test (x ∷ xs) = (if test x then 1 else 0) + count_if test xs

count_if-Perm :
    (test : ℕ → Bool) {xs ys : List ℕ} → Permᴰ xs ys → count_if test xs ≡ count_if test ys
count_if-Perm test Permᴰ.nil = refl
count_if-Perm test (Permᴰ.cons e p) = rw (e, count_if-Perm test p) refl
count_if-Perm test (Permᴰ.swap e f) = rw (e, f) (omega arith)
count_if-Perm test (Permᴰ.trans p q) = count_if-Perm test p ∙ count_if-Perm test q

pub count_if-perm :
    (test : ℕ → Bool) {xs ys : List ℕ} → Perm xs ys → count_if test xs ≡ count_if test ys
count_if-perm test p = ∥∥₁_elim p (hlevel) (count_if-Perm test)

pub get_elem?-Mem : (xs : List ℕ) (i v : ℕ) → get_elem? xs i ≡ some v → Mem v xs
get_elem?-Mem [] i v e = absurd (none-ne-some v e)
get_elem?-Mem (x ∷ xs) zero v e = rw (← some-injective x v e) mem-cons_self
get_elem?-Mem (x ∷ xs) (suc i) v e = mem-cons_of_mem x (get_elem?-Mem xs i v e)

count_if-all :
    (v : ℕ) (xs : List ℕ) → ((x : ℕ) → Mem x xs → v ≤ x) → count_if (λ x. leb v x) xs ≡ length xs
count_if-all v [] h = refl
count_if-all v (x ∷ xs) h =
    ground (arith, h x mem-cons_self, count_if-all v xs (λ y m. h y (mem-cons_of_mem x m)))

count_if-every : (xs : List ℕ) → count_if (λ x. true) xs ≡ length xs
count_if-every [] = refl
count_if-every (x ∷ xs) = omega (arith, count_if-every xs)

pub length-Perm : {xs ys : List ℕ} → Perm xs ys → length xs ≡ length ys
length-Perm {xs} {ys} p = sym (count_if-every xs) ∙ count_if-perm (λ x. true) p ∙ count_if-every ys

-- The element at a place of an ascending list: that many elements are not above it, and the others
-- are not below it.
pub count_if-below :
    (xs : List ℕ) (i v : ℕ)
    → Pairwise ◌≤◌ xs
    → get_elem? xs i ≡ some v
    → i < count_if (λ x. leb x v) xs
count_if-below [] i v p e = absurd (none-ne-some v e)
count_if-below (x ∷ xs) zero v p e = ground (arith, some-injective x v e)
count_if-below (x ∷ xs) (suc i) v (Pairwise.cons below p) e =
    ground (arith, below v (get_elem?-Mem xs i v e), count_if-below xs i v p e)

pub count_if-above :
    (xs : List ℕ) (i v : ℕ)
    → Pairwise ◌≤◌ xs
    → get_elem? xs i ≡ some v
    → length xs ≤ count_if (λ x. leb v x) xs + i
count_if-above [] i v p e = omega arith
count_if-above (x ∷ xs) zero v (Pairwise.cons below p) e =
    let head : v ≤ x = omega (arith, some-injective x v e) in
    omega (
      arith,
      count_if-all v (x ∷ xs)
          ((forall_mem-cons (λ y. le_prop)).1 (head, λ y m. omega (arith, head, below y m))),
    )
count_if-above (x ∷ xs) (suc i) v (Pairwise.cons below p) e =
    omega (arith, count_if-above xs i v p e)
