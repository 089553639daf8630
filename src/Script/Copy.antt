-- ===== src/Script/Copy.antt =====
-- `script_copy_value` of src/script.c, from a state of Lua to another one, with `thread:get` and
-- `thread:set`, which call it. A table inside a table is a deeper call: `depth` bounds the calls and
-- `rounds` the entries of a table.
use wrk_quic.Prelude.{
  ℕ, zero, suc, ◌<◌, ◌≡◌, refl, Bool, true, false, List, [], ◌∷◌, if◌then◌else◌, ℤ, pos, negsuc,
  length, arith,
}
use wrk_quic.Lua.{Lua, boolean, nil, number, string, table, function, other}

-- What `script_copy_value` ends with: both states, or an error in Lua, or the bounds are used up.
pub data Copied (L : Type 0) : Type 0 where
  copied : L → L → Copied L
  raised : Copied L
  stuck : Copied L

-- `index - 1`
below : ℤ → ℤ
below (pos zero) = negsuc 0
below (pos (suc n)) = pos n
below (negsuc n) = negsuc (suc n)

unfoldable pub and_then : {L : Type 0} → Copied L → (L → L → Copied L) → Copied L
and_then (copied src dst) k = k src dst
and_then raised k = raised
and_then stuck k = stuck

-- A value that is not a table.
pub data Scalar (N : Type 0) : Type 0 where
  of_boolean : Bool → Scalar N
  of_nil : Scalar N
  of_number : N → Scalar N
  of_string : List ℕ → Scalar N

module _ {L N : Type 0} (lua : Lua L N) where
  -- The loop over a table, whose parts `copy` copies.
  copy_entries : (L → L → ℤ → Copied L) → ℕ → L → L → ℤ → Copied L
  unfolding and_then
  copy_entries copy zero src dst index = stuck
  copy_entries copy (suc rounds) src dst index =
      let (src', found) = lua.next src index in
      let again : L → L → Copied L =
        λ s d. copy_entries copy rounds (lua.pop s 1) (lua.set_table d (negsuc 2)) index in
      if found
      then and_then (copy src' dst (negsuc 0)) (λ s d. and_then (copy s d (negsuc 1)) again)
      else copied src' dst

  -- `script_copy_value`
  pub copy_value : ℕ → ℕ → L → L → ℤ → Copied L
  unfolding copy_entries below
  copy_value rounds zero src dst index = stuck
  copy_value rounds (suc depth) src dst index =
      let entries =
        copy_entries (copy_value rounds depth) rounds (lua.push_nil src) (lua.new_table dst)
          (below index) in
      elim (lua.kind src index) [
        | boolean ↦ copied src (lua.push_boolean dst (lua.to_boolean src index))
        | nil ↦ copied src (lua.push_nil dst)
        | number ↦ copied src (lua.push_number dst (lua.to_number src index))
        | string ↦ copied src (lua.push_string dst (lua.to_string src index))
        | table ↦ and_then entries (λ s d. copied (lua.pop s 1) d)
        | function ↦ raised
        | other ↦ raised
      ]

  -- The value at `index` is a scalar.
  abbrev pub Shows : L → ℤ → Scalar N → Type 0
  Shows l i (of_boolean b) = (lua.kind l i ≡ boolean) × (lua.to_boolean l i ≡ b)
  Shows l i of_nil = lua.kind l i ≡ nil
  Shows l i (of_number n) = (lua.kind l i ≡ number) × (lua.to_number l i ≡ n)
  Shows l i (of_string s) = (lua.kind l i ≡ string) × (lua.to_string l i ≡ s)

  abbrev pub push_scalar : L → Scalar N → L
  push_scalar l (of_boolean b) = lua.push_boolean l b
  push_scalar l of_nil = lua.push_nil l
  push_scalar l (of_number n) = lua.push_number l n
  push_scalar l (of_string s) = lua.push_string l s

  -- `lua_next` runs through a table of scalars, the key below the value, and ends in a state.
  pub data Iterates (i : ℤ) : L → List (Scalar N × Scalar N) → L → Type 0 where
    ends : (src end : L) → lua.next src i ≡ (end, false) → Iterates i src [] end
    entry :
        (src at end : L) (key value : Scalar N) (rest : List (Scalar N × Scalar N))
        → lua.next src i ≡ (at, true)
        → Shows at (negsuc 1) key
        → Shows at (negsuc 0) value
        → Iterates i (lua.pop at 1) rest end
        → Iterates i src ((key, value) ∷ rest) end

  -- `t[a] = b` for the table `t` on top of the stack, and so on.
  abbrev pub store_all : (L → Scalar N → Scalar N → L) → L → List (Scalar N × Scalar N) → L
  store_all store l [] = l
  store_all store l ((a, b) ∷ rest) = store_all store (store l a b) rest

  abbrev pub swap : List (Scalar N × Scalar N) → List (Scalar N × Scalar N)
  swap [] = []
  swap ((a, b) ∷ rest) = (b, a) ∷ swap rest

  copy_value-Shows :
      (rounds depth : ℕ) (src dst : L) (i : ℤ) (v : Scalar N)
      → Shows src i v
      → copy_value rounds (suc depth) src dst i ≡ copied src (push_scalar dst v)
  unfolding copy_value
  copy_value-Shows rounds depth src dst i (of_boolean b) h = rw (h.0, h.1, copy_value) refl
  copy_value-Shows rounds depth src dst i of_nil h = rw (h, copy_value) refl
  copy_value-Shows rounds depth src dst i (of_number n) h = rw (h.0, h.1, copy_value) refl
  copy_value-Shows rounds depth src dst i (of_string s) h = rw (h.0, h.1, copy_value) refl

  module _ (store : L → Scalar N → Scalar N → L)
      (set_table_stores : (l : L) (key value : Scalar N)
        → lua.set_table (push_scalar (push_scalar l key) value) (negsuc 2)
          ≡ store l key value) where
    copy_entries-Iterates :
        (rounds depth bound : ℕ) (src dst : L) (i : ℤ) (entries : List (Scalar N × Scalar N))
        (end : L)
        → Iterates i src entries end
        → length entries < bound
        → copy_entries (copy_value rounds (suc depth)) bound src dst i
          ≡ copied end (store_all store dst (swap entries))
    unfolding copy_entries and_then
    copy_entries-Iterates rounds depth zero src dst i entries end it lt = absurd (omega arith)
    copy_entries-Iterates rounds depth (suc n) src dst i _ _ (ends _ end none_left) lt =
        rw none_left refl
    copy_entries-Iterates rounds depth (suc n) src dst i _ _
          (entry _ at end key value rest found k v it) lt =
        rw
          (
            found,
            copy_value-Shows rounds depth at dst (negsuc 0) value v,
            copy_value-Shows rounds depth at (push_scalar dst value) (negsuc 1) key k,
            set_table_stores dst value key,
          )
          (copy_entries-Iterates rounds depth n (lua.pop at 1) (store dst value key) i rest end it
            (omega arith))

    -- The copy of a table of scalars ends without an error. What it makes is not that table: each
    -- value becomes a key, with the key as its value, in the order of `lua_next`. From the source,
    -- one value more is popped than `lua_next` leaves, which is the table itself at the index -1.
    pub copy_value-swap :
        (rounds depth : ℕ) (src dst : L) (i : ℕ) (entries : List (Scalar N × Scalar N)) (end : L)
        → lua.kind src (negsuc i) ≡ table
        → Iterates (negsuc (suc i)) (lua.push_nil src) entries end
        → length entries < rounds
        → 1 < depth
        → copy_value rounds depth src dst (negsuc i)
          ≡ copied (lua.pop end 1) (store_all store (lua.new_table dst) (swap entries))
    unfolding copy_value below
    copy_value-swap rounds zero src dst i entries end kind it lt deep = absurd (omega arith)
    copy_value-swap rounds (suc zero) src dst i entries end kind it lt deep = absurd (omega arith)
    copy_value-swap rounds (suc (suc depth)) src dst i entries end kind it lt deep =
        rw
          (
            kind,
            copy_value,
            copy_entries-Iterates rounds depth rounds (lua.push_nil src) (lua.new_table dst)
                (negsuc (suc i)) entries end it lt,
          )
          refl
