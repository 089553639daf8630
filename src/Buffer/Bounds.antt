-- ===== src/Buffer/Bounds.antt =====
-- Every write of the buffers stays inside the block.
use wrk_quic.Prelude.{
  ℕ, zero, suc, ◌+◌, ◌-◌, ◌*◌, ◌≤◌, ◌<◌, ◌≡◌, refl, ap, ◌∙◌, sym, List, [], ◌∷◌, ◌++◌, arith, leb,
  length, length-append, length-replicate, replicate, take, drop, append_assoc, Bool-cases, inl,
  inr,
}
use wrk_quic.Connection.{Buffer}
use wrk_quic.Buffer.{write_at, grow, append, terminate}

-- The bytes up to the cursor.
abbrev pub contents : Buffer → List ℕ
contents b = take b.cursor b.bytes

-- The block has the length that the buffer says, and `slack` bytes are free behind the cursor.
pub record HasRoom (slack : ℕ) (b : Buffer) : Type 0 where
  pub block : length b.bytes ≡ b.length
  pub fits : b.cursor + slack ≤ b.length

-- A buffer that has never been used.
abbrev pub null : Buffer
null = record { bytes = []; length = 0; cursor = 0 }

pub length-take : (n : ℕ) (xs : List ℕ) → n ≤ length xs → length (take n xs) ≡ n
length-take zero xs h = refl
length-take (suc n) [] h = absurd (omega arith)
length-take (suc n) (x ∷ xs) h = ap suc (length-take n xs (omega arith))

length-drop : (n : ℕ) (xs : List ℕ) → length (drop n xs) ≡ length xs - n
length-drop zero xs = omega arith
length-drop (suc n) [] = omega arith
length-drop (suc n) (x ∷ xs) = omega (arith, length-drop n xs)

take-append_of_length : (n : ℕ) (xs ys : List ℕ) → length xs ≡ n → take n (xs ++ ys) ≡ xs
take-append_of_length zero [] ys h = refl
take-append_of_length zero (x ∷ xs) ys h = absurd (omega arith)
take-append_of_length (suc n) [] ys h = absurd (omega arith)
take-append_of_length (suc n) (x ∷ xs) ys h =
    ap (λ zs. x ∷ zs) (take-append_of_length n xs ys (omega arith))

take-append_left : (n : ℕ) (xs ys : List ℕ) → n ≤ length xs → take n (xs ++ ys) ≡ take n xs
take-append_left zero xs ys h = refl
take-append_left (suc n) [] ys h = absurd (omega arith)
take-append_left (suc n) (x ∷ xs) ys h = ap (λ zs. x ∷ zs) (take-append_left n xs ys (omega arith))

module _ (block : List ℕ) (i : ℕ) (src : List ℕ) (h : i + length src ≤ length block) where
  length-write_at : length (write_at block i src) ≡ length block
  unfolding write_at
  length-write_at = omega (
    arith,
    length-append (take i block) (src ++ drop (i + length src) block),
    length-append src (drop (i + length src) block),
    length-take i block (omega arith),
    length-drop (i + length src) block,
  )

  take-write_at : take (i + length src) (write_at block i src) ≡ take i block ++ src
  unfolding write_at
  take-write_at =
      ap (take (i + length src))
        (sym (append_assoc (take i block) src (drop (i + length src) block)))
      ∙ take-append_of_length (i + length src) (take i block ++ src) (drop (i + length src) block)
          (omega (arith, length-append (take i block) src, length-take i block (omega arith)))

record Grown (needed : ℕ) (b b' : Buffer) : Type 0 where
  block : length b'.bytes ≡ b'.length
  enough : needed < b'.length
  cursor : b'.cursor ≡ b.cursor
  kept : contents b' ≡ contents b

-- Enough fuel ends the loop by its test, and the bytes in use are kept.
grow-Grown :
    (junk fuel needed : ℕ) (b : Buffer)
    → HasRoom 0 b
    → needed < b.length + 1024 * fuel
    → Grown needed b (grow junk fuel needed b)
unfolding grow
grow-Grown junk zero needed b room h = record {
  block = room.block;
  enough = omega arith;
  cursor = refl;
  kept = refl;
}
grow-Grown junk (suc fuel) needed b room h = elim (Bool-cases (leb b.length needed)) [
  | inl small ↦
      let bigger : Buffer = record b {
        length = b.length + 1024;
        bytes = b.bytes ++ replicate 1024 junk;
      } in
      let more : length (b.bytes ++ replicate 1024 junk) ≡ b.length + 1024 = omega (
        arith,
        length-append b.bytes (replicate 1024 junk),
        length-replicate 1024 junk,
        room.block,
      ) in
      let g : Grown needed bigger (grow junk fuel needed bigger) =
        grow-Grown junk fuel needed bigger (record { block = more; fits = omega arith })
          (omega arith) in
      rw small (record {
        block = g.block;
        enough = g.enough;
        cursor = g.cursor;
        kept = g.kept ∙ take-append_left b.cursor b.bytes (replicate 1024 junk) (omega arith);
      })
  | inr large ↦
      rw large (record { block = room.block; enough = ground arith; cursor = refl; kept = refl })
]

-- `buffer_append` on a buffer whose cursor lies in its block writes inside the block, appends
-- exactly the bytes given, and leaves two bytes free behind them: one for the zero byte that the
-- parser callbacks write without a check, and one to spare.
pub append-HasRoom :
    (junk : ℕ) (b : Buffer) (src : List ℕ)
    → HasRoom 0 b
    → HasRoom 2 (append junk b src) × (contents (append junk b src) ≡ contents b ++ src)
unfolding append
append-HasRoom junk b src room =
    let needed = b.cursor + length src + 1 in
    let b' = grow junk (needed + 1) needed b in
    let g = grow-Grown junk (needed + 1) needed b room (omega arith) in
    let inside : b'.cursor + length src ≤ length b'.bytes =
      omega (arith, g.block, g.enough, g.cursor) in
    (
      record {
        block = length-write_at b'.bytes b'.cursor src inside ∙ g.block;
        fits = omega (arith, g.enough, g.cursor);
      },
      take-write_at b'.bytes b'.cursor src inside ∙ ap (λ t. t ++ src) g.kept,
    )

-- The zero byte goes inside the block if there is room for it.
pub terminate-HasRoom :
    (k : ℕ) (b : Buffer)
    → HasRoom (suc k) b
    → HasRoom k (terminate b) × (contents (terminate b) ≡ contents b ++ (0 ∷ []))
unfolding terminate
terminate-HasRoom k b room =
    let inside : b.cursor + length {A = ℕ} (0 ∷ []) ≤ length b.bytes =
      omega (arith, room.block, room.fits) in
    (
      record {
        block = length-write_at b.bytes b.cursor (0 ∷ []) inside ∙ room.block;
        fits = omega (arith, room.fits);
      },
      take-write_at b.bytes b.cursor (0 ∷ []) inside,
    )
