-- ===== src/Buffer/RoundTrip.antt =====
-- From the parser's callbacks to the table that `script_response` gives to a script: the headers of
-- a response arrive in pieces, are joined into one block, and are read back.
use wrk_quic.Prelude.{ℕ, ◌≡◌, refl, ap, ◌∙◌, List, [], ◌∷◌, ◌++◌, arith, append_assoc, some, map}
use wrk_quic.Connection.{Buffer, HeaderState, field, value}
use wrk_quic.Buffer.{append, terminate, header_field, header_value, headers_of, reset}
use wrk_quic.Buffer.Bounds.{contents, HasRoom, append-HasRoom, terminate-HasRoom}
use wrk_quic.Buffer.Read.{encode, AllNoZero, headers_of-encode}

-- One header as the parser hands it over: each part in one or more pieces.
pub record Pieces : Type 0 where
  pub name : List ℕ
  pub more_name : List (List ℕ)
  pub text : List ℕ
  pub more_text : List (List ℕ)

abbrev pub join : List ℕ → List (List ℕ) → List ℕ
join xs [] = xs
join xs (ys ∷ more) = join (xs ++ ys) more

abbrev pub header : Pieces → List ℕ × List ℕ
header p = (join p.name p.more_name, join p.text p.more_text)

-- Calls of one callback in a row.
abbrev pub feed :
    (HeaderState × Buffer → List ℕ → HeaderState × Buffer)
    → HeaderState × Buffer
    → List (List ℕ)
    → HeaderState × Buffer
feed callback s [] = s
feed callback s (x ∷ xs) = feed callback (callback s x) xs

-- The calls that the parser makes for the headers of a response.
abbrev pub feed_all : ℕ → HeaderState × Buffer → List Pieces → HeaderState × Buffer
feed_all junk s [] = s
feed_all junk s (p ∷ ps) =
    let named = feed (header_field junk) s (p.name ∷ p.more_name) in
    feed_all junk (feed (header_value junk) named (p.text ∷ p.more_text)) ps

-- Further pieces of a part go right behind it.
feed_field_lem :
    (junk : ℕ) (b : Buffer) (xs : List (List ℕ))
    → HasRoom 2 b
    → let (s, b') = feed (header_field junk) (field, b) xs in
      (s ≡ field) × HasRoom 2 b' × (contents b' ≡ join (contents b) xs)
unfolding header_field
feed_field_lem junk b [] room = (refl, room, refl)
feed_field_lem junk b (x ∷ xs) room =
    let done = append-HasRoom junk b x (record { block = room.block; fits = omega arith }) in
    let (s, r, e) = feed_field_lem junk (append junk b x) xs done.0 in
    (s, r, e ∙ ap (λ t. join t xs) done.1)

feed_value_lem :
    (junk : ℕ) (b : Buffer) (xs : List (List ℕ))
    → HasRoom 2 b
    → let (s, b') = feed (header_value junk) (value, b) xs in
      (s ≡ value) × HasRoom 2 b' × (contents b' ≡ join (contents b) xs)
unfolding header_value
feed_value_lem junk b [] room = (refl, room, refl)
feed_value_lem junk b (x ∷ xs) room =
    let done = append-HasRoom junk b x (record { block = room.block; fits = omega arith }) in
    let (s, r, e) = feed_value_lem junk (append junk b x) xs done.0 in
    (s, r, e ∙ ap (λ t. join t xs) done.1)

-- The first piece of the other part comes behind a zero byte.
header_field-value :
    (junk : ℕ) (r : HeaderState × Buffer) (x : List ℕ)
    → r.0 ≡ value
    → header_field junk r x ≡ (field, append junk (terminate r.1) x)
unfolding header_field
header_field-value junk (field, b) x e = cc
header_field-value junk (value, b) x e = refl

header_value-field :
    (junk : ℕ) (r : HeaderState × Buffer) (x : List ℕ)
    → r.0 ≡ field
    → header_value junk r x ≡ (value, append junk (terminate r.1) x)
unfolding header_value
header_value-field junk (value, b) x e = cc
header_value-field junk (field, b) x e = refl

separated :
    (junk : ℕ) (b : Buffer) (x : List ℕ)
    → HasRoom 2 b
    → HasRoom 2 (append junk (terminate b) x)
      × (contents (append junk (terminate b) x) ≡ contents b ++ (0 ∷ x))
separated junk b x room =
    let ended = terminate-HasRoom 1 b room in
    let done =
      append-HasRoom junk (terminate b) x
        (record { block = ended.0.block; fits = omega (arith, ended.0.fits) }) in
    (done.0, done.1 ∙ ap (λ t. t ++ x) ended.1 ∙ append_assoc (contents b) (0 ∷ []) x)

join-append : (xs ys : List ℕ) (more : List (List ℕ)) → join (xs ++ ys) more ≡ xs ++ join ys more
join-append xs ys [] = refl
join-append xs ys (zs ∷ more) =
    ap (λ t. join t more) (append_assoc xs ys zs) ∙ join-append xs (ys ++ zs) more

-- A state behind some bytes: the last callback was for a value.
record Behind (bytes : List ℕ) (r : HeaderState × Buffer) : Type 0 where
  in_value : r.0 ≡ value
  room : HasRoom 2 r.1
  held : contents r.1 ≡ bytes

-- The same of a name.
record Named (bytes : List ℕ) (r : HeaderState × Buffer) : Type 0 where
  in_field : r.0 ≡ field
  room : HasRoom 2 r.1
  held : contents r.1 ≡ bytes

-- The pieces of a value, after a name.
feed_text :
    (junk : ℕ) (r : HeaderState × Buffer) (x : List ℕ) (xs : List (List ℕ))
    → r.0 ≡ field
    → HasRoom 2 r.1
    → Behind (contents r.1 ++ (0 ∷ join x xs)) (feed (header_value junk) r (x ∷ xs))
feed_text junk r x xs e room =
    let first = separated junk r.1 x room in
    let rest = feed_value_lem junk (append junk (terminate r.1) x) xs first.0 in
    rw (header_value-field junk r x e) (record {
      in_value = rest.0;
      room = rest.1;
      held =
          rest.2
          ∙ ap (λ t. join t xs) first.1
          ∙ join-append (contents r.1) (0 ∷ x) xs
          ∙ ap (λ t. contents r.1 ++ t) (join-append (0 ∷ []) x xs);
    })

-- The pieces of a name, after a value and as the first of a response.
feed_name :
    (junk : ℕ) (r : HeaderState × Buffer) (x : List ℕ) (xs : List (List ℕ))
    → r.0 ≡ value
    → HasRoom 2 r.1
    → Named (contents r.1 ++ (0 ∷ join x xs)) (feed (header_field junk) r (x ∷ xs))
feed_name junk r x xs e room =
    let first = separated junk r.1 x room in
    let rest = feed_field_lem junk (append junk (terminate r.1) x) xs first.0 in
    rw (header_field-value junk r x e) (record {
      in_field = rest.0;
      room = rest.1;
      held =
          rest.2
          ∙ ap (λ t. join t xs) first.1
          ∙ join-append (contents r.1) (0 ∷ x) xs
          ∙ ap (λ t. contents r.1 ++ t) (join-append (0 ∷ []) x xs);
    })

feed_first_name :
    (junk : ℕ) (b : Buffer) (x : List ℕ) (xs : List (List ℕ))
    → HasRoom 0 b
    → contents b ≡ []
    → Named (join x xs) (feed (header_field junk) (field, b) (x ∷ xs))
unfolding header_field
feed_first_name junk b x xs room empty =
    let first = append-HasRoom junk b x room in
    let rest = feed_field_lem junk (append junk b x) xs first.0 in
    record {
      in_field = rest.0;
      room = rest.1;
      held = rest.2 ∙ ap (λ t. join t xs) (first.1 ∙ ap (λ t. t ++ x) empty);
    }

regroup :
    (front bytes name text rest : List ℕ)
    → front ≡ bytes ++ (0 ∷ name)
    → (front ++ (0 ∷ text)) ++ (0 ∷ rest) ≡ bytes ++ (0 ∷ (name ++ (0 ∷ (text ++ (0 ∷ rest)))))
regroup front bytes name text rest e = simp (e, append_assoc)

feed_all_lem :
    (junk : ℕ) (ps : List Pieces) (r : HeaderState × Buffer) (bytes : List ℕ)
    → Behind bytes r
    → let (s, b') = feed_all junk r ps in
      (s ≡ value) × HasRoom 2 b' × (contents b' ++ (0 ∷ []) ≡ bytes ++ (0 ∷ encode (map header ps)))
feed_all_lem junk [] r bytes h = (h.in_value, h.room, ap (λ t. t ++ (0 ∷ [])) h.held)
feed_all_lem junk (p ∷ ps) r bytes h =
    let named = feed (header_field junk) r (p.name ∷ p.more_name) in
    let n = feed_name junk r p.name p.more_name h.in_value h.room in
    let t = feed_text junk named p.text p.more_text n.in_field n.room in
    let rest = feed_all_lem junk ps (feed (header_value junk) named (p.text ∷ p.more_text)) _ t in
    (
      rest.0,
      rest.1,
      rest.2
          ∙ regroup (contents named.1) bytes (join p.name p.more_name) (join p.text p.more_text)
              (encode (map header ps))
              (n.held ∙ ap (λ t. t ++ (0 ∷ join p.name p.more_name)) h.held),
    )

pub reset-HasRoom : (b : Buffer) → HasRoom 0 b → HasRoom 0 (reset b)
unfolding reset
reset-HasRoom b room = record { block = room.block; fits = omega arith }

pub contents-reset : (b : Buffer) → contents (reset b) ≡ []
unfolding reset
contents-reset b = refl

-- A response whose headers contain no zero byte is handed to the script as it was received: however
-- the parser cuts the names and values into pieces, the callbacks, the zero byte that
-- `response_complete` writes and the loop of `script_response` give back the headers in their
-- order, and every byte that is written or read lies inside the buffer.
pub headers_round_trip :
    (junk : ℕ) (b : Buffer) (p : Pieces) (ps : List Pieces)
    → HasRoom 0 b
    → AllNoZero (map header (p ∷ ps))
    → let (s, b') = feed_all junk (field, reset b) (p ∷ ps) in
      (s ≡ value)
      × HasRoom 1 (terminate b')
      × (headers_of (terminate b') ≡ some (map header (p ∷ ps)))
unfolding reset
headers_round_trip junk b p ps room clean =
    let named = feed (header_field junk) (field, reset b) (p.name ∷ p.more_name) in
    let n = feed_first_name junk (reset b) p.name p.more_name (reset-HasRoom b room) refl in
    let t = feed_text junk named p.text p.more_text n.in_field n.room in
    let all = feed_all_lem junk ps (feed (header_value junk) named (p.text ∷ p.more_text)) _ t in
    let ended = terminate-HasRoom 1 (feed_all junk (field, reset b) (p ∷ ps)).1 all.1 in
    (
      all.0,
      ended.0,
      headers_of-encode (terminate (feed_all junk (field, reset b) (p ∷ ps)).1)
          (map header (p ∷ ps))
          (record { block = ended.0.block; fits = omega (arith, ended.0.fits) }) clean
          (ended.1
            ∙ all.2
            ∙ ap (λ t. (t ++ (0 ∷ join p.text p.more_text)) ++ (0 ∷ encode (map header ps))) n.held
            ∙ append_assoc (join p.name p.more_name) (0 ∷ join p.text p.more_text)
                (0 ∷ encode (map header ps))),
    )
