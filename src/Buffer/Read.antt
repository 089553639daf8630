-- ===== src/Buffer/Read.antt =====
-- The block of headers as `script_response` of src/script.c reads it back.
use wrk_quic.Prelude.{
  ℕ, zero, suc, ◌+◌, ◌-◌, ◌≤◌, ◌≡◌, ◌≢◌, refl, ap, ◌∙◌, sym, List, [], ◌∷◌, ◌++◌, arith, length,
  length-append, take, drop, append_assoc, some,
}
use wrk_quic.Connection.{Buffer}
use wrk_quic.Buffer.{push_string, read_headers, headers_of}
use wrk_quic.Buffer.Bounds.{contents, HasRoom, length-take}

-- The layout of the block: a zero byte behind each name and each value.
abbrev pub encode : List (List ℕ × List ℕ) → List ℕ
encode [] = []
encode ((name, text) ∷ rest) = name ++ (0 ∷ (text ++ (0 ∷ encode rest)))

abbrev pub NoZero : List ℕ → Type 0
NoZero [] = Unit
NoZero (x ∷ xs) = (x ≢ 0) × NoZero xs

abbrev pub AllNoZero : List (List ℕ × List ℕ) → Type 0
AllNoZero [] = Unit
AllNoZero ((name, text) ∷ rest) = NoZero name × NoZero text × AllNoZero rest

-- The string that ends at the first zero byte.
pub push_string-append :
    (text rest : List ℕ) → NoZero text → push_string (text ++ (0 ∷ rest)) ≡ some (text, rest)
unfolding push_string
push_string-append [] rest clean = refl
push_string-append (x ∷ xs) rest clean = ground (arith, push_string-append xs rest clean.1, clean.0)

length-encode :
    (name text : List ℕ) (rest : List (List ℕ × List ℕ))
    → length (encode ((name, text) ∷ rest)) ≡ length name + length text + 2 + length (encode rest)
length-encode name text rest = omega (
  arith,
  length-append name (0 ∷ (text ++ (0 ∷ encode rest))),
  length-append text (0 ∷ encode rest),
)

read_headers-suc :
    (fuel left : ℕ) (c c' c'' name text : List ℕ) (hs : List (List ℕ × List ℕ))
    → left ≢ 0
    → push_string c ≡ some (name, c')
    → push_string c' ≡ some (text, c'')
    → read_headers fuel (left - (length name + length text + 2)) c'' ≡ some hs
    → read_headers (suc fuel) left c ≡ some ((name, text) ∷ hs)
unfolding read_headers
read_headers-suc fuel left c c' c'' name text hs ne p q r = ground arith

encode-append :
    (name text rest : List ℕ) (hs : List (List ℕ × List ℕ))
    → encode ((name, text) ∷ hs) ++ rest ≡ name ++ (0 ∷ (text ++ (0 ∷ (encode hs ++ rest))))
encode-append name text rest hs =
    append_assoc name _ rest ∙ ap (λ t. name ++ (0 ∷ t)) (append_assoc text _ rest)

read_headers-encode :
    (fuel : ℕ) (hs : List (List ℕ × List ℕ)) (rest : List ℕ)
    → AllNoZero hs
    → length hs ≤ fuel
    → read_headers fuel (length (encode hs)) (encode hs ++ rest) ≡ some hs
unfolding read_headers
read_headers-encode zero [] rest clean h = refl
read_headers-encode zero (x ∷ hs) rest clean h = absurd (omega arith)
read_headers-encode (suc fuel) [] rest clean h = refl
read_headers-encode (suc fuel) ((name, text) ∷ hs) rest clean h =
    read_headers-suc fuel (length (encode ((name, text) ∷ hs))) _
      (text ++ (0 ∷ (encode hs ++ rest))) (encode hs ++ rest) name text hs
      (omega (arith, length-encode name text hs))
      (ap push_string (encode-append name text rest hs) ∙ push_string-append name _ clean.0)
      (push_string-append text _ clean.1)
      (ap (λ k. read_headers fuel k (encode hs ++ rest)) (omega (arith, length-encode name text hs))
        ∙ read_headers-encode fuel hs rest clean.2 (omega arith))

length-le-encode : (hs : List (List ℕ × List ℕ)) → length hs ≤ length (encode hs)
length-le-encode [] = omega arith
length-le-encode ((name, text) ∷ hs) =
    omega (arith, length-encode name text hs, length-le-encode hs)

take-append-drop : (n : ℕ) (xs : List ℕ) → take n xs ++ drop n xs ≡ xs
take-append-drop zero xs = refl
take-append-drop (suc n) [] = refl
take-append-drop (suc n) (x ∷ xs) = ap (λ t. x ∷ t) (take-append-drop n xs)

-- A block whose bytes in use are the layout of some headers is read back as those headers.
pub headers_of-encode :
    (b : Buffer) (hs : List (List ℕ × List ℕ))
    → HasRoom 0 b
    → AllNoZero hs
    → contents b ≡ encode hs
    → headers_of b ≡ some hs
unfolding headers_of
headers_of-encode b hs room clean e =
    let used : b.cursor ≡ length (encode hs) =
      sym (length-take b.cursor b.bytes (omega arith)) ∙ ap length e in
    ap (read_headers b.cursor b.cursor) (sym (take-append-drop b.cursor b.bytes))
    ∙ ap (λ t. read_headers b.cursor b.cursor (t ++ drop b.cursor b.bytes)) e
    ∙ ap (λ k. read_headers b.cursor k (encode hs ++ drop b.cursor b.bytes)) used
    ∙ read_headers-encode b.cursor hs (drop b.cursor b.bytes) clean
        (omega (arith, used, length-le-encode hs))
