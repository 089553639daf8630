-- ===== src/Url/Copies.antt =====
-- The parts that the rest of the program works on, once `script_parse_url` has accepted a URL.
use wrk_quic.Prelude.{
  ℕ, zero, suc, ◌+◌, ◌-◌, ◌≡◌, ◌≤◌, refl, ap, ◌∙◌, Bool, true, false, some, List, [], ◌∷◌, ◌++◌,
  arith, length, take, drop,
}
use wrk_quic.Buffer.{push_string}
use wrk_quic.Buffer.Read.{NoZero, push_string-append}
use wrk_quic.Url.{
  Field, schema, host, Parts, has, slice, script_parse_url, copy_url_part, push_url_part,
}

-- What the parser promises: a part that it has found lies in the URL.
pub record IsInside (url : List ℕ) (p : Parts) : Type 0 where
  pub inside : (field : Field) → has p field ≡ true → p.off field + p.len field ≤ length url

length-take : (n : ℕ) (xs : List ℕ) → n ≤ length xs → length (take n xs) ≡ n
length-take zero xs h = refl
length-take (suc n) [] h = absurd (omega arith)
length-take (suc n) (x ∷ xs) h = ap suc (length-take n xs (omega arith))

length-drop : (n : ℕ) (xs : List ℕ) → length (drop n xs) ≡ length xs - n
length-drop zero xs = omega arith
length-drop (suc n) [] = omega arith
length-drop (suc n) (x ∷ xs) = length-drop n xs ∙ omega arith

NoZero-take : (n : ℕ) (xs : List ℕ) → NoZero xs → NoZero (take n xs)
NoZero-take zero xs h = tt
NoZero-take (suc n) [] h = tt
NoZero-take (suc n) (x ∷ xs) h = (h.0, NoZero-take n xs h.1)

NoZero-drop : (n : ℕ) (xs : List ℕ) → NoZero xs → NoZero (drop n xs)
NoZero-drop zero xs h = h
NoZero-drop (suc n) [] h = tt
NoZero-drop (suc n) (x ∷ xs) h = NoZero-drop n xs h.1

-- A part that both copies give: the copy of `main` is the string of `len` bytes that Lua gets.
pub record Found (url : List ℕ) (p : Parts) (field : Field) : Type 0 where
  pub part : List ℕ
  pub block : List ℕ
  pub pushed : push_url_part url p field ≡ some part
  pub copied : copy_url_part url p field ≡ some block
  pub whole : length part ≡ p.len field
  pub string : push_string block ≡ some (part, [])

found :
    (url : List ℕ) (p : Parts) (field : Field)
    → IsInside url p
    → NoZero url
    → has p field ≡ true
    → Found url p field
unfolding push_url_part copy_url_part slice
found url p field inside clean set = record {
  part = slice url p field;
  block = slice url p field ++ (0 ∷ []);
  pushed = rw set refl;
  copied = rw set refl;
  whole =
      length-take (p.len field) (drop (p.off field) url)
        (omega (arith, length-drop (p.off field) url, inside.inside field set));
  string =
      push_string-append (slice url p field) []
        (NoZero-take (p.len field) _ (NoZero-drop (p.off field) url clean));
}

-- If `script_parse_url` accepts a URL without a zero byte and the parser's parts lie inside it, then
-- `main` gets a schema and a host that are not NULL: zero-terminated strings of the length that the
-- parser says, the same that Lua gets.
pub script_parse_url-Found :
    (url : List ℕ) (failed : Bool) (p : Parts)
    → IsInside url p
    → NoZero url
    → script_parse_url failed p ≡ true
    → (failed ≡ false) × Found url p schema × Found url p host
unfolding script_parse_url
script_parse_url-Found url failed p inside clean accepted = (
  ground (arith, accepted),
  found url p schema inside clean (ground (arith, accepted)),
  found url p host inside clean (ground (arith, accepted)),
)
