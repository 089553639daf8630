-- ===== src/Script/Position.antt =====
-- `script_verify_request` of src/script.c, which runs the parser over a request of the script. The
-- parser of src/http_parser.c is an argument: from the bytes, how many it takes and how many messages
-- it completes.
use wrk_quic.Lua.{Lua}
use wrk_quic.Script.Request.{script_request}
use wrk_quic.Prelude.{
  ◌<◌, ℕ, ◌+◌, ◌≡◌, refl, ap, ◌∙◌, true, false, not, ◌||◌, ◌⊎◌, inl, inr, List, [], ◌∷◌, ◌++◌,
  arith, ◌==◌, if◌then◌else◌, length, take, append_assoc, length-append, sym, ap₂,
}

-- One round of the loop that finds the place of an error, with `line` and `column`.
pub advance : ℕ × ℕ → ℕ → ℕ × ℕ
advance (line, column) c = if c == 10 then (line + 1, 1) else (line, column + 1)

pub locate : ℕ × ℕ → List ℕ → ℕ × ℕ
unfolding advance
locate place [] = place
locate place (c ∷ cs) = locate (advance place c) cs

-- What `script_verify_request` makes of the bytes that the parser took and the messages that it
-- completed, which `verify_request` counts: their number, or the place after which the program says
-- that the parser stopped, with which it exits.
verdict : List ℕ → ℕ → ℕ → ℕ ⊎ (ℕ × ℕ)
unfolding locate
verdict request parsed count =
    if not (parsed == length request) || (count == 0)
    then inr (locate (1, 1) (take parsed request))
    else inl count

-- `script_verify_request`
pub script_verify_request : {L N : Type 0} → Lua L N → (List ℕ → ℕ × ℕ) → L → L × (ℕ ⊎ (ℕ × ℕ))
unfolding verdict
script_verify_request lua http_parser_execute l =
    let (l', (request, user)) = script_request lua l in
    let (parsed, count) = http_parser_execute request in (l', verdict request parsed count)

-- A line has no newline in it.
abbrev pub IsLine : List ℕ → Type 0
IsLine [] = Unit
IsLine (c ∷ cs) = ((c == 10) ≡ false) × IsLine cs

locate-append :
    (place : ℕ × ℕ) (xs ys : List ℕ) → locate place (xs ++ ys) ≡ locate (locate place xs) ys
unfolding locate
locate-append place [] ys = refl
locate-append place (x ∷ xs) ys = locate-append (advance place x) xs ys

locate-IsLine :
    (line column : ℕ) (xs : List ℕ)
    → IsLine xs
    → locate (line, column) xs ≡ (line, column + length xs)
unfolding locate advance
locate-IsLine line column [] h = ap (λ c. (line, c)) (omega arith)
locate-IsLine line column (x ∷ xs) h =
    rw (h.0) (locate-IsLine line (column + 1) xs h.1 ∙ ap (λ c. (line, c)) (omega arith))

advance-10 : (line column x : ℕ) → (x == 10) ≡ true → advance (line, column) x ≡ (line + 1, 1)
unfolding advance
advance-10 line column x e = rw e refl

advance-other :
    (line column x : ℕ) → (x == 10) ≡ false → advance (line, column) x ≡ (line, column + 1)
unfolding advance
advance-other line column x e = rw e refl

-- Complete lines, each with its newline.
abbrev pub ended : List (List ℕ) → List ℕ
ended [] = []
ended (line ∷ lines) = line ++ (10 ∷ ended lines)

abbrev pub AllLines : List (List ℕ) → Type 0
AllLines [] = Unit
AllLines (line ∷ lines) = IsLine line × AllLines lines

locate-ended :
    (n : ℕ) (lines : List (List ℕ))
    → AllLines lines
    → locate (n, 1) (ended lines) ≡ (n + length lines, 1)
unfolding locate
locate-ended n [] h = ap (λ l. (l, 1)) (omega arith)
locate-ended n (line ∷ lines) (h, hs) =
    locate-append (n, 1) line (10 ∷ ended lines)
    ∙ ap (λ p. locate p (10 ∷ ended lines)) (locate-IsLine n 1 line h)
    ∙ ap (λ p. locate p (ended lines)) (advance-10 n (1 + length line) 10 refl)
    ∙ locate-ended (n + 1) lines hs
    ∙ ap (λ l. (l, 1)) (omega arith)

take-append : (xs ys : List ℕ) → take (length xs) (xs ++ ys) ≡ xs
take-append [] ys = refl
take-append (x ∷ xs) ys = ap (λ l. x ∷ l) (take-append xs ys)

longer : (xs ys : List ℕ) (c : ℕ) → (length xs == length (xs ++ (c ∷ ys))) ≡ false
longer xs ys c = rw (length-append xs (c ∷ ys)) (ground arith)

verdict_place :
    (lines : List (List ℕ)) (line rest : List ℕ) (c n : ℕ)
    → AllLines lines
    → IsLine line
    → verdict (ended lines ++ (line ++ (c ∷ rest))) (length (ended lines ++ line)) n
      ≡ inr (length lines + 1, length line + 1)
unfolding verdict
verdict_place lines line rest c n hs h = rw (sym (append_assoc (ended lines) line (c ∷ rest))) (
    rw (longer (ended lines ++ line) rest c) (
      ap inr (
        ap (locate (1, 1)) (take-append (ended lines ++ line) (c ∷ rest))
        ∙ (locate-append (1, 1) (ended lines) line
            ∙ (ap (λ p. locate p line) (locate-ended 1 lines hs)
                ∙ (locate-IsLine (1 + length lines) 1 line h
                    ∙ ap₂ (λ x y. (x, y)) (omega arith) (omega arith)))))))

-- If the parser stops inside a line, before the byte `c` and behind the bytes `line` of it, with any
-- number of lines before it, then the place that is reported is the number of that line and the
-- column of `c`, both counted from 1, however many requests are complete.
pub script_verify_request_place :
    {L N : Type 0} (lua : Lua L N) (http_parser_execute : List ℕ → ℕ × ℕ) (l : L)
    (lines : List (List ℕ)) (line rest : List ℕ) (c n : ℕ)
    → AllLines lines
    → IsLine line
    → let request = ended lines ++ (line ++ (c ∷ rest)) in
      (script_request lua l).1.0 ≡ request
      → http_parser_execute request ≡ (length (ended lines ++ line), n)
      → (script_verify_request lua http_parser_execute l).1
        ≡ inr (length lines + 1, length line + 1)
unfolding script_verify_request
script_verify_request_place lua http_parser_execute l lines line rest c n hs h made parsed =
    rw (made, parsed) (verdict_place lines line rest c n hs h)

-- A number of requests that is accepted is not 0.
pub verified-positive :
    {L N : Type 0} (lua : Lua L N) (http_parser_execute : List ℕ → ℕ × ℕ) (l : L) (n : ℕ)
    → (script_verify_request lua http_parser_execute l).1 ≡ inl n
    → 0 < n
unfolding script_verify_request verdict
verified-positive lua http_parser_execute l n h = ground (arith, h)
