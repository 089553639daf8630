-- ===== src/Buffer.antt =====
-- `buffer_append`, `buffer_reset` and `buffer_pushlstring` of src/script.c, and the parser
-- callbacks of src/wrk.c that fill the buffers of a connection with the headers of a response.
-- `realloc` leaves the bytes that it adds unspecified: they are the parameter `junk`.
pub mod Bounds
pub mod Read
pub mod RoundTrip
mod Tests
use wrk_quic.Prelude.{
  ℕ, zero, suc, ◌+◌, ◌-◌, ◌≤◌, ◌≡◌, Bool, true, false, Option, none, some, List, [], ◌∷◌, ◌++◌, leb,
  ltb, ◌==◌, if◌then◌else◌, length, take, drop, replicate,
}
use mathlib.Core.Option
use wrk_quic.Connection.{Buffer, HeaderState, field, value, Connection}

-- `memcpy` into a block.
pub write_at : List ℕ → ℕ → List ℕ → List ℕ
write_at block i src = take i block ++ (src ++ drop (i + length src) block)

-- The `while` loop of `buffer_append` for `used + len + 1`; `realloc` keeps the old bytes, and
-- `cursor` keeps its offset.
grow : ℕ → ℕ → ℕ → Buffer → Buffer
grow junk zero needed b = b
grow junk (suc fuel) needed b =
    let rest =
      grow junk fuel needed
        (record b { length = b.length + 1024; bytes = b.bytes ++ replicate 1024 junk }) in
    if leb b.length needed then rest else b

-- `buffer_append`. Every round adds 1024 bytes, so that the fuel outlasts the loop.
pub append : ℕ → Buffer → List ℕ → Buffer
unfolding grow write_at
append junk b src =
    let needed = b.cursor + length src + 1 in
    let b' = grow junk (needed + 1) needed b in
    record b' { bytes = write_at b'.bytes b'.cursor src; cursor = b'.cursor + length src }

-- `buffer_reset`
pub reset : Buffer → Buffer
reset b = record b { cursor = 0 }

-- `*b->cursor++ = '\0'`
pub terminate : Buffer → Buffer
unfolding write_at
terminate b = record b { bytes = write_at b.bytes b.cursor (0 ∷ []); cursor = b.cursor + 1 }

-- `header_field` and `header_value`, on the members of the connection that they use.
pub header_field : ℕ → HeaderState × Buffer → List ℕ → HeaderState × Buffer
header_field junk (field, b) src = (field, append junk b src)
header_field junk (value, b) src = (field, append junk (terminate b) src)

pub header_value : ℕ → HeaderState × Buffer → List ℕ → HeaderState × Buffer
header_value junk (value, b) src = (value, append junk b src)
header_value junk (field, b) src = (value, append junk (terminate b) src)

-- `strchr(start, 0)` in `buffer_pushlstring`: the text up to the next zero byte, and what follows
-- it. `none` is a search that leaves the block.
pub push_string : List ℕ → Option (List ℕ × List ℕ)
push_string [] = none
push_string (b ∷ bs) =
    let later = Option.map (λ (t : List ℕ × List ℕ). (b ∷ t.0, t.1)) (push_string bs) in
    if b == 0 then some ([], bs) else later

-- The loop of `script_response` over the headers, from `c` on up to `left` bytes further. Each
-- round passes two zero bytes, so that `left` rounds are enough.
pub read_headers : ℕ → ℕ → List ℕ → Option (List (List ℕ × List ℕ))
read_headers zero left c = if left == 0 then some [] else none
read_headers (suc fuel) left c =
    let more : Option (List (List ℕ × List ℕ)) = elim (push_string c) [
      | none ↦ none
      | some (name, c') ↦ elim (push_string c') [
        | none ↦ none
        | some (text, c'') ↦ elim (read_headers fuel (left - (length name + length text + 2)) c'') [
          | none ↦ none
          | some rest ↦ some ((name, text) ∷ rest)
        ]
      ]
    ] in
    if left == 0 then some [] else more

-- What `script_response` reads from `headers->buffer` up to `headers->cursor`.
pub headers_of : Buffer → Option (List (List ℕ × List ℕ))
unfolding read_headers
headers_of b = read_headers b.cursor b.cursor b.bytes
