-- ===== src/Url/Tests.antt =====
-- The URL "http://h".
use wrk_quic.Prelude.{ℕ, ◌+◌, ◌≡◌, ◌≤◌, refl, true, false, List, [], ◌∷◌, arith}
use wrk_quic.Url.{Field, schema, host, port, path, Parts, has, script_parse_url}
use wrk_quic.Url.Copies.{IsInside, Found, script_parse_url-Found}

abbrev url : List ℕ
url = b'h' ∷ b't' ∷ b't' ∷ b'p' ∷ b':' ∷ b'/' ∷ b'/' ∷ b'h' ∷ []

abbrev off : Field → ℕ
off schema = 0
off host = 7
off port = 0
off path = 0

abbrev len : Field → ℕ
len schema = 4
len host = 1
len port = 0
len path = 0

abbrev parts : Parts
parts = record { field_set = 3; off = off; len = len }

inside : IsInside url parts
inside = record { inside = go }
  where
    go : (field : Field) → has parts field ≡ true → parts.off field + parts.len field ≤ 8
    go schema h = omega arith
    go host h = omega arith
    go port h = omega arith
    go path h = omega arith

script_parse_url-Found_example : (false ≡ false) × Found url parts schema × Found url parts host
unfolding script_parse_url has
script_parse_url-Found_example = script_parse_url-Found url false parts inside (ground arith) refl
