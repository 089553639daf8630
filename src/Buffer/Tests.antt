-- ===== src/Buffer/Tests.antt =====
-- The headers of a short response, received in pieces.
use wrk_quic.Prelude.{◌≡◌, refl, [], ◌∷◌, map, arith, some}
use wrk_quic.Connection.{field, value}
use wrk_quic.Buffer.{append, reset, terminate, headers_of}
use wrk_quic.Buffer.Bounds.{contents, HasRoom, append-HasRoom}
use wrk_quic.Buffer.RoundTrip.{Pieces, header, feed_all, headers_round_trip}
use wrk_quic.Examples.{null}

-- `Age: 12` and `ETag: x`, the first in pieces.
abbrev age : Pieces
age = record {
  name = b'A' ∷ [];
  more_name = (b'g' ∷ b'e' ∷ []) ∷ [];
  text = b'1' ∷ [];
  more_text = (b'2' ∷ []) ∷ [];
}

abbrev etag : Pieces
etag = record {
  name = b'E' ∷ b'T' ∷ b'a' ∷ b'g' ∷ [];
  more_name = [];
  text = b'x' ∷ [];
  more_text = [];
}

null-HasRoom : HasRoom 0 null
null-HasRoom = record { block = refl; fits = omega arith }

append-HasRoom_example :
    HasRoom 2 (append 0 null (1 ∷ 2 ∷ [])) × (contents (append 0 null (1 ∷ 2 ∷ [])) ≡ 1 ∷ 2 ∷ [])
append-HasRoom_example = append-HasRoom 0 null (1 ∷ 2 ∷ []) null-HasRoom

headers_round_trip_example :
    let (s, b') = feed_all 0 (field, reset null) (age ∷ etag ∷ []) in
    (s ≡ value)
    × HasRoom 1 (terminate b')
    × (headers_of (terminate b') ≡ some (map header (age ∷ etag ∷ [])))
headers_round_trip_example = headers_round_trip 0 null age (etag ∷ []) null-HasRoom (omega arith)
