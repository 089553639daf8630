-- ===== src/Script/Responses.antt =====
-- `script_response` of src/script.c, which hands a response to the function `response` of a script,
-- from what the parser delivers through the callbacks of src/wrk.c, `response_body` among them.
use wrk_quic.Prelude.{
  ℕ, ◌≡◌, refl, ap, ◌∙◌, Option, none, some, List, [], ◌∷◌, take, map, arith, pos, negsuc,
}
use wrk_quic.Connection.{Buffer, field}
use wrk_quic.Buffer.{append, reset, terminate, headers_of}
use wrk_quic.Buffer.Bounds.{contents, HasRoom, append-HasRoom}
use wrk_quic.Buffer.Read.{AllNoZero}
use wrk_quic.Buffer.RoundTrip.{
  Pieces, join, header, feed_all, headers_round_trip, reset-HasRoom, contents-reset,
}
use wrk_quic.Lua.{Lua, bytes}

-- `response_body`
response_body : ℕ → Buffer → List ℕ → Buffer
response_body junk b at = append junk b at

-- The calls of `response_body` for the pieces of a body.
unfoldable pub feed_body : ℕ → Buffer → List (List ℕ) → Buffer
unfolding response_body
feed_body junk b [] = b
feed_body junk b (x ∷ xs) = feed_body junk (response_body junk b x) xs

feed_body_lem :
    (junk : ℕ) (b : Buffer) (xs : List (List ℕ))
    → HasRoom 0 b
    → contents (feed_body junk b xs) ≡ join (contents b) xs
unfolding feed_body response_body
feed_body_lem junk b [] room = refl
feed_body_lem junk b (x ∷ xs) room =
    let done = append-HasRoom junk b x room in
    feed_body_lem junk (append junk b x) xs
      (record { block = done.0.block; fits = omega (arith, done.0.fits) })
    ∙ ap (λ t. join t xs) done.1

module _ {L N : Type 0} (lua : Lua L N) where
  -- The headers in the table on top of the stack.
  set_headers_read : List (List ℕ × List ℕ) → L → L
  set_headers_read [] l = l
  set_headers_read ((name, text) ∷ rest) l =
      set_headers_read rest (lua.raw_set (lua.push_string (lua.push_string l name) text) (negsuc 2))

  -- `script_response`: the state and the two buffers; `none` is a read behind the block of headers.
  pub script_response : ℕ → Buffer → Buffer → List ℕ → L → Option (L × (Buffer × Buffer))
  unfolding set_headers_read
  script_response status headers body request l =
      let l = lua.push_integer (lua.get_global l (bytes "response")) (pos status) in
      let l = lua.new_table l in
      elim (headers_of headers) [
        | none ↦ none
        | some hs ↦
            let l = lua.push_string (set_headers_read hs l) (take body.cursor body.bytes) in
            let l = lua.call (lua.push_string l request) 4 (some 0) in
            some (l, (reset headers, reset body))
      ]

  script_response_lem :
      (status : ℕ) (h b : Buffer) (user : List ℕ) (l : L) (hs : List (List ℕ × List ℕ))
      (text : List ℕ)
      → headers_of h ≡ some hs
      → contents b ≡ text
      → let called = lua.push_integer (lua.get_global l (bytes "response")) (pos status) in
        script_response status h b user l
        ≡ some (
          lua.call
              (lua.push_string
                (lua.push_string (set_headers_read hs (lua.new_table called)) text)
                user)
              4
              (some 0),
          (reset h, reset b),
        )
  unfolding script_response
  script_response_lem status h b user l hs text e e' = rw (script_response, e, e') refl

  module _ (store : L → List ℕ → List ℕ → L)
      (raw_set_stores : (l : L) (name text : List ℕ)
        → lua.raw_set (lua.push_string (lua.push_string l name) text) (negsuc 2)
          ≡ store l name text) where
    -- `t[name] = text` for the table `t` on top of the stack, for all headers in order.
    abbrev pub store_headers : List (List ℕ × List ℕ) → L → L
    store_headers [] l = l
    store_headers ((name, text) ∷ rest) l = store_headers rest (store l name text)

    set_headers_read-store_headers :
        (hs : List (List ℕ × List ℕ)) (l : L) → set_headers_read hs l ≡ store_headers hs l
    unfolding set_headers_read
    set_headers_read-store_headers [] l = refl
    set_headers_read-store_headers ((name, text) ∷ rest) l =
        rw (raw_set_stores l name text) (set_headers_read-store_headers rest (store l name text))

    -- A script receives a response as the server sent it: however the parser cuts the headers, which
    -- have no zero byte, and the body into pieces, the function `response` is called with the status,
    -- a table in which each name is set to its value, in order, the whole body, and the user's data,
    -- and both buffers are empty again.
    pub script_response-pieces :
        (junk status : ℕ) (l : L) (hb bb : Buffer) (p : Pieces) (ps : List Pieces)
        (body : List (List ℕ)) (user : List ℕ)
        → HasRoom 0 hb
        → HasRoom 0 bb
        → AllNoZero (map header (p ∷ ps))
        → let headers = terminate (feed_all junk (field, reset hb) (p ∷ ps)).1 in
          let received = feed_body junk (reset bb) body in
          let called = lua.push_integer (lua.get_global l (bytes "response")) (pos status) in
          let table = store_headers (map header (p ∷ ps)) (lua.new_table called) in
          script_response status headers received user l
          ≡ some (
            lua.call (lua.push_string (lua.push_string table (join [] body)) user) 4 (some 0),
            (reset headers, reset received),
          )
    script_response-pieces junk status l hb bb p ps body user room room' clean =
        script_response_lem status _ _ user l _ _ (headers_round_trip junk hb p ps room clean).2 (
          feed_body_lem junk (reset bb) body (reset-HasRoom bb room')
          ∙ ap (λ t. join t body) (contents-reset bb))
        ∙ ap
            (λ t. some (
              lua.call (lua.push_string (lua.push_string t (join [] body)) user) 4 (some 0),
              (
                reset (terminate (feed_all junk (field, reset hb) (p ∷ ps)).1),
                reset (feed_body junk (reset bb) body),
              ),
            ))
            (set_headers_read-store_headers (map header (p ∷ ps)) _)
