-- ===== src/Script/Tests.antt =====
-- The models of src/script.c on concrete states, headers, samples and tables.
use wrk_quic.Prelude.{
  pos, ap, ℕ, ◌≡◌, refl, ◌↔◌, none, some, List, [], ◌∷◌, ◌++◌, inr, negsuc, length, arith,
}
use wrk_quic.Script.Responses.{feed_body, script_response, script_response-pieces}
use wrk_quic.Buffer.{reset, terminate}
use wrk_quic.Buffer.Bounds.{HasRoom}
use wrk_quic.Buffer.RoundTrip.{Pieces, feed_all}
use wrk_quic.Connection.{field}
use wrk_quic.Examples.{null}
use wrk_quic.Lua.{bytes}
use wrk_quic.Script.{split_header}
use wrk_quic.Script.Headers.{IsName, split_header_iff}
use wrk_quic.Script.Position.{script_verify_request, script_verify_request_place}
use wrk_quic.Script.Request.{
  alone, with_data, script_request, script_request-own, script_request-default,
}
use wrk_quic.Script.Copy.{
  copied, Iterates, ends, entry, Scalar, of_nil, of_number, of_string, store_all, swap,
}
use wrk_quic.Script.Threads.{thread_get, thread_get-table}
use wrk_quic.Script.Machine.{
  Value, scalar, table_of, returns, opaque, Machine, machine, stack_of, text_of, results_at,
  machine-IsStack, store, set_table_stores, with_names,
}

split_header_iff_example :
    (split_header (bytes "Host: a:b") ≡ some (bytes "Host", bytes "a:b"))
    ↔ (IsName (bytes "Host") × (bytes "Host: a:b" ≡ bytes "Host" ++ (b':' ∷ b' ' ∷ bytes "a:b")))
split_header_iff_example = split_header_iff (bytes "Host: a:b") (bytes "Host") (bytes "a:b")

-- A script with a function `request` of its own, that gives a request and data.
abbrev own_script : Machine
own_script = with_names (λ name. returns (bytes "data" ∷ bytes "GET" ∷ [])) (λ name. opaque)

script_request-own_example :
    ((script_request machine own_script).1 ≡ (bytes "GET", some (bytes "data")))
    × (stack_of (script_request machine own_script).0 ≡ [])
script_request-own_example =
    script_request-own machine stack_of text_of results_at machine-IsStack own_script
      (with_data (scalar (of_string (bytes "GET"))) (scalar (of_string (bytes "data")))) refl refl

-- A script whose request has a header without a colon, at which the parser stops.
abbrev bad_request : Machine
bad_request = with_names (λ name. returns (bytes "GET /\n\nHost" ∷ [])) (λ name. opaque)

script_verify_request_place_example :
    (script_verify_request machine (λ request. (9, 0)) bad_request).1 ≡ inr (3, 3)
script_verify_request_place_example =
    script_verify_request_place machine (λ request. (9, 0)) bad_request (bytes "GET /" ∷ [] ∷ [])
      (bytes "Ho") (bytes "t") b's' 0 ((refl, (refl, (refl, (refl, (refl, tt))))), (tt, tt))
      (refl, (refl, tt))
      (ap (λ r. r.0)
        (script_request-own machine stack_of text_of results_at machine-IsStack bad_request
          (alone (scalar (of_string (bytes "GET /\n\nHost")))) refl refl).0)
      refl

-- A script that stores such a function as `wrk.request`.
abbrev stored_script : Machine
stored_script =
    with_names (λ name. scalar of_nil) (λ name. returns (bytes "data" ∷ bytes "GET" ∷ []))

script_request-default_example :
    ((script_request machine stored_script).1 ≡ (bytes "data", none))
    × (length (stack_of (script_request machine stored_script).0) ≡ 1)
script_request-default_example =
    script_request-default machine stack_of text_of results_at machine-IsStack stored_script
      (scalar (of_string (bytes "data"))) (scalar (of_string (bytes "GET")) ∷ []) refl refl

-- A table with two entries, as the value of every global.
abbrev entries : List (Scalar ℕ × Scalar ℕ)
entries = (of_string (bytes "a"), of_number 1) ∷ (of_string (bytes "b"), of_number 2) ∷ []

abbrev source : List Value → Machine
source stack = record { stack = stack; globals = λ name. table_of entries; fields = λ name. opaque }

abbrev keeper : Machine
keeper = source (opaque ∷ [])

abbrev asking : Machine
asking = source (scalar (of_string (bytes "t")) ∷ [])

abbrev on_key : Scalar ℕ → Machine
on_key k = source (scalar k ∷ table_of entries ∷ opaque ∷ [])

abbrev on_entry : Scalar ℕ → Scalar ℕ → Machine
on_entry k v = source (scalar v ∷ scalar k ∷ table_of entries ∷ opaque ∷ [])

abbrev at_end : Machine
at_end = source (table_of entries ∷ opaque ∷ [])

iterates : Iterates machine (negsuc 1) (on_key of_nil) entries at_end
iterates =
    entry (on_key of_nil) (on_entry (of_string (bytes "a")) (of_number 1)) at_end
      (of_string (bytes "a")) (of_number 1) _ refl (refl, refl) (refl, refl)
      (entry (on_key (of_string (bytes "a"))) (on_entry (of_string (bytes "b")) (of_number 2))
        at_end (of_string (bytes "b")) (of_number 2) _ refl (refl, refl) (refl, refl)
        (ends (on_key (of_string (bytes "b"))) at_end refl))

thread_get-table_example :
    (s : Machine) × (thread_get machine 3 2 keeper asking
      ≡ copied s (store_all machine store (machine.new_table asking) (swap machine entries)))
    × (stack_of s ≡ [])
thread_get-table_example =
    thread_get-table machine stack_of text_of results_at machine-IsStack store set_table_stores 3 2
      keeper asking at_end entries refl iterates refl (omega arith) (omega arith) (omega arith)

null-HasRoom : HasRoom 0 null
null-HasRoom = record { block = refl; fits = omega arith }

-- A response with one header and a body in two pieces, for a script that only has `response`.
abbrev age : Pieces
age = record { name = bytes "Age"; more_name = []; text = bytes "1"; more_text = bytes "2" ∷ [] }

abbrev store_text : Machine → List ℕ → List ℕ → Machine
store_text l name text = store l (of_string name) (of_string text)

script_response-pieces_example :
    script_response machine 200
      (terminate (feed_all 0 (field, reset null) (age ∷ [])).1)
      (feed_body 0 (reset null) (bytes "he" ∷ bytes "llo" ∷ []))
      (bytes "data")
      asking
    ≡ some (
      machine.call
          (machine.push_string
            (machine.push_string
              (store_text
                (machine.new_table
                  (machine.push_integer (machine.get_global asking (bytes "response")) (pos 200)))
                (bytes "Age")
                (bytes "12"))
              (bytes "hello"))
            (bytes "data"))
          4
          (some 0),
      (
        reset (terminate (feed_all 0 (field, reset null) (age ∷ [])).1),
        reset (feed_body 0 (reset null) (bytes "he" ∷ bytes "llo" ∷ [])),
      ),
    )
script_response-pieces_example =
    script_response-pieces machine store_text (λ l name text. refl) 0 200 asking null null age []
      (bytes "he" ∷ bytes "llo" ∷ []) (bytes "data") null-HasRoom null-HasRoom (omega arith)
