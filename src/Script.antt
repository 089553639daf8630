-- ===== src/Script.antt =====
-- src/script.c: what C and Lua exchange. Every function takes the state of Lua and returns it; what
-- the system and other parts of the program answer are arguments. The URL stands in Url. Checks of the type of a user value are left out, and so is its memory.
pub mod Request
pub mod Position
pub mod Copy
pub mod StatsTable
pub mod Headers
pub mod Threads
pub mod Responses
pub mod Machine
mod Tests
use wrk_quic.Prelude.{
  ℕ, zero, suc, ◌+◌, ◌-◌, Bool, true, false, not, Option, none, some, List, [], ◌∷◌, ◌++◌, ltb, leb,
  ◌==◌, if◌then◌else◌, ℤ, pos, negsuc, to_int64, length,
}
use wrk_quic.Lua.{
  Lua, bytes, Kind, function, CFunction, script_wrk_lookup, script_wrk_connect, script_wrk_time_us,
  addrlib, statslib, threadlib,
}
use wrk_quic.Stats.{Errors}
use wrk_quic.Url.{Field, schema, host, port, Parts, push_url_part, path_of}

-- `table_field`
pub data FieldValue : Type 0 where
  is_function : CFunction → FieldValue
  is_number : ℕ → FieldValue
  is_string : List ℕ → FieldValue
  is_nil : FieldValue

-- `lua_isfunction`
abbrev pub kind_is_function : Kind → Bool
kind_is_function function = true
kind_is_function _ = false

-- The split of a header in `script_create`: at the first colon, if a space follows.
unfoldable pub split_header : List ℕ → Option (List ℕ × List ℕ)
split_header [] = none
split_header (c ∷ cs) =
    let after : Option (List ℕ × List ℕ) = elim cs [
      | [] ↦ none
      | d ∷ rest ↦ if d == b' ' then some ([], rest) else none
    ] in
    let later : Option (List ℕ × List ℕ) = elim (split_header cs) [
      | none ↦ none
      | some (name, text) ↦ some (c ∷ name, text)
    ] in
    if c == b':' then after else later

module _ {L N : Type 0} (lua : Lua L N) where
  push_field : FieldValue → L → L
  push_field (is_function f) l = lua.push_function l f
  push_field (is_number n) l = lua.push_integer l (to_int64 n)
  push_field (is_string s) l = lua.push_string l s
  push_field is_nil l = lua.push_nil l

  -- `set_fields`
  pub set_fields : ℕ → List (List ℕ × FieldValue) → L → L
  unfolding push_field
  set_fields index [] l = l
  set_fields index ((name, v) ∷ rest) l =
      set_fields index rest (lua.set_field (push_field v l) (pos index) name)

  -- `push_url_part` and `set_field`
  set_url_part : ℕ → List ℕ → List ℕ → Parts → Field → L → L
  set_url_part index name url p field l =
      lua.set_field
        (elim (push_url_part url p field) [ none ↦ lua.push_nil l | some s ↦ lua.push_string l s ])
        (pos index) name

  -- The loop over `headers` in `script_create`.
  pub set_headers : List (List ℕ) → L → L
  set_headers [] l = l
  set_headers (h ∷ rest) l = set_headers rest (elim (split_header h) [
    | none ↦ l
    | some (name, text) ↦ lua.set_table (lua.push_string (lua.push_string l name) text) (pos 5)
  ])

  -- `script_create`; a failing file is only reported.
  pub script_create : Option (List ℕ) → List ℕ → Parts → List (List ℕ) → Bool → ℤ → L
  unfolding set_fields set_url_part set_headers
  script_create file url p headers is_tcp version =
      let l = lua.do_string (lua.open_libs lua.new_state) (bytes "wrk = require \"wrk\"") in
      let l = lua.register (lua.new_metatable l (bytes "wrk.addr")) addrlib in
      let l = lua.register (lua.new_metatable l (bytes "wrk.stats")) statslib in
      let l = lua.register (lua.new_metatable l (bytes "wrk.thread")) threadlib in
      let l = lua.set_global (lua.push_integer l version) (bytes "version") in
      let l = lua.set_global (lua.push_boolean l is_tcp) (bytes "tcp") in
      let l = lua.get_global l (bytes "wrk") in
      let l = set_url_part 4 (bytes "scheme") url p schema l in
      let l = set_url_part 4 (bytes "host") url p host l in
      let l = set_url_part 4 (bytes "port") url p port l in
      let fields =
        (bytes "lookup", is_function script_wrk_lookup)
        ∷ (bytes "connect", is_function script_wrk_connect)
        ∷ (bytes "time_us", is_function script_wrk_time_us)
        ∷ (bytes "path", is_string (path_of url p))
        ∷ [] in
      let l = set_fields 4 fields l in
      let l = set_headers headers (lua.get_field l (pos 4) (bytes "headers")) in
      let l = lua.pop l 5 in elim file [ none ↦ l | some name ↦ (lua.do_file l name).0 ]

  -- `script_resolve`
  pub script_resolve : List ℕ → List ℕ → L → L × Bool
  script_resolve name service l =
      let l = lua.get_field (lua.get_global l (bytes "wrk")) (negsuc 0) (bytes "resolve") in
      let l = lua.call (lua.push_string (lua.push_string l name) service) 2 (some 0) in
      let l = lua.get_field l (negsuc 0) (bytes "addrs") in
      let count = lua.obj_len l (negsuc 0) in (lua.pop l 2, ltb 0 count)

  -- `script_push_thread`; a user value is named by a number.
  pub script_push_thread : ℕ → L → L
  script_push_thread t l =
      lua.set_metatable (lua.get_metatable (lua.new_userdata l t) (bytes "wrk.thread")) (negsuc 1)

  -- The loop over the arguments in `script_init`, from the place `i` on.
  set_arguments : ℕ → List (List ℕ) → L → L
  set_arguments i [] l = l
  set_arguments i (a ∷ rest) l =
      set_arguments (i + 1) rest (lua.raw_set_index (lua.push_string l a) (negsuc 1) i)

  -- `script_init` for the state of `main` and that of the thread `t`. `lua_call` on the former may
  -- change the latter by the methods of the thread, so `call_setup` is that call on both.
  pub script_init : (L → L → L × L) → ℕ → List (List ℕ) → L → L → L × L
  unfolding script_push_thread set_arguments
  script_init call_setup t args l own =
      let own = script_push_thread t (lua.get_global own (bytes "wrk")) in
      let own = lua.set_field own (negsuc 1) (bytes "thread") in
      let l = lua.get_field (lua.get_global l (bytes "wrk")) (negsuc 0) (bytes "setup") in
      let (l, own) = call_setup (script_push_thread t l) own in
      let own = lua.new_table (lua.get_field own (negsuc 0) (bytes "init")) in
      let own = lua.call (set_arguments 0 args own) 1 (some 0) in (lua.pop l 1, lua.pop own 1)

  -- `script_is_function`, and what it is asked for.
  pub script_is_function : List ℕ → L → L × Bool
  script_is_function name l =
      let l' = lua.get_global l name in (lua.pop l' 1, kind_is_function (lua.kind l' (negsuc 0)))

  pub script_is_static : L → L × Bool
  unfolding script_is_function
  script_is_static l = let (l', found) = script_is_function (bytes "request") l in (l', not found)

  pub script_want_response : L → L × Bool
  unfolding script_is_function
  script_want_response l = script_is_function (bytes "response") l

  pub script_has_done : L → L × Bool
  unfolding script_is_function
  script_has_done l = script_is_function (bytes "done") l

  pub script_summary : ℕ → ℕ → ℕ → L → L
  unfolding set_fields
  script_summary duration requests received l =
      set_fields 1
        ((bytes "duration", is_number duration)
          ∷ (bytes "requests", is_number requests)
          ∷ (bytes "bytes", is_number received)
          ∷ [])
        (lua.new_table l)

  pub script_errors : Errors → L → L
  unfolding set_fields
  script_errors e l =
      let l =
        set_fields 2
          ((bytes "connect", is_number e.connect)
            ∷ (bytes "read", is_number e.read)
            ∷ (bytes "write", is_number e.write)
            ∷ (bytes "status", is_number e.status)
            ∷ (bytes "timeout", is_number e.timeout)
            ∷ [])
          (lua.new_table l) in
      lua.set_field l (pos 1) (bytes "errors")

  -- `script_done`, for the two user values.
  pub script_done : ℕ → ℕ → L → L
  script_done latency requests l =
      let l = lua.push_value (lua.get_global l (bytes "done")) (pos 1) in
      let l = lua.get_metatable (lua.new_userdata l latency) (bytes "wrk.stats") in
      let l = lua.set_metatable l (pos 4) in
      let l = lua.get_metatable (lua.new_userdata l requests) (bytes "wrk.stats") in
      let l = lua.set_metatable l (pos 5) in lua.pop (lua.call l 3 (some 0)) 1

  -- `script_addr_clone`, for an address that is named by a number.
  pub script_addr_clone : ℕ → L → L
  script_addr_clone a l =
      lua.set_metatable (lua.get_metatable (lua.new_userdata l a) (bytes "wrk.addr")) (negsuc 1)

  -- The loop of `script_wrk_lookup` over the addresses.
  set_addresses : ℕ → List ℕ → L → L
  unfolding script_addr_clone
  set_addresses i [] l = l
  set_addresses i (a ∷ rest) l =
      set_addresses (i + 1) rest (lua.raw_set_index (script_addr_clone a l) (negsuc 1) i)

  -- `script_wrk_lookup`, from what `getaddrinfo` finds for a stream or for datagrams, for the host and
  -- the service on the stack. `none` is the end of the program.
  pub wrk_lookup : (Bool → List ℕ → List ℕ → Option (List ℕ)) → L → Option L
  unfolding set_addresses
  wrk_lookup getaddrinfo l =
      let l' = lua.get_global l (bytes "tcp") in
      let is_tcp = lua.to_boolean l' (negsuc 0) in
      let l'' = lua.pop l' 1 in
      elim (getaddrinfo is_tcp (lua.to_string l'' (negsuc 1)) (lua.to_string l'' (negsuc 0))) [
        | none ↦ none
        | some addrs ↦ some (set_addresses 1 addrs (lua.new_table l''))
      ]

  -- `script_wrk_connect`, from whether there is a socket and whether it connects.
  pub wrk_connect : Bool → Bool → L → L
  wrk_connect opened connected l = lua.push_boolean l (if opened then connected else false)
