-- ===== src/Script/Request.antt =====
-- `script_request` and `script_bind` of src/script.c: the bytes of a request, from a function of the
-- user's script or from that of src/wrk.lua. The sizes of the buffers are left out.
use wrk_quic.Prelude.{
  ◌≤◌, ℕ, suc, ◌+◌, ◌-◌, ◌≡◌, refl, ap, ◌∙◌, true, false, Option, none, some, List, [], ◌∷◌, ◌++◌,
  ◌==◌, if◌then◌else◌, negsuc, length, arith, drop, ap₂, length-append,
}
use wrk_quic.Lua.{Lua, bytes, IsStack}
use wrk_quic.Script.{kind_is_function}

module _ {L N : Type 0} (lua : Lua L N) where
  -- The function to call, and how many values `pop` counts.
  pub push_callee : List ℕ → L → L × ℕ
  push_callee name l =
      let own = lua.get_global l name in
      let wrk = lua.get_global own (bytes "wrk") in
      if kind_is_function (lua.kind own (negsuc 0))
      then (own, 1)
      else (lua.get_field wrk (negsuc 0) name, 3)

  -- What follows the call: the user's data are read only if there are two results.
  take_results : ℕ → ℕ → L → L × (List ℕ × Option (List ℕ))
  take_results level count called =
      let text = lua.to_string called (negsuc 0) in
      let below = lua.pop called count in
      if lua.get_top called - level == 2
      then (lua.pop below count, (lua.to_string below (negsuc 0), some text))
      else (below, (text, none))

  -- `script_request`: the state, the request, and the user's data.
  pub script_request : L → L × (List ℕ × Option (List ℕ))
  unfolding push_callee take_results
  script_request l =
      let (callee, count) = push_callee (bytes "request") l in
      take_results (lua.get_top l) count (lua.call callee 0 none)

  pub script_bind : L → L × List ℕ
  unfolding push_callee
  script_bind l =
      let (callee, count) = push_callee (bytes "bind") l in
      let called = lua.call callee 0 (some 1) in
      (lua.pop called count, lua.to_string called (negsuc 0))

-- What a function of the user's script gives: a request alone, or with data for the response.
pub data Reply (V : Type 0) : Type 0 where
  alone : V → Reply V
  with_data : V → V → Reply V

-- The results on the stack, and the two parts of a reply.
abbrev pub results : {V : Type 0} → Reply V → List V
results (alone r) = r ∷ []
results (with_data r u) = u ∷ r ∷ []

abbrev pub parts : {V : Type 0} → (V → List ℕ) → Reply V → List ℕ × Option (List ℕ)
parts text (alone r) = (text r, none)
parts text (with_data r u) = (text r, some (text u))

length-drop_two :
    {V : Type 0} (further : List V) (a b : V) (below : List V)
    → length (drop 2 (further ++ (a ∷ b ∷ below))) ≡ length below + length further
length-drop_two [] a b below = omega arith
length-drop_two (x ∷ []) a b below = omega arith
length-drop_two (x ∷ y ∷ zs) a b below = omega (arith, length-append zs (a ∷ b ∷ below))

module _ {L N V : Type 0} (lua : Lua L N) (stack : L → List V) (text : V → List ℕ)
    (answer : L → List V) (laws : IsStack lua stack text answer) where
  take_results-one :
      (level count : ℕ) (called : L) (r : V) (below : List V)
      → stack called ≡ r ∷ below
      → (suc (length below) - level == 2) ≡ false
      → count ≤ suc (length below)
      → ((take_results lua level count called).1 ≡ (text r, none))
        × (stack (take_results lua level count called).0 ≡ drop count (r ∷ below))
  unfolding take_results
  take_results-one level count called r below e test fits =
      rw (laws.get_top_length called, e, test)
        (
          ap (λ t. (t, none)) (laws.to_string_text called r below e),
          laws.pop_drop called count (rw e fits) ∙ ap (drop count) e,
        )

  take_results-two :
      (level : ℕ) (called : L) (u r : V) (below : List V)
      → stack called ≡ u ∷ r ∷ below
      → (suc (suc (length below)) - level == 2) ≡ true
      → ((take_results lua level 1 called).1 ≡ (text r, some (text u)))
        × (stack (take_results lua level 1 called).0 ≡ below)
  unfolding take_results
  take_results-two level called u r below e test =
      let popped : stack (lua.pop called 1) ≡ r ∷ below =
        laws.pop_drop called 1 (rw e (omega arith)) ∙ ap (drop 1) e in
      rw (laws.get_top_length called, e, test)
        (
          ap₂ (λ t d. (t, some d)) (laws.to_string_text (lua.pop called 1) r below popped)
              (laws.to_string_text called u (r ∷ below) e),
          laws.pop_drop (lua.pop called 1) 1 (rw popped (omega arith)) ∙ ap (drop 1) popped,
        )

  push_callee-own :
      (l : L)
      → kind_is_function (lua.kind (lua.get_global l (bytes "request")) (negsuc 0)) ≡ true
      → push_callee lua (bytes "request") l ≡ (lua.get_global l (bytes "request"), 1)
  unfolding push_callee
  push_callee-own l own = rw own refl

  own_results :
      (l : L) (rs : List V)
      → answer (lua.get_global l (bytes "request")) ≡ rs
      → stack (lua.call (lua.get_global l (bytes "request")) 0 none) ≡ rs ++ stack l
  own_results l rs answers =
      laws.call_results (lua.get_global l (bytes "request")) _ (stack l)
        (laws.get_global_push l (bytes "request")).1
      ∙ ap (λ vs. vs ++ stack l) answers

  -- A function `request` of the user's script gives a request alone or with data for the response:
  -- the program takes the request, and the data if there are any, and the stack is as it was before.
  pub script_request-own :
      (l : L) (reply : Reply V)
      → kind_is_function (lua.kind (lua.get_global l (bytes "request")) (negsuc 0)) ≡ true
      → answer (lua.get_global l (bytes "request")) ≡ results reply
      → ((script_request lua l).1 ≡ parts text reply) × (stack (script_request lua l).0 ≡ stack l)
  unfolding script_request
  script_request-own l (alone r) own answers = rw (push_callee-own l own) (
      take_results-one (lua.get_top l) 1 (lua.call (lua.get_global l (bytes "request")) 0 none) r
        (stack l) (own_results l _ answers) (rw (laws.get_top_length l) (ground arith))
        (omega arith))
  script_request-own l (with_data r u) own answers = rw (push_callee-own l own) (
      take_results-two (lua.get_top l) (lua.call (lua.get_global l (bytes "request")) 0 none) u r
        (stack l) (own_results l _ answers) (rw (laws.get_top_length l) (ground arith)))

  -- With the function of src/wrk.lua, or one that a script stores in its place: the program sends
  -- the last result, never takes data, and leaves one value on the stack for each further result.
  pub script_request-default :
      (l : L) (last : V) (further : List V)
      → kind_is_function (lua.kind (lua.get_global l (bytes "request")) (negsuc 0)) ≡ false
      → let wrk = lua.get_global (lua.get_global l (bytes "request")) (bytes "wrk") in
        answer (lua.get_field wrk (negsuc 0) (bytes "request")) ≡ last ∷ further
        → ((script_request lua l).1 ≡ (text last, none))
          × (length (stack (script_request lua l).0) ≡ length (stack l) + length further)
  unfolding script_request push_callee
  script_request-default l last further other answers =
      let own = lua.get_global l (bytes "request") in
      let (nothing, pushed) = laws.get_global_push l (bytes "request") in
      let (table, pushed') = laws.get_global_push own (bytes "wrk") in
      let (callee, pushed'') =
        laws.get_field_push (lua.get_global own (bytes "wrk")) (negsuc 0) (bytes "request") in
      let below = table ∷ nothing ∷ stack l in
      let e =
        laws.call_results _ callee below
          (pushed'' ∙ ap (λ s. callee ∷ s) (pushed' ∙ ap (λ s. table ∷ s) pushed))
        ∙ ap (λ vs. vs ++ below) answers in
      let done =
        take_results-one (lua.get_top l) 3 _ last (further ++ below) e
          (rw (laws.get_top_length l, length-append further below) (ground arith))
          (omega (arith, length-append further below)) in
      rw other (done.0, ap length done.1 ∙ length-drop_two further table nothing (stack l))
