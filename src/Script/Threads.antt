-- ===== src/Script/Threads.antt =====
-- The methods of a thread in Lua, from src/script.c: `get` and `set` of a global of the thread's own
-- state, `stop`, and the address. The thread behind the user value is an argument, and its state is
-- another one than the caller's.
use wrk_quic.Prelude.{
  arith, ◌∷◌, ℕ, ◌<◌, ◌≡◌, refl, ap, ◌∙◌, Option, none, some, List, if◌then◌else◌, pos, negsuc,
  length, drop,
}
use wrk_quic.EventLoop.{EventLoop}
use wrk_quic.Lua.{
  Lua, IsStack, bytes, same, table, script_thread_get, script_thread_set, script_thread_stop,
}
use wrk_quic.Script.{script_addr_clone}
use wrk_quic.Script.Copy.{
  Copied, copied, and_then, copy_value, Iterates, Scalar, store_all, swap, copy_value-swap,
  push_scalar,
}

-- The parts of `thread` that a script reaches; an address is named by a number.
pub record Handle (L Loop : Type 0) : Type 0 where
  pub state : L
  pub addr : Option ℕ
  pub loop : Loop

module _ {L N : Type 0} (lua : Lua L N) where
  -- `script_thread_get`: the thread's state and the caller's; the bounds are those of the copy.
  pub thread_get : ℕ → ℕ → L → L → Copied L
  thread_get rounds depth t l =
      let t' = lua.get_global t (lua.to_string l (negsuc 0)) in
      and_then (copy_value lua rounds depth t' l (negsuc 0)) (λ s d. copied (lua.pop s 1) d)

  -- `script_thread_set`: the caller's state and the thread's.
  pub thread_set : ℕ → ℕ → L → L → Copied L
  thread_set rounds depth l t =
      let name = lua.to_string l (negsuc 1) in
      and_then (copy_value lua rounds depth l t (negsuc 0))
        (λ s d. copied s (lua.set_global d name))

  module _ {Loop : Type 0} (ae : EventLoop Loop) where
    pub thread_stop : Handle L Loop → Handle L Loop
    thread_stop t = record t { loop = ae.stop t.loop }

  module _ {Loop : Type 0} where
    -- `script_thread_index`; a thread without an address is not asked for it.
    pub script_thread_index : Handle L Loop → L → L
    script_thread_index t l =
        let key = lua.to_string l (pos 2) in
        let l = if same (bytes "get") key then lua.push_function l script_thread_get else l in
        let l = if same (bytes "set") key then lua.push_function l script_thread_set else l in
        let l = if same (bytes "stop") key then lua.push_function l script_thread_stop else l in
        let clone : L = elim t.addr [ none ↦ l | some a ↦ script_addr_clone lua a l ] in
        if same (bytes "addr") key then clone else l

    -- `script_thread_newindex`, for the address on top of the stack; `none` is an error in Lua.
    pub script_thread_newindex : ℕ → Handle L Loop → L → Option (Handle L Loop)
    script_thread_newindex a t l =
        if same (bytes "addr") (lua.to_string l (negsuc 1))
        then some (record t { addr = some a })
        else none

module _ {L N V : Type 0} (lua : Lua L N) (stack : L → List V) (text : V → List ℕ)
    (answer : L → List V) (laws : IsStack lua stack text answer)
    (store : L → Scalar N → Scalar N → L)
    (set_table_stores : (l : L) (key value : Scalar N)
      → lua.set_table (push_scalar lua (push_scalar lua l key) value) (negsuc 2)
        ≡ store l key value) where
  -- With bounds that are enough, `thread:get` of a global that is a table of scalars takes a value off
  -- the stack of that thread, if it has one, below those that the call itself pushed; the caller gets
  -- the table with keys and values swapped. It is asked that `lua_next` leaves the stack as it was
  -- when there is no entry left.
  pub thread_get-table :
      (rounds depth : ℕ) (t l end : L) (entries : List (Scalar N × Scalar N))
      → let t' = lua.get_global t (lua.to_string l (negsuc 0)) in
        lua.kind t' (negsuc 0) ≡ table
        → Iterates lua (negsuc 1) (lua.push_nil t') entries end
        → stack end ≡ stack t'
        → length entries < rounds
        → 1 < depth
        → 0 < length (stack t)
        → (s : L) × (thread_get lua rounds depth t l
            ≡ copied s (store_all lua store (lua.new_table l) (swap lua entries)))
          × (stack s ≡ drop 1 (stack t))
  unfolding thread_get and_then
  thread_get-table rounds depth t l end entries kind it same_stack lt deep used =
      let (v, pushed) = laws.get_global_push t (lua.to_string l (negsuc 0)) in
      let here : stack end ≡ v ∷ stack t = same_stack ∙ pushed in
      let popped : stack (lua.pop end 1) ≡ stack t =
        laws.pop_drop end 1 (rw here (omega arith)) ∙ ap (drop 1) here in
      (
        lua.pop (lua.pop end 1) 1,
        rw
            (copy_value-swap lua store set_table_stores rounds depth
              (lua.get_global t (lua.to_string l (negsuc 0))) l 0 entries end kind it lt deep)
            refl,
        laws.pop_drop (lua.pop end 1) 1 (rw popped used) ∙ ap (drop 1) popped,
      )
