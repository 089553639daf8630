-- ===== src/Lua.antt =====
-- The calls of LuaJIT, a copy of which stands in deps/luajit, that src/script.c makes on a state `L`,
-- with numbers `N`. An index is a position on the stack, counted from the top if it is negative.
-- Strings are bytes.
use Prim.Native.Char.{code}
use Prim.Native.String.{String}
use wrk_quic.Prelude.{
  ℕ, ◌≤◌, ◌≡◌, Bool, true, false, ◌&&◌, ◌==◌, Option, none, List, [], ◌∷◌, ◌++◌, ℤ, negsuc, length,
  drop,
}

-- The bytes of a text in ASCII. `String` has its own `[]` and `∷`.
abbrev pub bytes : String → List ℕ
bytes String.[] = []
bytes (String.◌∷◌ c s) = code c ∷ bytes s

-- `strcmp(a, b) == 0`
abbrev pub same : List ℕ → List ℕ → Bool
same [] [] = true
same (x ∷ xs) (y ∷ ys) = let rest = same xs ys in (x == y) && rest
same _ _ = false

-- `lua_type`
pub data Kind : Type 0 where
  boolean nil number string table function other : Kind

-- The functions of src/script.c that Lua may call.
pub data CFunction : Type 0 where
  script_wrk_lookup script_wrk_connect script_wrk_time_us : CFunction
  script_thread_get script_thread_set script_thread_stop : CFunction
  script_stats_percentile : CFunction

-- `luaL_reg` tables.
pub data Library : Type 0 where
  addrlib statslib threadlib : Library

-- `call` takes the number of arguments and that of results, `none` for LUA_MULTRET; `do_file` says
-- whether it failed; `next` says whether there was an entry.
pub record Lua (L N : Type 0) : Type 0 where
  pub new_state : L
  pub open_libs : L → L
  pub do_string : L → List ℕ → L
  pub do_file : L → List ℕ → L × Bool
  pub new_metatable : L → List ℕ → L
  pub get_metatable : L → List ℕ → L
  pub set_metatable : L → ℤ → L
  pub register : L → Library → L
  pub get_top : L → ℕ
  pub pop : L → ℕ → L
  pub push_value : L → ℤ → L
  pub push_nil : L → L
  pub push_boolean : L → Bool → L
  pub push_number : L → N → L
  pub push_integer : L → ℤ → L
  pub push_string : L → List ℕ → L
  pub push_function : L → CFunction → L
  pub new_userdata : L → ℕ → L
  pub new_table : L → L
  pub get_global : L → List ℕ → L
  pub set_global : L → List ℕ → L
  pub get_field : L → ℤ → List ℕ → L
  pub set_field : L → ℤ → List ℕ → L
  pub set_table : L → ℤ → L
  pub raw_set : L → ℤ → L
  pub raw_set_index : L → ℤ → ℕ → L
  pub obj_len : L → ℤ → ℕ
  pub next : L → ℤ → L × Bool
  pub call : L → ℕ → Option ℕ → L
  pub kind : L → ℤ → Kind
  pub to_boolean : L → ℤ → Bool
  pub to_number : L → ℤ → N
  pub to_string : L → ℤ → List ℕ
  pub is_number : L → ℤ → Bool
  pub is_string : L → ℤ → Bool
  pub check_number : L → ℤ → N
  pub check_int : L → ℤ → ℤ

-- What the manual says of the stack for the calls that a request makes. The values on the stack of a
-- state are a list with the top first; `text` is what `lua_tolstring` gives for a value, and `answer`
-- the results of the function that is called.
pub record IsStack {L N V : Type 0} (lua : Lua L N) (stack : L → List V) (text : V → List ℕ)
    (answer : L → List V) : Type 0 where
  pub get_top_length : (l : L) → lua.get_top l ≡ length (stack l)
  pub get_global_push :
      (l : L) (name : List ℕ) → (v : V) × (stack (lua.get_global l name) ≡ v ∷ stack l)
  pub get_field_push :
      (l : L) (i : ℤ) (name : List ℕ) → (v : V) × (stack (lua.get_field l i name) ≡ v ∷ stack l)
  pub call_results :
      (l : L) (v : V) (below : List V)
      → stack l ≡ v ∷ below
      → stack (lua.call l 0 none) ≡ answer l ++ below
  pub pop_drop : (l : L) (n : ℕ) → n ≤ length (stack l) → stack (lua.pop l n) ≡ drop n (stack l)
  pub to_string_text :
      (l : L) (v : V) (below : List V) → stack l ≡ v ∷ below → lua.to_string l (negsuc 0) ≡ text v
