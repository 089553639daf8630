-- ===== src/Script/Machine.antt =====
-- A small machine that stands for Lua in the tests of this folder: values on a stack, tables by
-- value, and functions that give fixed strings.
use wrk_quic.Prelude.{
  ℕ, suc, ◌-◌, ◌≡◌, refl, ap, ◌∙◌, Bool, true, false, Option, none, some, List, [], ◌∷◌, ◌++◌, map,
  if◌then◌else◌, ◌==◌, ℤ, pos, negsuc, pos_part, length, drop, get_elem?,
}
use wrk_quic.Lua.{Lua, IsStack, same, Kind, boolean, nil, number, string, table, function, other}
use wrk_quic.Script.Copy.{Scalar, of_boolean, of_nil, of_number, of_string, push_scalar}

pub data Value : Type 0 where
  scalar : Scalar ℕ → Value
  table_of : List (Scalar ℕ × Scalar ℕ) → Value
  returns : List (List ℕ) → Value
  opaque : Value

-- `globals` and `fields` answer by name, whichever table is asked.
pub record Machine : Type 0 where
  pub stack : List Value
  pub globals : List ℕ → Value
  pub fields : List ℕ → Value

abbrev push : Machine → Value → Machine
push l v = record l { stack = v ∷ l.stack }

abbrev value_of : Option Value → Value
value_of none = opaque
value_of (some v) = v

abbrev place : ℕ → ℤ → ℕ
place height (pos n) = height - n
place height (negsuc n) = n

abbrev at : Machine → ℤ → Value
at l i = value_of (get_elem? l.stack (place (length l.stack) i))

abbrev same_scalar : Scalar ℕ → Scalar ℕ → Bool
same_scalar (of_number m) (of_number n) = m == n
same_scalar (of_string s) (of_string t) = same s t
same_scalar _ _ = false

abbrev after : Scalar ℕ → List (Scalar ℕ × Scalar ℕ) → List (Scalar ℕ × Scalar ℕ)
after of_nil entries = entries
after key [] = []
after key ((k, v) ∷ rest) = let later = after key rest in if same_scalar key k then rest else later

abbrev step : Machine → Scalar ℕ → List (Scalar ℕ × Scalar ℕ) → Machine × Bool
step l key entries = elim (after key entries) [
  | [] ↦ (record l { stack = drop 1 l.stack }, false)
  | entry ∷ _ ↦ (record l { stack = scalar (entry.1) ∷ scalar (entry.0) ∷ drop 1 l.stack }, true)
]

abbrev next_of : Machine → Value → Value → Machine × Bool
next_of l (scalar key) (table_of entries) = step l key entries
next_of l _ _ = (l, false)

abbrev assign : Value → Value → Value → Value
assign (table_of entries) (scalar k) (scalar v) = table_of (entries ++ ((k, v) ∷ []))
assign t _ _ = t

-- The table below a key and a value gets the new entry.
abbrev set_top : List Value → List Value
set_top (v ∷ k ∷ t ∷ rest) = assign t k v ∷ rest
set_top s = s

abbrev kind_of : Value → Kind
kind_of (scalar (of_boolean b)) = boolean
kind_of (scalar of_nil) = nil
kind_of (scalar (of_number n)) = number
kind_of (scalar (of_string s)) = string
kind_of (table_of entries) = table
kind_of (returns texts) = function
kind_of opaque = other

abbrev pub text_of : Value → List ℕ
text_of (scalar (of_string s)) = s
text_of _ = []

abbrev number_of : Value → ℕ
number_of (scalar (of_number n)) = n
number_of _ = 0

abbrev is_number_of : Value → Bool
is_number_of (scalar (of_number n)) = true
is_number_of _ = false

abbrev truth : Value → Bool
truth (scalar (of_boolean b)) = b
truth _ = true

abbrev results_of : List Value → List Value
results_of (returns texts ∷ rest) = map (λ t. scalar (of_string t)) texts
results_of _ = []

abbrev pub results_at : Machine → List Value
results_at l = results_of l.stack

abbrev pub machine : Lua Machine ℕ
machine = record {
  new_state = record { stack = []; globals = λ name. opaque; fields = λ name. opaque };
  open_libs = λ l. l;
  do_string = λ l s. l;
  do_file = λ l s. (l, false);
  new_metatable = λ l s. push l opaque;
  get_metatable = λ l s. push l opaque;
  set_metatable = λ l i. record l { stack = drop 1 l.stack };
  register = λ l t. l;
  get_top = λ l. length l.stack;
  pop = λ l n. record l { stack = drop n l.stack };
  push_value = λ l i. push l (at l i);
  push_nil = λ l. push l (scalar of_nil);
  push_boolean = λ l b. push l (scalar (of_boolean b));
  push_number = λ l n. push l (scalar (of_number n));
  push_integer = λ l n. push l (scalar (of_number (pos_part n)));
  push_string = λ l s. push l (scalar (of_string s));
  push_function = λ l f. push l opaque;
  new_userdata = λ l n. push l opaque;
  new_table = λ l. push l (table_of []);
  get_global = λ l name. push l (l.globals name);
  set_global = λ l name. record l { stack = drop 1 l.stack };
  get_field = λ l i name. push l (l.fields name);
  set_field = λ l i name. record l { stack = drop 1 l.stack };
  set_table = λ l i. record l { stack = set_top l.stack };
  raw_set = λ l i. record l { stack = set_top l.stack };
  raw_set_index = λ l i n. record l { stack = drop 1 l.stack };
  obj_len = λ l i. 0;
  next = λ l i. next_of l (at l (negsuc 0)) (at l i);
  call = λ l n r. record l { stack = results_at l ++ drop (suc n) l.stack };
  kind = λ l i. kind_of (at l i);
  to_boolean = λ l i. truth (at l i);
  to_number = λ l i. number_of (at l i);
  to_string = λ l i. text_of (at l i);
  is_number = λ l i. is_number_of (at l i);
  is_string = λ l i. false;
  check_number = λ l i. number_of (at l i);
  check_int = λ l i. pos (number_of (at l i));
}

abbrev pub stack_of : Machine → List Value
stack_of l = l.stack

pub machine-IsStack : IsStack machine stack_of text_of results_at
machine-IsStack = record {
  get_top_length = λ l. refl;
  get_global_push = λ l name. (l.globals name, refl);
  get_field_push = λ l i name. (l.fields name, refl);
  call_results = λ l v below e. ap (λ s. results_at l ++ drop 1 s) e;
  pop_drop = λ l n h. refl;
  to_string_text = λ l v below e. ap (λ s. text_of (value_of (get_elem? s 0))) e;
}

-- `t[key] = value` for the table on top.
abbrev pub store : Machine → Scalar ℕ → Scalar ℕ → Machine
store l key value = record l { stack = set_top (scalar value ∷ scalar key ∷ l.stack) }

push_scalar-push : (l : Machine) (v : Scalar ℕ) → push_scalar machine l v ≡ push l (scalar v)
push_scalar-push l (of_boolean b) = refl
push_scalar-push l of_nil = refl
push_scalar-push l (of_number n) = refl
push_scalar-push l (of_string s) = refl

pub set_table_stores :
    (l : Machine) (key value : Scalar ℕ)
    → machine.set_table (push_scalar machine (push_scalar machine l key) value) (negsuc 2)
      ≡ store l key value
set_table_stores l key value =
    ap (λ m. machine.set_table m (negsuc 2))
      (push_scalar-push (push_scalar machine l key) value
        ∙ ap (λ m. push m (scalar value)) (push_scalar-push l key))

-- A thread's own state in which the names have the given values.
abbrev pub with_names : (List ℕ → Value) → (List ℕ → Value) → Machine
with_names globals fields = record { stack = []; globals = globals; fields = fields }
