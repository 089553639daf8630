-- ===== src/Url.antt =====
-- The parts of the URL: `script_parse_url` of src/script.c and `copy_url_part` of src/wrk.c. What
-- `http_parser_parse_url` of src/http_parser.c finds is an argument.
pub mod Copies
mod Tests
use wrk_quic.Prelude.{
  ℕ, zero, suc, ◌+◌, ◌/◌, ◌%◌, ◌^◌, Bool, true, false, not, Option, none, some, List, [], ◌++◌, ◌∷◌,
  ◌==◌, if◌then◌else◌, take, drop,
}

-- `enum http_parser_url_fields`, of which the program names four.
pub data Field : Type 0 where
  schema host port path : Field

abbrev pub index : Field → ℕ
index schema = 0
index host = 1
index port = 2
index path = 3

-- `struct http_parser_url`, with `field_data` as two functions.
pub record Parts : Type 0 where
  pub field_set : ℕ
  pub off : Field → ℕ
  pub len : Field → ℕ

-- `parts->field_set & (1 << field)`
unfoldable pub has : Parts → Field → Bool
has p field = p.field_set / 2 ^ index field % 2 == 1

-- `&url[off]`, of `len` bytes.
pub slice : List ℕ → Parts → Field → List ℕ
slice url p field = take (p.len field) (drop (p.off field) url)

-- `script_parse_url`, from whether the parser failed and the parts that it stored.
unfoldable pub script_parse_url : Bool → Parts → Bool
unfolding has
script_parse_url failed p =
    if failed
    then false
    else if not (has p schema)
    then false
    else if not (has p host)
    then false
    else true

-- `copy_url_part`: the block that `zcalloc` clears, with the part at its start; `none` is NULL.
pub copy_url_part : List ℕ → Parts → Field → Option (List ℕ)
unfolding has slice
copy_url_part url p field = if has p field then some (slice url p field ++ (0 ∷ [])) else none

-- The string that `push_url_part` pushes, or `none` for nil.
pub push_url_part : List ℕ → Parts → Field → Option (List ℕ)
unfolding has slice
push_url_part url p field = if has p field then some (slice url p field) else none

-- `path` in `script_create`: from the path to the end of the URL, with the query.
pub path_of : List ℕ → Parts → List ℕ
unfolding has
path_of url p = if has p path then drop (p.off path) url else b'/' ∷ []
