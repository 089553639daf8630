-- ===== src/Args/Example.antt =====
-- Concrete stand-ins for the parameters of the models of Args, and the arguments without options.
use wrk_quic.Prelude.{ℕ, ◌≡◌, refl, Bool, true, Option, some, List, [], ◌∷◌, ℤ, pos}
use wrk_quic.Args.{Parsed, defaults, parse_args, parse_options}

abbrev pub atoi : List ℕ → ℤ
atoi s = pos 10

abbrev pub inet_addr : List ℕ → ℕ
inet_addr s = 0

abbrev pub script_parse_url : List ℕ → Option Bool
script_parse_url s = some true

abbrev pub url : List ℕ
url = b'u' ∷ []

abbrev pub by_default : Parsed
by_default = record { cfg = record defaults { rate = 18446744073709551615 }; headers = [] }

pub parse_args-by_default :
    parse_args atoi inet_addr true script_parse_url [] (url ∷ []) ≡ some (by_default, url, true)
unfolding parse_args parse_options
parse_args-by_default = refl
