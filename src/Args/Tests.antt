-- ===== src/Args/Tests.antt =====
-- The arguments "-p 10 -t 4 u" and those of a missing argument.
use wrk_quic.Prelude.{
  ℕ, ◌≡◌, ◌<◌, ◌-◌, ◌^◌, ◌/◌, refl, true, false, not, ◌||◌, some, none, List, [], ◌∷◌, pos, ◌==◌,
}
use wrk_quic.Units.{
  scan_metric, scan_units, skip_space, scan_u64, scan_unsigned, scan_digits, scan_word,
}
use wrk_quic.Args.{Parsed, defaults, parse_args, parse_options, parse_option}
use wrk_quic.Args.Example.{atoi, inet_addr, script_parse_url, url}
use wrk_quic.Args.Checked.{IsUsable, parse_args-IsUsable}
use wrk_quic.Args.Members.{given, flags-parse_args}

abbrev options : List (ℕ × List ℕ)
options = (b'p', b'1' ∷ b'0' ∷ []) ∷ (b't', b'4' ∷ []) ∷ []

abbrev four_threads : Parsed
four_threads = record {
  cfg = record defaults { threads = 4; affinity = true; http_version = pos 10; rate = 2 ^ 64 - 1 };
  headers = [];
}

accepted :
    parse_args atoi inet_addr true script_parse_url options (url ∷ [])
    ≡ some (four_threads, url, true)
unfolding parse_args parse_options parse_option scan_metric scan_units skip_space scan_u64
    scan_unsigned scan_digits scan_word
accepted = refl

-- Without a URL, the arguments are refused.
refused : parse_args atoi inet_addr true script_parse_url options [] ≡ none
unfolding parse_args parse_options parse_option scan_metric scan_units skip_space scan_u64
    scan_unsigned scan_digits scan_word
refused = refl

parse_args-IsUsable_example :
    IsUsable four_threads.cfg
    × (0 < 10 / 4)
    × (script_parse_url url ≡ some true)
    × ((more : List (List ℕ)) × (url ∷ [] ≡ url ∷ more))
parse_args-IsUsable_example =
    parse_args-IsUsable atoi inet_addr true script_parse_url options (url ∷ []) four_threads url
      true accepted

flags-parse_args_example :
    (true ≡ given (λ o. (o == b'a') || (o == b'p')) options)
    × (not true ≡ given (λ o. o == b'B') options)
    × (false ≡ given (λ o. o == b'L') options)
    × (false ≡ given (λ o. o == b'U') options)
    × (false ≡ given (λ o. o == b'r') options)
    × (false ≡ given (λ o. o == b'V') options)
flags-parse_args_example =
    flags-parse_args atoi inet_addr true script_parse_url options (url ∷ []) four_threads url true
      accepted
