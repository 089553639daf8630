-- ===== src/Args.antt =====
-- `parse_args` of src/wrk.c. What `getopt_long` finds, options with their arguments and what is
-- left behind them, is the C library's, and so are `atoi` and `inet_addr`; the parser of URLs is a
-- parameter. `have_quic` is the build flag HAVE_QUIC.
pub mod Checked
pub mod Follow
pub mod Members
pub mod Example
mod Tests
use wrk_quic.Prelude.{
  ℕ, ◌^◌, ◌-◌, Bool, true, false, ◌||◌, ◌&&◌, Option, none, some, List, [], ◌∷◌, ◌++◌, ltb, ◌==◌,
  if◌then◌else◌, mul64, ℤ, pos,
}
use wrk_quic.Connection.{Config, tcp_proto, quic_proto}
use wrk_quic.Units.{scan_metric, scan_time}

-- `SOCKET_TIMEOUT_MS`
abbrev pub socket_timeout_ms : ℕ
socket_timeout_ms = 2000

-- `cfg` and the entries of `headers`, in order.
pub record Parsed : Type 0 where
  pub cfg : Config
  pub headers : List (List ℕ)

-- The configuration without options; `memset` clears what is not named in the source.
abbrev pub defaults : Config
defaults = record {
  threads = 2;
  connections = 10;
  duration = 10;
  timeout = socket_timeout_ms;
  pipeline = 0;
  rate = 0;
  delay_ms = 0;
  bind = 0;
  affinity = false;
  latency = false;
  u_latency = false;
  dynamic = false;
  record_all_responses = true;
  raw = false;
  verbose = false;
  script = none;
  http_version = pos 11;
  proto = tcp_proto;
}

-- A member is set to a number that was read, or the option is refused.
pub with_number : Option ℕ → (ℕ → Config) → Parsed → Option Parsed
with_number none set s = none
with_number (some n) set s = some (record s { cfg = set n })

module _ (atoi : List ℕ → ℤ) (inet_addr : List ℕ → ℕ) (have_quic : Bool) where
  -- The `switch` over one option; `none` is the result -1. The case of p has no `break`.
  unfoldable pub parse_option : ℕ → List ℕ → Parsed → Option Parsed
  unfolding with_number
  parse_option o optarg s =
      let cfg = s.cfg in
      if o == b't'
      then with_number (scan_metric optarg) (λ n. record cfg { threads = n }) s
      else if o == b'c'
      then with_number (scan_metric optarg) (λ n. record cfg { connections = n }) s
      else if have_quic && (o == b'q')
      then some (record s { cfg = record cfg { proto = quic_proto } })
      else if o == b'd'
      then with_number (scan_time optarg) (λ n. record cfg { duration = n }) s
      else if o == b's'
      then some (record s { cfg = record cfg { script = some optarg } })
      else if o == b'H'
      then some (record s { headers = s.headers ++ (optarg ∷ []) })
      else if o == b'L'
      then some (record s { cfg = record cfg { latency = true } })
      else if o == b'p'
      then some (record s { cfg = record cfg { http_version = atoi optarg; affinity = true } })
      else if o == b'a'
      then some (record s { cfg = record cfg { affinity = true } })
      else if o == b'b'
      then some (record s { cfg = record cfg { bind = inet_addr optarg } })
      else if o == b'B'
      then some (record s { cfg = record cfg { record_all_responses = false } })
      else if o == b'U'
      then some (record s { cfg = record cfg { u_latency = true } })
      else if o == b'T'
      then with_number (scan_time optarg) (λ n. record cfg { timeout = mul64 n 1000 }) s
      else if o == b'r'
      then some (record s { cfg = record cfg { raw = true } })
      else if o == b'R'
      then with_number (scan_metric optarg) (λ n. record cfg { rate = n }) s
      else if o == b'V'
      then some (record s { cfg = record cfg { verbose = true } })
      else if o == b'v'
      then some s
      else none

  unfoldable pub parse_options : List (ℕ × List ℕ) → Parsed → Option Parsed
  parse_options [] s = some s
  parse_options ((o, optarg) ∷ rest) s = elim (parse_option o optarg s) [
    | none ↦ none
    | some s' ↦ parse_options rest s'
  ]

  module _ {Parts : Type 0} (script_parse_url : List ℕ → Option Parts) where
    -- The checks behind the options. The result carries the URL and its parts.
    pub finish : List (List ℕ) → Parsed → Option (Parsed × List ℕ × Parts)
    finish [] s = none
    finish (url ∷ rest) s =
        let cfg = s.cfg in
        if (cfg.threads == 0) || (cfg.duration == 0) then none else elim (script_parse_url url) [
          | none ↦ none
          | some parts ↦
              if (cfg.connections == 0) || ltb cfg.connections cfg.threads
              then none
              else some (
                record s {
                  cfg = record cfg { rate = if cfg.rate == 0 then 2 ^ 64 - 1 else cfg.rate };
                },
                url,
                parts,
              )
        ]

    -- `parse_args`
    unfoldable pub parse_args : List (ℕ × List ℕ) → List (List ℕ) → Option (Parsed × List ℕ × Parts)
    unfolding finish
    parse_args options rest =
        elim (parse_options options (record { cfg = defaults; headers = [] })) [
          | none ↦ none
          | some s ↦ finish rest s
        ]
