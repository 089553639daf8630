-- ===== src/Args/Members.antt =====
-- The members of the configuration that `parse_args` of src/wrk.c leaves, against the options that
-- are given.
use wrk_quic.Prelude.{
  ℕ, ◌-◌, ◌^◌, ◌≡◌, refl, ap, ◌∙◌, Bool, false, not, ◌||◌, Option, some, none, List, [], arith, ℤ,
  ◌==◌, if◌then◌else◌, mul64,
}
use wrk_quic.Connection.{Config}
use wrk_quic.Units.{scan_metric, scan_time}
use wrk_quic.Args.{Parsed, defaults, parse_option, with_number, parse_args}
use wrk_quic.Args.Follow.{
  follow, IsStep, follow-parse_args, follow-parse_options, parse_args-eq_some, finish-rate,
}

-- An option that the test accepts is given.
abbrev pub given : (ℕ → Bool) → List (ℕ × List ℕ) → Bool
given test = follow (λ o optarg b. b || test o) false

-- The number that `scan` reads from the last argument of the option `c`, or `n` without one.
abbrev pub or_else : Option ℕ → ℕ → ℕ
or_else none n = n
or_else (some m) n = m

abbrev pub number : (List ℕ → Option ℕ) → ℕ → ℕ → List ℕ → ℕ → ℕ
number scan c o optarg n = if o == c then or_else (scan optarg) n else n

abbrev pub last_number : (List ℕ → Option ℕ) → ℕ → ℕ → List (ℕ × List ℕ) → ℕ
last_number scan c n options = follow (number scan c) n options

-- `scan_time` in milliseconds.
abbrev pub scan_ms : List ℕ → Option ℕ
scan_ms s = elim (scan_time s) [ none ↦ none | some n ↦ some (mul64 n 1000) ]

module _ (atoi : List ℕ → ℤ) (inet_addr : List ℕ → ℕ) (have_quic : Bool) where
  affinity-IsStep :
      IsStep atoi inet_addr have_quic
        (λ c. c.affinity)
        (λ o optarg b. b || ((o == b'a') || (o == b'p')))
  unfolding IsStep parse_option with_number
  affinity-IsStep o optarg s s' h = ground (arith, h)

  batch-IsStep :
      IsStep atoi inet_addr have_quic
        (λ c. not c.record_all_responses)
        (λ o optarg b. b || (o == b'B'))
  unfolding IsStep parse_option with_number
  batch-IsStep o optarg s s' h = ground (arith, h)

  latency-IsStep : IsStep atoi inet_addr have_quic (λ c. c.latency) (λ o optarg b. b || (o == b'L'))
  unfolding IsStep parse_option with_number
  latency-IsStep o optarg s s' h = ground (arith, h)

  u_latency-IsStep :
      IsStep atoi inet_addr have_quic (λ c. c.u_latency) (λ o optarg b. b || (o == b'U'))
  unfolding IsStep parse_option with_number
  u_latency-IsStep o optarg s s' h = ground (arith, h)

  raw-IsStep : IsStep atoi inet_addr have_quic (λ c. c.raw) (λ o optarg b. b || (o == b'r'))
  unfolding IsStep parse_option with_number
  raw-IsStep o optarg s s' h = ground (arith, h)

  verbose-IsStep : IsStep atoi inet_addr have_quic (λ c. c.verbose) (λ o optarg b. b || (o == b'V'))
  unfolding IsStep parse_option with_number
  verbose-IsStep o optarg s s' h = ground (arith, h)

  threads-IsStep : IsStep atoi inet_addr have_quic (λ c. c.threads) (number scan_metric b't')
  unfolding IsStep parse_option with_number
  threads-IsStep o optarg s s' h = ground (arith, h)

  connections-IsStep :
      IsStep atoi inet_addr have_quic (λ c. c.connections) (number scan_metric b'c')
  unfolding IsStep parse_option with_number
  connections-IsStep o optarg s s' h = ground (arith, h)

  duration-IsStep : IsStep atoi inet_addr have_quic (λ c. c.duration) (number scan_time b'd')
  unfolding IsStep parse_option with_number
  duration-IsStep o optarg s s' h = ground (arith, h)

  timeout-IsStep : IsStep atoi inet_addr have_quic (λ c. c.timeout) (number scan_ms b'T')
  unfolding IsStep parse_option with_number
  timeout-IsStep o optarg s s' h = ground (arith, h)

  rate-IsStep : IsStep atoi inet_addr have_quic (λ c. c.rate) (number scan_metric b'R')
  unfolding IsStep parse_option with_number
  rate-IsStep o optarg s s' h = ground (arith, h)

  module _ {Parts : Type 0} (script_parse_url : List ℕ → Option Parts) where
    -- When the arguments are accepted, each flag is set exactly if its option is among them; the
    -- affinity of threads is set by the option a and by the option p, and B turns off the recording
    -- of all responses.
    pub flags-parse_args :
        (options : List (ℕ × List ℕ)) (rest : List (List ℕ)) (r : Parsed) (url : List ℕ)
        (parts : Parts)
        → parse_args atoi inet_addr have_quic script_parse_url options rest ≡ some (r, url, parts)
        → (r.cfg.affinity ≡ given (λ o. (o == b'a') || (o == b'p')) options)
          × (not r.cfg.record_all_responses ≡ given (λ o. o == b'B') options)
          × (r.cfg.latency ≡ given (λ o. o == b'L') options)
          × (r.cfg.u_latency ≡ given (λ o. o == b'U') options)
          × (r.cfg.raw ≡ given (λ o. o == b'r') options)
          × (r.cfg.verbose ≡ given (λ o. o == b'V') options)
    flags-parse_args options rest r url parts h = (
      follow-parse_args atoi inet_addr have_quic script_parse_url _ _ affinity-IsStep (λ c n. refl)
          options rest r url parts h,
      follow-parse_args atoi inet_addr have_quic script_parse_url _ _ batch-IsStep (λ c n. refl)
          options rest r url parts h,
      follow-parse_args atoi inet_addr have_quic script_parse_url _ _ latency-IsStep (λ c n. refl)
          options rest r url parts h,
      follow-parse_args atoi inet_addr have_quic script_parse_url _ _ u_latency-IsStep (λ c n. refl)
          options rest r url parts h,
      follow-parse_args atoi inet_addr have_quic script_parse_url _ _ raw-IsStep (λ c n. refl)
          options rest r url parts h,
      follow-parse_args atoi inet_addr have_quic script_parse_url _ _ verbose-IsStep (λ c n. refl)
          options rest r url parts h,
    )

    pub numbers-parse_args :
        (options : List (ℕ × List ℕ)) (rest : List (List ℕ)) (r : Parsed) (url : List ℕ)
        (parts : Parts)
        → parse_args atoi inet_addr have_quic script_parse_url options rest ≡ some (r, url, parts)
        → (r.cfg.threads ≡ last_number scan_metric b't' 2 options)
          × (r.cfg.connections ≡ last_number scan_metric b'c' 10 options)
          × (r.cfg.duration ≡ last_number scan_time b'd' 10 options)
          × (r.cfg.timeout ≡ last_number scan_ms b'T' 2000 options)
          × (r.cfg.rate ≡ (
              let rate = last_number scan_metric b'R' 0 options in
              if rate == 0 then 2 ^ 64 - 1 else rate))
    numbers-parse_args options rest r url parts h = (
      follow-parse_args atoi inet_addr have_quic script_parse_url _ _ threads-IsStep (λ c n. refl)
          options rest r url parts h,
      follow-parse_args atoi inet_addr have_quic script_parse_url _ _ connections-IsStep
          (λ c n. refl) options rest r url parts h,
      follow-parse_args atoi inet_addr have_quic script_parse_url _ _ duration-IsStep (λ c n. refl)
          options rest r url parts h,
      follow-parse_args atoi inet_addr have_quic script_parse_url _ _ timeout-IsStep (λ c n. refl)
          options rest r url parts h,
      rate-parse_args,
    )
      where
        rate-parse_args : r.cfg.rate ≡ (
            let rate = last_number scan_metric b'R' 0 options in
            if rate == 0 then 2 ^ 64 - 1 else rate)
        rate-parse_args =
            let (s, read, checked) =
              parse_args-eq_some atoi inet_addr have_quic script_parse_url options rest r url parts
                h in
            ap (λ (c : Config). c.rate)
              (finish-rate atoi inet_addr have_quic script_parse_url rest s r url parts checked)
            ∙ ap (λ n. if n == 0 then 2 ^ 64 - 1 else n)
                (follow-parse_options atoi inet_addr have_quic _ _ rate-IsStep options
                  (record { cfg = defaults; headers = [] }) s read)
