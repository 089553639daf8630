-- ===== src/Args/Follow.antt =====
-- The options of src/wrk.c one after the other: a member of the configuration that each option
-- changes in its own way has been changed by all of them when `parse_args` succeeds.
use wrk_quic.Prelude.{
  ℕ, ◌≡◌, ap, sym, ◌∙◌, ◌^◌, ◌-◌, ◌==◌, if◌then◌else◌, Bool, Option, some, List, [], ◌∷◌, arith, ℤ,
  Option-cases, inl, inr,
}
use wrk_quic.Connection.{Config}
use wrk_quic.Args.{Parsed, defaults, parse_option, parse_options, finish, parse_args}

-- The changes of all options, from the first on.
abbrev pub follow : {A : Type 0} → (ℕ → List ℕ → A → A) → A → List (ℕ × List ℕ) → A
follow step a [] = a
follow step a ((o, optarg) ∷ rest) = follow step (step o optarg a) rest

module _ (atoi : List ℕ → ℤ) (inet_addr : List ℕ → ℕ) (have_quic : Bool) where
  -- An accepted option changes the member as `step` says.
  unfoldable pub IsStep : {A : Type 0} → (Config → A) → (ℕ → List ℕ → A → A) → Type 0
  IsStep get step =
      (o : ℕ) (optarg : List ℕ) (s s' : Parsed)
      → parse_option atoi inet_addr have_quic o optarg s ≡ some s'
      → get s'.cfg ≡ step o optarg (get s.cfg)

  pub follow-parse_options :
      {A : Type 0} (get : Config → A) (step : ℕ → List ℕ → A → A)
      → IsStep get step
      → (options : List (ℕ × List ℕ)) (s s' : Parsed)
      → parse_options atoi inet_addr have_quic options s ≡ some s'
      → get s'.cfg ≡ follow step (get s.cfg) options
  unfolding parse_options IsStep
  follow-parse_options get step is_step [] s s' h =
      let same : s ≡ s' = ground (arith, h) in ap (λ (t : Parsed). get t.cfg) (sym same)
  follow-parse_options get step is_step ((o, optarg) ∷ rest) s s' h =
      elim (Option-cases (parse_option atoi inet_addr have_quic o optarg s)) [
        | inl refused ↦ ground (arith, h, refused)
        | inr (t, read) ↦
            follow-parse_options get step is_step rest t s' (ground (arith, h, read))
            ∙ ap (λ a. follow step a rest) (is_step o optarg s t read)
      ]

  module _ {Parts : Type 0} (script_parse_url : List ℕ → Option Parts) where
    -- The options are read first, then the checks are made.
    pub parse_args-eq_some :
        (options : List (ℕ × List ℕ)) (rest : List (List ℕ)) (r : Parsed) (url : List ℕ)
        (parts : Parts)
        → parse_args atoi inet_addr have_quic script_parse_url options rest ≡ some (r, url, parts)
        → (s : Parsed) × (parse_options atoi inet_addr have_quic options
              (record { cfg = defaults; headers = [] })
            ≡ some s)
          × (finish atoi inet_addr have_quic script_parse_url rest s ≡ some (r, url, parts))
    unfolding parse_args
    parse_args-eq_some options rest r url parts h =
        elim (Option-cases (
          parse_options atoi inet_addr have_quic options
            (record { cfg = defaults; headers = [] }))) [
              | inl refused ↦ ground (arith, h, refused)
              | inr (s, read) ↦ (s, read, ground (arith, h, read))
            ]

    -- The checks change nothing but the rate.
    pub finish-rate :
        (rest : List (List ℕ)) (s r : Parsed) (url : List ℕ) (parts : Parts)
        → finish atoi inet_addr have_quic script_parse_url rest s ≡ some (r, url, parts)
        → r.cfg ≡ record (s.cfg) { rate = if s.cfg.rate == 0 then 2 ^ 64 - 1 else s.cfg.rate }
    unfolding finish
    finish-rate [] s r url parts h = ground (arith, h)
    finish-rate (u ∷ more) s r url parts h = elim (Option-cases (script_parse_url u)) [
      | inl invalid ↦ ground (arith, h, invalid)
      | inr (p, valid) ↦ ground (arith, h, valid)
    ]

    -- A member that the checks leave alone.
    pub follow-parse_args :
        {A : Type 0} (get : Config → A) (step : ℕ → List ℕ → A → A)
        → IsStep get step
        → ((cfg : Config) (n : ℕ) → get (record cfg { rate = n }) ≡ get cfg)
        → (options : List (ℕ × List ℕ)) (rest : List (List ℕ)) (r : Parsed) (url : List ℕ)
          (parts : Parts)
        → parse_args atoi inet_addr have_quic script_parse_url options rest ≡ some (r, url, parts)
        → get r.cfg ≡ follow step (get defaults) options
    follow-parse_args get step is_step no_rate options rest r url parts h =
        let (s, read, checked) = parse_args-eq_some options rest r url parts h in
        ap get (finish-rate rest s r url parts checked)
        ∙ no_rate s.cfg (if s.cfg.rate == 0 then 2 ^ 64 - 1 else s.cfg.rate)
        ∙ follow-parse_options get step is_step options (record { cfg = defaults; headers = [] }) s
            read
