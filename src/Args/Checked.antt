-- ===== src/Args/Checked.antt =====
-- What the rest of the program may rely on once `parse_args` of src/wrk.c has accepted the arguments.
use wrk_quic.Prelude.{
  ℕ, ◌/◌, ◌<◌, ◌≤◌, ◌≡◌, Bool, Option, some, List, [], ◌∷◌, arith, ℤ, Option-cases, inl, inr,
}
use native.Mathlib.Nat.{lt-div-mul-add}
use wrk_quic.Connection.{Config}
use wrk_quic.Args.{Parsed, defaults, parse_options, finish, parse_args}

div_pos : {a b : ℕ} → b ≤ a → 0 < b → 0 < a / b
div_pos {a = a} {b = b} le pos = grind (arith, lt-div-mul-add {a = a} {b = b} pos)

-- A configuration that the set-up of the threads can use: it divides by the number of threads, each
-- thread divides by its number of connections, and so does the pacing by the rate.
pub record IsUsable (cfg : Config) : Type 0 where
  pub some_thread : 0 < cfg.threads
  pub some_time : 0 < cfg.duration
  pub enough : cfg.threads ≤ cfg.connections
  pub paced : 0 < cfg.rate

module _ (atoi : List ℕ → ℤ) (inet_addr : List ℕ → ℕ) (have_quic : Bool) {Parts : Type 0}
    (script_parse_url : List ℕ → Option Parts) where
  finish-some :
      (rest : List (List ℕ)) (s : Parsed) {r : Parsed} {url : List ℕ} {parts : Parts}
      → finish atoi inet_addr have_quic script_parse_url rest s ≡ some (r, url, parts)
      → IsUsable r.cfg
        × (script_parse_url url ≡ some parts)
        × ((more : List (List ℕ)) × (rest ≡ url ∷ more))
  unfolding finish
  finish-some [] s h = ground (arith, h)
  finish-some (u ∷ more) s h = elim (Option-cases (script_parse_url u)) [
    | inl invalid ↦ ground (arith, h, invalid)
    | inr (p, valid) ↦ (
      record {
        some_thread = ground (arith, h, valid);
        some_time = ground (arith, h, valid);
        enough = ground (arith, h, valid);
        paced = ground (arith, h, valid);
      },
      ground (arith, h, valid),
      (more, ground (arith, h, valid)),
    )
  ]

  -- Arguments that are accepted give a configuration that the threads can use: at least one thread
  -- and one second, at least one connection for each thread, so that the connections of a thread,
  -- their quotient, are at least one, and a rate that is not 0. The URL is the first argument behind
  -- the options, and it could be parsed.
  pub parse_args-IsUsable :
      (options : List (ℕ × List ℕ)) (rest : List (List ℕ)) (r : Parsed) (url : List ℕ)
      (parts : Parts)
      → parse_args atoi inet_addr have_quic script_parse_url options rest ≡ some (r, url, parts)
      → IsUsable r.cfg
        × (0 < r.cfg.connections / r.cfg.threads)
        × (script_parse_url url ≡ some parts)
        × ((more : List (List ℕ)) × (rest ≡ url ∷ more))
  unfolding parse_args
  parse_args-IsUsable options rest r url parts h =
      elim (Option-cases (
        parse_options atoi inet_addr have_quic options (record { cfg = defaults; headers = [] }))) [
          | inl refused ↦ ground (arith, h, refused)
          | inr (s, read) ↦
              let (usable, valid, first) =
                finish-some rest s {r = r} {url = url} {parts = parts} (ground (arith, h, read)) in
              (usable, div_pos usable.enough usable.some_thread, valid, first)
        ]
