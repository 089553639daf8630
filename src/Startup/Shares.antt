-- ===== src/Startup/Shares.antt =====
-- How src/wrk.c divides the connections among the threads.
use wrk_quic.Prelude.{ℕ, ◌+◌, ◌*◌, ◌≤◌, ◌<◌, ◌≡◌, Bool, Option, some, List, ℤ, arith}
use native.Mathlib.Nat.{div-add-mod, mod-lt}
use wrk_quic.Args.{Parsed, parse_args}
use wrk_quic.Args.Checked.{parse_args-IsUsable}
use wrk_quic.Startup.{share}

module _ (atoi : List ℕ → ℤ) (inet_addr : List ℕ → ℕ) (have_quic : Bool) {Parts : Type 0}
    (script_parse_url : List ℕ → Option Parts) where
  -- For accepted arguments, every thread gets at least one connection, all threads together at most
  -- as many as were asked for, and short of that by less than the number of threads.
  pub share_bounds :
      (options : List (ℕ × List ℕ)) (rest : List (List ℕ)) (r : Parsed) (url : List ℕ)
      (parts : Parts)
      → parse_args atoi inet_addr have_quic script_parse_url options rest ≡ some (r, url, parts)
      → (0 < share r.cfg)
        × (r.cfg.threads * share r.cfg ≤ r.cfg.connections)
        × (r.cfg.connections < r.cfg.threads * share r.cfg + r.cfg.threads)
  unfolding share
  share_bounds options rest r url parts h =
      let (usable, positive, valid, first) =
        parse_args-IsUsable atoi inet_addr have_quic script_parse_url options rest r url parts h in
      let whole = div-add-mod r.cfg.connections r.cfg.threads in
      let remainder = mod-lt r.cfg.connections usable.some_thread in
      (positive, omega (arith, whole), omega (arith, whole, remainder))
