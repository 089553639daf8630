-- ===== src/Report/Corrected.antt =====
-- Which latency `main` of src/wrk.c puts into its table, for which arguments.
use wrk_quic.Prelude.{
  ℕ, ◌-◌, ◌^◌, ◌≡◌, Bool, Option, some, List, ℤ, arith, ◌==◌, ltb, ◌&&◌, if◌then◌else◌,
}
use wrk_quic.Connection.{Config}
use wrk_quic.Units.{scan_metric}
use wrk_quic.Args.{Parsed, parse_args}
use wrk_quic.Args.Members.{last_number, numbers-parse_args}
use wrk_quic.Report.{Totals, is_disabled, reported}

reported_rate :
    {Hist : Type 0} (t : Totals Hist) (cfg : Config) (rate : ℕ)
    → cfg.rate ≡ (if rate == 0 then 2 ^ 64 - 1 else rate)
    → reported cfg t
      ≡ (if ltb 0 rate && ltb rate (2 ^ 63) then t.latency_histogram else t.u_latency_histogram)
unfolding reported is_disabled
reported_rate t cfg rate h = ground (arith, h)

module _ (atoi : List ℕ → ℤ) (inet_addr : List ℕ → ℕ) (have_quic : Bool) {Parts : Type 0}
    (script_parse_url : List ℕ → Option Parts) where
  -- For accepted arguments, the latency for the table is the one that is corrected for delayed starts
  -- if the last rate that was given is positive and below 2 ^ 63, and the uncorrected one otherwise.
  pub reported-parse_args :
      {Hist : Type 0} (t : Totals Hist) (options : List (ℕ × List ℕ)) (rest : List (List ℕ))
      (r : Parsed) (url : List ℕ) (parts : Parts)
      → parse_args atoi inet_addr have_quic script_parse_url options rest ≡ some (r, url, parts)
      → let rate = last_number scan_metric b'R' 0 options in
        reported r.cfg t
        ≡ (if ltb 0 rate && ltb rate (2 ^ 63) then t.latency_histogram else t.u_latency_histogram)
  reported-parse_args t options rest r url parts h =
      let (threads, connections, duration, timeout, rate) =
        numbers-parse_args atoi inet_addr have_quic script_parse_url options rest r url parts h in
      reported_rate t r.cfg (last_number scan_metric b'R' 0 options) rate
