-- ===== src/Print/Latencies.antt =====
-- Which latency the table that src/wrk.c prints is about, for which arguments.
use wrk_quic.Prelude.{ℕ, ◌^◌, ◌≡◌, ap, Bool, Option, some, List, ℤ, ltb, ◌&&◌, if◌then◌else◌}
use wrk_quic.Platform.{Floating, Histogram}
use wrk_quic.Stats.{alloc}
use wrk_quic.Units.{scan_metric}
use wrk_quic.Args.{Parsed, parse_args}
use wrk_quic.Args.Members.{last_number}
use wrk_quic.Report.{Totals}
use wrk_quic.Report.Corrected.{reported-parse_args}
use wrk_quic.Print.{Conversions}
use wrk_quic.Print.Ending.{latency_stats}

module _ (atoi : List ℕ → ℤ) (inet_addr : List ℕ → ℕ) (have_quic : Bool) {Parts : Type 0}
    (script_parse_url : List ℕ → Option Parts) {V Hist : Type 0} (f : Floating V)
    (h : Histogram V Hist) (c : Conversions V) (qsort : (ℕ → ℕ → ℤ) → List ℕ → List ℕ)
    (lowest highest : Hist → ℕ) (spectrum : Hist → List ℕ) where
  -- For accepted arguments, the statistics behind the line Latency of the table, which the function
  -- done of a script gets too, have as histogram, least and greatest value those of the latency that is
  -- corrected for delayed starts, if the last rate that was given is positive and below 2 ^ 63, and
  -- those of the uncorrected one otherwise.
  pub latency_stats-parse_args :
      (t : Totals Hist) (options : List (ℕ × List ℕ)) (rest : List (List ℕ)) (r : Parsed)
      (url : List ℕ) (parts : Parts)
      → parse_args atoi inet_addr have_quic script_parse_url options rest ≡ some (r, url, parts)
      → let rate = last_number scan_metric b'R' 0 options in
        let hist =
          if ltb 0 rate && ltb rate (2 ^ 63) then t.latency_histogram else t.u_latency_histogram in
        latency_stats f h c qsort lowest highest spectrum r.cfg t
        ≡ record (alloc 10) { min = lowest hist; max = highest hist; histogram = some hist }
  unfolding latency_stats
  latency_stats-parse_args t options rest r url parts e =
      ap
        (λ hist. record (alloc {Hist = Hist} 10) {
          min = lowest hist;
          max = highest hist;
          histogram = some hist;
        })
        (reported-parse_args atoi inet_addr have_quic script_parse_url t options rest r url parts e)
