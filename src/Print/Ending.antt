-- ===== src/Print/Ending.antt =====
-- What src/wrk.c prints at the end: `print_stats`, `print_hdr_latency` and `main` from the running time on.
use wrk_quic.Prelude.{
  ℕ, Bool, ◌&&◌, some, List, [], ◌∷◌, ◌++◌, ◌==◌, if◌then◌else◌, ℤ, pos, negsuc, to_int32,
}
use wrk_quic.Platform.{Floating, Histogram}
use wrk_quic.Lua.{bytes}
use wrk_quic.Stats.{Stats, Errors, alloc, summarize, stdev, within_stdev}
use wrk_quic.Connection.{Config}
use wrk_quic.Report.{Totals, reported, is_disabled}
use wrk_quic.Print.{
  Conversions, pad_left, pad_right, print_units, print_stats_header, metric_text, binary_text,
  time_us_text,
}

module _ {V Hist : Type 0} (f : Floating V) (h : Histogram V Hist) (c : Conversions V)
    (qsort : (ℕ → ℕ → ℤ) → List ℕ → List ℕ) (raw : Bool) where
  -- `print_stats`, which also sorts the samples.
  pub print_stats : List ℕ → (V → Bool → List ℕ) → Stats Hist → List ℕ
  print_stats name fmt s =
      let (mean, s') = summarize f h qsort s in
      let sd = stdev f h s' mean in
      let inside = within_stdev f h s' mean sd 1 in
      let units : V → ℤ → List ℕ = λ n width. print_units raw (fmt n raw) width in
      bytes "    "
      ++ pad_right 10 name
      ++ (if raw
          then units mean (negsuc 0)
            ++ units sd (negsuc 0)
            ++ units (f.of_u64 s.max) (negsuc 0)
            ++ c.fixed_point 6 inside
          else units mean (pos 8)
            ++ units sd (pos 10)
            ++ units (f.of_u64 s.max) (pos 9)
            ++ pad_left 8 (c.fixed_point 2 inside))
      ++ bytes "%\n"

  -- The loop of `print_hdr_latency`.
  pub print_percentiles : Hist → List V → List ℕ
  print_percentiles hist [] = []
  print_percentiles hist (p ∷ ps) =
      (if raw then c.fixed_point 6 p else pad_left 7 (c.fixed_point 3 p))
      ++ bytes "%"
      ++ print_units raw (time_us_text f c (f.of_int64 (h.value_at_percentile hist p)) raw) (pos 10)
      ++ bytes "\n"
      ++ print_percentiles hist ps

  pub percentiles : List V
  percentiles =
      f.of_u64 50
      ∷ f.of_u64 75
      ∷ f.of_u64 90
      ∷ f.of_u64 99
      ∷ f.literal 999 10
      ∷ f.literal 9999 100
      ∷ f.literal 99999 1000
      ∷ f.of_u64 100
      ∷ []

  -- `print_hdr_latency`; `spectrum` is what `hdr_percentiles_print` prints.
  pub print_hdr_latency : (Hist → List ℕ) → Hist → List ℕ → List ℕ
  unfolding print_percentiles percentiles
  print_hdr_latency spectrum hist description =
      bytes "  Latency Distribution (HdrHistogram - "
      ++ description
      ++ bytes ")\n"
      ++ print_percentiles hist percentiles
      ++ bytes "\n  Detailed Percentile spectrum:\n"
      ++ spectrum hist

-- "%d" of an `unsigned`.
abbrev pub as_int : {V : Type 0} → Conversions V → ℕ → List ℕ
as_int c n = c.signed (to_int32 n)

-- The lines of `main` that count errors.
pub print_errors : {V : Type 0} → Conversions V → Errors → List ℕ
print_errors c e =
    (if e.connect == 0 && (e.read == 0) && (e.write == 0) && (e.timeout == 0)
      then []
      else bytes "  Socket errors: connect "
        ++ as_int c e.connect
        ++ bytes ", read "
        ++ as_int c e.read
        ++ bytes ", write "
        ++ as_int c e.write
        ++ bytes ", timeout "
        ++ as_int c e.timeout
        ++ bytes "\n")
    ++ (if e.status == 0
        then []
        else bytes "  Non-2xx or 3xx responses: " ++ as_int c e.status ++ bytes "\n")

-- The last two lines.
pub print_rates :
    {V : Type 0} → Floating V → Conversions V → {Hist : Type 0} → Bool → ℕ → Totals Hist → List ℕ
print_rates f c raw runtime_us t =
    let runtime_s = f.div (f.of_u64 runtime_us) (f.of_u64 1000000) in
    let req_per_s = f.div (f.of_u64 t.complete) runtime_s in
    let transfer = binary_text f c (f.div (f.of_u64 t.bytes) runtime_s) raw in
    bytes "Requests/sec: "
    ++ (if raw then c.fixed_point 6 req_per_s else pad_left 9 (c.fixed_point 2 req_per_s))
    ++ bytes "\nTransfer/sec: "
    ++ (if raw then transfer else pad_left 10 transfer)
    ++ bytes "B\n"

-- `main` from the running time on. `lowest` and `highest` are `hdr_min` and `hdr_max`, as an `uint64_t`,
-- `spectrum` is what `hdr_percentiles_print` prints, and `requests` is `statistics.requests`.
module _ {V Hist : Type 0} (f : Floating V) (h : Histogram V Hist) (c : Conversions V)
    (qsort : (ℕ → ℕ → ℤ) → List ℕ → List ℕ) (lowest highest : Hist → ℕ) (spectrum : Hist → List ℕ)
    (cfg : Config) where
  -- `latency_stats`
  unfoldable pub latency_stats : Totals Hist → Stats Hist
  latency_stats t =
      let hist = reported cfg t in
      record (alloc 10) { min = lowest hist; max = highest hist; histogram = some hist }

  pub print_latencies : Totals Hist → List ℕ
  print_latencies t =
      let line = bytes "----------------------------------------------------------\n" in
      (if cfg.latency
        then print_hdr_latency f h c qsort cfg.raw spectrum t.latency_histogram
            (bytes "Recorded Latency")
          ++ line
        else [])
      ++ (if cfg.u_latency
          then bytes "\n"
            ++ print_hdr_latency f h c qsort cfg.raw spectrum t.u_latency_histogram
                (bytes "Uncorrected Latency (measured without taking delayed starts into account)")
            ++ line
          else [])

  pub print_report : ℕ → Stats Hist → Totals Hist → List ℕ
  unfolding print_latencies latency_stats
  print_report runtime_us requests t =
      let raw = cfg.raw in
      (if is_disabled cfg then bytes "Rate is disabled, latency is not corrected" else [])
      ++ print_stats_header raw
      ++ print_stats f h c qsort raw (bytes "Latency") (time_us_text f c) (latency_stats t)
      ++ print_stats f h c qsort raw (bytes "Req/Sec") (metric_text f c) requests
      ++ print_latencies t
      ++ bytes "  "
      ++ c.unsigned t.complete
      ++ bytes " requests in "
      ++ time_us_text f c (f.of_u64 runtime_us) raw
      ++ bytes ", "
      ++ binary_text f c (f.of_u64 t.bytes) raw
      ++ bytes "B read\n"
      ++ print_errors c t.errors
      ++ print_rates f c raw runtime_us t
