-- ===== src/Print/Tests.antt =====
-- Numbers in millionths, printed by their digits.
use wrk_quic.Prelude.{
  ℕ, zero, suc, ◌+◌, ◌-◌, ◌*◌, ◌/◌, ◌%◌, ◌≡◌, refl, true, false, some, List, [], ◌∷◌, ◌++◌, ltb,
  length, replicate, if◌then◌else◌, ◌^◌, ◌&&◌, ℤ, pos, pos_part, arith,
}
use wrk_quic.Units.{time_units_us, format_units, reduce}
use wrk_quic.Units.Labels.{time_units_us-IsLabelled}
use wrk_quic.Print.{Conversions, with_unit, print_units, space, aprintf, text_of}
use wrk_quic.Print.Aligned.{print_units-format}
use wrk_quic.Stats.{alloc}
use wrk_quic.Units.{scan_metric}
use wrk_quic.Args.Example.{
  atoi, inet_addr, script_parse_url, url, by_default, parse_args-by_default,
}
use wrk_quic.Args.Members.{last_number}
use wrk_quic.Report.{Totals}
use wrk_quic.Print.Ending.{latency_stats}
use wrk_quic.Print.Latencies.{latency_stats-parse_args}
use wrk_quic.Examples.{fixed, unit, log, no_errors}

abbrev digits : ℕ → ℕ → List ℕ
digits zero n = []
digits (suc fuel) n =
    let more = digits fuel (n / 10) in
    if ltb n 10 then (b'0' + n) ∷ [] else more ++ ((b'0' + n % 10) ∷ [])

abbrev places : ℕ → ℕ → List ℕ
places zero x = []
places (suc p) x = (b'0' + x / 100000) ∷ places p (x % 100000 * 10)

abbrev conversions : Conversions ℕ
conversions = record {
  fixed_point = λ p x. digits 20 (x / unit) ++ (b'.' ∷ places p (x % unit));
  unsigned = digits 20;
  signed = λ z. digits 20 (pos_part z);
}

-- 1250 microseconds.
abbrev amount : ℕ
amount = 1250 * unit

shown :
    conversions.fixed_point 2 (format_units fixed amount time_units_us false).0
    ≡ b'1' ∷ b'.' ∷ b'2' ∷ b'5' ∷ []
unfolding format_units reduce
shown = refl

print_units-format_example :
    let (amt, word) = format_units fixed amount time_units_us false in
    let number = conversions.fixed_point 2 amt in
    print_units false (with_unit fixed conversions 2 (amt, word)) (pos 8)
    ≡ replicate (8 - 2 - length number) space ++ number ++ word ++ replicate (2 - length word) space
unfolding format_units
print_units-format_example =
    print_units-format fixed conversions time_units_us amount 8 (b'1' ∷ b'.' ∷ []) b'2' b'5'
      time_units_us-IsLabelled refl refl shown (omega arith)

printed :
    print_units false (b'1' ∷ b'.' ∷ b'2' ∷ b'5' ∷ b'm' ∷ b's' ∷ []) (pos 8)
    ≡ space ∷ space ∷ b'1' ∷ b'.' ∷ b'2' ∷ b'5' ∷ b'm' ∷ b's' ∷ []
unfolding print_units
printed = refl

appended : aprintf true (some (b'a' ∷ 0 ∷ [])) (b'b' ∷ []) ≡ (some (b'a' ∷ b'b' ∷ 0 ∷ []), some 1)
unfolding aprintf text_of
appended = refl

abbrev totals : Totals (List ℤ)
totals = record {
  complete = 2;
  bytes = 300;
  errors = no_errors;
  latency_histogram = pos 700 ∷ pos 900 ∷ [];
  u_latency_histogram = pos 200 ∷ pos 300 ∷ [];
}

abbrev edge : List ℤ → ℕ
edge [] = 0
edge (x ∷ xs) = pos_part x

-- Without a rate, the uncorrected latency.
latency_stats-parse_args_example :
    let hist =
      (let rate = last_number scan_metric b'R' 0 [] in
        if ltb 0 rate && ltb rate (2 ^ 63)
        then totals.latency_histogram
        else totals.u_latency_histogram) in
    latency_stats fixed log conversions (λ f xs. xs) edge edge (λ hist. []) by_default.cfg totals
    ≡ record (alloc 10) { min = edge hist; max = edge hist; histogram = some hist }
latency_stats-parse_args_example =
    latency_stats-parse_args atoi inet_addr true script_parse_url fixed log conversions (λ f xs. xs)
      edge edge (λ hist. []) totals [] (url ∷ []) by_default url true parse_args-by_default
