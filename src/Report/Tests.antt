-- ===== src/Report/Tests.antt =====
-- Two threads.
use wrk_quic.Prelude.{ℕ, ◌+◌, ◌%◌, ◌^◌, ◌≡◌, refl, List, [], ◌∷◌, ℤ, arith}
use wrk_quic.Connection.{Thread}
use wrk_quic.Examples.{log, Loop, no_errors, fresh_thread}
use wrk_quic.Report.{Totals, add_threads}
use wrk_quic.Report.Sums.{sum, add_threads-sum}

abbrev nothing_yet : Totals (List ℤ)
nothing_yet = record {
  complete = 0;
  bytes = 0;
  errors = no_errors;
  latency_histogram = [];
  u_latency_histogram = [];
}

abbrev threads : List (Thread ℕ (List ℤ) Loop)
threads =
    record fresh_thread { complete = 3; bytes = 300 }
    ∷ record fresh_thread { complete = 4; bytes = 500 }
    ∷ []

add_threads-sum_example :
    let t = add_threads log nothing_yet threads in
    (t.complete ≡ (0 + sum (λ th. th.complete) threads) % 2 ^ 64)
    × (t.bytes ≡ (0 + sum (λ th. th.bytes) threads) % 2 ^ 64)
    × (t.errors.status ≡ (0 + sum (λ th. th.errors.status) threads) % 2 ^ 32)
add_threads-sum_example =
    add_threads-sum log nothing_yet threads (omega arith) (omega arith) (omega arith)

seven : sum (λ th. th.complete) threads ≡ 7
seven = refl
