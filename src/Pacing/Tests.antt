-- ===== src/Pacing/Tests.antt =====
-- `usec_to_next_send` on a connection with a request in a hundred microseconds.
use wrk_quic.Prelude.{ℕ, ◌+◌, ◌≤◌, ◌≡◌, ◌↔◌, refl, false, arith}
use wrk_quic.Connection.{Connection}
use wrk_quic.Pacing.{start_time, usec_to_next_send}
use wrk_quic.Pacing.Exact.{usec_to_next_send_exact}
use wrk_quic.Examples.{fixed, fixed-IsExact, IsPositive, fresh_connection}

abbrev after_three : Connection ℕ
after_three = record fresh_connection { complete = 3 }

-- The fourth request is due 300 microseconds after the start.
on_pace : (usec_to_next_send fixed 1100 after_three).0 ≡ 200
unfolding usec_to_next_send start_time
on_pace = refl

-- Behind since the time 1250 and one request, the next goes out 50 microseconds later.
catching_up :
    (usec_to_next_send fixed 1310 (record after_three {
      caught_up = false;
      catch_up_start_time = 1280;
      complete_at_catch_up_start = 2;
    })).0
    ≡ 20
unfolding usec_to_next_send start_time
catching_up = refl

usec_to_next_send_exact_example :
    let (wait, c') = usec_to_next_send fixed 1100 after_three in
    ((usec_to_next_send fixed 1290 c').0 ≡ 0) ↔ (1100 + wait ≤ 1290)
usec_to_next_send_exact_example =
    usec_to_next_send_exact fixed IsPositive fixed-IsExact 1100 1290 after_three (omega arith)
      (omega arith) (omega arith)
