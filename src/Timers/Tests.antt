-- ===== src/Timers/Tests.antt =====
-- The timers of a thread with two connections, and a histogram whose mean is 5.
use wrk_quic.Prelude.{
  ℕ, ◌+◌, ◌*◌, ◌%◌, ◌^◌, ◌≡◌, refl, true, false, some, List, [], ◌∷◌, ℤ, leb, if◌then◌else◌, ◌||◌,
  arith,
}
use wrk_quic.Connection.{Connection, Ctx}
use wrk_quic.Net.{Attempt, tcp_reconnect_socket}
use wrk_quic.Response.{response_complete}
use wrk_quic.Examples.{fixed, log, Loop, loop, config, fresh, fresh_connection, fresh_thread}
use wrk_quic.Timers.{check_timeouts}
use wrk_quic.Timers.Timeouts.{overdue, check_timeouts-overdue}
use wrk_quic.Timers.Answered.{overdue-response_complete}

-- One batch began three seconds ago, the other one second ago.
abbrev two_connections : List (Connection ℕ)
two_connections =
    record fresh_connection { start = 4000000 } ∷ record fresh_connection { start = 6000000 } ∷ []

one_overdue : overdue 7000000 2000000 two_connections ≡ 1
one_overdue = refl

check_timeouts-overdue_example :
    let (again, thread') = check_timeouts loop config false 7000000 two_connections fresh_thread in
    (again ≡ some 2000)
    × (thread'.errors.timeout ≡ (0 + overdue 7000000 (2000 * 1000) two_connections) % 2 ^ 32)
    × (thread'.loop ≡ (
        if false || leb 10000000 7000000 then loop.stop fresh_thread.loop else fresh_thread.loop))
check_timeouts-overdue_example =
    check_timeouts-overdue loop config false 7000000 two_connections fresh_thread (omega arith)
      (omega arith) (omega arith, (omega arith, tt)) (omega arith)

-- A connection whose batch began at 4000000 is answered at 4500000.
abbrev waiting : Ctx ℕ (List ℤ) Loop
waiting = record fresh {
  conn = record fresh_connection { start = 4000000; pending = 1; has_pending = true };
}

abbrev reopened : Attempt
reopened = record { fd = 6; bound = true; connected = true; now = 4600000 }

overdue-response_complete_example :
    let y =
      response_complete fixed log loop config
        (tcp_reconnect_socket loop reopened)
        200
        true
        4500000
        waiting in
    overdue 7000000 2000000 (y.conn ∷ []) ≡ overdue 7000000 2000000 (waiting.conn ∷ [])
overdue-response_complete_example =
    overdue-response_complete fixed log loop config reopened 200 4500000 true waiting 7000000
      2000000 []
