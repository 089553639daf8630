-- ===== src/Fleet/Tests.antt =====
-- One thread with one connection that is answered once before the end of the run.
use wrk_quic.Prelude.{ℕ, ◌+◌, ◌%◌, ◌^◌, ◌≡◌, refl, true, List, [], ◌∷◌, ℤ}
use wrk_quic.Connection.{Connection, Ctx}
use wrk_quic.Counted.{completed}
use wrk_quic.Net.{Attempt, tcp_reconnect_socket}
use wrk_quic.Response.{response_complete}
use wrk_quic.Report.{no_totals, add_threads}
use wrk_quic.Startup.{thread_main, new_connections, new_connection}
use wrk_quic.Fleet.{Fleet, answers, on, Run, here, next}
use wrk_quic.Fleet.Totals.{all_ended, ended, add_threads-Ended}
use wrk_quic.Examples.{fixed, log, Loop, loop, config, fresh_thread, pico}

abbrev begun : Fleet ℕ (List ℤ) Loop
begun =
    let (t, cs) = thread_main fixed loop 1000 config (71 ∷ []) 1 fresh_thread in
    record { thread = t; conns = cs }

abbrev conn : Connection ℕ
conn =
    new_connection fixed config
      (fixed.div (fixed.div 10000 (fixed.of_u64 1000000)) (fixed.of_u64 1)) (71 ∷ []) 1 0

abbrev reopened : Attempt
reopened = record { fd = 6; bound = true; connected = true; now = 1600 }

abbrev answered : Ctx ℕ (List ℤ) Loop
answered =
    response_complete fixed log loop config (tcp_reconnect_socket loop reopened) 200 true 1500
      (record { thread = begun.thread; conn = conn })

abbrev after : Fleet ℕ (List ℤ) Loop
after = record { thread = answered.thread; conns = answered.conn ∷ [] }

run : Run fixed log loop pico config begun 1 after
unfolding thread_main new_connections new_connection
run = next here (on [] [] conn 1 answered refl (answers 200 1500 true reopened))

add_threads-Ended_example :
    let reported = (add_threads log (no_totals [] []) (after.thread ∷ [])).complete in
    (reported ≡ 1) × (reported ≡ (completed after.conns + 0) % 2 ^ 64)
add_threads-Ended_example =
    add_threads-Ended fixed log loop pico config [] [] (after.thread ∷ [])
      (completed after.conns + 0) 1
      (ended 1000 (71 ∷ []) 1 fresh_thread after 1 [] 0 0 refl run all_ended)
