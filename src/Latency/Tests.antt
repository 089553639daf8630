-- ===== src/Latency/Tests.antt =====
-- A run of a connection: a request is sent at 1060, and its response is complete at 1500.
use wrk_quic.Prelude.{ℕ, ◌-◌, ◌≤◌, ◌≡◌, refl, true, false, List, [], ◌∷◌, ℤ, pos, arith, some}
use wrk_quic.EventLoop.{writable}
use wrk_quic.Connection.{Ctx}
use wrk_quic.Net.{ok, Attempt, tcp_reconnect_socket, first_outcome}
use wrk_quic.Pacing.{due, start_time, usec_to_next_send}
use wrk_quic.Send.{Sending, sock_writeable}
use wrk_quic.Response.{response_complete}
use wrk_quic.Examples.{
  fixed, fixed-IsExact, IsPositive, log, Loop, loop, config, fresh, fresh_connection, fresh_thread,
}
use wrk_quic.Latency.{writes, Reach, here, next, response_complete-Reach}

abbrev reopened : Attempt
reopened = record { fd = 6; bound = true; connected = true; now = 1600 }

abbrev sending : Sending
sending = record {
  checked = 1050;
  latest = 1055;
  started = 1060;
  request = [];
  outcomes = ok 3 ∷ [];
}

abbrev sent : Ctx ℕ (List ℤ) Loop
sent = record {
  thread = record fresh_thread { loop = loop.delete_file_event fresh_thread.loop 5 writable };
  conn = record fresh_connection {
    catch_up_start_time = 1050;
    start = 1060;
    pending = 1;
    actual_latency_start = 1060;
    has_pending = true;
    caught_up = false;
    latest_should_send_time = 1050;
    latest_expected_start = 1050;
    latest_write = 1055;
  };
}

sends :
    sock_writeable fixed loop config (tcp_reconnect_socket loop reopened) sending fresh ≡ some sent
unfolding sock_writeable usec_to_next_send start_time first_outcome
sends = refl

run : Reach fixed log loop config 1000 fresh 1060 sent
run =
    next here
      (writes sending reopened (omega arith) (omega arith) (omega arith) (omega arith) sends)

response_complete-Reach_example :
    (e u : ℕ) × (e ≡ 1500 - due fixed sent.conn 0)
    × (u ≡ 1500 - 1060)
    × (u ≤ e)
    × (let y =
          response_complete fixed log loop config
            (tcp_reconnect_socket loop reopened)
            200
            false
            1500
            sent in
        (y.thread.latency_histogram ≡ pos e ∷ []) × (y.thread.u_latency_histogram ≡ pos u ∷ []))
response_complete-Reach_example =
    response_complete-Reach fixed log loop config IsPositive fixed-IsExact (omega arith) 1000 1060
      fresh sent 200 1500 false reopened (record { idle = refl; nothing_pending = refl }) run
      (omega arith) (omega arith) (omega arith) (omega arith) refl

-- The request was due at 1000.
due_sent : due fixed sent.conn 0 ≡ 1000
unfolding start_time
due_sent = refl
