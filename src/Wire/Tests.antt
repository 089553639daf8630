-- ===== src/Wire/Tests.antt =====
-- A request of three bytes that the socket takes in two parts, with a failed try between them.
use wrk_quic.Prelude.{
  ℕ, ◌≤◌, ◌≡◌, refl, true, false, List, [], ◌∷◌, ◌++◌, ℤ, arith, some, inl, inr, take, length,
}
use wrk_quic.EventLoop.{writable}
use wrk_quic.Connection.{Ctx}
use wrk_quic.Net.{ok, again, retry, Outcome, Attempt, tcp_reconnect_socket, first_outcome}
use wrk_quic.Pacing.{start_time, usec_to_next_send}
use wrk_quic.Send.{Sending, begin_batch, buf, len, sock_writeable}
use wrk_quic.Send.Whole.{joined}
use wrk_quic.Response.{socket_connected_as}
use wrk_quic.Wire.{Wire, opens, sends, blocked}
use wrk_quic.Wire.Whole.{Wire-whole}
use wrk_quic.Examples.{fixed, log, Loop, loop, config, fresh}

abbrev reopened : Attempt
reopened = record { fd = 6; bound = true; connected = true; now = 1600 }

abbrev reconnect : Ctx ℕ (List ℤ) Loop → Ctx ℕ (List ℤ) Loop
reconnect = tcp_reconnect_socket loop reopened

abbrev sending : List Outcome → Sending
sending os = record { checked = 1050; latest = 1055; started = 1060; request = []; outcomes = os }

abbrev opened : Ctx ℕ (List ℤ) Loop
opened = socket_connected_as fixed log loop config reconnect (ok 0) fresh

abbrev halfway : Ctx ℕ (List ℤ) Loop
halfway = record opened {
  conn = record (opened.conn) {
    catch_up_start_time = 1050;
    start = 1060;
    written = 2;
    pending = 1;
    actual_latency_start = 1060;
    has_pending = true;
    caught_up = false;
    latest_should_send_time = 1050;
    latest_expected_start = 1050;
    latest_write = 1055;
  };
}

abbrev sent : Ctx ℕ (List ℤ) Loop
sent = record {
  thread = record (halfway.thread) { loop = loop.delete_file_event halfway.thread.loop 5 writable };
  conn = record (halfway.conn) { written = 0 };
}

takes_two :
    sock_writeable fixed loop config reconnect (sending (again ∷ ok 2 ∷ [])) opened ≡ some halfway
unfolding sock_writeable usec_to_next_send start_time first_outcome socket_connected_as
takes_two = refl

takes_none :
    sock_writeable fixed loop config reconnect (sending (retry ∷ [])) halfway ≡ some halfway
unfolding sock_writeable usec_to_next_send start_time first_outcome socket_connected_as
takes_none = refl

takes_one : sock_writeable fixed loop config reconnect (sending (ok 1 ∷ [])) halfway ≡ some sent
unfolding sock_writeable usec_to_next_send start_time first_outcome socket_connected_as
takes_one = refl

at_once : (usec_to_next_send fixed 1050 opened.conn).0 ≡ 0
unfolding usec_to_next_send start_time socket_connected_as
at_once = refl

run : Wire fixed log loop config reconnect ((71 ∷ 69 ∷ 84 ∷ []) ∷ []) (71 ∷ 69 ∷ 84 ∷ []) sent
unfolding first_outcome begin_batch socket_connected_as buf len
run =
    sends (sending (ok 1 ∷ [])) 1 sent
      (blocked (sending (retry ∷ [])) halfway
        (sends (sending (again ∷ ok 2 ∷ [])) 2 halfway (opens 0 fresh refl (omega arith))
          (omega arith) refl (inr at_once) takes_two (omega arith))
        (omega arith) refl takes_none)
      (omega arith) refl (inl (λ e. ground (arith, e))) takes_one (omega arith)

Wire-whole_example :
    ((71 ∷ 69 ∷ 84 ∷ []) ≡ joined ((71 ∷ 69 ∷ 84 ∷ []) ∷ []) ++ take 0 sent.conn.request)
    × (0 ≤ length sent.conn.request)
Wire-whole_example =
    Wire-whole fixed log loop config reconnect ((71 ∷ 69 ∷ 84 ∷ []) ∷ []) (71 ∷ 69 ∷ 84 ∷ []) sent
      run
