-- ===== src/Quic/Latency/Tests.antt =====
-- A run of a connection over QUIC: a request is sent at 1020, and its stream ends at 1500.
use wrk_quic.Prelude.{ℕ, ◌≡◌, refl, true, List, [], ◌∷◌, ℤ, arith}
use wrk_quic.Quic.{World, Attempt}
use wrk_quic.Quic.Callback.{
  Preparing, prepare, prepare_to_send, begin_request, quic_callback, chunk,
}
use wrk_quic.Quic.Held.{opened}
use wrk_quic.Quic.Steps.{prepares, Reach, here, next}
use wrk_quic.Examples.{fixed, log, Loop, loop, config, fresh, fresh_connection, Given, pico, world}

abbrev reopened : Attempt
reopened = record { fd = 6; bound = true; now = 1600 }

abbrev preparing : Preparing
preparing = record { latest = 1010; started = 1020; request = [] }

abbrev sent : World ℕ (List ℤ) Loop Given
sent = record world {
  ctx = record fresh {
    conn = record fresh_connection {
      start = 1020;
      pending = 1;
      actual_latency_start = 1020;
      has_pending = true;
      latest_write = 1010;
    };
  };
  quic = record { contexts = 1; provided = (71 ∷ 69 ∷ 84 ∷ [], true) ∷ [] };
}

sends :
    sent
    ≡ (quic_callback fixed log loop pico config 0 reopened (prepare_to_send 1200 preparing) world).1
unfolding quic_callback prepare begin_request chunk
sends = refl

run : Reach fixed log loop pico config 1000 world opened 1060 sent
run = next here (prepares 0 1200 reopened preparing (omega arith) (omega arith) refl refl sends)
