-- ===== src/Quic/Latency.antt =====
-- What the latencies of a connection over QUIC, src/quic.c, mean in every run of its steps.
mod Tests
use wrk_quic.Prelude.{refl, Bool, some, ◌∙◌, ◌||◌, ◌==◌, ℤ}
use wrk_quic.EventLoop.{EventLoop}
use wrk_quic.Connection.{Connection}
use wrk_quic.Quic.Callback.{Preparing}
use wrk_quic.Quic.Sockets.{connected, write_request_timer, quic_read, sleep}
use wrk_quic.Quic.Held.{waiting, Held}
use wrk_quic.Quic.Steps.{HasContext}
