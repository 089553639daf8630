-- ===== src/Quic/Sockets/Tests.antt =====
-- The socket with descriptor 5.
use wrk_quic.Prelude.{ℕ, ◌+◌, ◌⊎◌, ◌≡◌, refl, ℤ, List, [], ◌∷◌, pos, arith}
use wrk_quic.EventLoop.{nothing, calls, quic_writeable, write_request, of_connection, of_fd}
use wrk_quic.Quic.{World}
use wrk_quic.Quic.Sockets.{sleep, write_request_timer, quic_read}
use wrk_quic.Quic.Sockets.Awake.{sleep_wakes}
use wrk_quic.Examples.{Loop, loop, loop-IsEventLoop, Armed, fresh, fresh_thread, Given, pico, world}

-- A thread whose loop has named a timer before.
abbrev busy : World ℕ (List ℤ) Loop Given
busy = record world {
  ctx = record fresh {
    thread = record fresh_thread {
      loop = record (fresh_thread.loop) {
        timers = record { delay = 1; proc = write_request; client_data = of_fd 7 } ∷ [];
      };
    };
  };
}

-- A packet that brings ten bytes.
abbrev ten_bytes : World ℕ (List ℤ) Loop Given → World ℕ (List ℤ) Loop Given
ten_bytes w = record w {
  ctx = record (w.ctx) { thread = record (w.ctx.thread) { bytes = w.ctx.thread.bytes + 10 } };
}

sleep_wakes_example :
    let y = sleep loop pico 5 (pos 10) busy in
    let back = calls quic_writeable (of_connection 0) in
    let z = (quic_read loop pico 5 ten_bytes y).1 in
    (y.ctx.thread.loop.on_write 5 ≡ nothing)
    × Armed y.ctx.thread.loop 10 write_request (of_fd 5)
    × ((write_request_timer loop pico 5 y).1.ctx.thread.loop.on_write 5 ≡ back)
    × (((y.fd_to_cnx 5).ae ≡ 0) × (z ≡ ten_bytes y)
        ⊎ (z.ctx.thread.loop.on_write 5 ≡ back) × ((z.fd_to_cnx 5).ae ≡ 0))
unfolding sleep
sleep_wakes_example =
    sleep_wakes loop pico (λ l. 64) (λ l fd. l.on_write fd) Armed loop-IsEventLoop 5 9 busy
      ten_bytes refl (omega arith) refl refl refl
