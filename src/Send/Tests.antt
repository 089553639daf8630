-- ===== src/Send/Tests.antt =====
-- Callbacks for writing on a connection that is ahead of its schedule.
use wrk_quic.Prelude.{ℕ, ◌+◌, ◌*◌, ◌≡◌, ◌⊎◌, ◌≤◌, ◌<◌, refl, some, none, List, [], ◌∷◌, ℤ, arith}
use wrk_quic.EventLoop.{nothing, calls, delay_request, of_connection, socket_writeable}
use wrk_quic.Connection.{Ctx}
use wrk_quic.Pacing.{start_time, usec_to_next_send}
use wrk_quic.Net.{ok}
use wrk_quic.Send.{Sending, sock_writeable, delay_request_timer, msec_to_wait}
use wrk_quic.Send.Wakeup.{sock_writeable_wakeup}
use wrk_quic.Examples.{
  fixed, fixed-IsExact, IsPositive, Loop, loop, loop-IsEventLoop, Armed, config, fresh,
  fresh_connection,
}

-- After thirty responses, 1800 microseconds before the next request is due.
abbrev ahead : Ctx ℕ (List ℤ) Loop
ahead = record fresh { conn = record fresh_connection { complete = 30 } }

abbrev early : Sending
early = record { checked = 2200; latest = 0; started = 0; request = []; outcomes = ok 3 ∷ [] }

ahead_wait : (usec_to_next_send fixed 2200 ahead.conn).0 ≡ 1800
unfolding usec_to_next_send start_time
ahead_wait = refl

sock_writeable_wakeup_example :
    let us = (usec_to_next_send fixed 2200 ahead.conn).0 in
    let ms = msec_to_wait us in
    (y : Ctx ℕ (List ℤ) Loop) × (sock_writeable fixed loop config (λ x. x) early ahead ≡ some y)
    × (us < 1000 * ms)
    × (1000 * ms ≤ us + 1000)
    × (y.thread.loop.on_write 5 ≡ nothing)
    × Armed y.thread.loop ms delay_request (of_connection 0)
    × (let (next, z) = delay_request_timer fixed loop 4300 (record y { thread = ahead.thread }) in
        let left = (usec_to_next_send fixed 4300 y.conn).0 in
        ((2200 + us ≤ 4300)
          × (next ≡ none)
          × (z.thread.loop.on_write 5 ≡ calls socket_writeable (of_connection 0)))
        ⊎ ((4300 < 2200 + us) × (0 < left) × (next ≡ some (msec_to_wait left))))
sock_writeable_wakeup_example =
    sock_writeable_wakeup fixed loop config (λ x. x) (λ l. 64) (λ l fd. l.on_write fd) Armed
      loop-IsEventLoop IsPositive fixed-IsExact early ahead 4300 ahead.thread (omega arith) refl
      (omega (arith, ahead_wait)) (omega (arith, ahead_wait)) (omega arith) (omega arith)
      (omega arith)
