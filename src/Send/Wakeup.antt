-- ===== src/Send/Wakeup.antt =====
-- A connection that may not send yet is woken up: what `sock_writeable` and `delay_request` leave in
-- the event loop, by the laws of the loop.
use wrk_quic.Prelude.{
  ℕ, ◌-◌, ◌+◌, ◌*◌, ◌^◌, ◌≡◌, ◌↔◌, ◌⊎◌, inl, inr, ◌≤◌, ◌<◌, arith, refl, none, some, subst, ◌∙◌,
}
use native.Mathlib.Decide.{ℕ_discrete}
use wrk_quic.Platform.{Floating, IsExact}
use wrk_quic.EventLoop.{
  EventLoop, IsEventLoop, Writer, nothing, calls, TimeProc, delay_request, ClientData,
  of_connection, socket_writeable,
}
use wrk_quic.Connection.{Connection, Thread, Config, Ctx}
use wrk_quic.Pacing.{usec_to_next_send, same_address}
use wrk_quic.Pacing.Exact.{usec_to_next_send_exact}
use wrk_quic.Send.{Sending, sock_writeable, postpone, delay_request_timer, msec_to_wait}

-- The delay of the timer covers a wait that fits it and exceeds it by at most a millisecond.
pub msec_to_wait_bounds :
    (us : ℕ)
    → us < 1000 * (2 ^ 31 - 1)
    → (us < 1000 * msec_to_wait us) × (1000 * msec_to_wait us ≤ us + 1000)
unfolding msec_to_wait
msec_to_wait_bounds us fits = (ground (arith, fits), ground (arith, fits))

module _ {V Hist Loop : Type 0} (f : Floating V) (ae : EventLoop Loop) (cfg : Config)
    (reconnect : Ctx V Hist Loop → Ctx V Hist Loop) (size : Loop → ℕ) (writer : Loop → ℕ → Writer)
    (timers : Loop → ℕ → TimeProc → ClientData → Type 0)
    (is_loop : IsEventLoop ae size writer timers) (IsPositive : V → Type 0)
    (laws : IsExact f IsPositive) where
  postpone_lem :
      (us : ℕ) (x : Ctx V Hist Loop)
      → let y = postpone f ae cfg reconnect us x in
        (writer y.thread.loop x.conn.fd ≡ nothing)
        × timers y.thread.loop (msec_to_wait us) delay_request (of_connection x.conn.id)
        × (y.conn ≡ x.conn)
  unfolding postpone
  postpone_lem us x = (
    is_loop.time_keeps_writer _ _ _ _ _ ∙ is_loop.delete_writable _ _,
    is_loop.timer_armed _ _ _ _,
    refl,
  )

  -- A timer that fires when the connection may send puts the callback for writing back.
  delay_request_timer_wakes :
      (at : ℕ) (x : Ctx V Hist Loop)
      → (usec_to_next_send f at x.conn).0 ≡ 0
      → x.conn.fd < size x.thread.loop
      → let (next, z) = delay_request_timer f ae at x in
        (next ≡ none)
        × (writer z.thread.loop x.conn.fd ≡ calls socket_writeable (of_connection x.conn.id))
  unfolding delay_request_timer
  delay_request_timer_wakes at x ready fits =
      let (installed, created) =
        is_loop.create_writable x.thread.loop x.conn.fd socket_writeable (of_connection x.conn.id)
          fits in
      let (same_fd, same_id) = same_address f at x.conn in
      ground (arith, ready, installed, same_fd, same_id)

  -- A timer that fires earlier runs again.
  delay_request_timer_again :
      (at : ℕ) (x : Ctx V Hist Loop)
      → 0 < (usec_to_next_send f at x.conn).0
      → (delay_request_timer f ae at x).0 ≡ some (msec_to_wait (usec_to_next_send f at x.conn).0)
  unfolding delay_request_timer
  delay_request_timer_again at x early = ground (arith, early)

  delay_request_timer_cases :
      (at : ℕ) (x : Ctx V Hist Loop) (when : ℕ)
      → ((usec_to_next_send f at x.conn).0 ≡ 0) ↔ (when ≤ at)
      → x.conn.fd < size x.thread.loop
      → let (next, z) = delay_request_timer f ae at x in
        let left = (usec_to_next_send f at x.conn).0 in
        ((when ≤ at)
          × (next ≡ none)
          × (writer z.thread.loop x.conn.fd ≡ calls socket_writeable (of_connection x.conn.id)))
        ⊎ ((at < when) × (0 < left) × (next ≡ some (msec_to_wait left)))
  delay_request_timer_cases at x when exact fits =
      elim (ℕ_discrete (usec_to_next_send f at x.conn).0 0) [
        | yes ready ↦
            let (ends, back) = delay_request_timer_wakes at x ready fits in
            inl (exact.0 ready, ends, back)
        | no early ↦
            let left : 0 < (usec_to_next_send f at x.conn).0 = omega (arith, early) in
            let before : at < when = grind (arith, exact, early) in
            inr (before, left, delay_request_timer_again at x left)
      ]

  -- A connection that may not send yet is never forgotten. When `sock_writeable` is called with
  -- nothing written and a wait of `us` microseconds, whose milliseconds fit an `int`, it removes the
  -- callback for writing and arms a timer of `ms` milliseconds, which cover the wait and exceed it by
  -- at most one millisecond. Whenever the timer runs, with the connection unchanged and its descriptor
  -- in the event loop's set: when the wait is over, `delay_request` ends the timer and puts the
  -- callback back, and when the event loop is early, the timer runs again for the rest.
  pub sock_writeable_wakeup :
      (r : Sending) (x : Ctx V Hist Loop) (at : ℕ) (thread : Thread V Hist Loop)
      → IsPositive x.conn.catch_up_throughput
      → x.conn.written ≡ 0
      → let us = (usec_to_next_send f r.checked x.conn).0 in
        let ms = msec_to_wait us in
        0 < us
        → us < 1000 * (2 ^ 31 - 1)
        → r.checked ≤ at
        → at < 2 ^ 53
        → x.conn.fd < size thread.loop
        → (y : Ctx V Hist Loop) × (sock_writeable f ae cfg reconnect r x ≡ some y)
          × (us < 1000 * ms)
          × (1000 * ms ≤ us + 1000)
          × (writer y.thread.loop x.conn.fd ≡ nothing)
          × timers y.thread.loop ms delay_request (of_connection x.conn.id)
          × (let (next, z) = delay_request_timer f ae at (record y { thread = thread }) in
              let left = (usec_to_next_send f at y.conn).0 in
              ((r.checked + us ≤ at)
                × (next ≡ none)
                × (writer z.thread.loop x.conn.fd
                    ≡ calls socket_writeable (of_connection x.conn.id)))
              ⊎ ((at < r.checked + us) × (0 < left) × (next ≡ some (msec_to_wait left))))
  unfolding sock_writeable
  sock_writeable_wakeup r x at thread pos idle early short later small fits =
      let us : ℕ = (usec_to_next_send f r.checked x.conn).0 in
      let c : Connection V = (usec_to_next_send f r.checked x.conn).1 in
      let (same_fd, same_id) = same_address f r.checked x.conn in
      let (off, armed, same) = postpone_lem us (record x { conn = c }) in
      let (lower, upper) = msec_to_wait_bounds us short in
      let y : Ctx V Hist Loop = postpone f ae cfg reconnect us (record x { conn = c }) in
      let cases =
        delay_request_timer_cases at (record { thread = thread; conn = c }) (r.checked + us)
          (usec_to_next_send_exact f IsPositive laws r.checked at x.conn pos later small)
          (omega (arith, same_fd, fits)) in
      (
        y,
        ground (arith, idle, early),
        lower,
        upper,
        cc (off, same_fd),
        subst (λ i. timers y.thread.loop (msec_to_wait us) delay_request (of_connection i)) same_id
            armed,
        elim cases [
          | inl (over, ends, back) ↦ inl (over, ends, cc (back, same_fd, same_id))
          | inr rest ↦ inr rest
        ],
      )
