-- ===== src/Quic/Sockets/Keeps.antt =====
-- The callbacks for the sockets of src/quic.c leave the accounts of the connection alone.
use wrk_quic.Prelude.{ℕ, ltb, Bool-cases, inl, inr, zero, suc, ◌≡◌, some, arith, ℤ, pos, negsuc}
use wrk_quic.Platform.{Floating}
use wrk_quic.EventLoop.{EventLoop}
use wrk_quic.Pacing.{SameSchedule}
use wrk_quic.Quic.{Picoquic, World, Attempt}
use wrk_quic.Quic.Sockets.{
  connected, quic_connect, write_request_timer, quic_read, sleep, quic_writeable_as, Prepared,
}

module _ {V Hist Loop Q : Type 0} (f : Floating V) (ae : EventLoop Loop) (pico : Picoquic Q) where
  pub connected-SameSchedule :
      (fuel fd : ℕ) (a : Attempt) (w : World V Hist Loop Q) {w' : World V Hist Loop Q}
      → connected ae pico fuel fd a w ≡ some w'
      → SameSchedule f w.ctx.conn w'.ctx.conn
  unfolding connected quic_connect
  connected-SameSchedule zero fd a w e = ground (arith, e)
  connected-SameSchedule (suc fuel) fd a w e = ground (arith, e)

  pub write_request_timer-SameSchedule :
      (fd : ℕ) (w : World V Hist Loop Q)
      → SameSchedule f w.ctx.conn (write_request_timer ae pico fd w).1.ctx.conn
  unfolding write_request_timer
  write_request_timer-SameSchedule fd w = ground arith

  pub quic_read-SameSchedule :
      (fd : ℕ) (w : World V Hist Loop Q)
      → SameSchedule f w.ctx.conn (quic_read ae pico fd (λ x. x) w).1.ctx.conn
  unfolding quic_read
  quic_read-SameSchedule fd w = ground arith

  pub sleep-SameSchedule :
      (fd : ℕ) (delta : ℤ) (w : World V Hist Loop Q)
      → SameSchedule f w.ctx.conn (sleep ae pico fd delta w).ctx.conn
  unfolding sleep
  sleep-SameSchedule fd (pos zero) w = ground arith
  sleep-SameSchedule fd (pos (suc d)) w = ground arith
  sleep-SameSchedule fd (negsuc d) w = ground arith

  -- Whether the socket sends, sleeps or is given up.
  pub quic_writeable-SameSchedule :
      (fd : ℕ) (p : Prepared) (w : World V Hist Loop Q)
      → SameSchedule f w.ctx.conn (quic_writeable_as ae pico fd (λ x. (x, p)) w).ctx.conn
  unfolding quic_writeable_as
  quic_writeable-SameSchedule fd p w = go p.ret
    where
      given_up : SameSchedule f w.ctx.conn w.ctx.conn
      given_up = ground arith

      go :
          (ret : ℤ)
          → SameSchedule f w.ctx.conn
              (quic_writeable_as ae pico fd (λ x. (x, record p { ret = ret })) w).ctx.conn
      go (pos zero) = elim (Bool-cases (ltb 0 p.send_length)) [
        | inl sends ↦ rw sends given_up
        | inr waits ↦ rw waits (sleep-SameSchedule fd p.wake_delay w)
      ]
      go (pos (suc n)) = given_up
      go (negsuc n) = given_up
