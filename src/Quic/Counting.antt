-- ===== src/Quic/Counting.antt =====
-- What the callbacks of src/quic.c count.
use wrk_quic.Prelude.{
  ℕ, ltb, Bool-cases, inl, inr, zero, suc, ◌≡◌, refl, some, arith, ℤ, pos, negsuc,
}
use wrk_quic.Platform.{Floating, Histogram}
use wrk_quic.EventLoop.{EventLoop}
use wrk_quic.Connection.{Config}
use wrk_quic.Counted.{Counted, Counted-before, uncounted}
use wrk_quic.Pacing.{usec_to_next_send-SameSchedule}
use wrk_quic.Response.Counting.{counts, stats_request_completed-Counted}
use wrk_quic.Quic.{Picoquic, World, Attempt, quic_connect_socket, delay_recon_timer}
use wrk_quic.Quic.Callback.{
  Event, stream_data, stream_fin, stop_sending, stream_reset, stateless_reset, close,
  application_close, version_negotiation, stream_gap, prepare_to_send, almost_ready, ready, other,
  quic_callback, restart, count_bytes, finish, prepare, begin_request,
}
use wrk_quic.Quic.Sockets.{
  connected, quic_connect, write_request_timer, quic_read, sleep, quic_writeable_as, Prepared,
}

module _ {V Hist Loop Q : Type 0} (f : Floating V) (ae : EventLoop Loop) (pico : Picoquic Q) where
  pub quic_connect_socket-Counted :
      (a : Attempt) (w : World V Hist Loop Q) → Counted 0 w.ctx (quic_connect_socket ae a w).ctx
  unfolding quic_connect_socket
  quic_connect_socket-Counted a w =
      uncounted w.ctx (quic_connect_socket ae a w).ctx (ground arith) (ground arith) (ground arith)

  pub delay_recon_timer-Counted :
      (a : Attempt) (w : World V Hist Loop Q) → Counted 0 w.ctx (delay_recon_timer ae a w).1.ctx
  unfolding delay_recon_timer
  delay_recon_timer-Counted a w = quic_connect_socket-Counted a w

  pub connected-Counted :
      (fuel fd : ℕ) (a : Attempt) (w w' : World V Hist Loop Q)
      → connected ae pico fuel fd a w ≡ some w'
      → Counted 0 w.ctx w'.ctx
  unfolding connected quic_connect
  connected-Counted zero fd a w w' e = ground (arith, e)
  connected-Counted (suc fuel) fd a w w' e =
      uncounted w.ctx w'.ctx (ground (arith, e)) (ground (arith, e)) (ground (arith, e))

  pub write_request_timer-Counted :
      (fd : ℕ) (w : World V Hist Loop Q) → Counted 0 w.ctx (write_request_timer ae pico fd w).1.ctx
  unfolding write_request_timer
  write_request_timer-Counted fd w =
      uncounted w.ctx (write_request_timer ae pico fd w).1.ctx (ground arith) (ground arith)
        (ground arith)

  pub quic_read-Counted :
      (fd : ℕ) (w : World V Hist Loop Q) → Counted 0 w.ctx (quic_read ae pico fd (λ x. x) w).1.ctx
  unfolding quic_read
  quic_read-Counted fd w =
      uncounted w.ctx (quic_read ae pico fd (λ x. x) w).1.ctx (ground arith) (ground arith)
        (ground arith)

  pub sleep-Counted :
      (fd : ℕ) (delta : ℤ) (w : World V Hist Loop Q)
      → Counted 0 w.ctx (sleep ae pico fd delta w).ctx
  unfolding sleep
  sleep-Counted fd (pos zero) w = uncounted w.ctx _ refl refl refl
  sleep-Counted fd (pos (suc d)) w = uncounted w.ctx _ refl refl refl
  sleep-Counted fd (negsuc d) w = uncounted w.ctx _ refl refl refl

  pub quic_writeable-Counted :
      (fd : ℕ) (p : Prepared) (w : World V Hist Loop Q)
      → Counted 0 w.ctx (quic_writeable_as ae pico fd (λ x. (x, p)) w).ctx
  unfolding quic_writeable_as
  quic_writeable-Counted fd p w = go p.ret
    where
      go :
          (ret : ℤ)
          → Counted 0 w.ctx (quic_writeable_as ae pico fd (λ x. (x, record p { ret = ret })) w).ctx
      go (pos zero) = elim (Bool-cases (ltb 0 p.send_length)) [
        | inl sends ↦ rw sends (uncounted w.ctx _ refl refl refl)
        | inr waits ↦ rw waits (sleep-Counted fd p.wake_delay w)
      ]
      go (pos (suc n)) = uncounted w.ctx _ refl refl refl
      go (negsuc n) = uncounted w.ctx _ refl refl refl

module _ {V Hist Loop Q : Type 0} (f : Floating V) (h : Histogram V Hist) (ae : EventLoop Loop)
    (pico : Picoquic Q) (cfg : Config) where
  -- Only the end of a stream is a response.
  abbrev pub heard : ℕ → Event → World V Hist Loop Q → ℕ
  heard at (stream_fin n) w = counts f h ae cfg at w.ctx
  heard at e w = 0

  restart-Counted :
      (now : ℕ) (a : Attempt) (w : World V Hist Loop Q)
      → Counted 0 w.ctx (restart f h ae pico cfg now a w).ctx
  unfolding restart quic_connect_socket
  restart-Counted now a w =
      let same = (usec_to_next_send-SameSchedule f now w.ctx.conn).same_complete in
      uncounted w.ctx (restart f h ae pico cfg now a w).ctx (ground arith) (ground (arith, same))
        (ground arith)

  pub quic_callback-Counted :
      (at : ℕ) (a : Attempt) (e : Event) (w : World V Hist Loop Q)
      → Counted (heard at e w) w.ctx (quic_callback f h ae pico cfg at a e w).1.ctx
  unfolding quic_callback count_bytes finish prepare begin_request
  quic_callback-Counted at a (stream_data n) w = uncounted w.ctx _ refl refl refl
  quic_callback-Counted at a (stream_fin n) w =
      Counted-before _ w.ctx _ _ (uncounted w.ctx _ refl refl refl)
        (stats_request_completed-Counted f h ae cfg at _)
  quic_callback-Counted at a (stop_sending stream) w =
      restart-Counted at a (record w { quic = pico.reset_stream w.quic stream })
  quic_callback-Counted at a stream_reset w = restart-Counted at a w
  quic_callback-Counted at a stateless_reset w = restart-Counted at a w
  quic_callback-Counted at a close w = restart-Counted at a w
  quic_callback-Counted at a application_close w = restart-Counted at a w
  quic_callback-Counted at a version_negotiation w = uncounted w.ctx _ refl refl refl
  quic_callback-Counted at a stream_gap w = uncounted w.ctx _ refl refl refl
  quic_callback-Counted at a (prepare_to_send space r) w = uncounted w.ctx _ refl refl refl
  quic_callback-Counted at a almost_ready w = uncounted w.ctx _ refl refl refl
  quic_callback-Counted at a ready w = uncounted w.ctx _ refl refl refl
  quic_callback-Counted at a other w = uncounted w.ctx _ refl refl refl
