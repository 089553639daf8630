-- ===== src/Send/Counting.antt =====
-- Sending counts no response.
use wrk_quic.Prelude.{ℕ, ◌≡◌, refl, arith, some, inl, inr, subst}
use wrk_quic.Platform.{Floating}
use wrk_quic.EventLoop.{EventLoop}
use wrk_quic.Connection.{Connection, Config, Ctx}
use wrk_quic.Pacing.{usec_to_next_send-SameSchedule}
use wrk_quic.Counted.{Counted, Counted-before, uncounted}
use wrk_quic.Net.{Outcome, ok, error, retry, again}
use wrk_quic.Send.{
  Sending, begin_batch, write_out, send, postpone, sock_writeable, delay_request_timer,
}
use wrk_quic.Send.Branches.{send-eq_some, sock_writeable_cases}
use wrk_quic.Send.Batch.{delay_request_timer-SameSchedule}

module _ {V Hist Loop : Type 0} (f : Floating V) (ae : EventLoop Loop) where
  pub delay_request_timer-Counted :
      (now : ℕ) (x : Ctx V Hist Loop) → Counted 0 x (delay_request_timer f ae now x).1
  unfolding delay_request_timer
  delay_request_timer-Counted now x =
      uncounted x _ (ground arith) (delay_request_timer-SameSchedule f ae now x).same_complete
        (ground arith)

module _ {V Hist Loop : Type 0} (f : Floating V) (ae : EventLoop Loop) (cfg : Config)
    (reconnect : Ctx V Hist Loop → Ctx V Hist Loop)
    (keeps : (x : Ctx V Hist Loop) → Counted 0 x (reconnect x)) where
  write_out-Counted :
      (o : Outcome) (x : Ctx V Hist Loop) → Counted 0 x (write_out f ae cfg reconnect o x)
  unfolding write_out
  write_out-Counted (ok n) x =
      uncounted x (write_out f ae cfg reconnect (ok n) x) (ground arith) (ground arith)
        (ground arith)
  write_out-Counted retry x = uncounted x x refl refl refl
  write_out-Counted again x = uncounted x x refl refl refl
  write_out-Counted error x = Counted-before 0 x _ _ (uncounted x _ refl refl refl) (keeps _)

  begin_batch-complete :
      (r : Sending) (c : Connection V) → (begin_batch cfg r c).complete ≡ c.complete
  unfolding begin_batch
  begin_batch-complete r c = ground arith

  send-Counted :
      (r : Sending) (x y : Ctx V Hist Loop) → send f ae cfg reconnect r x ≡ some y → Counted 0 x y
  send-Counted r x y e =
      let (o, same) = send-eq_some f ae cfg reconnect r x e in
      subst (Counted 0 x) same (
        Counted-before 0 x _ _ (uncounted x _ refl (begin_batch-complete r x.conn) refl)
          (write_out-Counted o _))

  postpone-Counted : (us : ℕ) (x : Ctx V Hist Loop) → Counted 0 x (postpone f ae cfg reconnect us x)
  unfolding postpone
  postpone-Counted us x = uncounted x _ refl refl refl

  pub sock_writeable-Counted :
      (r : Sending) (x y : Ctx V Hist Loop)
      → sock_writeable f ae cfg reconnect r x ≡ some y
      → Counted 0 x y
  sock_writeable-Counted r x y e =
      let same = (usec_to_next_send-SameSchedule f r.checked x.conn).same_complete in
      elim (sock_writeable_cases f ae cfg reconnect r x e) [
        | inl (going, sent) ↦ send-Counted r x y sent
        | inr (inl (due_now, sent)) ↦
            Counted-before 0 x _ y (uncounted x _ refl same refl) (send-Counted r _ y sent)
        | inr (inr waits) ↦
            subst (Counted 0 x) waits
              (Counted-before 0 x _ _ (uncounted x _ refl same refl) (postpone-Counted _ _))
      ]
