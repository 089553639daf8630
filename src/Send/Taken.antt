-- ===== src/Send/Taken.antt =====
-- A call of `sock_writeable` of src/wrk.c and the request that it goes on with, or begins.
use wrk_quic.Prelude.{ℕ, ◌+◌, ◌<◌, ◌^◌, ◌≡◌, ◌≢◌, ◌⊎◌, refl, sym, ◌∙◌, arith, some, inl, inr, subst}
use mathlib.Core.Option.{some-injective}
use native.Mathlib.Decide.{ℕ_discrete}
use wrk_quic.Platform.{Floating}
use wrk_quic.EventLoop.{EventLoop}
use wrk_quic.Connection.{Connection, Config, Ctx}
use wrk_quic.Pacing.{usec_to_next_send}
use wrk_quic.Net.{ok, retry, first_outcome}
use wrk_quic.Send.Branches.{sock_writeable-going, sock_writeable-due, sock_writeable-early}
use wrk_quic.Send.{
  Sending, begin_batch, write_out, send, postpone, sock_writeable, delay_request_timer,
}
use wrk_quic.Send.Whole.{
  SameRequest, Takes, begin_batch-written, begin_batch-SameRequest, usec_to_next_send-SameRequest,
}

module _ {V Hist Loop : Type 0} (f : Floating V) (ae : EventLoop Loop) (cfg : Config)
    (reconnect : Ctx V Hist Loop → Ctx V Hist Loop) where
  write_out-Takes :
      (n : ℕ) (x : Ctx V Hist Loop)
      → x.conn.written + n < 2 ^ 64
      → Takes n x.conn (write_out f ae cfg reconnect (ok n) x).conn
  unfolding write_out
  write_out-Takes n x small = record {
    request = ground arith;
    length = ground arith;
    written = ground (arith, small);
  }

  send-ok :
      (r : Sending) (x y : Ctx V Hist Loop) (n : ℕ)
      → first_outcome r.outcomes ≡ some (ok n)
      → send f ae cfg reconnect r x ≡ some y
      → write_out f ae cfg reconnect (ok n) (record x { conn = begin_batch cfg r x.conn }) ≡ y
  unfolding send
  send-ok r x y n first e = ground (arith, first, e)

  send-Takes :
      (r : Sending) (x y : Ctx V Hist Loop) (n : ℕ)
      → first_outcome r.outcomes ≡ some (ok n)
      → send f ae cfg reconnect r x ≡ some y
      → x.conn.written + n < 2 ^ 64
      → Takes n (begin_batch cfg r x.conn) y.conn
  send-Takes r x y n first e small =
      subst (λ (z : Ctx V Hist Loop). Takes n (begin_batch cfg r x.conn) z.conn)
        (send-ok r x y n first e)
        (write_out-Takes n (record x { conn = begin_batch cfg r x.conn })
          (omega (arith, begin_batch-written cfg r x.conn, small)))

  -- What the request is does not depend on the stamps of the clock.
  Takes-SameRequest :
      (r : Sending) (n : ℕ) {b c d : Connection V}
      → SameRequest b c
      → Takes n (begin_batch cfg r c) d
      → Takes n (begin_batch cfg r b) d
  Takes-SameRequest r n {b} {c} same t =
      let same' = begin_batch-SameRequest cfg r b c same in
      record {
        request = t.request ∙ same'.same_request;
        length = t.length ∙ same'.same_length;
        written = rw⁻¹ (same'.same_length, same'.same_written) t.written;
      }

  -- A call that gives bytes to the socket goes on with the request, or begins one.
  pub going-Takes :
      (r : Sending) (x y : Ctx V Hist Loop) (n : ℕ)
      → x.conn.written ≢ 0
      → first_outcome r.outcomes ≡ some (ok n)
      → sock_writeable f ae cfg reconnect r x ≡ some y
      → x.conn.written + n < 2 ^ 64
      → Takes n (begin_batch cfg r x.conn) y.conn
  going-Takes r x y n going first e small =
      send-Takes r x y n first (sym (sock_writeable-going f ae cfg reconnect r x going) ∙ e) small

  pub due-Takes :
      (r : Sending) (x y : Ctx V Hist Loop) (n : ℕ)
      → x.conn.written ≡ 0
      → (usec_to_next_send f r.checked x.conn).0 ≡ 0
      → first_outcome r.outcomes ≡ some (ok n)
      → sock_writeable f ae cfg reconnect r x ≡ some y
      → x.conn.written + n < 2 ^ 64
      → Takes n (begin_batch cfg r x.conn) y.conn
  due-Takes r x y n fresh due_now first e small =
      let c = (usec_to_next_send f r.checked x.conn).1 in
      let same = usec_to_next_send-SameRequest f r.checked x.conn in
      Takes-SameRequest r n
        (record {
          same_request = same.same_request;
          same_length = same.same_length;
          same_written = same.same_written;
        })
        (send-Takes r (record x { conn = record c { latest_write = r.latest } }) y n first
          (sym (sock_writeable-due f ae cfg reconnect r x fresh due_now) ∙ e)
          (omega (arith, same.same_written, small)))

  pub delay_request_timer-SameRequest :
      (now : ℕ) (x : Ctx V Hist Loop) → SameRequest x.conn (delay_request_timer f ae now x).1.conn
  unfolding delay_request_timer
  delay_request_timer-SameRequest now x =
      let same = usec_to_next_send-SameRequest f now x.conn in
      record {
        same_request = ground (arith, same.same_request);
        same_length = ground (arith, same.same_length);
        same_written = ground (arith, same.same_written);
      }

  -- A call that waits keeps the request.
  pub early-SameRequest :
      (r : Sending) (x y : Ctx V Hist Loop)
      → x.conn.written ≡ 0
      → (usec_to_next_send f r.checked x.conn).0 ≢ 0
      → sock_writeable f ae cfg reconnect r x ≡ some y
      → SameRequest x.conn y.conn
  unfolding postpone
  early-SameRequest r x y fresh early e =
      subst (λ (z : Ctx V Hist Loop). SameRequest x.conn z.conn)
        (some-injective _ _ (sym (sock_writeable-early f ae cfg reconnect r x fresh early) ∙ e))
        (usec_to_next_send-SameRequest f r.checked x.conn)

  send-blocked :
      (r : Sending) (x y : Ctx V Hist Loop)
      → first_outcome r.outcomes ≡ some retry
      → send f ae cfg reconnect r x ≡ some y
      → record x { conn = begin_batch cfg r x.conn } ≡ y
  unfolding send write_out
  send-blocked r x y first e = ground (arith, first, e)

  -- A call that gives no bytes to a socket that is not ready may have begun the request, or waits.
  pub blocked-SameRequest :
      (r : Sending) (x y : Ctx V Hist Loop)
      → first_outcome r.outcomes ≡ some retry
      → sock_writeable f ae cfg reconnect r x ≡ some y
      → SameRequest x.conn y.conn ⊎ SameRequest (begin_batch cfg r x.conn) y.conn
  blocked-SameRequest r x y first e = elim (ℕ_discrete x.conn.written 0) [
    | no going ↦
        let same =
          send-blocked r x y first (sym (sock_writeable-going f ae cfg reconnect r x going) ∙ e) in
        inr (
          subst (λ (z : Ctx V Hist Loop). SameRequest (begin_batch cfg r x.conn) z.conn) same
            (record { same_request = refl; same_length = refl; same_written = refl }))
    | yes fresh ↦ elim (ℕ_discrete (usec_to_next_send f r.checked x.conn).0 0) [
      | no early ↦ inl (early-SameRequest r x y fresh early e)
      | yes due_now ↦
          let c = (usec_to_next_send f r.checked x.conn).1 in
          let x' : Ctx V Hist Loop = record x { conn = record c { latest_write = r.latest } } in
          let same = usec_to_next_send-SameRequest f r.checked x.conn in
          inr (
            subst (λ (z : Ctx V Hist Loop). SameRequest (begin_batch cfg r x.conn) z.conn)
              (send-blocked r x' y first
                (sym (sock_writeable-due f ae cfg reconnect r x fresh due_now) ∙ e))
              (begin_batch-SameRequest cfg r x.conn x'.conn (record {
                same_request = same.same_request;
                same_length = same.same_length;
                same_written = same.same_written;
              })))
    ]
  ]
