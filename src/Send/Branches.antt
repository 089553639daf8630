-- ===== src/Send/Branches.antt =====
-- The ways through `sock_writeable` of src/wrk.c.
use wrk_quic.Prelude.{◌≡◌, ◌≢◌, arith, some, ◌==◌, Bool-cases, Option-cases, inl, inr, ◌⊎◌}
use wrk_quic.Platform.{Floating}
use wrk_quic.EventLoop.{EventLoop}
use wrk_quic.Connection.{Config, Ctx}
use wrk_quic.Pacing.{usec_to_next_send}
use wrk_quic.Net.{Outcome, first_outcome}
use wrk_quic.Send.{Sending, begin_batch, write_out, send, postpone, sock_writeable}

module _ {V Hist Loop : Type 0} (f : Floating V) (ae : EventLoop Loop) (cfg : Config)
    (reconnect : Ctx V Hist Loop → Ctx V Hist Loop) where
  pub send-eq_some :
      (r : Sending) (x : Ctx V Hist Loop) {y : Ctx V Hist Loop}
      → send f ae cfg reconnect r x ≡ some y
      → (o : Outcome) × (write_out f ae cfg reconnect o
            (record x { conn = begin_batch cfg r x.conn })
          ≡ y)
  unfolding send
  send-eq_some r x e = elim (Option-cases (first_outcome r.outcomes)) [
    | inl none_yet ↦ ground (arith, none_yet)
    | inr (o, first) ↦ (o, ground (arith, first))
  ]

  -- The three ways through `sock_writeable`: going on with a request, beginning one, and waiting.
  pub sock_writeable_cases :
      (r : Sending) (x : Ctx V Hist Loop) {y : Ctx V Hist Loop}
      → sock_writeable f ae cfg reconnect r x ≡ some y
      → let (us, c) = usec_to_next_send f r.checked x.conn in
        ((x.conn.written ≢ 0) × (send f ae cfg reconnect r x ≡ some y))
        ⊎ ((us ≡ 0)
            × (send f ae cfg reconnect r (record x { conn = record c { latest_write = r.latest } })
                ≡ some y))
        ⊎ (postpone f ae cfg reconnect us (record x { conn = c }) ≡ y)
  unfolding sock_writeable
  sock_writeable_cases r x e = elim (Bool-cases (x.conn.written == 0)) [
    | inr going ↦ inl (ground (arith, going), ground (arith, going))
    | inl fresh ↦ elim (Bool-cases ((usec_to_next_send f r.checked x.conn).0 == 0)) [
      | inl due_now ↦ inr (inl (ground (arith, due_now), ground (arith, fresh, due_now)))
      | inr early ↦ inr (inr (ground (arith, fresh, early)))
    ]
  ]

  pub sock_writeable-going :
      (r : Sending) (x : Ctx V Hist Loop)
      → x.conn.written ≢ 0
      → sock_writeable f ae cfg reconnect r x ≡ send f ae cfg reconnect r x
  unfolding sock_writeable
  sock_writeable-going r x going = ground (arith, going)

  pub sock_writeable-due :
      (r : Sending) (x : Ctx V Hist Loop)
      → x.conn.written ≡ 0
      → let (us, c) = usec_to_next_send f r.checked x.conn in
        us ≡ 0
        → sock_writeable f ae cfg reconnect r x
          ≡ send f ae cfg reconnect r (record x { conn = record c { latest_write = r.latest } })
  unfolding sock_writeable
  sock_writeable-due r x fresh due_now = ground (arith, fresh, due_now)

  pub sock_writeable-early :
      (r : Sending) (x : Ctx V Hist Loop)
      → x.conn.written ≡ 0
      → let (us, c) = usec_to_next_send f r.checked x.conn in
        us ≢ 0
        → sock_writeable f ae cfg reconnect r x
          ≡ some (postpone f ae cfg reconnect us (record x { conn = c }))
  unfolding sock_writeable
  sock_writeable-early r x fresh early = ground (arith, fresh, early)
