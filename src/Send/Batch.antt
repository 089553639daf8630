-- ===== src/Send/Batch.antt =====
-- Sending keeps a connection paced: `sock_writeable` begins a batch only when it is due.
use wrk_quic.Prelude.{ℕ, ◌≡◌, arith, some, ◌<◌, ◌≤◌, ◌^◌, subst, inl, inr, refl, ap}
use wrk_quic.Platform.{Floating, IsExact}
use wrk_quic.EventLoop.{EventLoop}
use wrk_quic.Connection.{Connection, Config, Ctx}
use wrk_quic.Pacing.{due, usec_to_next_send, SameSchedule, usec_to_next_send-SameSchedule}
use wrk_quic.Pacing.Exact.{due-le-now}
use wrk_quic.Pacing.Paced.{Paced, Paced-later, SameSchedule-Paced, due-SameSchedule}
use wrk_quic.Net.{Outcome, ok, error, retry, again}
use wrk_quic.Send.Branches.{send-eq_some, sock_writeable_cases}
use wrk_quic.Send.{
  Sending, begin_batch, write_out, send, postpone, sock_writeable, delay_request_timer,
}

module _ {V Hist Loop : Type 0} (f : Floating V) (ae : EventLoop Loop) where
  -- The timer's callback changes no account.
  pub delay_request_timer-SameSchedule :
      (now : ℕ) (x : Ctx V Hist Loop)
      → SameSchedule f x.conn (delay_request_timer f ae now x).1.conn
  unfolding delay_request_timer
  delay_request_timer-SameSchedule now x =
      let same : (delay_request_timer f ae now x).1.conn ≡ (usec_to_next_send f now x.conn).1 =
        ground arith in
      rw same (usec_to_next_send-SameSchedule f now x.conn)

module _ {V Hist Loop : Type 0} (f : Floating V) (ae : EventLoop Loop) (cfg : Config)
    (reconnect : Ctx V Hist Loop → Ctx V Hist Loop)
    (keeps : (x : Ctx V Hist Loop) → SameSchedule f x.conn (reconnect x).conn)
    (pipeline : cfg.pipeline < 2 ^ 64) where
  begin_batch-Paced :
      (r : Sending) (c : Connection V)
      → (c.written ≡ 0 → due f c c.complete ≤ r.started)
      → Paced f r.started c
      → Paced f r.started (begin_batch cfg r c)
  unfolding begin_batch
  begin_batch-Paced r c ready p =
      ground (arith, p.batch, p.past, p.awaiting, p.small, ready, pipeline)

  write_out-SameSchedule :
      (o : Outcome) (x : Ctx V Hist Loop)
      → SameSchedule f x.conn (write_out f ae cfg reconnect o x).conn
  unfolding write_out
  write_out-SameSchedule (ok n) x = ground arith
  write_out-SameSchedule retry x = ground arith
  write_out-SameSchedule again x = ground arith
  write_out-SameSchedule error x = keeps _

  send-Paced :
      (r : Sending) (x : Ctx V Hist Loop) {y : Ctx V Hist Loop}
      → (x.conn.written ≡ 0 → due f x.conn x.conn.complete ≤ r.started)
      → Paced f r.started x.conn
      → send f ae cfg reconnect r x ≡ some y
      → Paced f r.started y.conn
  send-Paced r x ready p e =
      let (o, same) = send-eq_some f ae cfg reconnect r x e in
      let x' : Ctx V Hist Loop = record x { conn = begin_batch cfg r x.conn } in
      subst (λ (z : Ctx V Hist Loop). Paced f r.started z.conn) same
        (SameSchedule-Paced f (write_out-SameSchedule o x') (begin_batch-Paced r x.conn ready p))

  postpone-conn : (us : ℕ) (x : Ctx V Hist Loop) → (postpone f ae cfg reconnect us x).conn ≡ x.conn
  unfolding postpone
  postpone-conn us x = refl

  stamped :
      {c c' : Connection V} (latest : ℕ)
      → SameSchedule f c c'
      → SameSchedule f c (record c' { latest_write = latest })
  stamped latest s = record {
    same_complete = s.same_complete;
    same_start = s.same_start;
    same_throughput = s.same_throughput;
    same_batch = s.same_batch;
    same_latency = s.same_latency;
    same_has_pending = s.same_has_pending;
    same_pending = s.same_pending;
  }

  module _ (IsPositive : V → Type 0) (laws : IsExact f IsPositive) where
    -- After a call of `sock_writeable` the connection is paced, if it was before: a batch that it
    -- begins is due, whether the connection is on pace or catching up.
    pub sock_writeable-Paced :
        (r : Sending) (x : Ctx V Hist Loop) {y : Ctx V Hist Loop} (now : ℕ)
        → now ≤ r.checked
        → r.checked ≤ r.started
        → r.started < 2 ^ 64
        → Paced f now x.conn
        → sock_writeable f ae cfg reconnect r x ≡ some y
        → Paced f r.started y.conn
    sock_writeable-Paced r x {y} now le le' small p e =
        let p' : Paced f r.started x.conn = Paced-later f (omega arith) p in
        let same = usec_to_next_send-SameSchedule f r.checked x.conn in
        let c = (usec_to_next_send f r.checked x.conn).1 in
        elim (sock_writeable_cases f ae cfg reconnect r x e) [
          | inl (going, sent) ↦ send-Paced r x (λ z. absurd (going z)) p' sent
          | inr (inl (due_now, sent)) ↦
              let early = due-le-now f IsPositive laws r.checked x.conn (omega arith) due_now in
              send-Paced r (record x { conn = record c { latest_write = r.latest } })
                (λ z. omega (
                  arith,
                  early,
                  due-SameSchedule f c.complete same,
                  ap (due f x.conn) same.same_complete,
                ))
                (SameSchedule-Paced f (stamped r.latest same) p') sent
          | inr (inr waits) ↦
              subst (λ (z : Ctx V Hist Loop). Paced f r.started z.conn) waits
                (rw postpone-conn (SameSchedule-Paced f same p'))
        ]
