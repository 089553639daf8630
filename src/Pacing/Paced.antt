-- ===== src/Pacing/Paced.antt =====
-- A connection is paced if its batch began when the schedule had come to it, or later.
use wrk_quic.Prelude.{ℕ, ◌≡◌, ◌≢◌, ◌≤◌, ◌<◌, ◌^◌, true, arith, ◌∙◌, sym, ap}
use wrk_quic.Platform.{Floating}
use wrk_quic.Connection.{Connection}
use wrk_quic.Pacing.{due, SameSchedule}

module _ {V : Type 0} (f : Floating V) where
  -- At time `now`: a batch under way began no earlier than the schedule says and not in the future,
  -- and responses are expected only while a batch is under way.
  pub record Paced (now : ℕ) (c : Connection V) : Type 0 where
    pub batch :
        c.has_pending ≡ true → due f c c.complete_at_last_batch_start ≤ c.actual_latency_start
    pub past : c.has_pending ≡ true → c.actual_latency_start ≤ now
    pub awaiting : c.pending ≢ 0 → c.has_pending ≡ true
    pub small : c.pending < 2 ^ 64

  pub Paced-later : {now later : ℕ} {c : Connection V} → now ≤ later → Paced now c → Paced later c
  Paced-later le p = record {
    batch = p.batch;
    past = λ e. omega (arith, p.past e);
    awaiting = p.awaiting;
    small = p.small;
  }

  pub due-SameSchedule :
      {c c' : Connection V} (n : ℕ) → SameSchedule f c c' → due f c' n ≡ due f c n
  due-SameSchedule n s = cc (s.same_start, s.same_throughput)

  pub SameSchedule-Paced :
      {now : ℕ} {c c' : Connection V} → SameSchedule f c c' → Paced now c → Paced now c'
  SameSchedule-Paced {c = c} s p = record {
    batch = λ e. omega (
      arith,
      p.batch (sym s.same_has_pending ∙ e),
      due-SameSchedule c.complete_at_last_batch_start s,
      ap (due f _) s.same_batch,
      s.same_latency,
    );
    past = λ e. omega (arith, p.past (sym s.same_has_pending ∙ e), s.same_latency);
    awaiting = λ ne. s.same_has_pending ∙ p.awaiting (λ e. ne (s.same_pending ∙ e));
    small = omega (arith, p.small, s.same_pending);
  }
