-- ===== src/Quic/Held.antt =====
-- What every callback of src/quic.c keeps: a request is sent at most 999 microseconds before its time,
-- as the event loop counts in milliseconds.
use wrk_quic.Prelude.{
  ℕ, ◌-◌, ◌+◌, ◌*◌, ◌^◌, ◌≡◌, ◌≤◌, ◌<◌, ap, sym, ◌∙◌, true, false, ◌==◌, if◌then◌else◌, arith,
  Bool-cases, inl, inr,
}
use wrk_quic.Platform.{Floating, IsExact, Histogram}
use wrk_quic.EventLoop.{EventLoop}
use wrk_quic.Connection.{Connection, Config}
use wrk_quic.Pacing.{due, usec_to_next_send, SameSchedule, usec_to_next_send-SameSchedule}
use wrk_quic.Pacing.Exact.{due-le-wait}
use wrk_quic.Pacing.Paced.{due-SameSchedule}
use wrk_quic.Response.{stats_request_completed}
use wrk_quic.Send.{msec_to_wait}
use wrk_quic.Send.Wakeup.{msec_to_wait_bounds}
use wrk_quic.Quic.{Picoquic, World, Attempt, quic_connect_socket}
use wrk_quic.Quic.Callback.{Preparing, begin_request, restart, finish}

-- Where a connection stands between two callbacks: a connection context is open or being opened, it
-- has ended, or the timer `delay_recon` runs until some time.
pub data Phase : Type 0 where
  opened closing : Phase
  waiting : ℕ → Phase

module _ {V : Type 0} (f : Floating V) where
  abbrev pub OnTime : Phase → ℕ → Connection V → Type 0
  OnTime opened now c = c.has_pending ≡ false → due f c c.complete ≤ now + 999
  OnTime closing now c = Unit
  OnTime (waiting until) now c = due f c c.complete ≤ until

  -- A request under way began at most 999 microseconds before the schedule says and not in the future,
  -- and one that may be sent next is due in at most that time.
  pub record Held (phase : Phase) (now : ℕ) (c : Connection V) : Type 0 where
    pub batch :
        c.has_pending ≡ true → due f c c.complete_at_last_batch_start ≤ c.actual_latency_start + 999
    pub past : c.has_pending ≡ true → c.actual_latency_start ≤ now
    pub on_time : OnTime phase now c

  OnTime-later :
      (phase : Phase) {now later : ℕ} (c : Connection V)
      → now ≤ later
      → OnTime phase now c
      → OnTime phase later c
  OnTime-later opened c le h = λ e. omega (arith, h e)
  OnTime-later closing c le h = tt
  OnTime-later (waiting until) c le h = h

  pub Held-later :
      {phase : Phase} {now later : ℕ} {c : Connection V}
      → now ≤ later
      → Held phase now c
      → Held phase later c
  Held-later {phase = phase} {c = c} le p = record {
    batch = p.batch;
    past = λ e. omega (arith, p.past e);
    on_time = OnTime-later phase c le p.on_time;
  }

  due-complete :
      {c c' : Connection V} → SameSchedule f c c' → due f c' c'.complete ≡ due f c c.complete
  due-complete {c = c} {c' = c'} s = ap (due f c') s.same_complete ∙ due-SameSchedule f c.complete s

  OnTime-SameSchedule :
      (phase : Phase) (now : ℕ) {c c' : Connection V}
      → SameSchedule f c c'
      → OnTime phase now c
      → OnTime phase now c'
  OnTime-SameSchedule opened now s h =
      λ e. omega (arith, h (sym s.same_has_pending ∙ e), due-complete s)
  OnTime-SameSchedule closing now s h = tt
  OnTime-SameSchedule (waiting until) now s h = omega (arith, h, due-complete s)

  pub SameSchedule-Held :
      {phase : Phase} {now : ℕ} {c c' : Connection V}
      → SameSchedule f c c'
      → Held phase now c
      → Held phase now c'
  SameSchedule-Held {phase = phase} {c = c} s p = record {
    batch = λ e. omega (
      arith,
      p.batch (sym s.same_has_pending ∙ e),
      due-SameSchedule f c.complete_at_last_batch_start s,
      ap (due f _) s.same_batch,
      s.same_latency,
    );
    past = λ e. omega (arith, p.past (sym s.same_has_pending ∙ e), s.same_latency);
    on_time = OnTime-SameSchedule phase _ s p.on_time;
  }

  pub begin_request-Held :
      (cfg : Config) (r : Preparing) (c : Connection V) {now : ℕ}
      → now ≤ r.started
      → Held opened now c
      → Held opened r.started (begin_request cfg r c)
  unfolding begin_request
  begin_request-Held cfg r c le p = elim (Bool-cases c.has_pending) [
    | inl e ↦ record {
      batch = λ _. ground (arith, e, p.batch e);
      past = λ _. ground (arith, e, p.past e);
      on_time = λ e'. ground (arith, e');
    }
    | inr e ↦ record {
      batch = λ _. ground (arith, e, p.on_time e);
      past = λ _. ground (arith, e);
      on_time = λ e'. ground (arith, e');
    }
  ]

  -- The timer has run, which the event loop may do up to 999 microseconds early.
  pub waiting-Held :
      {now until at : ℕ} {c : Connection V}
      → now ≤ at
      → until ≤ at + 999
      → Held (waiting until) now c
      → Held opened at c
  waiting-Held le ran p = record {
    batch = p.batch;
    past = λ e. omega (arith, p.past e);
    on_time = λ e. omega (arith, p.on_time);
  }

  -- The phase after `restart`.
  abbrev pub restarted : ℕ → ℕ → Phase
  restarted now us = if us == 0 then opened else waiting (now + 1000 * msec_to_wait us)

  SameSchedule-refl : (c : Connection V) → SameSchedule f c c
  SameSchedule-refl c = ground arith

  pub quic_connect_socket-SameSchedule :
      {Hist Loop Q : Type 0} (ae : EventLoop Loop) (a : Attempt) (w : World V Hist Loop Q)
      → SameSchedule f w.ctx.conn (quic_connect_socket ae a w).ctx.conn
  unfolding quic_connect_socket
  quic_connect_socket-SameSchedule ae a w = ground arith

  module _ (IsPositive : V → Type 0) (laws : IsExact f IsPositive) where
    -- The time that the schedule sets is reached when the wait has passed.
    restarted-OnTime :
        (now : ℕ) (c : Connection V)
        → now < 2 ^ 64
        → (usec_to_next_send f now c).0 < 1000 * (2 ^ 31 - 1)
        → OnTime (restarted now (usec_to_next_send f now c).0) now c
    restarted-OnTime now c small short =
        go (usec_to_next_send f now c).0 short (due-le-wait f IsPositive laws now c small)
      where
        go :
            (us : ℕ)
            → us < 1000 * (2 ^ 31 - 1)
            → due f c c.complete ≤ now + us
            → OnTime (restarted now us) now c
        go us short le = elim (Bool-cases (us == 0)) [
          | inl e ↦ rw e (λ _. ground (arith, e, le))
          | inr e ↦ rw e (omega (arith, le, (msec_to_wait_bounds us short).0))
        ]

    module _ {Hist Loop Q : Type 0} (h : Histogram V Hist) (ae : EventLoop Loop) (pico : Picoquic Q)
        (cfg : Config) where
      restart-SameSchedule :
          (now : ℕ) (a : Attempt) (w : World V Hist Loop Q)
          → SameSchedule f
              (usec_to_next_send f now w.ctx.conn).1
              (restart f h ae pico cfg now a w).ctx.conn
      unfolding restart
      restart-SameSchedule now a w =
          elim (Bool-cases ((usec_to_next_send f now w.ctx.conn).0 == 0)) [
            | inl e ↦ rw e (quic_connect_socket-SameSchedule ae a _)
            | inr e ↦ rw e (SameSchedule-refl _)
          ]

      -- After the end of a connection, a new one is opened when its request is due, or a timer waits
      -- until then.
      pub restart-Held :
          (now : ℕ) (a : Attempt) (phase : Phase) (w : World V Hist Loop Q)
          → now < 2 ^ 64
          → (usec_to_next_send f now w.ctx.conn).0 < 1000 * (2 ^ 31 - 1)
          → Held phase now w.ctx.conn
          → Held
              (restarted now (usec_to_next_send f now w.ctx.conn).0)
              now
              (restart f h ae pico cfg now a w).ctx.conn
      restart-Held now a phase w small short p = SameSchedule-Held (restart-SameSchedule now a w) (
          SameSchedule-Held (usec_to_next_send-SameSchedule f now w.ctx.conn) (record {
            batch = p.batch;
            past = p.past;
            on_time = restarted-OnTime now w.ctx.conn small short;
          }))

      pub finish-Held :
          (now : ℕ) (phase : Phase) (w : World V Hist Loop Q)
          → Held closing now (finish f h ae pico cfg now w).1.ctx.conn
      unfolding finish stats_request_completed
      finish-Held now phase w = ground arith
