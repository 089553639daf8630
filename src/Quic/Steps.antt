-- ===== src/Quic/Steps.antt =====
-- The steps of a connection over QUIC, as the event loop and picoquic drive the callbacks of
-- src/quic.c. Every step takes time; the environment chooses which callback comes next. What it keeps
-- to: picoquic asks for data only while a connection context is open, ends a stream only after a
-- request was sent, stops and resets no stream, and reports the end of a context once; the delay of a
-- timer fits an `int`, and a timer runs at most 999 microseconds early, since the event loop of src/ae.c
-- counts in milliseconds.
use wrk_quic.Prelude.{ℕ, ◌≡◌, ◌≤◌, ◌+◌, ◌*◌, ◌-◌, ◌<◌, ◌^◌, true, false, some, ℤ}
use wrk_quic.Platform.{Floating, Histogram}
use wrk_quic.EventLoop.{EventLoop}
use wrk_quic.Connection.{Connection, Thread, Config}
use wrk_quic.Pacing.{usec_to_next_send}
use wrk_quic.Quic.{Picoquic, Wr, World, Attempt, delay_recon_timer}
use wrk_quic.Quic.Callback.{
  Preparing, Event, stream_data, stream_fin, stateless_reset, close, application_close,
  version_negotiation, stream_gap, prepare_to_send, almost_ready, ready, other, quic_callback,
}
use wrk_quic.Quic.Sockets.{
  connected, write_request_timer, quic_read, sleep, quic_writeable_as, Prepared,
}
use wrk_quic.Quic.Held.{Phase, opened, closing, waiting, restarted}

-- The events that end a connection context.
abbrev pub IsEnd : Event → Type 0
IsEnd stateless_reset = Unit
IsEnd close = Unit
IsEnd application_close = Unit
IsEnd e = ⊥

-- The events that neither send, end a stream nor end a context.
abbrev pub IsQuiet : Event → Type 0
IsQuiet (stream_data n) = Unit
IsQuiet version_negotiation = Unit
IsQuiet stream_gap = Unit
IsQuiet almost_ready = Unit
IsQuiet ready = Unit
IsQuiet other = Unit
IsQuiet e = ⊥

abbrev pub HasContext : Phase → Type 0
HasContext (waiting until) = ⊥
HasContext phase = Unit

module _ {V Hist Loop Q : Type 0} (f : Floating V) (h : Histogram V Hist) (ae : EventLoop Loop)
    (pico : Picoquic Q) (cfg : Config) where
  abbrev pub call : ℕ → Attempt → Event → World V Hist Loop Q → World V Hist Loop Q
  call at a e w = (quic_callback f h ae pico cfg at a e w).1

  pub data Step (phase : Phase) (now : ℕ) (w : World V Hist Loop Q) (phase' : Phase) (later : ℕ)
      (w' : World V Hist Loop Q) : Type 0 where
    waits : now ≤ later → phase' ≡ phase → w' ≡ w → Step phase now w phase' later w'
    connects :
        (fuel fd : ℕ) (a : Attempt)
        → now ≤ later
        → phase' ≡ phase
        → connected ae pico fuel fd a w ≡ some w'
        → Step phase now w phase' later w'
    reads :
        (fd : ℕ)
        → now ≤ later
        → phase' ≡ phase
        → w' ≡ (quic_read ae pico fd (λ x. x) w).1
        → Step phase now w phase' later w'
    writes :
        (fd : ℕ) (p : Prepared)
        → now ≤ later
        → phase' ≡ phase
        → w' ≡ quic_writeable_as ae pico fd (λ x. (x, p)) w
        → Step phase now w phase' later w'
    elsewhere :
        (t : Thread V Hist Loop) (fds : ℕ → Wr) (q : Q)
        → now ≤ later
        → phase' ≡ phase
        → w' ≡ record { ctx = record { thread = t; conn = w.ctx.conn }; fd_to_cnx = fds; quic = q }
        → Step phase now w phase' later w'
    sleeps :
        (fd : ℕ) (delta : ℤ)
        → now ≤ later
        → phase' ≡ phase
        → w' ≡ sleep ae pico fd delta w
        → Step phase now w phase' later w'
    wakes :
        (fd : ℕ)
        → now ≤ later
        → phase' ≡ phase
        → w' ≡ (write_request_timer ae pico fd w).1
        → Step phase now w phase' later w'
    hears :
        (at : ℕ) (a : Attempt) (e : Event)
        → IsQuiet e
        → now ≤ later
        → phase' ≡ phase
        → w' ≡ call at a e w
        → Step phase now w phase' later w'
    prepares :
        (at space : ℕ) (a : Attempt) (r : Preparing)
        → now ≤ r.started
        → r.started ≤ later
        → phase ≡ opened
        → phase' ≡ opened
        → w' ≡ call at a (prepare_to_send space r) w
        → Step phase now w phase' later w'
    completes :
        (at n : ℕ) (a : Attempt)
        → now ≤ at
        → at ≤ later
        → phase ≡ opened
        → w.ctx.conn.has_pending ≡ true
        → phase' ≡ closing
        → w' ≡ call at a (stream_fin n) w
        → Step phase now w phase' later w'
    ends :
        (at : ℕ) (a : Attempt) (e : Event)
        → IsEnd e
        → now ≤ at
        → at ≤ later
        → later < 2 ^ 64
        → (usec_to_next_send f at w.ctx.conn).0 < 1000 * (2 ^ 31 - 1)
        → HasContext phase
        → phase' ≡ restarted f at (usec_to_next_send f at w.ctx.conn).0
        → w' ≡ call at a e w
        → Step phase now w phase' later w'
    fires :
        (at until : ℕ) (a : Attempt)
        → now ≤ at
        → at ≤ later
        → until ≤ at + 999
        → phase ≡ waiting until
        → phase' ≡ opened
        → w' ≡ (delay_recon_timer ae a w).1
        → Step phase now w phase' later w'

  pub data Reach (start : ℕ) (s : World V Hist Loop Q)
      : Phase → ℕ → World V Hist Loop Q → Type 0 where
    here : Reach start s opened start s
    next :
        {phase phase' : Phase} {now later : ℕ} {w w' : World V Hist Loop Q}
        → Reach start s phase now w
        → Step phase now w phase' later w'
        → Reach start s phase' later w'

  -- A connection that `delayed_initial_connect` opens at `start`.
  pub record IsNew (start : ℕ) (c : Connection V) : Type 0 where
    pub idle : c.has_pending ≡ false
    pub none_complete : c.complete ≡ 0
    pub from : c.thread_start ≡ start
