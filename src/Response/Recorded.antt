-- ===== src/Response/Recorded.antt =====
-- What `response_complete` records, and that it keeps a connection paced.
use wrk_quic.Prelude.{
  ℕ, ◌+◌, sub_ℕ, ◌-◌, ◌≡◌, Bool, true, false, not, ◌||◌, arith, if◌then◌else◌, ◌==◌, ◌<◌, ◌≤◌, ◌^◌,
  ◌∙◌, sub64, pos, refl,
}
use wrk_quic.Platform.{Floating, Histogram}
use wrk_quic.EventLoop.{EventLoop}
use wrk_quic.Connection.{Connection, Config, Ctx}
use wrk_quic.Pacing.{due, SameSchedule}
use wrk_quic.Pacing.Paced.{Paced, SameSchedule-Paced}
use wrk_quic.Net.{Outcome, ok, error, retry, again}
use wrk_quic.Response.{
  socket_connected_as, read_failed, expected_latency_timing, actual_latency_timing,
  stats_request_completed, hand_to_script, count_down, count_response, response_complete,
}

module _ {V Hist Loop : Type 0} (f : Floating V) (h : Histogram V Hist) (ae : EventLoop Loop)
    (cfg : Config) where
  -- A batch that began when it was due has two latencies that are both no negative number, and the
  -- one from the schedule is at least the one from the first byte sent.
  pub latencies :
      (now : ℕ) (c : Connection V)
      → c.actual_latency_start ≤ now
      → due f c c.complete_at_last_batch_start ≤ c.actual_latency_start
      → now < 2 ^ 63
      → (expected_latency_timing f h ae cfg now c
          ≡ pos (now - due f c c.complete_at_last_batch_start))
        × (actual_latency_timing f h ae cfg now c ≡ pos (now - c.actual_latency_start))
  unfolding expected_latency_timing actual_latency_timing
  latencies now c past batch small = (ground arith, ground arith)

  -- A request that was sent up to 999 microseconds early may be answered before it was due.
  pub latencies_early :
      (now : ℕ) (c : Connection V)
      → c.actual_latency_start ≤ now
      → due f c c.complete_at_last_batch_start ≤ c.actual_latency_start + 999
      → now < 2 ^ 63
      → (expected_latency_timing f h ae cfg now c
          ≡ sub_ℕ now (due f c c.complete_at_last_batch_start))
        × (actual_latency_timing f h ae cfg now c ≡ pos (now - c.actual_latency_start))
  unfolding expected_latency_timing actual_latency_timing
  latencies_early now c past batch small = (ground arith, ground arith)

  count_down-Paced :
      (now : ℕ) (x : Ctx V Hist Loop)
      → 0 < x.conn.pending
      → Paced f now x.conn
      → Paced f now (count_down f h ae cfg x).conn
  unfolding count_down
  count_down-Paced now x answer p = ground (arith, p.batch, p.past, p.awaiting, p.small)

  stats_request_completed-Paced :
      (now at : ℕ) (x : Ctx V Hist Loop)
      → Paced f now x.conn
      → Paced f now (stats_request_completed f h ae cfg at x).conn
  unfolding stats_request_completed
  stats_request_completed-Paced now at x p = ground (arith, p.batch, p.past, p.awaiting, p.small)

  hand_to_script-SameSchedule : (c : Connection V) → SameSchedule f c (hand_to_script f h ae cfg c)
  unfolding hand_to_script
  hand_to_script-SameSchedule c = ground arith

  -- Both latencies of a response that is recorded, from the state that `response_complete` leaves to
  -- `stats_request_completed`.
  pub completed_latency :
      (at : ℕ) (x : Ctx V Hist Loop)
      → at < x.thread.stop_at
      → (cfg.record_all_responses || not x.conn.has_pending) ≡ true
      → let y = stats_request_completed f h ae cfg at x in
        (y.thread.latency_histogram
          ≡ h.record_value x.thread.latency_histogram
              (expected_latency_timing f h ae cfg at x.conn))
        × (y.thread.u_latency_histogram
            ≡ h.record_value x.thread.u_latency_histogram
                (actual_latency_timing f h ae cfg at x.conn))
  unfolding stats_request_completed expected_latency_timing actual_latency_timing
  completed_latency at x running all = ground arith

  -- The state in which the response is accounted for.
  counted : ℕ → Ctx V Hist Loop → Ctx V Hist Loop
  counted status x = count_down f h ae cfg (count_response f h ae cfg status x)

  counted-Paced :
      (now status : ℕ) (x : Ctx V Hist Loop)
      → 0 < x.conn.pending
      → Paced f now x.conn
      → Paced f now (counted status x).conn
  unfolding counted count_response
  counted-Paced now status x answer p =
      let same = hand_to_script-SameSchedule x.conn in
      count_down-Paced now (count_response f h ae cfg status x) (omega (arith, same.same_pending))
        (SameSchedule-Paced f same p)

  -- Counting keeps what the latencies are computed from.
  counted-conn :
      (status : ℕ) (x : Ctx V Hist Loop)
      → let c = (counted status x).conn in
        (c.actual_latency_start ≡ x.conn.actual_latency_start)
        × (c.complete_at_last_batch_start ≡ x.conn.complete_at_last_batch_start)
        × (due f c c.complete_at_last_batch_start
            ≡ due f x.conn x.conn.complete_at_last_batch_start)
        × (c.has_pending ≡ (if sub64 x.conn.pending 1 == 0 then false else x.conn.has_pending))
  unfolding counted count_response count_down hand_to_script
  counted-conn status x = ground arith

  counted-thread :
      (status : ℕ) (x : Ctx V Hist Loop)
      → let t = (counted status x).thread in
        (t.stop_at ≡ x.thread.stop_at)
        × (t.latency_histogram ≡ x.thread.latency_histogram)
        × (t.u_latency_histogram ≡ x.thread.u_latency_histogram)
  unfolding counted count_response count_down
  counted-thread status x = ground arith

  module _ (reconnect : Ctx V Hist Loop → Ctx V Hist Loop)
      (keeps : (x : Ctx V Hist Loop) → SameSchedule f x.conn (reconnect x).conn) where
    pub socket_connected_as-SameSchedule :
        (o : Outcome) (x : Ctx V Hist Loop)
        → SameSchedule f x.conn (socket_connected_as f h ae cfg reconnect o x).conn
    unfolding socket_connected_as
    socket_connected_as-SameSchedule (ok n) x = ground arith
    socket_connected_as-SameSchedule error x = keeps _
    socket_connected_as-SameSchedule retry x = ground arith
    socket_connected_as-SameSchedule again x = ground arith

    pub read_failed-SameSchedule :
        (x : Ctx V Hist Loop) → SameSchedule f x.conn (read_failed f h ae cfg reconnect x).conn
    unfolding read_failed
    read_failed-SameSchedule x = keeps _

    -- The histograms after the response has been accounted for.
    accounted :
        (status at : ℕ) (x : Ctx V Hist Loop)
        → 0 < x.conn.pending
        → Paced f at x.conn
        → at < x.thread.stop_at
        → at < 2 ^ 63
        → (cfg.record_all_responses || (x.conn.pending == 1)) ≡ true
        → let y = stats_request_completed f h ae cfg at (counted status x) in
          (y.thread.latency_histogram
            ≡ h.record_value x.thread.latency_histogram
                (pos (at - due f x.conn x.conn.complete_at_last_batch_start)))
          × (y.thread.u_latency_histogram
              ≡ h.record_value x.thread.u_latency_histogram
                  (pos (at - x.conn.actual_latency_start)))
    accounted status at x answer p running small all =
        let under = p.awaiting (omega arith) in
        let (c_start, c_batch, c_due, c_pending) = counted-conn status x in
        let (t_stop, t_latency, t_u_latency) = counted-thread status x in
        let recorded =
          completed_latency at (counted status x) (omega (arith, t_stop))
            (ground (arith, all, c_pending)) in
        let both =
          latencies at (counted status x).conn (omega (arith, c_start, p.past under))
            (omega (arith, c_start, c_due, p.batch under)) small in
        (cc (recorded.0, both.0, t_latency, c_due), cc (recorded.1, both.1, t_u_latency, c_start))

    pub response_complete-Paced :
        (now status at : ℕ) (keep_alive : Bool) (x : Ctx V Hist Loop)
        → 0 < x.conn.pending
        → Paced f now x.conn
        → Paced f now (response_complete f h ae cfg reconnect status keep_alive at x).conn
    unfolding response_complete counted
    response_complete-Paced now status at true x answer p =
        stats_request_completed-Paced now at (counted status x)
          (counted-Paced now status x answer p)
    response_complete-Paced now status at false x answer p =
        SameSchedule-Paced f (keeps (stats_request_completed f h ae cfg at (counted status x))) (
          stats_request_completed-Paced now at (counted status x)
            (counted-Paced now status x answer p))

    -- A response of a paced connection, if it is to be recorded, goes to both histograms before the
    -- end of the run: the time since its batch was due, and the time since the batch was sent. Both
    -- are no negative number, and the first is at least the second.
    pub response_complete_latency :
        (status at : ℕ) (keep_alive : Bool) (x : Ctx V Hist Loop)
        → 0 < x.conn.pending
        → Paced f at x.conn
        → at < x.thread.stop_at
        → at < 2 ^ 63
        → (cfg.record_all_responses || (x.conn.pending == 1)) ≡ true
        → ((z : Ctx V Hist Loop)
            → ((reconnect z).thread.latency_histogram ≡ z.thread.latency_histogram)
              × ((reconnect z).thread.u_latency_histogram ≡ z.thread.u_latency_histogram))
        → (e u : ℕ) × (e ≡ at - due f x.conn x.conn.complete_at_last_batch_start)
          × (u ≡ at - x.conn.actual_latency_start)
          × (u ≤ e)
          × (let y = response_complete f h ae cfg reconnect status keep_alive at x in
              (y.thread.latency_histogram ≡ h.record_value x.thread.latency_histogram (pos e))
              × (y.thread.u_latency_histogram
                  ≡ h.record_value x.thread.u_latency_histogram (pos u)))
    unfolding response_complete counted
    response_complete_latency status at keep_alive x answer p running small all same_histograms =
        let under = p.awaiting (omega arith) in
        let done = accounted status at x answer p running small all in
        let y = stats_request_completed f h ae cfg at (counted status x) in
        (
          at - due f x.conn x.conn.complete_at_last_batch_start,
          at - x.conn.actual_latency_start,
          refl,
          refl,
          omega (arith, p.batch under),
          elim keep_alive
              as (λ k.
                let z = response_complete f h ae cfg reconnect status k at x in
                (z.thread.latency_histogram
                  ≡ h.record_value x.thread.latency_histogram
                      (pos (at - due f x.conn x.conn.complete_at_last_batch_start)))
                × (z.thread.u_latency_histogram
                    ≡ h.record_value x.thread.u_latency_histogram
                        (pos (at - x.conn.actual_latency_start)))) [
                          | true ↦ done
                          | false ↦ ((same_histograms y).0 ∙ done.0, (same_histograms y).1 ∙ done.1)
                        ],
        )
