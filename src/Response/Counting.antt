-- ===== src/Response/Counting.antt =====
-- What the callbacks of src/wrk.c that receive count.
use wrk_quic.Prelude.{ℕ, ◌≡◌, refl, ap, Bool, true, false, arith, ltb, if◌then◌else◌}
use wrk_quic.Platform.{Floating, Histogram}
use wrk_quic.EventLoop.{EventLoop}
use wrk_quic.Connection.{Thread, Config, Ctx}
use wrk_quic.Counted.{Counted, Counted-before, Counted-after, recount, uncounted}
use wrk_quic.Net.{Outcome, ok, error, retry, again}
use wrk_quic.Response.{
  socket_connected_as, stats_request_completed, hand_to_script, count_down, count_response,
  response_complete, read_failed,
}

module _ {V Hist Loop : Type 0} (f : Floating V) (h : Histogram V Hist) (ae : EventLoop Loop)
    (cfg : Config) where
  -- A response counts until the end of the run.
  abbrev pub counts : ℕ → Ctx V Hist Loop → ℕ
  counts at x = if ltb at x.thread.stop_at then 1 else 0

  pub stats_request_completed-Counted :
      (at : ℕ) (x : Ctx V Hist Loop)
      → Counted (counts at x) x (stats_request_completed f h ae cfg at x)
  unfolding stats_request_completed
  stats_request_completed-Counted at x = ground arith

  count_down-Counted : (x : Ctx V Hist Loop) → Counted 0 x (count_down f h ae cfg x)
  unfolding count_down
  count_down-Counted x =
      uncounted x (count_down f h ae cfg x) (ground arith) (ground arith) (ground arith)

  count_response-Counted :
      (status : ℕ) (x : Ctx V Hist Loop) → Counted 0 x (count_response f h ae cfg status x)
  unfolding count_response hand_to_script
  count_response-Counted status x =
      uncounted x (count_response f h ae cfg status x) (ground arith) (ground arith) (ground arith)

  -- What a changed thread counts from there on, if the change was not to its counter or its end.
  after_thread :
      {z : Ctx V Hist Loop} (x : Ctx V Hist Loop) (t : Thread V Hist Loop)
      → t.complete ≡ x.thread.complete
      → t.stop_at ≡ x.thread.stop_at
      → Counted 0 (record x { thread = t }) z
      → Counted 0 x z
  after_thread x t same same_stop c =
      Counted-before 0 x (record x { thread = t }) _ (uncounted x _ same refl same_stop) c

  module _ (reconnect : Ctx V Hist Loop → Ctx V Hist Loop)
      (keeps : (x : Ctx V Hist Loop) → Counted 0 x (reconnect x)) where
    done-Counted :
        (status at : ℕ) (x : Ctx V Hist Loop)
        → Counted (counts at x) x (
            stats_request_completed f h ae cfg at
              (count_down f h ae cfg (count_response f h ae cfg status x)))
    done-Counted status at x =
        let before =
          Counted-before 0 x _ _ (count_response-Counted status x) (count_down-Counted _) in
        recount _ _ x _ (ap (λ s. if ltb at s then 1 else 0) before.same_stop)
          (Counted-before _ x _ _ before (stats_request_completed-Counted at _))

    pub response_complete-Counted :
        (status at : ℕ) (keep_alive : Bool) (x : Ctx V Hist Loop)
        → Counted (counts at x) x (response_complete f h ae cfg reconnect status keep_alive at x)
    unfolding response_complete
    response_complete-Counted status at true x = done-Counted status at x
    response_complete-Counted status at false x =
        Counted-after (counts at x) x _ _ (done-Counted status at x) (keeps _)

    pub read_failed-Counted :
        (x : Ctx V Hist Loop) → Counted 0 x (read_failed f h ae cfg reconnect x)
    unfolding read_failed
    read_failed-Counted x = after_thread x _ refl refl (keeps _)

    pub socket_connected_as-Counted :
        (o : Outcome) (x : Ctx V Hist Loop)
        → Counted 0 x (socket_connected_as f h ae cfg reconnect o x)
    unfolding socket_connected_as
    socket_connected_as-Counted (ok n) x = ground arith
    socket_connected_as-Counted error x = after_thread x _ refl refl (keeps _)
    socket_connected_as-Counted retry x = uncounted x x refl refl refl
    socket_connected_as-Counted again x = uncounted x x refl refl refl
