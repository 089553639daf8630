-- ===== src/Response/Start.antt =====
-- The callbacks for responses leave the time at which the last batch began.
use wrk_quic.Prelude.{ℕ, ◌≡◌, ◌∙◌, Bool, true, false, arith}
use wrk_quic.Platform.{Floating, Histogram}
use wrk_quic.EventLoop.{EventLoop}
use wrk_quic.Connection.{Config, Ctx}
use wrk_quic.Response.{
  response_complete, count_response, count_down, stats_request_completed, hand_to_script,
}

module _ {V Hist Loop : Type 0} (f : Floating V) (h : Histogram V Hist) (ae : EventLoop Loop)
    (cfg : Config) where
  start-count_response :
      (status : ℕ) (x : Ctx V Hist Loop)
      → (count_response f h ae cfg status x).conn.start ≡ x.conn.start
  unfolding count_response hand_to_script
  start-count_response status x = ground arith

  start-count_down : (x : Ctx V Hist Loop) → (count_down f h ae cfg x).conn.start ≡ x.conn.start
  unfolding count_down
  start-count_down x = ground arith

  start-stats_request_completed :
      (now : ℕ) (x : Ctx V Hist Loop)
      → (stats_request_completed f h ae cfg now x).conn.start ≡ x.conn.start
  unfolding stats_request_completed
  start-stats_request_completed now x = ground arith

  pub start-response_complete :
      (reconnect : Ctx V Hist Loop → Ctx V Hist Loop)
      → ((x : Ctx V Hist Loop) → (reconnect x).conn.start ≡ x.conn.start)
      → (status at : ℕ) (keep_alive : Bool) (x : Ctx V Hist Loop)
      → (response_complete f h ae cfg reconnect status keep_alive at x).conn.start ≡ x.conn.start
  unfolding response_complete
  start-response_complete reconnect keeps status at true x =
      start-stats_request_completed at _ ∙ start-count_down _ ∙ start-count_response status x
  start-response_complete reconnect keeps status at false x =
      keeps _
      ∙ start-stats_request_completed at _
      ∙ start-count_down _
      ∙ start-count_response status x
