-- ===== src/Response/Requests.antt =====
-- A response leaves the request of a connection alone, and a new socket begins it again.
use wrk_quic.Prelude.{ℕ, ◌≡◌, ◌∙◌, true, refl, arith}
use wrk_quic.Platform.{Floating, Histogram}
use wrk_quic.EventLoop.{EventLoop}
use wrk_quic.Connection.{Config, Ctx}
use wrk_quic.Net.{ok}
use wrk_quic.Send.Whole.{SameRequest}
use wrk_quic.Response.{
  response_complete, stats_request_completed, record_latency, count_down, count_response,
  hand_to_script, socket_connected_as,
}

module _ {V Hist Loop : Type 0} (f : Floating V) (h : Histogram V Hist) (ae : EventLoop Loop)
    (cfg : Config) (reconnect : Ctx V Hist Loop → Ctx V Hist Loop) where
  stats_request_completed-SameRequest :
      (now : ℕ) (x : Ctx V Hist Loop)
      → SameRequest x.conn (stats_request_completed f h ae cfg now x).conn
  unfolding stats_request_completed record_latency
  stats_request_completed-SameRequest now x = ground arith

  counted-SameRequest :
      (status : ℕ) (x : Ctx V Hist Loop)
      → SameRequest x.conn (count_down f h ae cfg (count_response f h ae cfg status x)).conn
  unfolding count_down count_response hand_to_script
  counted-SameRequest status x = ground arith

  pub response_complete-SameRequest :
      (status now : ℕ) (x : Ctx V Hist Loop)
      → SameRequest x.conn (response_complete f h ae cfg reconnect status true now x).conn
  unfolding response_complete
  response_complete-SameRequest status now x =
      let x' = count_down f h ae cfg (count_response f h ae cfg status x) in
      let a = counted-SameRequest status x in
      let b = stats_request_completed-SameRequest now x' in
      record {
        same_request = b.same_request ∙ a.same_request;
        same_length = b.same_length ∙ a.same_length;
        same_written = b.same_written ∙ a.same_written;
      }

  pub socket_connected_as-request :
      (n : ℕ) (x : Ctx V Hist Loop)
      → let c = (socket_connected_as f h ae cfg reconnect (ok n) x).conn in
        (c.request ≡ x.conn.request) × (c.length ≡ x.conn.length) × (c.written ≡ 0)
  unfolding socket_connected_as
  socket_connected_as-request n x = (refl, refl, refl)
