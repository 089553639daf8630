-- ===== src/Timers/Answered.antt =====
-- What a response means for `check_timeouts` of src/wrk.c.
use wrk_quic.Prelude.{ℕ, suc, ◌-◌, ◌≡◌, ap, Bool, List, ◌∷◌, ltb, if◌then◌else◌}
use wrk_quic.Platform.{Floating, Histogram}
use wrk_quic.EventLoop.{EventLoop}
use wrk_quic.Connection.{Connection, Config, Ctx}
use wrk_quic.Net.{Attempt, tcp_reconnect_socket}
use wrk_quic.Net.Keeps.{start-tcp_reconnect_socket}
use wrk_quic.Response.{response_complete}
use wrk_quic.Response.Start.{start-response_complete}
use wrk_quic.Timers.Timeouts.{overdue}

module _ {V Hist Loop : Type 0} (f : Floating V) (h : Histogram V Hist) (ae : EventLoop Loop)
    (cfg : Config) (a : Attempt) where
  -- An answer does not keep a connection from being counted as timed out: `response_complete` leaves
  -- the start of the last batch, by which the overdue connections are found, as it is.
  pub overdue-response_complete :
      (status at : ℕ) (keep_alive : Bool) (x : Ctx V Hist Loop) (now limit : ℕ)
      (cs : List (Connection V))
      → let y = response_complete f h ae cfg (tcp_reconnect_socket ae a) status keep_alive at x in
        overdue now limit (y.conn ∷ cs) ≡ overdue now limit (x.conn ∷ cs)
  overdue-response_complete status at keep_alive x now limit cs =
      ap (λ t. if ltb limit (now - t) then suc (overdue now limit cs) else overdue now limit cs)
        (start-response_complete f h ae cfg (tcp_reconnect_socket ae a)
          (start-tcp_reconnect_socket f ae a) status at keep_alive x)
