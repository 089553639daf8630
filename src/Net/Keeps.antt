-- ===== src/Net/Keeps.antt =====
-- Opening a socket leaves the accounts of the connection and of its thread alone.
use wrk_quic.Prelude.{◌≡◌, arith}
use wrk_quic.Platform.{Floating}
use wrk_quic.EventLoop.{EventLoop}
use wrk_quic.Connection.{Ctx}
use wrk_quic.Pacing.{SameSchedule}
use wrk_quic.Counted.{Counted, uncounted}
use wrk_quic.Net.{Attempt, tcp_connect_socket, tcp_reconnect_socket}

module _ {V Hist Loop : Type 0} (f : Floating V) (ae : EventLoop Loop) (a : Attempt) where
  pub tcp_connect_socket-SameSchedule :
      (x : Ctx V Hist Loop) → SameSchedule f x.conn (tcp_connect_socket ae a x).conn
  unfolding tcp_connect_socket
  tcp_connect_socket-SameSchedule x = ground arith

  pub tcp_reconnect_socket-SameSchedule :
      (x : Ctx V Hist Loop) → SameSchedule f x.conn (tcp_reconnect_socket ae a x).conn
  unfolding tcp_reconnect_socket
  tcp_reconnect_socket-SameSchedule x = ground arith

  pub histograms-tcp_reconnect_socket :
      (x : Ctx V Hist Loop)
      → ((tcp_reconnect_socket ae a x).thread.latency_histogram ≡ x.thread.latency_histogram)
        × ((tcp_reconnect_socket ae a x).thread.u_latency_histogram ≡ x.thread.u_latency_histogram)
  unfolding tcp_reconnect_socket
  histograms-tcp_reconnect_socket x = ground arith

  pub start-tcp_reconnect_socket :
      (x : Ctx V Hist Loop) → (tcp_reconnect_socket ae a x).conn.start ≡ x.conn.start
  unfolding tcp_reconnect_socket
  start-tcp_reconnect_socket x = ground arith

  pub tcp_connect_socket-Counted : (x : Ctx V Hist Loop) → Counted 0 x (tcp_connect_socket ae a x)
  unfolding tcp_connect_socket
  tcp_connect_socket-Counted x =
      uncounted x (tcp_connect_socket ae a x) (ground arith) (ground arith) (ground arith)

  pub tcp_reconnect_socket-Counted :
      (x : Ctx V Hist Loop) → Counted 0 x (tcp_reconnect_socket ae a x)
  unfolding tcp_reconnect_socket
  tcp_reconnect_socket-Counted x =
      uncounted x (tcp_reconnect_socket ae a x) (ground arith) (ground arith) (ground arith)
