-- ===== src/Wire.antt =====
-- What a socket of a connection over TCP carries, from `socket_connected` of src/wrk.c on until it is
-- closed, with the callbacks of the connection in any order.
pub mod Whole
mod Tests
use wrk_quic.Prelude.{
  ℕ, ◌+◌, ◌<◌, ◌≤◌, ◌^◌, ◌≡◌, ◌≢◌, ◌⊎◌, true, some, List, [], ◌∷◌, ◌++◌, ◌==◌, if◌then◌else◌,
  length, take,
}
use wrk_quic.Platform.{Floating, Histogram}
use wrk_quic.EventLoop.{EventLoop}
use wrk_quic.Connection.{Connection, Thread, Config, Ctx}
use wrk_quic.Pacing.{usec_to_next_send}
use wrk_quic.Net.{ok, retry, first_outcome}
use wrk_quic.Send.{Sending, begin_batch, buf, len, sock_writeable, delay_request_timer}
use wrk_quic.Response.{response_complete, socket_connected_as}

module _ {V : Type 0} where
  -- The bytes that `sock.write` takes if it takes `n`, and the request if that ends it.
  abbrev pub part : ℕ → Connection V → List ℕ
  part n c = take n (buf c)

  abbrev pub finished : ℕ → Connection V → List (List ℕ)
  finished n c = if c.written + n == c.length then c.request ∷ [] else []

module _ {V Hist Loop : Type 0} (f : Floating V) (h : Histogram V Hist) (ae : EventLoop Loop)
    (cfg : Config) (reconnect : Ctx V Hist Loop → Ctx V Hist Loop) where
  -- The requests that were written to their end and all bytes that were written, with the connection as
  -- it is. `sock.write` gets `buf` and `len`, and takes at most that.
  pub data Wire : List (List ℕ) → List ℕ → Ctx V Hist Loop → Type 0 where
    opens :
        (n : ℕ) (x : Ctx V Hist Loop)
        → x.conn.length ≡ length x.conn.request
        → x.conn.length < 2 ^ 64
        → Wire [] [] (socket_connected_as f h ae cfg reconnect (ok n) x)
    sends :
        {ws : List (List ℕ)} {bs : List ℕ} {x : Ctx V Hist Loop} (r : Sending) (n : ℕ)
        (y : Ctx V Hist Loop)
        → Wire ws bs x
        → length r.request < 2 ^ 64
        → first_outcome r.outcomes ≡ some (ok n)
        → (x.conn.written ≢ 0) ⊎ ((usec_to_next_send f r.checked x.conn).0 ≡ 0)
        → sock_writeable f ae cfg reconnect r x ≡ some y
        → n ≤ len (begin_batch cfg r x.conn)
        → Wire
            (ws ++ finished n (begin_batch cfg r x.conn))
            (bs ++ part n (begin_batch cfg r x.conn))
            y
    blocked :
        {ws : List (List ℕ)} {bs : List ℕ} {x : Ctx V Hist Loop} (r : Sending) (y : Ctx V Hist Loop)
        → Wire ws bs x
        → length r.request < 2 ^ 64
        → first_outcome r.outcomes ≡ some retry
        → sock_writeable f ae cfg reconnect r x ≡ some y
        → Wire ws bs y
    waits :
        {ws : List (List ℕ)} {bs : List ℕ} {x : Ctx V Hist Loop} (r : Sending) (y : Ctx V Hist Loop)
        → Wire ws bs x
        → x.conn.written ≡ 0
        → (usec_to_next_send f r.checked x.conn).0 ≢ 0
        → sock_writeable f ae cfg reconnect r x ≡ some y
        → Wire ws bs y
    fires :
        {ws : List (List ℕ)} {bs : List ℕ} {x : Ctx V Hist Loop} (now : ℕ)
        → Wire ws bs x
        → Wire ws bs (delay_request_timer f ae now x).1
    answers :
        {ws : List (List ℕ)} {bs : List ℕ} {x : Ctx V Hist Loop} (status now : ℕ)
        → Wire ws bs x
        → Wire ws bs (response_complete f h ae cfg reconnect status true now x)
    elsewhere :
        {ws : List (List ℕ)} {bs : List ℕ} {x : Ctx V Hist Loop} (t : Thread V Hist Loop)
        → Wire ws bs x
        → Wire ws bs (record x { thread = t })
