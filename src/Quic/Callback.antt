-- ===== src/Quic/Callback.antt =====
-- `quic_callback` of src/quic.c, by which picoquic reports what happens to a connection.
pub mod Prefixes
mod Tests
use wrk_quic.Prelude.{
  ℕ, zero, suc, ◌≡◌, ◌&&◌, ◌||◌, not, Bool, true, false, Option, none, some, List, ltb, leb, min,
  ◌==◌, if◌then◌else◌, add64, ℤ, pos, negsuc, length, take, drop,
}
use wrk_quic.Platform.{Floating, Histogram}
use wrk_quic.EventLoop.{EventLoop, delay_recon, of_connection}
use wrk_quic.Connection.{Connection, Thread, Config, Ctx}
use wrk_quic.Pacing.{usec_to_next_send}
use wrk_quic.Send.{msec_to_wait}
use wrk_quic.Response.{stats_request_completed}
use wrk_quic.Quic.{Picoquic, World, Attempt, with_loop, with_conn, quic_connect_socket}

-- The readings of the clock in the case of `picoquic_callback_prepare_to_send`, for `latest_write`
-- and for `start`, and the request that a script makes.
pub record Preparing : Type 0 where
  pub latest : ℕ
  pub started : ℕ
  pub request : List ℕ

-- `picoquic_call_back_event_t` with what comes with it: the bytes of `length`, the stream, or the
-- space in the packet. `other` stands for the values that the `switch` does not name.
pub data Event : Type 0 where
  stream_data : ℕ → Event
  stream_fin : ℕ → Event
  stop_sending : ℕ → Event
  stream_reset stateless_reset close application_close : Event
  version_negotiation stream_gap : Event
  prepare_to_send : ℕ → Preparing → Event
  almost_ready ready other : Event

module _ {V : Type 0} (cfg : Config) where
  -- The accounts of a request that is sent.
  unfoldable pub begin_request : Preparing → Connection V → Connection V
  begin_request r c =
      let made = (c.written == 0) && cfg.dynamic in
      record c {
        latest_write = r.latest;
        request = if made then r.request else c.request;
        length = if made then length r.request else c.length;
        start = r.started;
        actual_latency_start = if c.has_pending then c.actual_latency_start else r.started;
        complete_at_last_batch_start =
            if c.has_pending then c.complete_at_last_batch_start else c.complete;
        has_pending = true;
        pending = cfg.pipeline;
      }

  -- The bytes for a packet with room for `space`, and whether they end the stream.
  unfoldable pub chunk : ℕ → Connection V → List ℕ × Bool
  chunk space c = (take (min c.length space) (drop c.written c.request), leb c.length space)

module _ {V Hist Loop Q : Type 0} (f : Floating V) (h : Histogram V Hist) (ae : EventLoop Loop)
    (pico : Picoquic Q) (cfg : Config) where
  -- The lines under `restart`, at the time `now`.
  unfoldable pub restart : ℕ → Attempt → World V Hist Loop Q → World V Hist Loop Q
  restart now a w =
      let (us, c) = usec_to_next_send f now w.ctx.conn in
      let w' = with_conn c w in
      let (loop', id) =
        ae.create_time_event w.ctx.thread.loop (msec_to_wait us) delay_recon (of_connection c.id) in
      if us == 0 then quic_connect_socket ae a w' else with_loop loop' w'

  unfoldable pub count_bytes : ℕ → World V Hist Loop Q → World V Hist Loop Q
  count_bytes n w = record w {
    ctx = record (w.ctx) { thread = record (w.ctx.thread) { bytes = add64 w.ctx.thread.bytes n } };
  }

  -- The end of the stream: the response is complete at `now`, and the connection is closed.
  unfoldable pub finish : ℕ → World V Hist Loop Q → ℤ × World V Hist Loop Q
  finish now w =
      let x = record (w.ctx) { conn = record (w.ctx.conn) { has_pending = false } } in
      let (q, ret) = pico.close w.quic in
      (ret, record w { ctx = stats_request_completed f h ae cfg now x; quic = q })

  unfoldable pub prepare : ℕ → Preparing → World V Hist Loop Q → ℤ × World V Hist Loop Q
  unfolding begin_request chunk
  prepare space r w =
      let c = begin_request cfg r w.ctx.conn in
      let (bytes, is_fin) = chunk cfg space c in
      let (q, provided) = pico.provide w.quic bytes is_fin in
      (if provided then pos 0 else negsuc 0, record (with_conn c w) { quic = q })

  -- `quic_callback` for a connection, with its result. `now` is the reading of the clock in
  -- `stats_request_completed` or in `usec_to_next_send`, and `a` the system's answers to a new socket.
  unfoldable pub quic_callback : ℕ → Attempt → Event → World V Hist Loop Q → ℤ × World V Hist Loop Q
  unfolding restart count_bytes finish prepare
  quic_callback now a (stream_data n) w = (pos 0, count_bytes n w)
  quic_callback now a (stream_fin n) w = finish now (count_bytes n w)
  quic_callback now a (stop_sending stream) w =
      (pos 0, restart now a (record w { quic = pico.reset_stream w.quic stream }))
  quic_callback now a stream_reset w = (pos 0, restart now a w)
  quic_callback now a stateless_reset w = (pos 0, restart now a w)
  quic_callback now a close w = (pos 0, restart now a w)
  quic_callback now a application_close w = (pos 0, restart now a w)
  quic_callback now a version_negotiation w = (pos 0, w)
  quic_callback now a stream_gap w = (pos 0, w)
  quic_callback now a (prepare_to_send space r) w = prepare space r w
  quic_callback now a almost_ready w = (pos 0, with_conn (record (w.ctx.conn) { written = 0 }) w)
  quic_callback now a ready w = (pos 0, w)
  quic_callback now a other w = (pos 0, w)
