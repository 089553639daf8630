-- ===== src/Response.antt =====
-- The receiving side of src/wrk.c: `socket_connected`, `socket_readable`, the parser's callback
-- `response_complete` and the accounting of `stats_request_completed`. Readings of the clock and the
-- results of system calls and of the parser are arguments; `cfg.proto->reconnect` is the parameter
-- `reconnect`.
pub mod Recorded
pub mod Start
pub mod Counting
pub mod Requests
use wrk_quic.Prelude.{
  ℕ, ◌/◌, ◌-◌, Bool, false, not, ◌&&◌, ◌||◌, Option, none, some, List, [], ◌∷◌, ltb, leb, ◌==◌,
  if◌then◌else◌, add64, sub64, add32, to_int64, ℤ,
}
use wrk_quic.Platform.{Floating, Histogram}
use wrk_quic.Stats.{Errors}
use wrk_quic.EventLoop.{
  EventLoop, readable, writable, socket_writeable, socket_readable, of_connection,
}
use wrk_quic.Connection.{Connection, Config, Ctx, field}
use wrk_quic.Buffer
use wrk_quic.Net.{Outcome, ok, error, retry, again, count_connect}
use wrk_quic.Pacing.{due}

-- `RECVBUF`
abbrev pub recvbuf : ℕ
recvbuf = 8192

-- One round of the loop in `socket_readable`: the result of `sock.read`, what the parser's callbacks
-- do to the state and how many bytes it takes, and `sock.readable` behind it.
pub record Round (X : Type 0) : Type 0 where
  pub outcome : Outcome
  pub parse : X → X × ℕ
  pub available : ℕ

count_status : Errors → Errors
count_status e = record e { status = add32 e.status 1 }

count_read : Errors → Errors
count_read e = record e { read = add32 e.read 1 }

module _ {V Hist Loop : Type 0} (f : Floating V) (h : Histogram V Hist) (ae : EventLoop Loop)
    (cfg : Config) where
  -- `expected_latency_timing` and `actual_latency_timing` of `stats_request_completed`. The second is
  -- an `uint64_t` that becomes an `int64_t` when it is recorded.
  pub expected_latency_timing : ℕ → Connection V → ℤ
  expected_latency_timing now c = to_int64 (sub64 now (due f c c.complete_at_last_batch_start))

  pub actual_latency_timing : ℕ → Connection V → ℤ
  actual_latency_timing now c = to_int64 (sub64 now c.actual_latency_start)

  -- The last block: both latencies go to the histograms.
  pub record_latency : ℕ → Ctx V Hist Loop → Ctx V Hist Loop
  record_latency now x =
      if cfg.record_all_responses || not x.conn.has_pending
      then (record x {
        thread = record (x.thread) {
          latency_histogram =
              h.record_value x.thread.latency_histogram (expected_latency_timing now x.conn);
          u_latency_histogram =
              h.record_value x.thread.u_latency_histogram (actual_latency_timing now x.conn);
        };
      })
      else x

  -- `stats_request_completed`, whose diagnostic output is left out. The response is counted, and the
  -- numbers kept for debugging are cleared.
  unfoldable pub stats_request_completed : ℕ → Ctx V Hist Loop → Ctx V Hist Loop
  unfolding record_latency
  stats_request_completed now x =
      if leb x.thread.stop_at now
      then record x { thread = record (x.thread) { loop = ae.stop x.thread.loop } }
      else record_latency now (record {
        thread = record (x.thread) {
          complete = add64 x.thread.complete 1;
          requests = add64 x.thread.requests 1;
        };
        conn = record (x.conn) {
          complete = add64 x.conn.complete 1;
          latest_should_send_time = 0;
          latest_expected_start = 0;
        };
      })

  -- The branch of `response_complete` for a script that reads responses: the last header is ended,
  -- the script gets them, and both buffers are emptied.
  pub hand_to_script : Connection V → Connection V
  hand_to_script c = if c.headers.length == 0 then c else record c {
    headers = Buffer.reset (Buffer.terminate c.headers);
    body = Buffer.reset c.body;
    state = field;
  }

  -- The batch is answered when `pending` comes down to 0: the connection may send again.
  pub count_down : Ctx V Hist Loop → Ctx V Hist Loop
  count_down x =
      let pending' = sub64 x.conn.pending 1 in
      if pending' == 0
      then (let (loop', created) =
            ae.create_file_event x.thread.loop x.conn.fd writable socket_writeable
              (of_connection x.conn.id) in
          record {
            thread = record (x.thread) { loop = loop' };
            conn = record (x.conn) { pending = pending'; has_pending = false };
          })
      else record x { conn = record (x.conn) { pending = pending' } }

  -- `response_complete` up to the script: errors of the server are counted.
  pub count_response : ℕ → Ctx V Hist Loop → Ctx V Hist Loop
  unfolding count_status
  count_response status x =
      let e = x.thread.errors in
      record {
        thread = record (x.thread) { errors = if ltb 399 status then count_status e else e };
        conn = hand_to_script x.conn;
      }

  module _ (reconnect : Ctx V Hist Loop → Ctx V Hist Loop) where
    -- `response_complete` for a response with status `status` that is complete at `now`;
    -- `keep_alive` is `http_should_keep_alive`.
    pub response_complete : ℕ → Bool → ℕ → Ctx V Hist Loop → Ctx V Hist Loop
    response_complete status keep_alive now x =
        let done = stats_request_completed now (count_down (count_response status x)) in
        if keep_alive then done else reconnect done

    pub read_failed : Ctx V Hist Loop → Ctx V Hist Loop
    unfolding count_read
    read_failed x =
        reconnect (record x { thread = record (x.thread) { errors = count_read x.thread.errors } })

    -- `socket_readable`. After `AGAIN` the loop goes on as its condition says for the last `n`.
    -- `none` is a loop that has not ended.
    unfoldable pub socket_readable_loop :
        ℕ → List (Round (Ctx V Hist Loop)) → Ctx V Hist Loop → Option (Ctx V Hist Loop)
    unfolding read_failed
    socket_readable_loop n [] x = none
    socket_readable_loop n (r ∷ rest) x = elim r.outcome [
      | error ↦ some (read_failed x)
      | retry ↦ some x
      | again ↦
          let more = socket_readable_loop n rest x in
          if n == recvbuf && ltb 0 r.available then more else some x
      | ok n ↦
          let (x', parsed) = r.parse x in
          let y = record x' { thread = record (x'.thread) { bytes = add64 x'.thread.bytes n } } in
          let more = socket_readable_loop n rest y in
          if parsed == n
          then (if n == recvbuf && ltb 0 r.available then more else some y)
          else some (read_failed x')
    ]

    -- `socket_connected` for the result of `sock.connect` that is not `AGAIN`.
    unfoldable pub socket_connected_as : Outcome → Ctx V Hist Loop → Ctx V Hist Loop
    socket_connected_as (ok n) x =
        let d = of_connection x.conn.id in
        let (loop', read) =
          ae.create_file_event x.thread.loop x.conn.fd readable socket_readable d in
        let (loop'', write) = ae.create_file_event loop' x.conn.fd writable socket_writeable d in
        record {
          thread = record (x.thread) { loop = loop'' };
          conn = record (x.conn) { written = 0 };
        }
    socket_connected_as error x =
        reconnect
          (record x { thread = record (x.thread) { errors = count_connect x.thread.errors } })
    socket_connected_as retry x = x
    socket_connected_as again x = x
