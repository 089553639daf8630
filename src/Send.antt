-- ===== src/Send.antt =====
-- The sending side of src/wrk.c: `sock_writeable`, the callback for a writable socket, and the timer
-- `delay_request`. Every reading of `time_us()` is an argument, and so are the results of
-- `sock.write` and of the script; `cfg.proto->reconnect` is the parameter `reconnect`.
pub mod Branches
pub mod Whole
pub mod Taken
pub mod Batch
pub mod Counting
pub mod Wakeup
mod Tests
use wrk_quic.Prelude.{
  ℕ, zero, ◌+◌, ◌/◌, ◌-◌, true, not, Option, none, some, List, [], ◌∷◌, ltb, ◌^◌, ◌==◌,
  if◌then◌else◌, add64, add32, sub64, drop, length,
}
use wrk_quic.Platform.{Floating}
use wrk_quic.EventLoop.{EventLoop, writable, socket_writeable, delay_request, of_connection}
use wrk_quic.Connection.{Connection, Config, Ctx}
use wrk_quic.Net.{Outcome, ok, error, retry, again, first_outcome}
use wrk_quic.Pacing.{usec_to_next_send}

-- `round((us / 1000.0L) + 0.5)`: half away from zero, so a whole millisecond more than the quotient.
-- C leaves it undefined what becomes of a number that does not fit the `int`; the model puts 0 there.
pub msec_to_wait : ℕ → ℕ
msec_to_wait us = let ms = us / 1000 + 1 in if ltb ms (2 ^ 31) then ms else 0

-- The readings of the clock in `sock_writeable`: in `usec_to_next_send`, for `latest_write` and for
-- `start`; the request that a script makes; and the results of `sock.write`.
pub record Sending : Type 0 where
  pub checked : ℕ
  pub latest : ℕ
  pub started : ℕ
  pub request : List ℕ
  pub outcomes : List Outcome

-- `buf` and `len`: the bytes of the request that are not written yet.
unfoldable pub buf : {V : Type 0} → Connection V → List ℕ
buf c = drop c.written c.request

unfoldable pub len : {V : Type 0} → Connection V → ℕ
len c = sub64 c.length c.written

module _ {V : Type 0} (cfg : Config) where
  -- The lines of `sock_writeable` that begin a batch, if nothing of the request is written yet.
  unfoldable pub begin_batch : Sending → Connection V → Connection V
  begin_batch r c =
      if c.written == 0
      then (record c {
        request = if cfg.dynamic then r.request else c.request;
        length = if cfg.dynamic then length r.request else c.length;
        start = r.started;
        actual_latency_start = if c.has_pending then c.actual_latency_start else r.started;
        complete_at_last_batch_start =
            if c.has_pending then c.complete_at_last_batch_start else c.complete;
        has_pending = true;
        pending = cfg.pipeline;
      })
      else c

module _ {V Hist Loop : Type 0} (f : Floating V) (ae : EventLoop Loop) where
  -- `delay_request`: the milliseconds until the timer fires again, or `none` for `AE_NOMORE`.
  pub delay_request_timer : ℕ → Ctx V Hist Loop → Option ℕ × Ctx V Hist Loop
  delay_request_timer now x =
      let (us, c) = usec_to_next_send f now x.conn in
      if us == 0
      then (let (loop', created) =
            ae.create_file_event x.thread.loop c.fd writable socket_writeable
              (of_connection c.id) in
          (none, record { thread = record (x.thread) { loop = loop' }; conn = c }))
      else (some (msec_to_wait us), record x { conn = c })

module _ {V Hist Loop : Type 0} (f : Floating V) (ae : EventLoop Loop) (cfg : Config)
    (reconnect : Ctx V Hist Loop → Ctx V Hist Loop) where
  -- The `switch` of `sock_writeable` and what follows it. `none` is a `goto eagain` loop that has not
  -- ended.
  pub write_out : Outcome → Ctx V Hist Loop → Ctx V Hist Loop
  write_out (ok n) x =
      let written' = add64 x.conn.written n in
      if written' == x.conn.length
      then (record {
        thread = record (x.thread) { loop = ae.delete_file_event x.thread.loop x.conn.fd writable };
        conn = record (x.conn) { written = 0 };
      })
      else record x { conn = record (x.conn) { written = written' } }
  write_out retry x = x
  write_out again x = x
  write_out error x =
      let e = x.thread.errors in
      reconnect
        (record x { thread = record (x.thread) { errors = record e { write = add32 e.write 1 } } })

  pub send : Sending → Ctx V Hist Loop → Option (Ctx V Hist Loop)
  send r x = elim (first_outcome r.outcomes) [
    | none ↦ none
    | some o ↦ some (write_out o (record x { conn = begin_batch cfg r x.conn }))
  ]

  -- The connection waits: no callback for writing, and a timer instead.
  pub postpone : ℕ → Ctx V Hist Loop → Ctx V Hist Loop
  postpone us x =
      let loop' = ae.delete_file_event x.thread.loop x.conn.fd writable in
      let (loop'', id) =
        ae.create_time_event loop' (msec_to_wait us) delay_request (of_connection x.conn.id) in
      record x { thread = record (x.thread) { loop = loop'' } }

  -- `sock_writeable`
  unfoldable pub sock_writeable : Sending → Ctx V Hist Loop → Option (Ctx V Hist Loop)
  unfolding send postpone begin_batch write_out
  sock_writeable r x =
      let (us, c) = usec_to_next_send f r.checked x.conn in
      if x.conn.written == 0
      then (if us == 0
          then send r (record x { conn = record c { latest_write = r.latest } })
          else some (postpone us (record x { conn = c })))
      else send r x
