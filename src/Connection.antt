-- ===== src/Connection.antt =====
-- The state of src/wrk.h: a connection, its thread and the configuration. `V` are the values of
-- `double`, `Hist` the histograms and `Loop` the event loops.
use wrk_quic.Prelude.{ℕ, ℤ, Bool, List, Option}
use wrk_quic.Stats.{Errors}

-- `buffer`: `bytes` is the allocated block, of `length` bytes, and `cursor` an offset into it. The
-- block is NULL exactly if `length` is 0.
pub record Buffer : Type 0 where
  pub bytes : List ℕ
  pub length : ℕ
  pub cursor : ℕ

-- `enum { FIELD, VALUE } state`
pub data HeaderState : Type 0 where
  field value : HeaderState

-- `connection`, without the parser, the TLS or QUIC handle and the input buffer, which belong to
-- libraries. `id` is its place in `thread->cs`, and stands for its address.
pub record Connection (V : Type 0) : Type 0 where
  pub id : ℕ
  pub state : HeaderState
  pub fd : ℕ
  pub bind : ℕ
  pub throughput : V
  pub catch_up_throughput : V
  pub complete : ℕ
  pub complete_at_last_batch_start : ℕ
  pub catch_up_start_time : ℕ
  pub complete_at_catch_up_start : ℕ
  pub thread_start : ℕ
  pub start : ℕ
  pub request : List ℕ
  pub length : ℕ
  pub written : ℕ
  pub pending : ℕ
  pub headers : Buffer
  pub body : Buffer
  pub actual_latency_start : ℕ
  pub has_pending : Bool
  pub caught_up : Bool
  pub latest_should_send_time : ℕ
  pub latest_expected_start : ℕ
  pub latest_connect : ℕ
  pub latest_write : ℕ

-- `thread`, without the POSIX thread, the address, the random generator and the Lua state.
pub record Thread (V Hist Loop : Type 0) : Type 0 where
  pub loop : Loop
  pub connections : ℕ
  pub interval : ℕ
  pub stop_at : ℕ
  pub complete : ℕ
  pub requests : ℕ
  pub bytes : ℕ
  pub start : ℕ
  pub throughput : V
  pub mean : ℕ
  pub latency_histogram : Hist
  pub u_latency_histogram : Hist
  pub errors : Errors

-- `proto *`: the transports of src/tcp.h and src/quic.h.
pub data Proto : Type 0 where
  tcp_proto quic_proto : Proto

-- `struct config`, without the host, which is only printed, and the context of OpenSSL.
pub record Config : Type 0 where
  pub threads : ℕ
  pub connections : ℕ
  pub duration : ℕ
  pub timeout : ℕ
  pub pipeline : ℕ
  pub rate : ℕ
  pub delay_ms : ℕ
  pub bind : ℕ
  pub affinity : Bool
  pub latency : Bool
  pub u_latency : Bool
  pub dynamic : Bool
  pub record_all_responses : Bool
  pub raw : Bool
  pub verbose : Bool
  pub script : Option (List ℕ)
  pub http_version : ℤ
  pub proto : Proto

-- What a callback works on: a connection and `c->thread`.
pub record Ctx (V Hist Loop : Type 0) : Type 0 where
  pub thread : Thread V Hist Loop
  pub conn : Connection V
