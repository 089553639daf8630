-- ===== src/Examples.antt =====
-- Concrete stand-ins for what the models take as parameters, and a connection to start from: the
-- tests run the models on them.
use wrk_quic.Prelude.{
  ℕ, suc, ◌+◌, ◌-◌, ◌*◌, ◌/◌, ◌%◌, ◌^◌, ◌<◌, Bool, true, false, ◌&&◌, List, [], ◌∷◌, ◌++◌, ltb, leb,
  ◌==◌, if◌then◌else◌, arith, ℤ, pos, pos_part, length, get_elem?, some, none, refl, ◌≡◌,
}
use wrk_quic.Platform.{Floating, IsExact, Histogram}
use wrk_quic.Stats.{Errors}
use wrk_quic.EventLoop.{
  EventLoop, IsEventLoop, TimeProc, ClientData, Mask, readable, writable, both, Writer, nothing,
  calls,
}
use wrk_quic.Quic.{Picoquic, World}
use wrk_quic.Connection.{Buffer, field, Connection, Thread, Config, tcp_proto, Ctx}

-- Numbers in millionths, rounded down.
abbrev pub unit : ℕ
unit = 1000000

abbrev pub fixed : Floating ℕ
fixed = record {
  of_u64 = λ n. n * unit;
  of_int64 = λ z. pos_part z * unit;
  to_u64 = λ x. x / unit % 2 ^ 64;
  to_int64 = λ x. pos (x / unit);
  literal = λ n d. n * unit / d;
  add = λ x y. x + y;
  sub = λ x y. x - y;
  mul = λ x y. x * y / unit;
  div = λ x y. x * unit / y;
  square = λ x. x * x / unit;
  sqrt = λ x. x;
  round = λ x. (x + 500000) / unit * unit;
  ltb = λ x y. ltb x y;
  leb = λ x y. leb x y;
}

abbrev pub IsPositive : ℕ → Type 0
IsPositive x = 0 < x

pub fixed-IsExact : IsExact fixed IsPositive
fixed-IsExact = record {
  range = λ x. omega arith;
  exact = λ n h. omega arith;
  add_zero = λ x. omega arith;
  zero_div = λ x h. omega arith;
}

-- A histogram that keeps every value, newest first.
abbrev pub log : Histogram ℕ (List ℤ)
log = record {
  record_value = λ l v. v ∷ l;
  reset = λ l. [];
  add = λ l l'. l' ++ l;
  total_count = λ l. length l;
  mean = λ l. 0;
  stddev = λ l. 0;
  value_at_percentile = λ l p. pos 0;
  iterate = λ l. [];
}

pub record Timer : Type 0 where
  pub delay : ℕ
  pub proc : TimeProc
  pub client_data : ClientData

-- An event loop for 64 descriptors: the write callback of each and the timers, newest first.
pub record Loop : Type 0 where
  pub on_write : ℕ → Writer
  pub timers : List Timer
  pub stopped : Bool

abbrev writes : Mask → Bool
writes readable = false
writes writable = true
writes both = true

abbrev pub loop : EventLoop Loop
loop = record {
  create_file_event = λ l fd m p d.
      if ltb fd 64
      then (
        record l { on_write = λ j. if writes m && (j == fd) then calls p d else l.on_write j },
        true,
      )
      else (l, false);
  delete_file_event = λ l fd m. record l {
    on_write = λ j. if writes m && (j == fd) then nothing else l.on_write j;
  };
  create_time_event = λ l ms p d. (
    record l { timers = record { delay = ms; proc = p; client_data = d } ∷ l.timers },
    length l.timers,
  );
  delete_time_event = λ l id. l;
  stop = λ l. record l { stopped = true };
}

abbrev pub Armed : Loop → ℕ → TimeProc → ClientData → Type 0
Armed l ms p d =
    (i : ℕ) × (get_elem? l.timers i ≡ some (record { delay = ms; proc = p; client_data = d }))

pub loop-IsEventLoop : IsEventLoop loop (λ l. 64) (λ l fd. l.on_write fd) Armed
loop-IsEventLoop = record {
  create_writable = λ l fd p d h. (ground arith, ground arith);
  delete_writable = λ l fd. ground arith;
  time_keeps_writer = λ l ms fd p d. refl;
  timer_armed = λ l ms p d. (0, refl);
  time_keeps_timers = λ l ms ms' p p' d d' (i, armed). (suc i, armed);
  create_keeps_size = λ l fd m p d. refl;
  delete_keeps_size = λ l fd m. refl;
  time_keeps_size = λ l ms p d. refl;
  delete_time_keeps_size = λ l id. refl;
}

abbrev pub null : Buffer
null = record { bytes = []; length = 0; cursor = 0 }

-- Connected at 1000 microseconds, one request in a hundred microseconds.
abbrev pub fresh_connection : Connection ℕ
fresh_connection = record {
  id = 0;
  state = field;
  fd = 5;
  bind = 0;
  throughput = 10000;
  catch_up_throughput = 20000;
  complete = 0;
  complete_at_last_batch_start = 0;
  catch_up_start_time = 0;
  complete_at_catch_up_start = 0;
  thread_start = 1000;
  start = 0;
  request = 71 ∷ 69 ∷ 84 ∷ [];
  length = 3;
  written = 0;
  pending = 0;
  headers = null;
  body = null;
  actual_latency_start = 0;
  has_pending = false;
  caught_up = true;
  latest_should_send_time = 0;
  latest_expected_start = 0;
  latest_connect = 0;
  latest_write = 0;
}

abbrev pub no_errors : Errors
no_errors = record { connect = 0; read = 0; write = 0; status = 0; timeout = 0 }

abbrev pub fresh_thread : Thread ℕ (List ℤ) Loop
fresh_thread = record {
  loop = record { on_write = λ fd. nothing; timers = []; stopped = false };
  connections = 1;
  interval = 0;
  stop_at = 10000000;
  complete = 0;
  requests = 0;
  bytes = 0;
  start = 1000;
  throughput = 10000;
  mean = 0;
  latency_histogram = [];
  u_latency_histogram = [];
  errors = no_errors;
}

abbrev pub fresh : Ctx ℕ (List ℤ) Loop
fresh = record { thread = fresh_thread; conn = fresh_connection }

abbrev pub config : Config
config = record {
  threads = 2;
  connections = 10;
  duration = 10;
  timeout = 2000;
  pipeline = 1;
  rate = 20000;
  delay_ms = 0;
  bind = 0;
  affinity = false;
  latency = false;
  u_latency = false;
  dynamic = false;
  record_all_responses = true;
  raw = false;
  verbose = false;
  script = none;
  http_version = pos 11;
  proto = tcp_proto;
}

-- A picoquic that names its connection contexts by numbers and keeps the data it is given, latest
-- first.
pub record Given : Type 0 where
  pub contexts : ℕ
  pub provided : List (List ℕ × Bool)

abbrev pub pico : Picoquic Given
pico = record {
  create_cnx = λ q. (record q { contexts = q.contexts + 1 }, some q.contexts);
  set_callback = λ q k c. q;
  start_client_cnx = λ q k. (q, pos 0);
  mark_active_stream = λ q k stream. (q, pos 0);
  provide = λ q bytes is_fin. (record q { provided = (bytes, is_fin) ∷ q.provided }, true);
  reset_stream = λ q stream. q;
  close = λ q. (q, pos 0);
  delete_cnx = λ q k. q;
}

-- The descriptor 5 belongs to the connection.
abbrev pub world : World ℕ (List ℤ) Loop Given
world = record {
  ctx = fresh;
  fd_to_cnx = λ j.
      if j == 5
      then record { cnx = some 0; c = some 0; ae = 0 }
      else record { cnx = none; c = none; ae = 0 };
  quic = record { contexts = 1; provided = [] };
}
