-- ===== src/Lib.antt =====
-- Models of wrk-quic, an HTTP load generator over TCP and QUIC, and proofs about them. A thread keeps
-- an event loop and a set of connections. Each connection sends requests on a schedule of its own
-- (src/wrk.h), catches up at twice the rate when it is late, and records for each response the time
-- since the request was due and the time since it was sent; scripts in Lua may make the requests and
-- read the responses.
--
-- Which file models what:
--   Prelude     shared names: Boolean tests, lists, signed integers, C's unsigned words.
--   Platform    what the program calls and does not implement, as records of operations: C's
--               floating-point arithmetic, with the laws of IEEE 754 that the pacing relies on, and
--               the histogram of src/hdr_histogram.c.
--   EventLoop   the calls of the event loop, src/ae.h.
--   Stats       src/stats.c. `record_one` is `stats_record`; Ring and Extremes say what a `stats`
--               holds, Compare what `stats_compare` orders, Sorted and Percentile what a
--               percentile of sorted samples is, Rand is `rand64` and `stats_sample`,
--               Within is the loops of `stats_within_stdev`.
--   Connection  the state of src/wrk.h: `connection`, `thread`, `buffer` and `struct config`.
--   Pacing      `usec_to_next_send` of src/wrk.h.
--   Buffer      the buffers of src/script.c and the callbacks `header_field` and `header_value` of
--               src/wrk.c; Read is the loop of `script_response`.
--   Net         src/net.c, the results of src/ssl.c, and src/tcp.h.
--   Send        `sock_writeable` and `delay_request` of src/wrk.c: Branches are the ways through the
--               first, Batch is about its schedule, Whole and Taken about the bytes, Wakeup about the
--               timer.
--   Response    `response_complete`, `stats_request_completed`, `socket_readable` and
--               `socket_connected` of src/wrk.c.
--   Latency     the steps of a connection over TCP, from its connection on, and its latencies.
--   Timers      `check_timeouts`, `calibrate`, `sample_rate` and `delayed_initial_connect` of src/wrk.c;
--               Timeouts and Answered say which connections count as timed out.
--   Startup     what `main` gives to each thread and what `thread_main` sets up.
--   Units       src/units.c: Scan is about reading amounts, Format about the unit to print,
--               Labels about the words of the tables.
--   Args        `parse_args` of src/wrk.c; Checked is about the configurations that it accepts, Follow
--               and Members about each member of them.
--   Main        `main` around the threads: the transport, the loop that starts them and the calls for
--               the function `done` of a script; Ready is about that loop.
--   Report      the totals of `main` over the threads, and which latency stands in its table.
--   Counted     what the callbacks count, on a connection and on its thread; the modules named Counting
--               below other ones say it of each callback.
--   Fleet       a thread with all its connections and what can happen to them; Reads is about calls of
--               `socket_readable`, and Totals goes on to the threads that `main` adds up.
--   Wire        the bytes that a socket over TCP carries while its connection lives.
--   Print       src/aprintf.c and what src/wrk.c prints, with Ending for the end of `main`; Aligned
--               is about the columns of its tables, Latencies about the latency in them.
--   Quic        src/quic.c with picoquic as a parameter. Callback is `quic_callback`, Sockets the callbacks
--               of the sockets and their timers; Steps is the order in which they come, Held
--               says what holds of a connection between them, and Latency is about the latencies.
--   Url         `script_parse_url`, `push_url_part` and `copy_url_part`.
--   Lua         the calls of LuaJIT, as a record of operations, and what its manual says of the stack.
--   Script      the rest of src/script.c: Headers is about the split of a header, Request about
--               `script_request`, Position about `script_verify_request`, Responses about
--               `script_response`, StatsTable and Threads are the methods of `stats` and of threads,
--               Copy is `script_copy_value`, and Machine a small stand-in for Lua.
--   Examples    concrete stand-ins for the parameters, on which the tests run.
--
-- A callback is a function from a connection and its thread to their new state. Each reading of the
-- clock is an argument of its own, and so are the results of system calls, of OpenSSL, of the parser
-- and of scripts. Unsigned integers are numbers that wrap where the source's do;
-- a delay in milliseconds that does not fit an `int`, which C leaves undefined, is 0. Messages of errors,
-- memory that is freed and the diagnostic branch of `stats_request_completed` are left out.
--
-- Fuel: the loop of `buffer_append` gets one round more than the bytes it needs, and every round adds
-- 1024; `script_response` gets as many rounds as there are bytes, and every round passes two; `rand64`
-- counts its draws, and its result is proved to exist when one of them is accepted; the retries of
-- `quic_socket_connected` are proved to end in the first round; `script_copy_value` gets one round
-- more than a table has entries, and one level for the tables inside it.
--
-- Not modelled: `quic_init`, which only calls picoquic, the text of an address in Lua, src/wrk.lua,
-- `usage`, signals and the affinity of threads; and the copies of other projects: deps/luajit,
-- src/ae.c with its back ends, src/http_parser.c, src/hdr_histogram.c, src/tinymt64.c and
-- src/zmalloc.c.
pub mod Prelude
pub mod Platform
pub mod EventLoop
pub mod Stats
pub mod Connection
pub mod Pacing
pub mod Buffer
pub mod Examples
pub mod Net
pub mod Send
pub mod Response
pub mod Latency
pub mod Units
pub mod Args
pub mod Timers
pub mod Startup
pub mod Report
pub mod Quic
pub mod Url
pub mod Lua
pub mod Script
pub mod Main
pub mod Counted
pub mod Fleet
pub mod Wire
pub mod Print
