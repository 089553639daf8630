-- ===== src/Quic/Sockets.antt =====
-- The callbacks for the sockets of src/quic.c: `quic_socket_connected` with `quic_connect`,
-- `quic_readable` with `quic_read`, `quic_writeable`, and the timer `write_request`.
pub mod Connected
pub mod Awake
pub mod Keeps
mod Tests
use wrk_quic.Prelude.{
  ℕ, zero, suc, ◌&&◌, Bool, true, false, Option, none, some, List, [], ◌∷◌, ltb, ◌==◌,
  if◌then◌else◌, ℤ, pos, negsuc, add32,
}
use wrk_quic.EventLoop.{
  EventLoop, readable, writable, both, quic_readable, quic_writeable, write_request, of_connection,
  of_fd,
}
use wrk_quic.Connection.{Connection, Ctx}
use wrk_quic.Net.{Outcome, ok, error, retry, again}
use wrk_quic.Response.{recvbuf}
use wrk_quic.Quic.{
  Picoquic, Wr, World, Attempt, update, with_loop, with_conn, connect_failed, quic_connect_socket,
}

-- A round of the loop of `quic_readable`: the packet with all callbacks that picoquic makes for it,
-- what the variable `n`, which is never assigned, holds, and `fd_readable`.
pub record Packet (W : Type 0) : Type 0 where
  pub incoming : W → W
  pub n : ℕ
  pub available : ℕ

-- What `picoquic_prepare_packet` returns, the length of the packet, and `picoquic_get_wake_delay`.
pub record Prepared : Type 0 where
  pub ret : ℤ
  pub send_length : ℕ
  pub wake_delay : ℤ

module _ {V Hist Loop Q : Type 0} (pico : Picoquic Q) where
  -- `quic_connect`: the results of picoquic are looked at only to print them.
  unfoldable pub quic_connect : ℕ → World V Hist Loop Q → Outcome × World V Hist Loop Q
  quic_connect fd w =
      let entry = w.fd_to_cnx fd in
      let (q, cnx) = pico.create_cnx w.quic in
      let w' = record (with_conn (record (w.ctx.conn) { written = 0 }) w) {
        fd_to_cnx = update w.fd_to_cnx fd (record entry { cnx = cnx });
      } in
      (
        ok 0,
        record w' {
          quic = elim cnx [
            | none ↦ q
            | some k ↦
                (pico.mark_active_stream
                  (pico.start_client_cnx (pico.set_callback q k w.ctx.conn.id) k).0 k 0).0
          ];
        },
      )

module _ {V Hist Loop Q : Type 0} (ae : EventLoop Loop) (pico : Picoquic Q) where
  -- `quic_socket_connected`, with the `goto again` loop on fuel: `none` is a loop that has not ended.
  unfoldable pub connected : ℕ → ℕ → Attempt → World V Hist Loop Q → Option (World V Hist Loop Q)
  unfolding quic_connect
  connected zero fd a w = none
  connected (suc fuel) fd a w =
      let (o, w') = quic_connect pico fd w in
      let d = of_connection w'.ctx.conn.id in
      let (loop', read) = ae.create_file_event w'.ctx.thread.loop fd readable quic_readable d in
      let (loop'', write) = ae.create_file_event loop' fd writable quic_writeable d in
      elim o [
        | ok n ↦ some (with_loop loop'' w')
        | error ↦ some (quic_connect_socket ae a (connect_failed w'))
        | again ↦ connected fuel fd a w'
        | retry ↦ some w'
      ]

  -- `write_request`
  unfoldable pub write_request_timer : ℕ → World V Hist Loop Q → Option ℕ × World V Hist Loop Q
  write_request_timer fd w = elim (w.fd_to_cnx fd).c [
    | none ↦ (none, w)
    | some c ↦ (
      none,
      with_loop
          (ae.create_file_event w.ctx.thread.loop fd writable quic_writeable (of_connection c)).0 w,
    )
  ]

  -- `quic_read`, whose comparison of the unsigned `recv_length` with 0 is never true and which stores
  -- nothing in `*n`. `incoming` is `picoquic_incoming_packet` with all callbacks that it makes.
  unfoldable pub quic_read :
      ℕ
      → (World V Hist Loop Q → World V Hist Loop Q)
      → World V Hist Loop Q
      → Outcome × World V Hist Loop Q
  quic_read fd incoming w =
      let w' = incoming w in
      let entry = w'.fd_to_cnx fd in
      let loop' = ae.delete_time_event w'.ctx.thread.loop entry.ae in
      let (loop'', created) =
        ae.create_file_event loop' fd writable quic_writeable (of_connection w'.ctx.conn.id) in
      (
        again,
        if entry.ae == 0 then w' else record (with_loop loop'' w') {
          fd_to_cnx = update w'.fd_to_cnx fd (record entry { ae = 0 });
        },
      )

  -- `quic_readable`. `none` is a loop that has not ended.
  pub quic_readable_loop :
      ℕ → List (Packet (World V Hist Loop Q)) → World V Hist Loop Q → Option (World V Hist Loop Q)
  unfolding quic_read
  quic_readable_loop fd [] w = none
  quic_readable_loop fd (p ∷ rest) w =
      let w' = (quic_read fd p.incoming w).1 in
      let more = quic_readable_loop fd rest w' in
      if (p.n == recvbuf) && ltb 0 p.available then more else some w'

  -- Nothing is to be sent before `delta` milliseconds.
  unfoldable pub sleep : ℕ → ℤ → World V Hist Loop Q → World V Hist Loop Q
  sleep fd (pos (suc d)) w =
      let loop' = ae.delete_file_event w.ctx.thread.loop fd writable in
      let (loop'', id) = ae.create_time_event loop' (suc d) write_request (of_fd fd) in
      let entry = w.fd_to_cnx fd in
      record (with_loop loop'' w) { fd_to_cnx = update w.fd_to_cnx fd (record entry { ae = id }) }
  sleep fd delta w =
      with_loop
        (ae.create_file_event w.ctx.thread.loop fd writable quic_writeable
          (of_connection w.ctx.conn.id)).0
        w

  -- `quic_writeable`; `polled` is `picoquic_prepare_packet` with all callbacks that it makes. Sending
  -- the packet changes no state of the program, and its failure is only printed.
  unfoldable pub quic_writeable_as :
      ℕ
      → (World V Hist Loop Q → World V Hist Loop Q × Prepared)
      → World V Hist Loop Q
      → World V Hist Loop Q
  unfolding sleep
  quic_writeable_as fd polled w =
      let cnx = (w.fd_to_cnx fd).cnx in
      let (w', p) = polled w in
      elim p.ret [
        | pos zero ↦ if ltb 0 p.send_length then w' else sleep fd p.wake_delay w'
        | _ ↦ record (with_loop (ae.delete_file_event w'.ctx.thread.loop fd both) w') {
          quic = pico.delete_cnx w'.quic cnx;
        }
      ]
