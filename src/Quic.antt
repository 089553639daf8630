-- ===== src/Quic.antt =====
-- src/quic.c: requests over QUIC. The library picoquic is the parameter `Picoquic`, with a state `Q`;
-- the two of its functions that call back into `quic_callback` (`picoquic_incoming_packet` and
-- `picoquic_prepare_packet`) are functions on the whole state, arguments of the callbacks below.
-- Debugging output, ECN options and addresses are left out, and so is `c->cnx`, which is only written.
pub mod Callback
pub mod Sockets
pub mod Held
pub mod Counting
pub mod Steps
pub mod Latency
use wrk_quic.Prelude.{
  ℕ, zero, suc, ◌≡◌, ◌&&◌, ◌||◌, not, Bool, true, false, Option, none, some, List, ltb, ◌==◌,
  if◌then◌else◌, add32, ℤ,
}
use wrk_quic.EventLoop.{EventLoop, both, quic_socket_connected, delay_recon, of_connection}
use wrk_quic.Connection.{Connection, Thread, Ctx}
use wrk_quic.Net.{Outcome, ok, count_connect}

-- The calls of picoquic. A connection context is named by a number; `create_cnx` gives `none` for
-- NULL. The buffer that `picoquic_provide_stream_data_buffer` returns is filled at once, so `provide`
-- takes the bytes and whether they end the stream, and says whether there was a buffer.
pub record Picoquic (Q : Type 0) : Type 0 where
  pub create_cnx : Q → Q × Option ℕ
  pub set_callback : Q → ℕ → ℕ → Q
  pub start_client_cnx : Q → ℕ → Q × ℤ
  pub mark_active_stream : Q → ℕ → ℕ → Q × ℤ
  pub provide : Q → List ℕ → Bool → Q × Bool
  pub reset_stream : Q → ℕ → Q
  pub close : Q → Q × ℤ
  pub delete_cnx : Q → Option ℕ → Q

-- `struct wr`, an entry of `fd_to_cnx`; a timer 0 stands for none.
pub record Wr : Type 0 where
  pub cnx : Option ℕ
  pub c : Option ℕ
  pub ae : ℕ

-- A connection and its thread, `fd_to_cnx`, and picoquic.
pub record World (V Hist Loop Q : Type 0) : Type 0 where
  pub ctx : Ctx V Hist Loop
  pub fd_to_cnx : ℕ → Wr
  pub quic : Q

-- Assignments to the entry of a descriptor.
abbrev pub update : (ℕ → Wr) → ℕ → Wr → ℕ → Wr
update fds fd e j = if j == fd then e else fds j

-- What the system answers to `socket`, where 0 stands for an error, and to `bind`, and the time after
-- it.
pub record Attempt : Type 0 where
  pub fd : ℕ
  pub bound : Bool
  pub now : ℕ

module _ {V Hist Loop Q : Type 0} where
  -- Assignments to `thread->loop`'s callbacks and to the entry of a descriptor.
  abbrev pub with_loop : Loop → World V Hist Loop Q → World V Hist Loop Q
  with_loop loop' w = record w {
    ctx = record (w.ctx) { thread = record (w.ctx.thread) { loop = loop' } };
  }

  abbrev pub with_conn : Connection V → World V Hist Loop Q → World V Hist Loop Q
  with_conn c w = record w { ctx = record (w.ctx) { conn = c } }

  pub connect_failed : World V Hist Loop Q → World V Hist Loop Q
  connect_failed w = record w {
    ctx = record (w.ctx) {
      thread = record (w.ctx.thread) { errors = count_connect w.ctx.thread.errors };
    };
  }

  module _ (ae : EventLoop Loop) where
    -- `quic_connect_socket`, and `quic_reconnect_socket`, which is no more than a call of it.
    unfoldable pub quic_connect_socket : Attempt → World V Hist Loop Q → World V Hist Loop Q
    unfolding connect_failed
    quic_connect_socket a w =
        let entry = w.fd_to_cnx a.fd in
        let w' = record w {
          fd_to_cnx = update w.fd_to_cnx a.fd (record entry { c = some w.ctx.conn.id });
        } in
        let c = record (w.ctx.conn) { latest_connect = a.now } in
        let (loop', created) =
          ae.create_file_event w.ctx.thread.loop a.fd both quic_socket_connected
            (of_connection c.id) in
        let opened = with_conn c (with_loop loop' w') in
        if a.fd == 0
        then connect_failed w
        else if not a.bound
        then connect_failed w'
        else if created
        then opened
        else connect_failed opened

    -- `delay_recon`
    pub delay_recon_timer : Attempt → World V Hist Loop Q → Option ℕ × World V Hist Loop Q
    unfolding quic_connect_socket
    delay_recon_timer a w = (none, quic_connect_socket a w)
