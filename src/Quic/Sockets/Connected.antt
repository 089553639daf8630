-- ===== src/Quic/Sockets/Connected.antt =====
-- `quic_socket_connected` of src/quic.c always ends the same way.
use wrk_quic.Prelude.{ℕ, suc, ◌≡◌, ◌<◌, refl, some, arith}
use wrk_quic.EventLoop.{
  EventLoop, IsEventLoop, Writer, calls, TimeProc, ClientData, quic_writeable, of_connection,
}
use wrk_quic.Quic.{Picoquic, World, Attempt}
use wrk_quic.Quic.Sockets.{connected, quic_connect}

module _ {V Hist Loop Q : Type 0} (ae : EventLoop Loop) (pico : Picoquic Q) (size : Loop → ℕ)
    (writer : Loop → ℕ → Writer) (timers : Loop → ℕ → TimeProc → ClientData → Type 0)
    (is_loop : IsEventLoop ae size writer timers) where
  -- `quic_socket_connected` ends in its first round and installs the callbacks, whatever picoquic
  -- answers: also when there is no connection context, for which NULL is kept, no error is counted
  -- and the connection is not opened again.
  pub connected_always :
      (fuel fd : ℕ) (a : Attempt) (w : World V Hist Loop Q)
      → fd < size w.ctx.thread.loop
      → (w' : World V Hist Loop Q) × (connected ae pico (suc fuel) fd a w ≡ some w')
        × (writer w'.ctx.thread.loop fd ≡ calls quic_writeable (of_connection w.ctx.conn.id))
        × ((w'.fd_to_cnx fd).cnx ≡ (pico.create_cnx w.quic).1)
        × (w'.ctx.thread.errors ≡ w.ctx.thread.errors)
  unfolding connected quic_connect
  connected_always fuel fd a w fits = (
    _,
    refl,
    (is_loop.create_writable _ fd quic_writeable (of_connection w.ctx.conn.id)
        (omega (arith, is_loop.create_keeps_size _ _ _ _ _, fits))).0,
    ground arith,
    refl,
  )
