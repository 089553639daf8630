-- ===== src/Quic/Sockets/Awake.antt =====
-- A socket of src/quic.c that has nothing to send is woken up.
use wrk_quic.Prelude.{ℕ, suc, ◌⊎◌, inl, inr, ap, sym, ◌≡◌, ◌≢◌, ◌<◌, ◌∙◌, some, arith, pos}
use native.Mathlib.Decide.{ℕ_discrete}
use wrk_quic.EventLoop.{
  EventLoop, IsEventLoop, Writer, nothing, calls, TimeProc, ClientData, quic_writeable,
  write_request, of_connection, of_fd,
}
use wrk_quic.Quic.{Picoquic, Wr, World}
use wrk_quic.Quic.Sockets.{sleep, write_request_timer, quic_read}

module _ {V Hist Loop Q : Type 0} (ae : EventLoop Loop) (pico : Picoquic Q) (size : Loop → ℕ)
    (writer : Loop → ℕ → Writer) (timers : Loop → ℕ → TimeProc → ClientData → Type 0)
    (is_loop : IsEventLoop ae size writer timers) where
  write_request_timer_lem :
      (fd c : ℕ) (w : World V Hist Loop Q)
      → (w.fd_to_cnx fd).c ≡ some c
      → fd < size w.ctx.thread.loop
      → writer (write_request_timer ae pico fd w).1.ctx.thread.loop fd
        ≡ calls quic_writeable (of_connection c)
  unfolding write_request_timer
  write_request_timer_lem fd c w known fits =
      rw (known, write_request_timer)
        (is_loop.create_writable _ fd quic_writeable (of_connection c) fits).0

  quic_read_lem :
      (fd : ℕ) (incoming : World V Hist Loop Q → World V Hist Loop Q) (w : World V Hist Loop Q)
      → ((incoming w).fd_to_cnx fd).ae ≢ 0
      → fd < size (incoming w).ctx.thread.loop
      → let z = (quic_read ae pico fd incoming w).1 in
        (writer z.ctx.thread.loop fd
          ≡ calls quic_writeable (of_connection (incoming w).ctx.conn.id))
        × ((z.fd_to_cnx fd).ae ≡ 0)
  unfolding quic_read
  quic_read_lem fd incoming w named fits =
      let w' = incoming w in
      let (installed, created) =
        is_loop.create_writable (ae.delete_time_event w'.ctx.thread.loop (w'.fd_to_cnx fd).ae) fd
          quic_writeable (of_connection w'.ctx.conn.id)
          (omega (arith, is_loop.delete_time_keeps_size _ _, fits)) in
      (ground (arith, named, installed), ground (arith, named))

  quic_read-unnamed :
      (fd : ℕ) (incoming : World V Hist Loop Q → World V Hist Loop Q) (w : World V Hist Loop Q)
      → ((incoming w).fd_to_cnx fd).ae ≡ 0
      → (quic_read ae pico fd incoming w).1 ≡ incoming w
  unfolding quic_read
  quic_read-unnamed fd incoming w unnamed = ground (arith, unnamed)

  sleep-size :
      (fd d : ℕ) (w : World V Hist Loop Q)
      → size (sleep ae pico fd (pos (suc d)) w).ctx.thread.loop ≡ size w.ctx.thread.loop
  unfolding sleep
  sleep-size fd d w = is_loop.time_keeps_size _ _ _ _ ∙ is_loop.delete_keeps_size _ _ _

  sleep-c :
      (fd d : ℕ) (w : World V Hist Loop Q)
      → ((sleep ae pico fd (pos (suc d)) w).fd_to_cnx fd).c ≡ (w.fd_to_cnx fd).c
  unfolding sleep
  sleep-c fd d w = ground arith

  -- Let the entry of a descriptor of the event loop's set belong to the connection. When picoquic has
  -- nothing to send for `d + 1` milliseconds, the callback for writing is removed and a timer
  -- `write_request` is armed with that delay. The callback comes back when the timer has run. It also
  -- comes back when a packet is read before, whatever the packet does to the connection and the thread,
  -- as long as the entry, the size of the set and the place of the connection are the same; but if the
  -- timer is named 0, the packet changes nothing more, as `quic_read` takes that for no timer.
  pub sleep_wakes :
      (fd d : ℕ) (w : World V Hist Loop Q) (incoming : World V Hist Loop Q → World V Hist Loop Q)
      → (w.fd_to_cnx fd).c ≡ some w.ctx.conn.id
      → fd < size w.ctx.thread.loop
      → let y = sleep ae pico fd (pos (suc d)) w in
        (incoming y).fd_to_cnx fd ≡ y.fd_to_cnx fd
        → (incoming y).ctx.conn.id ≡ w.ctx.conn.id
        → size (incoming y).ctx.thread.loop ≡ size y.ctx.thread.loop
        → let back = calls quic_writeable (of_connection w.ctx.conn.id) in
          let z = (quic_read ae pico fd incoming y).1 in
          (writer y.ctx.thread.loop fd ≡ nothing)
          × timers y.ctx.thread.loop (suc d) write_request (of_fd fd)
          × (writer (write_request_timer ae pico fd y).1.ctx.thread.loop fd ≡ back)
          × (((y.fd_to_cnx fd).ae ≡ 0) × (z ≡ incoming y)
              ⊎ (writer z.ctx.thread.loop fd ≡ back) × ((z.fd_to_cnx fd).ae ≡ 0))
  unfolding sleep
  sleep_wakes fd d w incoming known fits same_entry same_id same_size =
      let y = sleep ae pico fd (pos (suc d)) w in
      let fits' : fd < size y.ctx.thread.loop = omega (arith, sleep-size fd d w, fits) in
      let entry_ae : ((incoming y).fd_to_cnx fd).ae ≡ (y.fd_to_cnx fd).ae =
        ap (λ (e : Wr). e.ae) same_entry in
      (
        is_loop.time_keeps_writer _ _ _ _ _ ∙ is_loop.delete_writable _ _,
        is_loop.timer_armed _ _ _ _,
        write_request_timer_lem fd w.ctx.conn.id y (sleep-c fd d w ∙ known) fits',
        elim (ℕ_discrete (y.fd_to_cnx fd).ae 0) [
          | yes unnamed ↦ inl (unnamed, quic_read-unnamed fd incoming y (entry_ae ∙ unnamed))
          | no named ↦
              let (back, cleared) =
                quic_read_lem fd incoming y (λ e. named (sym entry_ae ∙ e))
                  (omega (arith, fits', same_size)) in
              inr (back ∙ ap (λ i. calls quic_writeable (of_connection i)) same_id, cleared)
        ],
      )
