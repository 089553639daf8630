-- ===== src/EventLoop.antt =====
-- The event loop of src/ae.h, a copy of the library ae, as the operations that the program calls.
-- Callbacks are named, since the program registers only functions of its own.
use wrk_quic.Prelude.{ℕ, ◌≡◌, ◌<◌, Bool, true}

-- `aeFileProc *`: the functions of src/wrk.c and src/quic.c that are registered for a descriptor.
pub data FileProc : Type 0 where
  socket_connected socket_writeable socket_readable : FileProc
  quic_socket_connected quic_readable quic_writeable : FileProc

-- `aeTimeProc *`
pub data TimeProc : Type 0 where
  delayed_initial_connect calibrate sample_rate check_timeouts : TimeProc
  delay_request delay_recon write_request : TimeProc

-- `clientData`: a connection by its place in `thread->cs`, the thread, or a descriptor.
pub data ClientData : Type 0 where
  of_connection : ℕ → ClientData
  of_thread : ClientData
  of_fd : ℕ → ClientData

-- `AE_READABLE`, `AE_WRITABLE`, and both.
pub data Mask : Type 0 where
  readable writable both : Mask

-- `create_file_event` returns whether the result is `AE_OK`, `create_time_event` the timer's
-- identifier. Delays are in milliseconds.
pub record EventLoop (Loop : Type 0) : Type 0 where
  pub create_file_event : Loop → ℕ → Mask → FileProc → ClientData → Loop × Bool
  pub delete_file_event : Loop → ℕ → Mask → Loop
  pub create_time_event : Loop → ℕ → TimeProc → ClientData → Loop × ℕ
  pub delete_time_event : Loop → ℕ → Loop
  pub stop : Loop → Loop

-- The callback for writing on a descriptor.
pub data Writer : Type 0 where
  nothing : Writer
  calls : FileProc → ClientData → Writer

-- What ae.h promises of the write callbacks and the timers, seen through `writer` and `timers`:
-- a descriptor below the set's size gets the callback, deleting removes it, and neither touches
-- another descriptor. A new timer is armed, and the others stay armed. No call changes the size.
pub record IsEventLoop {Loop : Type 0} (ae : EventLoop Loop) (size : Loop → ℕ)
    (writer : Loop → ℕ → Writer) (timers : Loop → ℕ → TimeProc → ClientData → Type 0) : Type 0 where
  pub create_writable :
      (l : Loop) (fd : ℕ) (p : FileProc) (d : ClientData)
      → fd < size l
      → (writer (ae.create_file_event l fd writable p d).0 fd ≡ calls p d)
        × ((ae.create_file_event l fd writable p d).1 ≡ true)
  pub delete_writable :
      (l : Loop) (fd : ℕ) → writer (ae.delete_file_event l fd writable) fd ≡ nothing
  pub time_keeps_writer :
      (l : Loop) (ms fd : ℕ) (p : TimeProc) (d : ClientData)
      → writer (ae.create_time_event l ms p d).0 fd ≡ writer l fd
  pub timer_armed :
      (l : Loop) (ms : ℕ) (p : TimeProc) (d : ClientData)
      → timers (ae.create_time_event l ms p d).0 ms p d
  pub time_keeps_timers :
      (l : Loop) (ms ms' : ℕ) (p p' : TimeProc) (d d' : ClientData)
      → timers l ms p d
      → timers (ae.create_time_event l ms' p' d').0 ms p d
  pub create_keeps_size :
      (l : Loop) (fd : ℕ) (m : Mask) (p : FileProc) (d : ClientData)
      → size (ae.create_file_event l fd m p d).0 ≡ size l
  pub delete_keeps_size :
      (l : Loop) (fd : ℕ) (m : Mask) → size (ae.delete_file_event l fd m) ≡ size l
  pub time_keeps_size :
      (l : Loop) (ms : ℕ) (p : TimeProc) (d : ClientData)
      → size (ae.create_time_event l ms p d).0 ≡ size l
  pub delete_time_keeps_size : (l : Loop) (id : ℕ) → size (ae.delete_time_event l id) ≡ size l
