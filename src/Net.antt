-- ===== src/Net.antt =====
-- src/net.c, src/ssl.c and src/tcp.h: what the program makes of the results of system calls and of
-- OpenSSL, and how a connection's socket is opened. The results are arguments.
pub mod Keeps
use wrk_quic.Prelude.{
  ℕ, zero, suc, ◌-◌, ◌^◌, Bool, true, false, not, ◌&&◌, ◌||◌, Option, none, some, List, [], ◌∷◌,
  ltb, ◌==◌, if◌then◌else◌, add32, ℤ, pos, negsuc,
}
use wrk_quic.Stats.{Errors}
use wrk_quic.EventLoop.{EventLoop, both, socket_connected, of_connection}
use wrk_quic.Connection.{Connection, Thread, Ctx}

-- `status`, with the number of bytes that a read or write stores behind `n`.
pub data Outcome : Type 0 where
  ok : ℕ → Outcome
  error retry again : Outcome

-- `sock_read`, from the result of `read`.
unfoldable pub sock_read : ℤ → Outcome
sock_read (pos n) = ok n
sock_read (negsuc n) = error

-- `sock_write`, from the result of `write` and whether `errno` is `EAGAIN`. Any result but -1
-- counts as a size.
pub sock_write : ℤ → Bool → Outcome
sock_write (pos n) eagain = ok n
sock_write (negsuc zero) eagain = if eagain then retry else error
sock_write (negsuc (suc n)) eagain = ok (2 ^ 64 - suc (suc n))

-- `SSL_get_error`, of which the program knows two values.
pub data SslError : Type 0 where
  want_read want_write other : SslError

ssl_failed : SslError → Outcome
ssl_failed want_read = retry
ssl_failed want_write = retry
ssl_failed other = error

-- `ssl_connect`, which returns `OK` without a count.
pub ssl_connect : ℤ → SslError → Outcome
unfolding ssl_failed
ssl_connect (pos (suc zero)) e = ok 0
ssl_connect r e = ssl_failed e

-- `ssl_read` and `ssl_write`
pub ssl_read : ℤ → SslError → Outcome
unfolding ssl_failed
ssl_read (pos (suc n)) e = ok (suc n)
ssl_read r e = ssl_failed e

pub ssl_write : ℤ → SslError → Outcome
unfolding ssl_failed
ssl_write (pos (suc n)) e = ok (suc n)
ssl_write r e = ssl_failed e

-- `sock_readable` and `ssl_readable`
pub sock_readable : Bool → ℕ → ℕ
sock_readable failed n = if failed then 0 else n

-- The first result that does not say `AGAIN`: the `goto eagain` loops. `none` is a loop that has
-- not ended.
unfoldable pub first_outcome : List Outcome → Option Outcome
first_outcome [] = none
first_outcome (again ∷ rest) = first_outcome rest
first_outcome (ok n ∷ rest) = some (ok n)
first_outcome (error ∷ rest) = some error
first_outcome (retry ∷ rest) = some retry

-- What the system answers to `socket`, `bind` and `connect` in one attempt, and the time after it.
-- `connected` stands for success or `EINPROGRESS`.
pub record Attempt : Type 0 where
  pub fd : ℕ
  pub bound : Bool
  pub connected : Bool
  pub now : ℕ

pub count_connect : Errors → Errors
count_connect e = record e { connect = add32 e.connect 1 }

module _ {V Hist Loop : Type 0} (ae : EventLoop Loop) where
  connect_failed : Ctx V Hist Loop → Ctx V Hist Loop
  unfolding count_connect
  connect_failed x = record x {
    thread = record (x.thread) { errors = count_connect x.thread.errors };
  }

  -- `tcp_connect_socket`
  pub tcp_connect_socket : Attempt → Ctx V Hist Loop → Ctx V Hist Loop
  unfolding connect_failed
  tcp_connect_socket a x =
      if not (x.conn.bind == 0) && not a.bound || not a.connected
      then connect_failed x
      else (let c = record (x.conn) { latest_connect = a.now } in
          let (loop', created) =
            ae.create_file_event x.thread.loop a.fd both socket_connected (of_connection c.id) in
          let x' : Ctx V Hist Loop = record {
            thread = record (x.thread) { loop = loop' };
            conn = c;
          } in
          if created then record x' { conn = record c { fd = a.fd } } else connect_failed x')

  -- `tcp_reconnect_socket`; closing the socket is left to the system and to OpenSSL.
  pub tcp_reconnect_socket : Attempt → Ctx V Hist Loop → Ctx V Hist Loop
  unfolding tcp_connect_socket
  tcp_reconnect_socket a x = tcp_connect_socket a (record x {
    thread = record (x.thread) { loop = ae.delete_file_event x.thread.loop x.conn.fd both };
  })
