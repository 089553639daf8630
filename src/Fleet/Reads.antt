-- ===== src/Fleet/Reads.antt =====
-- `socket_readable` of src/wrk.c is made of calls that a connection gets: the responses that the parser
-- finds, what is received, and at most one failure; so a run of a thread goes on with it.
use wrk_quic.Prelude.{
  ℕ, ◌+◌, ◌≡◌, refl, arith, some, List, [], ◌∷◌, ◌++◌, ◌==◌, ◌&&◌, ltb, add64, Bool-cases, inl, inr,
  subst,
}
use mathlib.Core.Option.{none-ne-some}
use wrk_quic.Platform.{Floating, Histogram}
use wrk_quic.EventLoop.{EventLoop}
use wrk_quic.Connection.{Connection, Config, Ctx}
use wrk_quic.Net.{Attempt, Outcome, ok, error, retry, again, tcp_reconnect_socket}
use wrk_quic.Response.{Round, recvbuf, read_failed, socket_readable_loop}
use wrk_quic.Quic.{Picoquic}
use wrk_quic.Fleet.{Fleet, Call, receives, fails, on, Run, next}

module _ {V Hist Loop Q : Type 0} (f : Floating V) (h : Histogram V Hist) (ae : EventLoop Loop)
    (pico : Picoquic Q) (cfg : Config) where
  -- Calls one after the other.
  pub data Calls (x : Ctx V Hist Loop) : ℕ → Ctx V Hist Loop → Type 0 where
    still : Calls x 0 x
    further :
        {m n : ℕ} {y z : Ctx V Hist Loop}
        → Calls x m y
        → Call f h ae pico cfg y n z
        → Calls x (m + n) z

  Calls-append :
      {x y z : Ctx V Hist Loop} {m n : ℕ} → Calls x m y → Calls y n z → (k : ℕ) × Calls x k z
  Calls-append a still = (_, a)
  Calls-append a (further b c) = let (k, d) = Calls-append a b in (_, further d c)

  -- What the parser's callbacks do is made of calls.
  pub AllParsed : List (Round (Ctx V Hist Loop)) → Type 0
  AllParsed [] = Unit
  AllParsed (r ∷ rs) = ((x : Ctx V Hist Loop) → (n : ℕ) × Calls x n (r.parse x).0) × AllParsed rs

  module _ (a : Attempt) where
    readable_round :
        (o : Outcome) (n : ℕ) (r : Round (Ctx V Hist Loop)) (rs : List (Round (Ctx V Hist Loop)))
        (x y : Ctx V Hist Loop)
        → r.outcome ≡ o
        → ((x : Ctx V Hist Loop) → (n : ℕ) × Calls x n (r.parse x).0)
        → ((n : ℕ) (x : Ctx V Hist Loop)
            → socket_readable_loop f h ae cfg (tcp_reconnect_socket ae a) n rs x ≡ some y
            → (k : ℕ) × Calls x k y)
        → socket_readable_loop f h ae cfg (tcp_reconnect_socket ae a) n (r ∷ rs) x ≡ some y
        → (k : ℕ) × Calls x k y
    unfolding socket_readable_loop
    readable_round error n r rs x y o parsed more e =
        let same : read_failed f h ae cfg (tcp_reconnect_socket ae a) x ≡ y =
          ground (arith, o, e) in
        (_, subst (Calls x _) same (further still (fails a)))
    readable_round retry n r rs x y o parsed more e =
        let same : x ≡ y = ground (arith, o, e) in (_, subst (Calls x _) same still)
    readable_round again n r rs x y o parsed more e =
        elim (Bool-cases (n == recvbuf && ltb 0 r.available)) [
          | inl goes_on ↦ more n x (ground (arith, o, goes_on, e))
          | inr stops ↦
              let same : x ≡ y = ground (arith, o, stops, e) in (_, subst (Calls x _) same still)
        ]
    readable_round (ok k) n r rs x y o parsed more e =
        let x' = (r.parse x).0 in
        let (m, calls) = parsed x in
        let y' : Ctx V Hist Loop = record x' {
          thread = record (x'.thread) { bytes = add64 x'.thread.bytes k };
        } in
        elim (Bool-cases ((r.parse x).1 == k)) [
          | inr refused ↦
              let same : read_failed f h ae cfg (tcp_reconnect_socket ae a) x' ≡ y =
                ground (arith, o, refused, e) in
              (_, subst (Calls x _) same (further calls (fails a)))
          | inl taken ↦ elim (Bool-cases (k == recvbuf && ltb 0 r.available)) [
            | inl goes_on ↦
                let (_, rest) = more k y' (ground (arith, o, taken, goes_on, e)) in
                Calls-append (further calls (receives k)) rest
            | inr stops ↦
                let same : y' ≡ y = ground (arith, o, taken, stops, e) in
                (_, subst (Calls x _) same (further calls (receives k)))
          ]
        ]

    -- A call of `socket_readable` that ends is a sequence of calls, if the parser's callbacks are.
    pub socket_readable_loop-Calls :
        (n : ℕ) (rs : List (Round (Ctx V Hist Loop))) (x y : Ctx V Hist Loop)
        → AllParsed rs
        → socket_readable_loop f h ae cfg (tcp_reconnect_socket ae a) n rs x ≡ some y
        → (k : ℕ) × Calls x k y
    unfolding socket_readable_loop AllParsed
    socket_readable_loop-Calls n [] x y all e = absurd (none-ne-some y e)
    socket_readable_loop-Calls n (r ∷ rs) x y (parsed, all) e =
        readable_round r.outcome n r rs x y refl parsed
          (λ n' x' e'. socket_readable_loop-Calls n' rs x' y all e') e

  -- Calls of one connection of a thread are events of the thread.
  pub Calls-Run :
      (s t : Fleet V Hist Loop) (m : ℕ) (before after : List (Connection V)) (c : Connection V)
      (n : ℕ) (y : Ctx V Hist Loop)
      → Run f h ae pico cfg s m t
      → t.conns ≡ before ++ (c ∷ after)
      → Calls (record { thread = t.thread; conn = c }) n y
      → Run f h ae pico cfg s
          (m + n)
          (record { thread = y.thread; conns = before ++ (y.conn ∷ after) })
  Calls-Run s t m before after c n y run e still =
      subst
        (λ k. Run f h ae pico cfg s k (record { thread = t.thread; conns = before ++ (c ∷ after) }))
        (omega arith)
        (subst (λ cs. Run f h ae pico cfg s m (record { thread = t.thread; conns = cs })) e run)
  Calls-Run s t m before after c n y run e (further {m = i} {n = j} {y = z} calls call) =
      subst
        (λ k.
          Run f h ae pico cfg s k
            (record { thread = y.thread; conns = before ++ (y.conn ∷ after) }))
        (omega arith)
        (next (Calls-Run s t m before after c i z run e calls)
          (on before after z.conn j y refl call))

  -- A run goes on with a call of `socket_readable` for one of the connections.
  pub socket_readable_loop-Run :
      (s t : Fleet V Hist Loop) (m : ℕ) (before after : List (Connection V)) (c : Connection V)
      (a : Attempt) (n : ℕ) (rs : List (Round (Ctx V Hist Loop))) (y : Ctx V Hist Loop)
      → Run f h ae pico cfg s m t
      → t.conns ≡ before ++ (c ∷ after)
      → AllParsed rs
      → socket_readable_loop f h ae cfg
          (tcp_reconnect_socket ae a)
          n
          rs
          (record { thread = t.thread; conn = c })
        ≡ some y
      → (k : ℕ) × Run f h ae pico cfg s k
          (record { thread = y.thread; conns = before ++ (y.conn ∷ after) })
  socket_readable_loop-Run s t m before after c a n rs y run e all done =
      let (k, calls) =
        socket_readable_loop-Calls a n rs (record { thread = t.thread; conn = c }) y all done in
      (_, Calls-Run s t m before after c k y run e calls)
