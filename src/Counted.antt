-- ===== src/Counted.antt =====
-- How many responses a callback counts, in a connection and in its thread (`complete` in `connection`
-- and in `thread` of src/wrk.h).
use wrk_quic.Prelude.{ℕ, ◌+◌, ◌%◌, ◌^◌, ◌≡◌, arith, List, [], ◌∷◌}
use wrk_quic.Connection.{Connection, Ctx}

-- Both counters go up by `n`, modulo 2 ^ 64, and the end of the run stays.
pub record Counted {V Hist Loop : Type 0} (n : ℕ) (x y : Ctx V Hist Loop) : Type 0 where
  pub by_thread : y.thread.complete % 2 ^ 64 ≡ (x.thread.complete + n) % 2 ^ 64
  pub by_conn : y.conn.complete % 2 ^ 64 ≡ (x.conn.complete + n) % 2 ^ 64
  pub same_stop : y.thread.stop_at ≡ x.thread.stop_at

module _ {V Hist Loop : Type 0} where
  pub Counted-trans :
      (m n : ℕ) (x y z : Ctx V Hist Loop) → Counted m x y → Counted n y z → Counted (m + n) x z
  Counted-trans m n x y z a b = record {
    by_thread = omega (arith, a.by_thread, b.by_thread);
    by_conn = omega (arith, a.by_conn, b.by_conn);
    same_stop = omega (arith, a.same_stop, b.same_stop);
  }

  -- Nothing is counted if the counters are the same.
  pub uncounted :
      (x y : Ctx V Hist Loop)
      → y.thread.complete ≡ x.thread.complete
      → y.conn.complete ≡ x.conn.complete
      → y.thread.stop_at ≡ x.thread.stop_at
      → Counted 0 x y
  uncounted x y a b c = record {
    by_thread = omega (arith, a);
    by_conn = omega (arith, b);
    same_stop = c;
  }

  pub recount : (m n : ℕ) (x y : Ctx V Hist Loop) → m ≡ n → Counted m x y → Counted n x y
  recount m n x y e a = record {
    by_thread = omega (arith, a.by_thread, e);
    by_conn = omega (arith, a.by_conn, e);
    same_stop = a.same_stop;
  }

  pub Counted-before :
      (n : ℕ) (x y z : Ctx V Hist Loop) → Counted 0 x y → Counted n y z → Counted n x z
  Counted-before n x y z a b = recount (0 + n) n x z (omega arith) (Counted-trans 0 n x y z a b)

  pub Counted-after :
      (n : ℕ) (x y z : Ctx V Hist Loop) → Counted n x y → Counted 0 y z → Counted n x z
  Counted-after n x y z a b = recount (n + 0) n x z (omega arith) (Counted-trans n 0 x y z a b)

-- The responses that connections have counted.
abbrev pub completed : {V : Type 0} → List (Connection V) → ℕ
completed [] = 0
completed (c ∷ cs) = c.complete + completed cs
