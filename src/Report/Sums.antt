-- ===== src/Report/Sums.antt =====
-- The totals that `main` of src/wrk.c reports, against the sums over the threads.
use wrk_quic.Prelude.{ℕ, ◌+◌, ◌%◌, ◌^◌, ◌<◌, ◌≡◌, ◌∙◌, List, [], ◌∷◌, arith}
use wrk_quic.Platform.{Histogram}
use wrk_quic.Connection.{Thread}
use wrk_quic.Report.{Totals, add_thread, add_threads}

module _ {V Hist Loop : Type 0} where
  -- A sum over threads, without bound.
  abbrev pub sum : (Thread V Hist Loop → ℕ) → List (Thread V Hist Loop) → ℕ
  sum get [] = 0
  sum get (th ∷ rest) = get th + sum get rest

module _ {V Hist Loop : Type 0} (h : Histogram V Hist) where
  -- The requests, bytes and responses with an error status are those of all threads together, added
  -- to what was there before, modulo 2 ^ 64 and 2 ^ 32.
  pub add_threads-sum :
      (t : Totals Hist) (threads : List (Thread V Hist Loop))
      → t.complete < 2 ^ 64
      → t.bytes < 2 ^ 64
      → t.errors.status < 2 ^ 32
      → let t' = add_threads h t threads in
        (t'.complete ≡ (t.complete + sum (λ th. th.complete) threads) % 2 ^ 64)
        × (t'.bytes ≡ (t.bytes + sum (λ th. th.bytes) threads) % 2 ^ 64)
        × (t'.errors.status ≡ (t.errors.status + sum (λ th. th.errors.status) threads) % 2 ^ 32)
  unfolding add_threads add_thread
  add_threads-sum t [] c b s = (omega arith, omega arith, omega arith)
  add_threads-sum t (th ∷ rest) c b s =
      let (complete, bytes, status) =
        add_threads-sum (add_thread h t th) rest (omega arith) (omega arith) (omega arith) in
      (complete ∙ omega arith, bytes ∙ omega arith, status ∙ omega arith)
