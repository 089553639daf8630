-- ===== src/Report.antt =====
-- What `main` of src/wrk.c makes of the threads when they have ended: the totals, and which latency
-- it reports.
pub mod Sums
pub mod Corrected
mod Tests
use wrk_quic.Prelude.{
  ℕ, ◌+◌, Bool, List, [], ◌∷◌, if◌then◌else◌, add64, add32, to_int64, ltb_ℤ, not, pos, ◌≡◌, refl,
}
use wrk_quic.Platform.{Histogram}
use wrk_quic.Stats.{Errors}
use wrk_quic.Connection.{Thread, Config}

-- The variables of `main` that the threads are added to.
pub record Totals (Hist : Type 0) : Type 0 where
  pub complete : ℕ
  pub bytes : ℕ
  pub errors : Errors
  pub latency_histogram : Hist
  pub u_latency_histogram : Hist

-- The variables before the threads are added, with the two histograms that `hdr_init` makes.
pub no_totals : {Hist : Type 0} → Hist → Hist → Totals Hist
no_totals latency u_latency = record {
  complete = 0;
  bytes = 0;
  errors = record { connect = 0; read = 0; write = 0; status = 0; timeout = 0 };
  latency_histogram = latency;
  u_latency_histogram = u_latency;
}

pub no_totals-zero :
    {Hist : Type 0} (latency u_latency : Hist)
    → let t = no_totals latency u_latency in
      (t.complete ≡ 0) × (t.bytes ≡ 0) × (t.errors.status ≡ 0)
unfolding no_totals
no_totals-zero latency u_latency = (refl, refl, refl)

module _ {V Hist Loop : Type 0} (h : Histogram V Hist) where
  -- One round of the loop over the threads.
  pub add_thread : Totals Hist → Thread V Hist Loop → Totals Hist
  add_thread t th = record {
    complete = add64 t.complete th.complete;
    bytes = add64 t.bytes th.bytes;
    errors = record {
      connect = add32 t.errors.connect th.errors.connect;
      read = add32 t.errors.read th.errors.read;
      write = add32 t.errors.write th.errors.write;
      status = add32 t.errors.status th.errors.status;
      timeout = add32 t.errors.timeout th.errors.timeout;
    };
    latency_histogram = h.add t.latency_histogram th.latency_histogram;
    u_latency_histogram = h.add t.u_latency_histogram th.u_latency_histogram;
  }

  pub add_threads : Totals Hist → List (Thread V Hist Loop) → Totals Hist
  unfolding add_thread
  add_threads t [] = t
  add_threads t (th ∷ rest) = add_threads (add_thread t th) rest

-- `(int64_t) cfg.rate <= 0`: the rate is disabled.
pub is_disabled : Config → Bool
is_disabled cfg = not (ltb_ℤ (pos 0) (to_int64 cfg.rate))

-- The histogram that the statistics of latency are taken from.
pub reported : {Hist : Type 0} → Config → Totals Hist → Hist
unfolding is_disabled
reported cfg t = if is_disabled cfg then t.u_latency_histogram else t.latency_histogram
