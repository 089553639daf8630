-- ===== src/Timers/Counting.antt =====
-- The timers of src/wrk.c count no response.
use wrk_quic.Prelude.{ℕ, ◌≡◌, refl, Bool, List, arith}
use wrk_quic.Platform.{Floating, Histogram}
use wrk_quic.EventLoop.{EventLoop}
use wrk_quic.Stats.{Stats}
use wrk_quic.Connection.{Connection, Thread, Config, Ctx}
use wrk_quic.Counted.{Counted, Counted-before, uncounted}
use wrk_quic.Timers.{check_timeouts, calibrate, sample_rate_timer, delayed_initial_connect}

module _ {V Hist Loop : Type 0} where
  -- Neither the responses nor the end of a thread change.
  abbrev pub SameCount : Thread V Hist Loop → Thread V Hist Loop → Type 0
  SameCount t t' = (t'.complete ≡ t.complete) × (t'.stop_at ≡ t.stop_at)

module _ {V Hist Loop : Type 0} (ae : EventLoop Loop) where
  pub check_timeouts-SameCount :
      (cfg : Config) (stop : Bool) (now : ℕ) (cs : List (Connection V)) (t : Thread V Hist Loop)
      → SameCount t (check_timeouts ae cfg stop now cs t).1
  unfolding check_timeouts
  check_timeouts-SameCount cfg stop now cs t = (ground arith, ground arith)

  pub delayed_initial_connect-Counted :
      (connect : Ctx V Hist Loop → Ctx V Hist Loop)
      (keeps : (x : Ctx V Hist Loop) → Counted 0 x (connect x)) (now : ℕ) (x : Ctx V Hist Loop)
      → Counted 0 x (delayed_initial_connect ae connect now x).1
  unfolding delayed_initial_connect
  delayed_initial_connect-Counted connect keeps now x =
      Counted-before 0 x _ _ (uncounted x _ refl refl refl) (keeps _)

module _ {V Hist Loop : Type 0} (f : Floating V) (h : Histogram V Hist) (ae : EventLoop Loop) where
  pub calibrate-SameCount :
      (now : ℕ) (t : Thread V Hist Loop) → SameCount t (calibrate f h ae now t).1
  unfolding calibrate
  calibrate-SameCount now t = (ground arith, ground arith)

  pub sample_rate_timer-SameCount :
      (now after : ℕ) (t : Thread V Hist Loop) (statistics : Stats Hist)
      → SameCount t (sample_rate_timer f h ae now after t statistics).1
  unfolding sample_rate_timer
  sample_rate_timer-SameCount now after t statistics = (refl, refl)
