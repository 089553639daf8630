-- ===== src/Timers/Timeouts.antt =====
-- Which connections `check_timeouts` of src/wrk.c counts.
use wrk_quic.Prelude.{
  ℕ, suc, ◌+◌, ◌*◌, ◌-◌, ◌%◌, ◌^◌, ◌≤◌, ◌<◌, ◌≡◌, refl, ◌∙◌, Bool, ◌||◌, some, List, [], ◌∷◌, ltb,
  leb, arith, if◌then◌else◌, sub64, mul64,
}
use wrk_quic.EventLoop.{EventLoop}
use wrk_quic.Stats.{Errors}
use wrk_quic.Connection.{Connection, Thread, Config}
use wrk_quic.Timers.{count_timeout, count_timeouts, check_timeouts}

module _ {V : Type 0} where
  -- The connections that began their last batch more than `limit` microseconds before `now`.
  abbrev pub overdue : ℕ → ℕ → List (Connection V) → ℕ
  overdue now limit [] = 0
  overdue now limit (c ∷ cs) =
      let rest = overdue now limit cs in if ltb limit (now - c.start) then suc rest else rest

  -- No connection began its last batch in the future.
  abbrev pub Began : ℕ → List (Connection V) → Type 0
  Began now [] = Unit
  Began now (c ∷ cs) = (c.start ≤ now) × Began now cs

  count_timeouts-overdue :
      (now limit : ℕ) (cs : List (Connection V)) (e : Errors)
      → limit ≤ now
      → Began now cs
      → e.timeout < 2 ^ 32
      → (count_timeouts (now - limit) cs e).timeout ≡ (e.timeout + overdue now limit cs) % 2 ^ 32
  unfolding count_timeouts count_timeout
  count_timeouts-overdue now limit [] e le began small = omega arith
  count_timeouts-overdue now limit (c ∷ cs) e le began small =
      let e' : Errors = if ltb c.start (now - limit) then count_timeout e else e in
      let rest = count_timeouts-overdue now limit cs e' le began.1 (ground arith) in
      rest ∙ ground (arith, began.0)

module _ {V Hist Loop : Type 0} (ae : EventLoop Loop) where
  -- `check_timeouts` runs again after two seconds. It counts, modulo 2 ^ 32, each connection whose
  -- last batch began longer ago than the timeout, and stops the loop if the program was interrupted
  -- or the time of the thread is over.
  pub check_timeouts-overdue :
      (cfg : Config) (stop : Bool) (now : ℕ) (cs : List (Connection V))
      (thread : Thread V Hist Loop)
      → cfg.timeout * 1000 ≤ now
      → now < 2 ^ 64
      → Began now cs
      → thread.errors.timeout < 2 ^ 32
      → let (again, thread') = check_timeouts ae cfg stop now cs thread in
        (again ≡ some 2000)
        × (thread'.errors.timeout
            ≡ (thread.errors.timeout + overdue now (cfg.timeout * 1000) cs) % 2 ^ 32)
        × (thread'.loop
            ≡ (if stop || leb thread.stop_at now then ae.stop thread.loop else thread.loop))
  unfolding check_timeouts
  check_timeouts-overdue cfg stop now cs thread le small began few =
      let age : sub64 now (mul64 cfg.timeout 1000) ≡ now - cfg.timeout * 1000 = omega arith in
      let counted = count_timeouts-overdue now (cfg.timeout * 1000) cs thread.errors le began few in
      (refl, ground (arith, age, counted), ground arith)
