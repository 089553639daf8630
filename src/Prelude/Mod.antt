-- ===== src/Prelude/Mod.antt =====
-- Positions on a ring of `m` slots: the remainder by a variable.
use Prim.Native.Nat.{ℕ, ◌+◌, ◌-◌, ◌%◌, ◌<◌, ◌*◌, ◌/◌}
use mathlib.Core.Path.{◌≡◌, sym, ◌∙◌, ap}
use mathlib.Core.Logic.{◌≢◌, inl, inr}
use native.Mathlib.Nat.{
  mod-add-mod, mod-eq_of_lt, mod-eq-sub-mod, mod_self, mul-add-mod_self_right, div-add-mod',
}
use native.Mathlib.Decide.{dec_lt}
use native.Mathlib.Omega.{arith}
use wrk_quic.Prelude.Tests.{◌==◌, if◌then◌else◌, Bool-cases}

-- Fewer than `m` steps round the ring do not come back to the start.
pub add-mod_ne : (m r d : ℕ) → r < m → 0 < d → d < m → (r + d) % m ≢ r
add-mod_ne m r d hr hd hm = elim (dec_lt (r + d) m) [
  | yes p ↦ omega (arith, mod-eq_of_lt p)
  | no p ↦ omega (
    arith,
    mod-eq-sub-mod {n = r + d} {m = m} (omega arith),
    mod-eq_of_lt {n = r + d - m} {m = m} (omega arith),
  )
]

-- Two positions less than `m` apart stand on two slots.
pub mod_ne_of_near : (m j n : ℕ) → j < n → n < j + m → j % m ≢ n % m
mod_ne_of_near m j n h k e =
    add-mod_ne m (j % m) (n - j) (omega arith) (omega arith) (omega arith) (shift ∙ sym e)
  where
    shift : (j % m + (n - j)) % m ≡ n % m
    shift = mod-add-mod j m (n - j) ∙ ap (λ t. t % m) (omega arith)

-- The slot after that of `n`.
pub mod-suc : (m n : ℕ) → 0 < m → (n + 1) % m ≡ (if n % m + 1 == m then 0 else n % m + 1)
mod-suc m n h = elim (Bool-cases (n % m + 1 == m)) [
  | inl e ↦ rw (e, ← mod-add-mod n m 1) (ground (arith, e, mod_self m))
  | inr e ↦ rw (e, ← mod-add-mod n m 1) (mod-eq_of_lt (ground (arith, e)))
]

-- A factor may be reduced first.
pub mod-mul-mod : (a b m : ℕ) → a % m * b % m ≡ a * b % m
mod-mul-mod a b m = sym (mul-add-mod_self_right (a / m * b) m (a % m * b)) ∙ ap (λ t. t % m) expand
  where
    expand : a / m * b * m + a % m * b ≡ a * b
    expand = omega (arith, ap (λ t. t * b) (div-add-mod' a m))
