-- ===== src/Prelude/Words.antt =====
-- C's unsigned integers are numbers below 2 ^ w, and every operation wraps at 2 ^ w.
use Prim.Native.Nat.{ℕ, ◌+◌, ◌-◌, ◌*◌, ◌%◌, ◌^◌, ◌<◌, ◌≤◌}
use mathlib.Core.Path.{◌≡◌}
use native.Mathlib.Omega.{arith}
use wrk_quic.Prelude.Tests.{ltb, if◌then◌else◌}
use wrk_quic.Prelude.Int.{ℤ, pos, negsuc}

abbrev pub u64_mod : ℕ
u64_mod = 2 ^ 64

abbrev pub u32_mod : ℕ
u32_mod = 2 ^ 32

abbrev pub add64 : ℕ → ℕ → ℕ
add64 a b = (a + b) % u64_mod

abbrev pub sub64 : ℕ → ℕ → ℕ
sub64 a b = (a + u64_mod - b) % u64_mod

abbrev pub mul64 : ℕ → ℕ → ℕ
mul64 a b = a * b % u64_mod

abbrev pub add32 : ℕ → ℕ → ℕ
add32 a b = (a + b) % u32_mod

-- `(int64_t) x` and `(int) x` of an unsigned 64-bit `x`, in two's complement.
abbrev pub to_int64 : ℕ → ℤ
to_int64 x = if ltb x (2 ^ 63) then pos x else negsuc (u64_mod - x - 1)

abbrev pub to_int32 : ℕ → ℤ
to_int32 x =
    if ltb (x % u32_mod) (2 ^ 31) then pos (x % u32_mod) else negsuc (u32_mod - x % u32_mod - 1)

pub sub64_of_le : (a b : ℕ) → b ≤ a → a < u64_mod → sub64 a b ≡ a - b
sub64_of_le a b h lt = omega arith
