-- ===== src/Prelude/Int.antt =====
-- The 64-bit columns of the database: `u64 as i64` on the way in, `.max(0) as u64` on the way out.
use Prim.Native.Nat.{ℕ, ◌+◌, ◌-◌}
use mathlib.Core.Path.{◌≡◌}
use mathlib.Core.Bool.{Bool, true, false}
use native.Mathlib.Omega.{arith}
use devrelay.Prelude.Tests.{ltb, ◌==◌, if◌then◌else◌}

-- `negsuc n` is -(n + 1).
pub data ℤ : Type 0 where
  pos : ℕ → ℤ
  negsuc : ℕ → ℤ

abbrev pub i64_bound : ℕ
i64_bound = 9223372036854775808

abbrev pub u64_max : ℕ
u64_max = 18446744073709551615

-- `value as i64` for a u64 value: two's complement.
abbrev pub as_i64 : ℕ → ℤ
as_i64 n = if ltb n i64_bound then pos n else negsuc (u64_max - n)

-- `value.max(0) as u64` for an i64 value.
abbrev pub max_0 : ℤ → ℕ
max_0 (pos n) = n
max_0 (negsuc n) = 0

abbrev pub eqb_ℤ : ℤ → ℤ → Bool
eqb_ℤ (pos a) (pos b) = a == b
eqb_ℤ (pos a) (negsuc b) = false
eqb_ℤ (negsuc a) (pos b) = false
eqb_ℤ (negsuc a) (negsuc b) = a == b

abbrev pub ltb_ℤ : ℤ → ℤ → Bool
ltb_ℤ (pos a) (pos b) = ltb a b
ltb_ℤ (pos a) (negsuc b) = false
ltb_ℤ (negsuc a) (pos b) = true
ltb_ℤ (negsuc a) (negsuc b) = ltb b a

-- `a.saturating_add(b)` for u64 values.
abbrev pub saturating_add : ℕ → ℕ → ℕ
saturating_add a b = if ltb u64_max (a + b) then u64_max else a + b

-- What a u64 value reads back as once it is stored.
pub max_0-as_i64 : (n : ℕ) → max_0 (as_i64 n) ≡ (if ltb n i64_bound then n else 0)
max_0-as_i64 n = ground arith
