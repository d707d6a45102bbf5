-- ===== src/Base/Int.antt =====
-- Signed integers over the native numbers, as far as `int32` and `int64` values are compared.
use Prim.Native.Nat.{ℕ, ◌-◌, ◌%◌, ◌<◌}
use mathlib.Core.Path.{◌≡◌}
use mathlib.Core.Bool.{Bool, true, false}
use native.Mathlib.Omega.{arith}
use device_mounter.Base.Tests.{ltb, ◌==◌, if◌then◌else◌}

-- `negsuc n` is -(n + 1).
pub data ℤ : Type 0 where
  pos : ℕ → ℤ
  negsuc : ℕ → ℤ

abbrev pub eqz : ℤ → ℤ → Bool
eqz (pos a) (pos b) = a == b
eqz (pos a) (negsuc b) = false
eqz (negsuc a) (pos b) = false
eqz (negsuc a) (negsuc b) = a == b

-- `0 <= a`
abbrev pub is_nonneg : ℤ → Bool
is_nonneg (pos n) = true
is_nonneg (negsuc n) = false

-- `a > n`
abbrev pub exceeds : ℤ → ℕ → Bool
exceeds (pos a) n = ltb n a
exceeds (negsuc a) n = false

-- The `int32` whose bit pattern is `n`, for `n` below 2^32.
abbrev pub signed32 : ℕ → ℤ
signed32 n = if ltb n 2147483648 then pos n else negsuc (4294967295 - n)

-- The conversion `int32(a)` of an `int64`.
unfoldable pub int32 : ℤ → ℤ
int32 (pos n) = signed32 (n % 4294967296)
int32 (negsuc n) = signed32 (4294967295 - n % 4294967296)

-- The bit pattern of `a` in 32 bits.
unfoldable pub uint32 : ℤ → ℕ
uint32 (pos n) = n % 4294967296
uint32 (negsuc n) = 4294967295 - n % 4294967296

pub eqz_refl : (a : ℤ) → eqz a a ≡ true
eqz_refl (pos n) = ground arith
eqz_refl (negsuc n) = ground arith

pub eqz→eq : (a b : ℤ) → eqz a b ≡ true → a ≡ b
eqz→eq (pos a) (pos b) h = ground arith
eqz→eq (pos a) (negsuc b) h = ground arith
eqz→eq (negsuc a) (pos b) h = ground arith
eqz→eq (negsuc a) (negsuc b) h = ground arith

-- Values below 2^31 survive the conversion.
pub int32_small : (n : ℕ) → n < 2147483648 → int32 (pos n) ≡ pos n
unfolding int32
int32_small n h = ground arith
