-- ===== src/Prelude/Int.antt =====
-- Integers over the native numbers, and the saturating arithmetic of `i64`.
use Prim.Native.Nat.{ℕ, suc, ◌+◌, ◌-◌, ◌*◌, ◌/◌, ◌^◌, ◌<◌, min}
use mathlib.Core.Path.{◌≡◌}
use native.Mathlib.Omega.{arith}
use hopper_svm.Prelude.Tests.{leb, ltb, if◌then◌else◌}

-- `negsuc n` is -(n + 1).
pub data ℤ : Type 0 where
  pos : ℕ → ℤ
  negsuc : ℕ → ℤ

abbrev pub pos_part : ℤ → ℕ
pos_part (pos n) = n
pos_part (negsuc n) = 0

abbrev pub neg_part : ℤ → ℕ
neg_part (pos n) = 0
neg_part (negsuc n) = suc n

-- a - b, as an integer.
abbrev pub sub_ℕ : ℕ → ℕ → ℤ
sub_ℕ a b = if leb b a then pos (a - b) else negsuc (b - a - 1)

-- Saturation at the ends of `i64`.
abbrev pub clamp_i64 : ℤ → ℤ
clamp_i64 (pos n) = pos (min n (2 ^ 63 - 1))
clamp_i64 (negsuc n) = negsuc (min n (2 ^ 63 - 1))

abbrev pub sat_add_i64 : ℤ → ℤ → ℤ
sat_add_i64 a b = clamp_i64 (sub_ℕ (pos_part a + pos_part b) (neg_part a + neg_part b))

abbrev pub sat_sub_i64 : ℤ → ℤ → ℤ
sat_sub_i64 a b = clamp_i64 (sub_ℕ (pos_part a + neg_part b) (neg_part a + pos_part b))

-- The product with a number and the quotient by one, which rounds towards zero.
abbrev pub sat_mul_i64 : ℤ → ℕ → ℤ
sat_mul_i64 a k = clamp_i64 (sub_ℕ (pos_part a * k) (neg_part a * k))

abbrev pub div_i64 : ℤ → ℕ → ℤ
div_i64 a k = sub_ℕ (pos_part a / k) (neg_part a / k)

-- `n as i64` of a `u64`.
abbrev pub as_i64 : ℕ → ℤ
as_i64 n = if ltb n (2 ^ 63) then pos n else negsuc (2 ^ 64 - 1 - n)

-- `n as u64` of an `i64`: its two's complement.
abbrev pub as_u64 : ℤ → ℕ
as_u64 (pos n) = n
as_u64 (negsuc n) = 2 ^ 64 - 1 - n

-- The numbers of an `i64`.
abbrev pub IsI64 : ℤ → Type 0
IsI64 (pos n) = n < 2 ^ 63
IsI64 (negsuc n) = n < 2 ^ 63

pub as_i64-as_u64 : (z : ℤ) → IsI64 z → as_i64 (as_u64 z) ≡ z
as_i64-as_u64 (pos n) h = ground arith
as_i64-as_u64 (negsuc n) h = ground arith

pub as_u64-lt : (z : ℤ) → IsI64 z → as_u64 z < 256 ^ 8
as_u64-lt (pos n) h = omega arith
as_u64-lt (negsuc n) h = omega arith

pub as_i64-IsI64 : (n : ℕ) → n < 256 ^ 8 → IsI64 (as_i64 n)
as_i64-IsI64 n h = ground arith
