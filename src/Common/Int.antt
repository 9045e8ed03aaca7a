-- ===== src/Common/Int.antt =====
-- Signed integers over the native numbers: Go's `int`, `int32` and `int64` before any wrap-around.
use Prim.Native.Nat.{ℕ, zero, suc, ◌<◌, ◌+◌, ◌-◌, ◌%◌}
use mathlib.Core.Bool.{Bool, not, ◌&&◌}
use mathlib.Core.Path.{◌≡◌}
use native.Mathlib.Omega.{arith}
use check.Common.Tests.{ltb, if◌then◌else◌}

-- `negsuc n` is -(n + 1).
pub data ℤ : Type 0 where
  pos : ℕ → ℤ
  negsuc : ℕ → ℤ

abbrev pub pos_part : ℤ → ℕ
pos_part (pos n) = n
pos_part (negsuc n) = 0

abbrev pub neg_part : ℤ → ℕ
neg_part (pos n) = 0
neg_part (negsuc n) = suc n

abbrev pub ltb_ℤ : ℤ → ℤ → Bool
ltb_ℤ a b = ltb (pos_part a + neg_part b) (pos_part b + neg_part a)

-- Go's conversion to `int32`: the low 32 bits, read with their sign.
abbrev pub wrap_int32 : ℤ → ℤ
wrap_int32 (pos n) =
    let m = n % 4294967296 in if ltb m 2147483648 then pos m else negsuc (4294967295 - m)
wrap_int32 (negsuc n) =
    let m = n % 4294967296 in if ltb m 2147483648 then negsuc m else pos (4294967295 - m)

abbrev pub fits_int32 : ℤ → Bool
fits_int32 (pos n) = ltb n 2147483648
fits_int32 (negsuc n) = ltb n 2147483648

abbrev pub eq_ℤ : ℤ → ℤ → Bool
eq_ℤ a b = not (ltb_ℤ a b) && not (ltb_ℤ b a)

-- `v + 1` on an `int32`, which wraps around.
abbrev pub inc_int32 : ℤ → ℤ
inc_int32 (pos n) = wrap_int32 (pos (suc n))
inc_int32 (negsuc zero) = pos 0
inc_int32 (negsuc (suc n)) = wrap_int32 (negsuc n)

pub inc_int32-pos : (n : ℕ) → n < 2147483647 → inc_int32 (pos n) ≡ pos (suc n)
inc_int32-pos n h = ground arith
