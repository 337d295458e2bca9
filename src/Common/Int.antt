-- ===== src/Common/Int.antt =====
-- Signed integers over the native numbers, under the library's names, and the machine integers
-- that are read as them.
use Prim.Native.Nat.{ℕ, suc, ◌+◌, ◌-◌, ◌%◌, ◌^◌}
use mathlib.Core.Bool.{Bool, ◌&&◌}
use mathlib.Core.Path.{◌≡◌}
use native.Mathlib.Omega.{arith}
use cpsc.Common.Tests.{ltb, leb, if◌then◌else◌}

-- `negsuc n` is -(n + 1).
pub data ℤ : Type 0 where
  pos : ℕ → ℤ
  negsuc : ℕ → ℤ

abbrev pub pos_part : ℤ → ℕ
pos_part (pos n) = n
pos_part (negsuc n) = 0

abbrev pub neg_part : ℤ → ℕ
neg_part (pos n) = 0
neg_part (negsuc n) = suc n

abbrev pub ltb_ℤ : ℤ → ℤ → Bool
ltb_ℤ a b = ltb (pos_part a + neg_part b) (pos_part b + neg_part a)

abbrev pub eqb_ℤ : ℤ → ℤ → Bool
eqb_ℤ (pos a) (pos b) = leb a b && leb b a
eqb_ℤ (negsuc a) (negsuc b) = leb a b && leb b a
eqb_ℤ _ _ = Bool.false

-- A value of `int`, which has 32 bits.
abbrev pub is_int32 : ℤ → Bool
is_int32 (pos n) = ltb n (2 ^ 31)
is_int32 (negsuc n) = ltb n (2 ^ 31)

-- The conversion to `int8_t`: modulo 2^8, into -128 .. 127.
abbrev pub int8_of_byte : ℕ → ℤ
int8_of_byte b = if ltb b 128 then pos b else negsuc (255 - b)

unfoldable pub to_int8 : ℤ → ℤ
to_int8 (pos n) = int8_of_byte (n % 2 ^ 8)
to_int8 (negsuc n) = int8_of_byte (255 - n % 2 ^ 8)

abbrev pub is_int8 : ℤ → Bool
is_int8 (pos n) = ltb n 128
is_int8 (negsuc n) = ltb n 128

pub to_int8_self : (z : ℤ) → is_int8 z ≡ Bool.true → to_int8 z ≡ z
unfolding to_int8
to_int8_self (pos n) h = ground arith
to_int8_self (negsuc n) h = ground arith

-- `++x` on an `int64_t`, which wraps from the largest value to the smallest one.
unfoldable pub increment64 : ℤ → ℤ
increment64 (pos n) = if ltb (n + 1) (2 ^ 63) then pos (n + 1) else negsuc (2 ^ 63 - 1)
increment64 (negsuc ℕ.zero) = pos 0
increment64 (negsuc (suc n)) = negsuc n
