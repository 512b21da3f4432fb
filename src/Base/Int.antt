-- ===== src/Base/Int.antt =====
-- C's signed integers over the native numbers, and the wrap-around of a 32-bit `int`.
use Prim.Native.Nat.{ℕ, suc, ◌+◌, ◌-◌, ◌%◌, ◌^◌, ◌≤◌, ◌<◌}
use mathlib.Core.Path.{◌≡◌}
use mathlib.Core.Bool.{Bool, true}
use native.Mathlib.Omega.{arith}
use parallel_wrapper.Base.Tests.{ltb, leb, ◌==◌, if◌then◌else◌}

-- `negsuc n` is -(n + 1).
pub data ℤ : Type 0 where
  pos : ℕ → ℤ
  negsuc : ℕ → ℤ

abbrev pub pos_part : ℤ → ℕ
pos_part (pos n) = n
pos_part (negsuc n) = 0

abbrev pub neg_part : ℤ → ℕ
neg_part (pos n) = 0
neg_part (negsuc n) = suc n

-- a - b, as an integer.
abbrev pub sub_ℕ : ℕ → ℕ → ℤ
sub_ℕ a b = if leb b a then pos (a - b) else negsuc (b - a - 1)

infixl 65 ◌+ℤ◌ ◌-ℤ◌
infix 50 ◌≤ℤ◌
unfoldable pub ◌+ℤ◌ : ℤ → ℤ → ℤ
a +ℤ b = sub_ℕ (pos_part a + pos_part b) (neg_part a + neg_part b)

unfoldable pub ◌-ℤ◌ : ℤ → ℤ → ℤ
a -ℤ b = sub_ℕ (pos_part a + neg_part b) (neg_part a + pos_part b)

abbrev pub ◌≤ℤ◌ : ℤ → ℤ → Type 0
a ≤ℤ b = pos_part a + neg_part b ≤ pos_part b + neg_part a

abbrev pub ltb_ℤ : ℤ → ℤ → Bool
ltb_ℤ a b = ltb (pos_part a + neg_part b) (pos_part b + neg_part a)

abbrev pub leb_ℤ : ℤ → ℤ → Bool
leb_ℤ a b = leb (pos_part a + neg_part b) (pos_part b + neg_part a)

abbrev pub eqb_ℤ : ℤ → ℤ → Bool
eqb_ℤ a b = (pos_part a + neg_part b) == (pos_part b + neg_part a)

pub eqb_ℤ→eq : (a b : ℤ) → eqb_ℤ a b ≡ true → a ≡ b
eqb_ℤ→eq a b h = ground arith

-- An `int` that holds the low 32 bits `n < 2 ^ 32`.
abbrev pub int_of_bits : ℕ → ℤ
int_of_bits n = if ltb n (2 ^ 31) then pos n else negsuc (2 ^ 32 - n - 1)

-- The conversion of a `long` to `int`: the low 32 bits, in two's complement.
unfoldable pub to_int : ℤ → ℤ
to_int (pos n) = int_of_bits (n % 2 ^ 32)
to_int (negsuc n) = int_of_bits (2 ^ 32 - 1 - n % 2 ^ 32)

abbrev long_of_bits : ℕ → ℤ
long_of_bits n = if ltb n (2 ^ 63) then pos n else negsuc (2 ^ 64 - 1 - n)

-- Arithmetic on `long` that overflows: the low 64 bits, in two's complement.
unfoldable pub to_long : ℤ → ℤ
to_long (pos n) = long_of_bits (n % 2 ^ 64)
to_long (negsuc n) = long_of_bits (2 ^ 64 - 1 - n % 2 ^ 64)

pub to_long_pos : (n : ℕ) → n < 2 ^ 63 → to_long (pos n) ≡ pos n
unfolding to_long
to_long_pos n h = ground arith

-- The values of an `int`.
abbrev pub IsInt : ℤ → Type 0
IsInt (pos n) = n < 2 ^ 31
IsInt (negsuc n) = n < 2 ^ 31

pub to_int-IsInt : (a : ℤ) → IsInt (to_int a)
unfolding to_int
to_int-IsInt (pos n) = ground arith
to_int-IsInt (negsuc n) = ground arith

-- An `int` survives the conversion.
pub to_int_id : (a : ℤ) → IsInt a → to_int a ≡ a
unfolding to_int
to_int_id (pos n) h = ground arith
to_int_id (negsuc n) h = ground arith
