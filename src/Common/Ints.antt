-- ===== src/Common/Ints.antt =====
-- C's `int` as an integer, and its conversions to and from the 64-bit words.
use Prim.Native.Nat.{ℕ, ◌+◌, ◌-◌, ◌%◌, ◌^◌}
use mathlib.Core.Bool.{Bool, true, false}
use zerocopy_ringbuf.Common.Tests.{ltb, leb, ◌==◌, if◌then◌else◌}

-- `negsuc n` is -(n + 1).
pub data ℤ : Type 0 where
  pos : ℕ → ℤ
  negsuc : ℕ → ℤ

-- a - b, as an integer.
abbrev pub sub_ℕ : ℕ → ℕ → ℤ
sub_ℕ a b = if leb b a then pos (a - b) else negsuc (b - a - 1)

abbrev pub is_zero : ℤ → Bool
is_zero (pos n) = n == 0
is_zero (negsuc n) = false

abbrev pub is_neg : ℤ → Bool
is_neg (pos n) = false
is_neg (negsuc n) = true

-- The results 0 and -1 of the functions that can fail.
abbrev pub success : ℤ
success = pos 0

abbrev pub failure : ℤ
failure = negsuc 0

-- `x++` and `x--`, for values away from the ends of `int`.
abbrev pub incr : ℤ → ℤ
incr (pos n) = pos (n + 1)
incr (negsuc n) = if n == 0 then pos 0 else negsuc (n - 1)

abbrev pub decr : ℤ → ℤ
decr (pos n) = if n == 0 then negsuc 0 else pos (n - 1)
decr (negsuc n) = negsuc (n + 1)

-- `(int)x` for a 64-bit `x`: the low 32 bits, in two's complement.
abbrev pub to_int : ℕ → ℤ
to_int x = if ltb (x % 2 ^ 32) (2 ^ 31) then pos (x % 2 ^ 32) else negsuc (2 ^ 32 - 1 - x % 2 ^ 32)

-- The conversion of an `int` operand of an operator whose other operand is a `uint64`.
abbrev pub to_u64 : ℤ → ℕ
to_u64 (pos n) = n % 2 ^ 64
to_u64 (negsuc n) = 2 ^ 64 - 1 - n % 2 ^ 64

-- 64-bit addition and subtraction.
abbrev pub add64 : ℕ → ℕ → ℕ
add64 a b = (a + b) % 2 ^ 64

abbrev pub sub64 : ℕ → ℕ → ℕ
sub64 a b = (a + 2 ^ 64 - b) % 2 ^ 64
