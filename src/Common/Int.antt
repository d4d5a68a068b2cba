-- ===== src/Common/Int.antt =====
-- Signed 64-bit integers: integers over the native numbers, and the wrap-around of int64.
use Prim.Native.Nat.{ℕ, ◌+◌, ◌-◌, ◌%◌, ◌^◌, ◌≤◌, ◌<◌}
use mathlib.Core.Path.{◌≡◌}
use mathlib.Core.Bool.{Bool, true, false}
use native.Mathlib.Omega.{arith}
use deadhorse.Common.Tests.{ltb, leb, if◌then◌else◌}

-- `negsuc n` is -(n + 1).
pub data ℤ : Type 0 where
  pos : ℕ → ℤ
  negsuc : ℕ → ℤ

-- a - b, as an integer.
abbrev pub sub_ℕ : ℕ → ℕ → ℤ
sub_ℕ a b = if leb b a then pos (a - b) else negsuc (b - a - 1)

-- `math.MaxInt64` and `math.MaxUint64`.
abbrev pub max_int64 : ℕ
max_int64 = 2 ^ 63 - 1

abbrev pub max_uint64 : ℕ
max_uint64 = 2 ^ 64 - 1

-- x < 0 and x <= 0.
abbrev pub is_neg : ℤ → Bool
is_neg (pos n) = false
is_neg (negsuc n) = true

abbrev pub is_nonpos : ℤ → Bool
is_nonpos (pos n) = leb n 0
is_nonpos (negsuc n) = true

-- a < b.
abbrev pub ltb_ℤ : ℤ → ℤ → Bool
ltb_ℤ (pos a) (pos b) = ltb a b
ltb_ℤ (pos a) (negsuc b) = false
ltb_ℤ (negsuc a) (pos b) = true
ltb_ℤ (negsuc a) (negsuc b) = ltb b a

-- The magnitude of a value that is known not to be negative.
abbrev pub magnitude : ℤ → ℕ
magnitude (pos n) = n
magnitude (negsuc n) = 0

-- The 64-bit pattern of an integer, and the int64 that a pattern below 2 ^ 64 stands for.
abbrev pub bits_of : ℤ → ℕ
bits_of (pos n) = n % 2 ^ 64
bits_of (negsuc n) = 2 ^ 64 - 1 - n % 2 ^ 64

abbrev pub int64_of : ℕ → ℤ
int64_of w = if ltb w (2 ^ 63) then pos w else negsuc (2 ^ 64 - w - 1)

-- a + b and a - b on int64, with wrap-around.
unfoldable pub add64 : ℤ → ℤ → ℤ
add64 a b = int64_of ((bits_of a + bits_of b) % 2 ^ 64)

unfoldable pub sub64 : ℤ → ℤ → ℤ
sub64 a b = int64_of ((bits_of a + 2 ^ 64 - bits_of b) % 2 ^ 64)

-- The built-in `max(x, 0)`.
abbrev pub max_zero : ℤ → ℤ
max_zero (pos n) = pos n
max_zero (negsuc n) = pos 0

-- A difference of two counts in range, clamped at zero, is the truncated difference.
pub max_zero-sub64 :
    (a b : ℕ) → a ≤ max_int64 → b ≤ max_int64 → max_zero (sub64 (pos a) (pos b)) ≡ pos (a - b)
unfolding sub64
max_zero-sub64 a b ha hb = ground arith

-- One more than a count always clamps to zero, also where the addition wraps around.
pub max_zero-sub64-add64 :
    (a : ℕ) → a ≤ max_int64 → max_zero (sub64 (pos a) (add64 (pos a) (pos 1))) ≡ pos 0
unfolding sub64 add64
max_zero-sub64-add64 a ha = ground arith

pub add64-pos : (a b : ℕ) → a + b ≤ max_int64 → add64 (pos a) (pos b) ≡ pos (a + b)
unfolding add64
add64-pos a b h = ground arith

pub add64-one : (n : ℕ) → n < max_int64 → add64 (pos n) (pos 1) ≡ pos (n + 1)
unfolding add64
add64-one n h = ground arith
