-- ===== src/Gcra/Exact.antt =====
-- The overflow checks of gcra.go: the checked operations agree with exact arithmetic.
use native.Mathlib.Nat.{mul-zero, div-add-mod, le-div_iff_mul-le}
use deadhorse.Common.{arith, suc, zero, ℕ, ◌*◌, ◌+◌, ◌/◌, ◌<◌, ◌≡◌, ◌≤◌}
use deadhorse.Common.Int.{max_int64}
use deadhorse.Gcra.{add_non_neg, ceil_div, mul_div_ceil, mul_div_floor, mul_non_neg}
use deadhorse.Gcra.Arith.{ceil_quotient, ceil_quotient-eq, fit, high_word, two_words}

pub ceil_div-exact : (a b : ℕ) → 0 < b → ceil_div a b ≡ ceil_quotient a b
unfolding ceil_div
ceil_div-exact a b h = ground (arith, ceil_quotient-eq a b h, div-add-mod a b)

pub mul_non_neg-exact : (a b : ℕ) → mul_non_neg a b ≡ fit (a * b)
unfolding mul_non_neg
mul_non_neg-exact zero b = ground arith
mul_non_neg-exact (suc a) zero = ground (arith, mul-zero (suc a))
mul_non_neg-exact (suc a) (suc b) =
    ground (arith, le-div_iff_mul-le {k = suc b} {x = suc a} {y = max_int64} (omega arith))

pub add_non_neg-exact : (a b : ℕ) → b ≤ max_int64 → add_non_neg a b ≡ fit (a + b)
unfolding add_non_neg
add_non_neg-exact a b h = ground arith

-- With a positive divisor, a product divided and rounded down is the exact quotient where that fits
-- in an int64, and an overflow is reported exactly where it does not.
pub mul_div_floor-exact : (a b c : ℕ) → 0 < c → mul_div_floor a b c ≡ fit (a * b / c)
unfolding mul_div_floor
mul_div_floor-exact a b c h = rw two_words (ground (arith, high_word (a * b) c h))

-- With a positive divisor, a product divided and rounded up is the exact quotient where that fits in
-- an int64, and an overflow is reported exactly where it does not.
pub mul_div_ceil-exact : (a b c : ℕ) → 0 < c → mul_div_ceil a b c ≡ fit (ceil_quotient (a * b) c)
unfolding mul_div_ceil
mul_div_ceil-exact a b c h =
    rw (two_words, ceil_quotient-eq (a * b) c h) (ground (arith, high_word (a * b) c h))
