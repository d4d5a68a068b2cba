-- ===== src/Gcra/Arith.antt =====
-- Quotients rounded down and up, as the mathematics has them.
use native.Mathlib.Nat.{mul-div-le, lt-mul-div-succ, le-div_iff_mul-le, mod-lt, div-add-mod}
use deadhorse.Common.{
  Bool-cases, Option, arith, if◌then◌else◌, inl, inr, leb, none, some, sym, ℕ, ◌%◌, ◌*◌, ◌+◌, ◌-◌,
  ◌/◌, ◌<◌, ◌==◌, ◌^◌, ◌≡◌, ◌≤◌, ◌⊎◌,
}
use deadhorse.Common.Int.{max_int64}

-- The least number whose product with `c` reaches `n`.
abbrev pub ceil_quotient : ℕ → ℕ → ℕ
ceil_quotient n c = (n + (c - 1)) / c

-- A number that fits in an int64.
abbrev pub fit : ℕ → Option ℕ
fit n = if leb n max_int64 then some n else none

pub mul-div_bounds : (n c : ℕ) → 0 < c → (c * (n / c) ≤ n) × (n < c * (n / c) + c)
mul-div_bounds n c h = (mul-div-le n c, omega (arith, lt-mul-div-succ n {b = c} h))

pub mul-ceil_quotient_bounds :
    (n c : ℕ) → 0 < c → (n ≤ c * ceil_quotient n c) × (c * ceil_quotient n c < n + c)
mul-ceil_quotient_bounds n c h =
    let (lo, hi) = mul-div_bounds (n + (c - 1)) c h in (omega arith, omega arith)

pub ceil_quotient-one : (n : ℕ) → ceil_quotient n 1 ≡ n
ceil_quotient-one n = omega arith

-- A quotient is determined by its product.
pub le_of_mul-lt : (c q r : ℕ) → c * q < c * r + c → q ≤ r
le_of_mul-lt c q r h = elim (le_or_lt q r) [ inl p ↦ p | inr p ↦ absurd (grind arith) ]
  where
    le_or_lt : (q r : ℕ) → (q ≤ r) ⊎ (r < q)
    le_or_lt q r = omega arith

pub ceil_quotient_unique : (n c q : ℕ) → 0 < c → n ≤ c * q → c * q < n + c → q ≡ ceil_quotient n c
ceil_quotient_unique n c q h lo hi =
    let (lo', hi') = mul-ceil_quotient_bounds n c h in
    let a = le_of_mul-lt c q (ceil_quotient n c) (omega arith) in
    let b = le_of_mul-lt c (ceil_quotient n c) q (omega arith) in omega arith

-- Rounding up by the remainder.
pub ceil_quotient-eq :
    (n c : ℕ) → 0 < c → ceil_quotient n c ≡ (if n % c == 0 then n / c else n / c + 1)
ceil_quotient-eq n c h = elim (Bool-cases (n % c == 0)) [
  | inl e ↦ rw e (
      sym (
        ceil_quotient_unique n c (n / c) h (ground (arith, div-add-mod n c))
          (ground (arith, div-add-mod n c))))
  | inr e ↦ rw e (
      sym (
        ceil_quotient_unique n c (n / c + 1) h (ground (arith, div-add-mod n c, mod-lt n {m = c} h))
          (ground (arith, div-add-mod n c, mod-lt n {m = c} h))))
]

-- The test on the high word of a product is the test that the quotient fits in 64 bits.
pub high_word : (n c : ℕ) → 0 < c → leb c (n / 2 ^ 64) ≡ leb (2 ^ 64) (n / c)
high_word n c h = ground (arith, le-div_iff_mul-le {k = c} {x = 2 ^ 64} {y = n} h)

-- The two words spell the product.
pub two_words : (n : ℕ) → n / 2 ^ 64 * 2 ^ 64 + n % 2 ^ 64 ≡ n
two_words n = omega arith

pub ceil_quotient-le : (n c : ℕ) → 0 < c → ceil_quotient n c ≤ n
ceil_quotient-le n c h =
    le_of_mul-lt c (ceil_quotient n c) n
      (let (_, hi) = mul-ceil_quotient_bounds n c h in grind arith)
