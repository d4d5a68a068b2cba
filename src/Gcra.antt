-- ===== src/Gcra.antt =====
-- server/gcra.go: one admission check. Instants (`tat`, `now`) are nanoseconds since the epoch, so
-- natural numbers; what a caller supplies is an int64 that may be negative, so ℤ, and is a natural
-- number behind the guard of `gcra_check`. Helpers that the source calls with non-negative values
-- only take natural numbers, and keep the 64-bit and 128-bit widths of the source.
pub mod Arith
pub mod Exact
pub mod Decision
pub mod Window
pub mod Retry
pub mod Range
mod Examples
use deadhorse.Common.{
  Bool, Option, false, if◌then◌else◌, leb, ltb, max, none, not, some, true, ℕ, ◌%◌, ◌*◌, ◌+◌, ◌-◌,
  ◌/◌, ◌==◌, ◌>>=◌, ◌^◌, ◌||◌,
}
use deadhorse.Common.Int.{
  add64, is_neg, is_nonpos, magnitude, max_int64, max_uint64, max_zero, pos, sub64, ℤ,
}

unfoldable pub ceil_div : ℕ → ℕ → ℕ
ceil_div a b = if leb a 0 then 0 else let q = a / b in if not (a % b == 0) then q + 1 else q

-- `none` is `ok == false`, here and below.
unfoldable pub mul_non_neg : ℕ → ℕ → Option ℕ
mul_non_neg a b =
    if a == 0 || b == 0
    then some 0
    else if ltb (max_int64 / b) a
    then none
    else some (a * b % 2 ^ 64)

unfoldable pub add_non_neg : ℕ → ℕ → Option ℕ
add_non_neg a b = if ltb (max_int64 - b) a then none else some ((a + b) % 2 ^ 64)

-- `bits.Mul64`: the high and the low word of a product; `bits.Div64`: quotient and remainder.
abbrev pub mul_64 : ℕ → ℕ → ℕ × ℕ
mul_64 a b = (a * b / 2 ^ 64, a * b % 2 ^ 64)

abbrev pub div_64 : ℕ → ℕ → ℕ → ℕ × ℕ
div_64 hi lo c = ((hi * 2 ^ 64 + lo) / c, (hi * 2 ^ 64 + lo) % c)

pub mul_div_floor : ℕ → ℕ → ℕ → Option ℕ
mul_div_floor a b c =
    if c == 0
    then none
    else let (hi, lo) = mul_64 a b in
      if leb c hi
      then none
      else let (q, _) = div_64 hi lo c in if ltb max_int64 q then none else some q

-- The end of `mulDivCeil`: the quotient is rounded up, unless it is at its limit.
pub round_up : ℕ → ℕ → Option ℕ
round_up q r =
    if not (r == 0)
    then if q == max_uint64 then none else if ltb max_int64 (q + 1) then none else some (q + 1)
    else if ltb max_int64 q
    then none
    else some q

pub mul_div_ceil : ℕ → ℕ → ℕ → Option ℕ
unfolding round_up
mul_div_ceil a b c =
    if c == 0
    then none
    else let (hi, lo) = mul_64 a b in
      if leb c hi then none else let (q, r) = div_64 hi lo c in round_up q r

-- What one check reports, and the TAT to keep if the request is admitted.
pub record Verdict : Type 0 where
  pub throttled : Bool
  pub remaining : ℤ
  pub retry_after : ℤ
  pub admitted_tat : ℕ

abbrev pub refuse : ℤ → ℤ → ℕ → Verdict
refuse remaining retry tat = record {
  throttled = true;
  remaining = remaining;
  retry_after = retry;
  admitted_tat = tat;
}

-- `maxDebt` and `costNs`, with the fast path for `units == 1`.
unfoldable pub debts : ℕ → ℕ → ℕ → ℕ → Option (ℕ × ℕ)
debts capacity units p cost =
    if units == 1
    then (mul_non_neg capacity p >>= λ max_debt.
        mul_non_neg cost p >>= λ cost_ns. some (max_debt, cost_ns))
    else (mul_div_floor capacity p units >>= λ max_debt.
        mul_div_ceil cost p units >>= λ cost_ns. some (max_debt, cost_ns))

-- `debtUnits`; the fallback `capacity + 1` may wrap around.
unfoldable pub debt_units : ℕ → ℕ → ℕ → ℕ → ℤ
debt_units capacity units p level =
    if units == 1
    then pos (ceil_div level p)
    else elim (mul_div_ceil level units p) [ some d ↦ pos d | none ↦ add64 (pos capacity) (pos 1) ]

unfoldable pub remaining_units : ℕ → ℕ → ℕ → ℕ → ℤ
remaining_units capacity units p level =
    max_zero (sub64 (pos capacity) (debt_units capacity units p level))

-- The last part: from `if cost > capacity` on.
unfoldable pub decide : (tat now effective_tat capacity cost max_debt cost_ns : ℕ) → ℤ → Verdict
decide tat now effective_tat capacity cost max_debt cost_ns remaining =
    if ltb capacity cost
    then refuse remaining (pos 0) tat
    else elim (add_non_neg effective_tat cost_ns) [
      | none ↦ refuse remaining (pos 0) tat
      | some candidate ↦
          if ltb max_debt (candidate - now)
          then refuse remaining (pos (candidate - now - max_debt)) tat
          else record {
            throttled = false;
            remaining = remaining;
            retry_after = pos 0;
            admitted_tat = candidate;
          }
    ]

-- The check behind the guard.
unfoldable pub check_counts : (tat now capacity units p cost : ℕ) → Verdict
check_counts tat now capacity units p cost = elim (debts capacity units p cost) [
  | none ↦ refuse (pos 0) (pos 0) tat
  | some (max_debt, cost_ns) ↦
      let effective_tat = max tat now in
      let level = effective_tat - now in
      decide tat now effective_tat capacity cost max_debt cost_ns
        (remaining_units capacity units p level)
]

unfoldable pub gcra_check : (tat now : ℕ) → (capacity units period cost : ℤ) → Verdict
unfolding check_counts decide debts
gcra_check tat now capacity units period cost =
    if is_nonpos period || is_nonpos units || is_neg capacity || is_neg cost
    then refuse (pos 0) (pos 0) tat
    else check_counts tat now (magnitude capacity) (magnitude units) (magnitude period)
        (magnitude cost)
