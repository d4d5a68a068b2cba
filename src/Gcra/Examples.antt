-- ===== src/Gcra/Examples.antt =====
-- Runs of the check in server/gcra.go, and the theorems about it at concrete limits.
use deadhorse.Common.{
  List, [], ap, arith, false, ltb, refl, true, ℕ, ◌*◌, ◌+◌, ◌-◌, ◌<◌, ◌∷◌, ◌≡◌, ◌≤◌,
}
use deadhorse.Common.Int.{max_int64, negsuc, pos, sub64}
use deadhorse.Gcra.{
  add_non_neg, ceil_div, check_counts, debt_units, debts, decide, gcra_check, mul_div_ceil,
  mul_div_floor, mul_non_neg, refuse, remaining_units, round_up,
}
use deadhorse.Gcra.Decision.{exact_check, gcra_check-exact}
use deadhorse.Gcra.Window.{serve, serve-conforms}
use deadhorse.Gcra.Retry.{check_at, gcra_check_whole_bucket, retry_after-exact}
use deadhorse.Gcra.Range.{IsCount, gcra_check-range}

-- Ten units, three draining each second; and three requests in two seconds.
abbrev second : ℕ
second = 1000000000

abbrev requests : List (ℕ × ℕ)
requests = (0, 5) ∷ (second, 5) ∷ (2 * second, 9) ∷ []

run_first : gcra_check 0 second (pos 10) (pos 3) (pos second) (pos 5) ≡ record {
  throttled = false;
  remaining = pos 10;
  retry_after = pos 0;
  admitted_tat = 2666666667;
}
unfolding gcra_check check_counts debts decide mul_div_floor mul_div_ceil round_up add_non_neg
    remaining_units debt_units sub64
run_first = refl

run_refused :
    gcra_check (8 * second) second (pos 10) (pos 1) (pos second) (pos 5)
    ≡ refuse (pos 3) (pos (2 * second)) (8 * second)
unfolding gcra_check check_counts debts decide mul_non_neg add_non_neg remaining_units debt_units
    ceil_div sub64
run_refused = refl

run_unusable :
    (gcra_check 7 9 (pos 10) (pos 0) (pos second) (pos 5) ≡ refuse (pos 0) (pos 0) 7)
    × (gcra_check 7 9 (pos 10) (pos 1) (negsuc 4) (pos 5) ≡ refuse (pos 0) (pos 0) 7)
unfolding gcra_check
run_unusable = (refl, refl)

serve-conforms_example :
    (serve 10 3 second 0 requests).1 * second ≤ 10 * second + 3 * (2 * second - 0)
serve-conforms_example =
    serve-conforms 10 3 second (omega arith) (omega arith) (omega arith) 0 (2 * second) 0 requests
      (omega arith) (omega arith) (omega arith)
      (omega arith, omega arith, (omega arith, omega arith, (omega arith, omega arith, tt)))

gcra_check-exact_example :
    gcra_check (8 * second) second (pos 10) (pos 3) (pos second) (pos 5)
    ≡ exact_check (8 * second) second 10 3 second 5
gcra_check-exact_example =
    gcra_check-exact (8 * second) second 10 3 second 5 (omega arith) (omega arith) (omega arith)
      (omega arith) (omega arith)

refused_retry_after : (check_at (8 * second) 10 1 second 5 second).retry_after ≡ pos (2 * second)
refused_retry_after = ap (λ v. v.retry_after) run_refused

retry_after-exact_example :
    (check_at (8 * second) 10 1 second 5 (second + 2 * second)).throttled
    ≡ ltb (2 * second) (2 * second)
retry_after-exact_example =
    retry_after-exact (8 * second) second 10 1 second 5 (2 * second) (2 * second) (omega arith)
      (omega arith) (omega arith) (omega arith) refused_retry_after (omega arith) (omega arith)
      (omega arith)

-- One unit, three draining each second.
gcra_check_whole_bucket_example :
    ((check_at 0 1 3 second 1 second).throttled ≡ true)
    × (r : ℕ) × ((check_at 0 1 3 second 1 second).retry_after ≡ pos r)
    × (0 < r)
gcra_check_whole_bucket_example =
    gcra_check_whole_bucket 0 second 1 3 second (omega arith) (omega arith) (omega arith)
      (omega arith) (omega arith)

gcra_check-range_example :
    ((gcra_check second 9 (pos 10) (pos 3) (pos second) (negsuc 1)).admitted_tat ≤ max_int64)
    × IsCount (gcra_check second 9 (pos 10) (pos 3) (pos second) (negsuc 1)).remaining
    × IsCount (gcra_check second 9 (pos 10) (pos 3) (pos second) (negsuc 1)).retry_after
gcra_check-range_example =
    gcra_check-range second 9 (pos 10) (pos 3) (pos second) (negsuc 1) (omega arith) (omega arith)
      (omega arith)
