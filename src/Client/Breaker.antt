-- ===== src/Client/Breaker.antt =====
-- client/breaker.go: the circuit breaker of a shard. Each method is one step on the state; the
-- clock readings are arguments, as nanoseconds since the epoch.
pub mod Machine
pub mod Laws
use deadhorse.Common.{Bool, false, if◌then◌else◌, not, true, ℕ, ◌||◌}
use deadhorse.Common.Int.{add64, is_nonpos, ltb_ℤ, pos, sub_ℕ, ℤ}

pub record Breaker : Type 0 where
  pub failure_threshold : ℤ
  pub open_duration : ℤ
  pub is_open : Bool
  pub consecutive_failures : ℤ
  pub opened_at : ℕ
  pub trial_in_flight : Bool

unfoldable pub new_circuit_breaker : ℤ → ℤ → Breaker
new_circuit_breaker threshold duration = record {
  failure_threshold = threshold;
  open_duration = duration;
  is_open = false;
  consecutive_failures = pos 0;
  opened_at = 0;
  trial_in_flight = false;
}

-- `time.Since` of the instant `at`, at `now`.
abbrev pub since : (now at : ℕ) → ℤ
since now at = sub_ℕ now at

unfoldable pub allow : ℕ → Breaker → Breaker × Bool
allow now b =
    if is_nonpos b.failure_threshold || not b.is_open
    then (b, true)
    else if ltb_ℤ (since now b.opened_at) b.open_duration
    then (b, false)
    else if b.trial_in_flight
    then (b, false)
    else (record b { trial_in_flight = true }, true)

unfoldable pub record_success : Breaker → Breaker
record_success b =
    let reset = record b { consecutive_failures = pos 0 } in
    if b.is_open then record reset { is_open = false; trial_in_flight = false } else reset

unfoldable pub record_failure : ℕ → Breaker → Breaker
record_failure now b =
    if is_nonpos b.failure_threshold
    then b
    else if b.trial_in_flight
    then record b { opened_at = now; trial_in_flight = false }
    else let failures = add64 b.consecutive_failures (pos 1) in
      let counted = record b { consecutive_failures = failures } in
      if not (ltb_ℤ failures b.failure_threshold)
      then record counted { opened_at = now; is_open = true }
      else counted
