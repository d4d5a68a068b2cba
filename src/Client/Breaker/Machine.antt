-- ===== src/Client/Breaker/Machine.antt =====
-- The state machine that the comments of breaker.go describe, and the breaker against it, where no call
-- that was let through before the breaker opened fails late.
use deadhorse.Common.{
  Bool, Bool-cases, List, [], ap, arith, false, if◌then◌else◌, inl, inr, length, ltb, refl, true, ℕ,
  ◌+◌, ◌<◌, ◌∙◌, ◌∷◌, ◌≡◌, ◌≤◌,
}
use deadhorse.Common.Int.{add64-one, ltb_ℤ, magnitude, max_int64, pos, ℤ}
use deadhorse.Client.Breaker.{
  Breaker, allow, new_circuit_breaker, record_failure, record_success, since,
}

-- Closed, with the failures in a row; open since an instant; open, with the trial under way.
pub data State : Type 0 where
  closed : ℕ → State
  cooling : ℕ → State
  trial : ℕ → State

-- What callers report: a call asks to go ahead, succeeds, or fails. A failure is of the trial, or of
-- another call.
pub data Event : Type 0 where
  asks : ℕ → Event
  succeeds : Event
  fails : ℕ → (of_trial : Bool) → Event

-- The machine. While it is open, a failure of the trial reopens it and restarts the cooldown; any
-- other failure is just counted, which changes nothing before the next success. A success closes it.
unfoldable pub spec_step : (threshold : ℕ) → (duration : ℤ) → Event → State → State × Bool
spec_step threshold duration (asks now) (closed n) = (closed n, true)
spec_step threshold duration (asks now) (cooling at) =
    if ltb_ℤ (since now at) duration then (cooling at, false) else (trial at, true)
spec_step threshold duration (asks now) (trial at) = (trial at, false)
spec_step threshold duration succeeds s = (closed 0, true)
spec_step threshold duration (fails now of_trial) (closed n) =
    (if ltb (n + 1) threshold then closed (n + 1) else cooling now, true)
spec_step threshold duration (fails now of_trial) (cooling at) = (cooling at, true)
spec_step threshold duration (fails now true) (trial at) = (cooling now, true)
spec_step threshold duration (fails now false) (trial at) = (trial at, true)

-- A failure comes in turn if the breaker is closed, or if it is the trial's while the trial is under
-- way: it is not that of a call that was let through before the breaker opened and fails late.
abbrev pub IsInTurn : Event → State → Type 0
IsInTurn (fails now of_trial) (closed n) = Unit
IsInTurn (fails now of_trial) (cooling at) = ⊥
IsInTurn (fails now of_trial) (trial at) = of_trial ≡ true
IsInTurn _ s = Unit

abbrev pub AllInTurn : (threshold : ℕ) → (duration : ℤ) → List Event → State → Type 0
AllInTurn threshold duration [] s = Unit
AllInTurn threshold duration (e ∷ es) s =
    IsInTurn e s × AllInTurn threshold duration es (spec_step threshold duration e s).0

pub spec_run : (threshold : ℕ) → (duration : ℤ) → List Event → State → List Bool
spec_run threshold duration [] s = []
spec_run threshold duration (e ∷ es) s =
    let (s', answer) = spec_step threshold duration e s in
    answer ∷ spec_run threshold duration es s'

unfoldable pub step : Event → Breaker → Breaker × Bool
step (asks now) b = allow now b
step succeeds b = (record_success b, true)
step (fails now _) b = (record_failure now b, true)

unfoldable pub run : List Event → Breaker → List Bool
run [] b = []
run (e ∷ es) b = let (b', answer) = step e b in answer ∷ run es b'

view_of : Bool → Bool → ℕ → ℤ → State
view_of false t at n = closed (magnitude n)
view_of true false at n = cooling at
view_of true true at n = trial at

pub view : Breaker → State
unfolding view_of
view b = view_of b.is_open b.trial_in_flight b.opened_at b.consecutive_failures

-- The counter is at `n`, below the threshold exactly while the breaker is closed, and a trial is
-- under way only while it is open.
pub record IsValid (threshold : ℕ) (duration : ℤ) (n : ℕ) (b : Breaker) : Type 0 where
  pub threshold_is : b.failure_threshold ≡ pos threshold
  pub duration_is : b.open_duration ≡ duration
  pub positive : 0 < threshold
  pub count : b.consecutive_failures ≡ pos n
  pub below : b.is_open ≡ false → n < threshold
  pub above : b.is_open ≡ true → threshold ≤ n
  pub trial_open : b.is_open ≡ false → b.trial_in_flight ≡ false

-- The counter after an event.
count_after : Event → Breaker → ℕ → ℕ
count_after (asks now) b n = n
count_after succeeds b n = 0
count_after (fails now _) b n = if b.trial_in_flight then n else n + 1

module _ {threshold : ℕ} {duration : ℤ} {n : ℕ} {b : Breaker} where
  step-IsValid :
      (e : Event)
      → IsValid threshold duration n b
      → n < max_int64
      → IsValid threshold duration (count_after e b n) (step e b).0
  unfolding step count_after allow record_success record_failure
  step-IsValid (asks now) v h = ground arith
  step-IsValid succeeds v h = ground arith
  step-IsValid (fails now of_trial) v h = ground (arith, add64-one n)

  step-refines :
      (e : Event)
      → IsValid threshold duration n b
      → n < max_int64
      → IsInTurn e (view b)
      → (view (step e b).0 ≡ (spec_step threshold duration e (view b)).0)
        × ((step e b).1 ≡ (spec_step threshold duration e (view b)).1)
  unfolding step allow record_success record_failure view spec_step
  step-refines (asks now) v h turn = ground arith
  step-refines succeeds v h turn = ground arith
  step-refines (fails now of_trial) v h turn = elim (Bool-cases b.is_open) [
    | inl o ↦ elim (Bool-cases b.trial_in_flight) [
      | inl t ↦
          let of_it : of_trial ≡ true = rw (o, t) at turn in rw (o, t, of_it) (ground (arith, o, t))
      | inr t ↦ absurd (rw (o, t) at turn)
    ]
    | inr o ↦ rw o (ground (arith, add64-one n, o))
  ]

count_after-le : (e : Event) (b : Breaker) (n : ℕ) → count_after e b n ≤ n + 1
unfolding count_after
count_after-le (asks now) b n = omega arith
count_after-le succeeds b n = omega arith
count_after-le (fails now of_trial) b n = ground arith

run-refines_from :
    (es : List Event) (threshold : ℕ) (duration : ℤ) (n : ℕ) (b : Breaker)
    → IsValid threshold duration n b
    → n + length es ≤ max_int64
    → AllInTurn threshold duration es (view b)
    → run es b ≡ spec_run threshold duration es (view b)
unfolding run spec_run
run-refines_from [] threshold duration n b v h turns = refl
run-refines_from (e ∷ es) threshold duration n b v h (turn, turns) =
    let (next, answer) = step-refines e v (omega arith) turn in
    rw (answer, ← next)
      (ap (◌∷◌ (spec_step threshold duration e (view b)).1) (
        run-refines_from es threshold duration (count_after e b n) (step e b).0
          (step-IsValid e v (omega arith)) (omega (arith, count_after-le e b n)) (rw next turns)))

new_circuit_breaker-IsValid :
    (threshold : ℕ) (duration : ℤ)
    → 0 < threshold
    → IsValid threshold duration 0 (new_circuit_breaker (pos threshold) duration)
unfolding new_circuit_breaker
new_circuit_breaker-IsValid threshold duration h = ground arith

-- Over every sequence of calls, successes and failures, at any instants, in which every failure comes
-- in turn, a new breaker with a positive threshold answers every event exactly as the documented
-- state machine does from its closed state.
pub run-refines :
    (es : List Event) (threshold : ℕ) (duration : ℤ)
    → 0 < threshold
    → length es ≤ max_int64
    → AllInTurn threshold duration es (closed 0)
    → run es (new_circuit_breaker (pos threshold) duration)
      ≡ spec_run threshold duration es (closed 0)
run-refines es threshold duration h range turns =
    run-refines_from es threshold duration 0 _ (new_circuit_breaker-IsValid threshold duration h)
      (omega arith) (unfold view new_circuit_breaker in turns)
    ∙ ap (spec_run threshold duration es) (unfold view new_circuit_breaker in refl)
