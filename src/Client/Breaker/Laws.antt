-- ===== src/Client/Breaker/Laws.antt =====
-- What callers see of the breaker.
use deadhorse.Common.{
  Bool, Bool-cases, List, [], ap, arith, false, if◌then◌else◌, inl, inr, leb, length, lt_or_le, map,
  not, refl, true, ℕ, ◌+◌, ◌<◌, ◌∙◌, ◌∷◌, ◌≡◌, ◌≤◌,
}
use deadhorse.Common.Int.{add64-one, is_nonpos, ltb_ℤ, max_int64, pos, ℤ}
use deadhorse.Client.Breaker.{
  Breaker, allow, new_circuit_breaker, record_failure, record_success, since,
}

abbrev pub IsEnabled : Breaker → Type 0
IsEnabled b = is_nonpos b.failure_threshold ≡ false

-- The cooldown has passed at `now`.
abbrev pub Cooled : ℕ → Breaker → Type 0
Cooled now b = ltb_ℤ (since now b.opened_at) b.open_duration ≡ false

-- Failures in a row, at the given instants.
unfoldable pub fail_all : List ℕ → Breaker → Breaker
fail_all [] b = b
fail_all (now ∷ rest) b = fail_all rest (record_failure now b)

fail_all-is_open :
    (ts : List ℕ) (b : Breaker)
    → b.is_open ≡ true
    → b.trial_in_flight ≡ false
    → (fail_all ts b).is_open ≡ true
unfolding fail_all record_failure
fail_all-is_open [] b o t = o
fail_all-is_open (now ∷ rest) b o t =
    fail_all-is_open rest (record_failure now b) (ground arith) (ground arith)

fail_all-closed :
    (ts : List ℕ) (b : Breaker) (n threshold : ℕ)
    → b.failure_threshold ≡ pos threshold
    → b.is_open ≡ false
    → b.trial_in_flight ≡ false
    → b.consecutive_failures ≡ pos n
    → n < threshold
    → threshold ≤ max_int64
    → (fail_all ts b).is_open ≡ leb threshold (n + length ts)
unfolding fail_all record_failure
fail_all-closed [] b n threshold ht o tr c lt range = ground arith
fail_all-closed (now ∷ rest) b n threshold ht o tr c lt range = elim (lt_or_le (n + 1) threshold) [
  | inl below ↦
      let count : (record_failure now b).consecutive_failures ≡ pos (n + 1) =
        ground (arith, add64-one n) in
      fail_all-closed rest (record_failure now b) (n + 1) threshold (ground (arith, add64-one n))
        (ground (arith, add64-one n)) (ground (arith, add64-one n)) count below range
      ∙ ap (leb threshold) (omega arith)
  | inr reached ↦
      fail_all-is_open rest (record_failure now b) (ground (arith, add64-one n))
        (ground (arith, add64-one n))
      ∙ ground arith
]

-- A new breaker with a positive threshold trips at the failure that reaches the threshold, and not
-- before, however many failures come in a row and whenever they come.
pub fail_all-new_circuit_breaker :
    (ts : List ℕ) (threshold : ℕ) (duration : ℤ)
    → 0 < threshold
    → threshold ≤ max_int64
    → (fail_all ts (new_circuit_breaker (pos threshold) duration)).is_open
      ≡ leb threshold (length ts)
unfolding new_circuit_breaker
fail_all-new_circuit_breaker ts threshold duration h range =
    fail_all-closed ts (new_circuit_breaker (pos threshold) duration) 0 threshold refl refl refl
      refl h range
    ∙ ap (leb threshold) (omega arith)

-- While the cooldown runs, an open breaker lets no call through and does not change.
pub allow-fail_fast :
    (now : ℕ) (b : Breaker)
    → IsEnabled b
    → b.is_open ≡ true
    → ltb_ℤ (since now b.opened_at) b.open_duration ≡ true
    → allow now b ≡ (b, false)
unfolding allow
allow-fail_fast now b e o h = rw (e, o, h)

pub allow-trial :
    (now : ℕ) (b : Breaker)
    → IsEnabled b
    → b.is_open ≡ true
    → b.trial_in_flight ≡ false
    → Cooled now b
    → allow now b ≡ (record b { trial_in_flight = true }, true)
unfolding allow
allow-trial now b e o t h = rw (e, o, h, t)

-- With a trial under way nothing is let through, at whatever time, and nothing changes.
pub allow_during_trial :
    (now : ℕ) (b : Breaker)
    → IsEnabled b
    → b.is_open ≡ true
    → b.trial_in_flight ≡ true
    → allow now b ≡ (b, false)
unfolding allow
allow_during_trial now b e o t = elim (Bool-cases (ltb_ℤ (since now b.opened_at) b.open_duration)) [
  | inl early ↦ rw (e, o, early)
  | inr late ↦ rw (e, o, late, t)
]

-- Calls that ask to go ahead at the given instants, while no outcome is recorded.
unfoldable pub allow_all : List ℕ → Breaker → Breaker × List Bool
allow_all [] b = (b, [])
allow_all (now ∷ rest) b =
    let (asked, answer) = allow now b in
    let (b', answers) = allow_all rest asked in (b', answer ∷ answers)

-- True at the first place where the test holds, and nowhere else.
abbrev pub first_only : (ℕ → Bool) → List ℕ → List Bool
first_only test [] = []
first_only test (x ∷ xs) = if test x then true ∷ map (λ _. false) xs else false ∷ first_only test xs

allow_all-trial :
    (ts : List ℕ) (b : Breaker)
    → IsEnabled b
    → b.is_open ≡ true
    → b.trial_in_flight ≡ true
    → allow_all ts b ≡ (b, map (λ _. false) ts)
unfolding allow_all
allow_all-trial [] b e o t = refl
allow_all-trial (now ∷ rest) b e o t =
    rw (allow_during_trial now b e o t, allow_all-trial rest b e o t) refl

-- Of calls that ask an open breaker to go ahead, in any number and at any instants, with no outcome
-- recorded among them: if a trial is under way all are refused; else exactly the first that comes
-- when the cooldown has passed is let through.
pub allow_all-first_only :
    (ts : List ℕ) (b : Breaker)
    → IsEnabled b
    → b.is_open ≡ true
    → (allow_all ts b).1 ≡ (
        if b.trial_in_flight
        then map (λ _. false) ts
        else first_only (λ t. not (ltb_ℤ (since t b.opened_at) b.open_duration)) ts)
unfolding allow_all
allow_all-first_only ts b e o = elim (Bool-cases b.trial_in_flight) [
  | inl t ↦ ap (λ r. r.1) (allow_all-trial ts b e o t) ∙ rw t refl
  | inr t ↦ go ts t ∙ rw t refl
]
  where
    go :
        (ts : List ℕ)
        → b.trial_in_flight ≡ false
        → (allow_all ts b).1
          ≡ first_only (λ t. not (ltb_ℤ (since t b.opened_at) b.open_duration)) ts
    go [] t = refl
    go (now ∷ rest) t = elim (Bool-cases (ltb_ℤ (since now b.opened_at) b.open_duration)) [
      | inl early ↦ rw (allow-fail_fast now b e o early, early) (ap (◌∷◌ false) (go rest t))
      | inr late ↦
          rw
            (
              allow-trial now b e o t late,
              late,
              allow_all-trial rest (record b { trial_in_flight = true }) e o refl,
            )
            refl
    ]

record_failure-trial :
    (done : ℕ) (b : Breaker)
    → IsEnabled b
    → record_failure done (record b { trial_in_flight = true })
      ≡ record b { opened_at = done; trial_in_flight = false }
unfolding record_failure
record_failure-trial done b e = rw e

record_success-open :
    (b : Breaker)
    → b.is_open ≡ true
    → record_success b
      ≡ record b { consecutive_failures = pos 0; is_open = false; trial_in_flight = false }
unfolding record_success
record_success-open b o = rw o

allow_open :
    (now : ℕ) (b : Breaker)
    → IsEnabled b
    → b.is_open ≡ true
    → b.trial_in_flight ≡ false
    → (allow now b).1 ≡ not (ltb_ℤ (since now b.opened_at) b.open_duration)
unfolding allow
allow_open now b e o t = elim (Bool-cases (ltb_ℤ (since now b.opened_at) b.open_duration)) [
  | inl early ↦ rw (e, o, early)
  | inr late ↦ rw (e, o, late, t)
]

allow_closed : (now : ℕ) (b : Breaker) → b.is_open ≡ false → (allow now b).1 ≡ true
unfolding allow
allow_closed now b o = rw o (ground arith)

-- A trial that fails restarts the cooldown at that instant, and the breaker admits a new trial when
-- it has passed; a trial that succeeds closes the breaker, and every call is let through.
pub trial-outcomes :
    (now done later : ℕ) (b : Breaker)
    → IsEnabled b
    → b.is_open ≡ true
    → b.trial_in_flight ≡ false
    → Cooled now b
    → ((allow later (record_failure done (allow now b).0)).1
        ≡ not (ltb_ℤ (since later done) b.open_duration))
      × ((allow later (record_success (allow now b).0)).1 ≡ true)
trial-outcomes now done later b e o t h =
    rw
      (
        allow-trial now b e o t h,
        record_failure-trial done b e,
        record_success-open (record b { trial_in_flight = true }) o,
      )
      (
        allow_open later (record b { opened_at = done; trial_in_flight = false }) e o refl,
        allow_closed later _ refl,
      )
