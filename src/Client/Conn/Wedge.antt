-- ===== src/Client/Conn/Wedge.antt =====
-- A trial that is given up by its own caller.
use deadhorse.Common.{Bool, List, [], false, not, refl, true, ◌∷◌, ◌≡◌}
use deadhorse.Types.{Failure, RequestEntry, ResponseEntry, circuit_open}
use deadhorse.Client.Breaker.{Breaker}
use deadhorse.Client.Breaker.Laws.{Cooled, IsEnabled, allow-trial, allow_during_trial}
use deadhorse.Client.Conn.{Clock, Ended, throttle, valid_key, wait_over}
use deadhorse.Client.Conn.Results.{refused_all, throttle_cancelled, throttle_refused}

-- A call: the clock, the network's answer, and the entries.
pub record Call : Type 0 where
  pub clock : Clock
  pub network : List RequestEntry → Bool × Ended
  pub entries : List RequestEntry

-- Calls one after another, with the results of each.
pub run_calls : Bool → List Call → Breaker → Breaker × List (List ResponseEntry)
run_calls fail_open [] b = (b, [])
run_calls fail_open (c ∷ cs) b =
    let (b', results, _) = throttle c.clock fail_open c.network c.entries b in
    let (last, rest) = run_calls fail_open cs b' in (last, results ∷ rest)

pub all_refused : Bool → List Call → List (List ResponseEntry)
all_refused fail_open [] = []
all_refused fail_open (c ∷ cs) =
    refused_all (not fail_open) circuit_open c.entries ∷ all_refused fail_open cs

throttle_during_trial :
    (fail_open : Bool) (c : Call) (b : Breaker)
    → IsEnabled b
    → b.is_open ≡ true
    → b.trial_in_flight ≡ true
    → ((throttle c.clock fail_open c.network c.entries b).0 ≡ b)
      × ((throttle c.clock fail_open c.network c.entries b).1
          ≡ refused_all (not fail_open) circuit_open c.entries)
throttle_during_trial fail_open c b e o t =
    throttle_refused c.clock fail_open c.network b c.entries
      (allow_during_trial c.clock.asked b e o t)

run_calls_during_trial :
    (fail_open : Bool) (cs : List Call) (b : Breaker)
    → IsEnabled b
    → b.is_open ≡ true
    → b.trial_in_flight ≡ true
    → run_calls fail_open cs b ≡ (b, all_refused fail_open cs)
unfolding run_calls all_refused
run_calls_during_trial fail_open [] b e o t = refl
run_calls_during_trial fail_open (c ∷ cs) b e o t =
    let (same, refused) = throttle_during_trial fail_open c b e o t in
    simp (same, refused, run_calls_during_trial fail_open cs b e o t)

-- The breaker is open and cooled down, and the call that is let through as the trial ends because
-- its own caller's context is done: the breaker is left with the trial under way, and every call
-- after it is refused without reaching the network, whenever it comes and whatever the shard would
-- have answered.
pub run_calls_cancelled_trial :
    (fail_open : Bool) (clock : Clock) (e : RequestEntry) (es : List RequestEntry) (err : Failure)
    (cs : List Call) (b : Breaker)
    → valid_key e.key ≡ true
    → IsEnabled b
    → b.is_open ≡ true
    → b.trial_in_flight ≡ false
    → Cooled clock.asked b
    → (let b' = (throttle clock fail_open (λ _. (true, wait_over err)) (e ∷ es) b).0 in
        (b'.trial_in_flight ≡ true) × (run_calls fail_open cs b' ≡ (b', all_refused fail_open cs)))
run_calls_cancelled_trial fail_open clock e es err cs b k en o t h =
    rw (throttle_cancelled clock fail_open b e es err k (allow-trial clock.asked b en o t h))
      (refl, run_calls_during_trial fail_open cs (record b { trial_in_flight = true }) en o refl)
