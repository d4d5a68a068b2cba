-- ===== src/TestThrottlers.antt =====
-- deadhorsetest/deadhorsetest.go: throttlers with one answer to everything, for tests.
use deadhorse.Common.{Bool, List, Option, [], ap, false, map, none, refl, true, ◌∷◌, ◌≡◌}
use deadhorse.Common.Int.{pos}
use deadhorse.Types.{Failure, RequestEntry, ResponseEntry}

-- The zero value of a result, with its key.
abbrev constant_answer : Bool → RequestEntry → ResponseEntry
constant_answer throttled e = record {
  key = e.key;
  throttled = throttled;
  remaining = pos 0;
  retry_after = pos 0;
  err = none;
}

pub no_op_throttle : List RequestEntry → List ResponseEntry × Option Failure
no_op_throttle es = (map (constant_answer false) es, none)

pub always_true_throttle : List RequestEntry → List ResponseEntry × Option Failure
always_true_throttle es = (map (constant_answer true) es, none)

keys_of :
    (b : Bool) (es : List RequestEntry)
    → map (λ r. r.key) (map (constant_answer b) es) ≡ map (λ e. e.key) es
keys_of b [] = refl
keys_of b (e ∷ es) = ap (◌∷◌ e.key) (keys_of b es)

-- Both keep to what a Throttler promises, one result for each entry, in the same order.
throttlers_in_order :
    (es : List RequestEntry)
    → (map (λ r. r.key) (no_op_throttle es).0 ≡ map (λ e. e.key) es)
      × (map (λ r. r.key) (always_true_throttle es).0 ≡ map (λ e. e.key) es)
unfolding no_op_throttle always_true_throttle
throttlers_in_order es = (keys_of false es, keys_of true es)
