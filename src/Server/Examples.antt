-- ===== src/Server/Examples.antt =====
-- Runs of server/store.go and server/throttling.go, and the theorems about them on a small store.
use deadhorse.Common.{
  Bool, List, Option, [], arith, false, inl, inr, length, map, none, refl, some, sym, true, ℕ, ◌*◌,
  ◌+◌, ◌-◌, ◌∷◌, ◌≡◌, ◌≢◌, ◌≤◌,
}
use deadhorse.Common.Int.{negsuc, pos, sub64}
use deadhorse.Common.Assoc.{Str, delete, insert, lookup, str_eq, str_eq_iff}
use deadhorse.Types.{Failure, RequestEntry, ResponseEntry, effective_cost, effective_units}
use deadhorse.Server.Store.{
  Store, add_sizes, close, collect, default_stripes, done_closed, gc_events, gc_loop, gc_tick,
  get_or_create, key_counts, metrics_tick, new_store, rotate, sizes, stripe_for, stripe_index,
  touch,
}
use deadhorse.Server.Store.Lookup.{find, find_hot}
use deadhorse.Server.Store.Tats.{IsValid, tat_of}
use deadhorse.Server.Store.Generations.{find-collect-Untouched, find-collect_touched, touch_all}
use deadhorse.Server.Store.Collection.{collect-IsValid, new_store-IsValid}
use deadhorse.Server.Throttling.{
  check_entry, commit, evaluate, evaluate_real_group, group_buckets, scan_entries, throttle,
  working_tats,
}
use deadhorse.Server.Throttling.Spec.{advance_all, answers, transact}
use deadhorse.Server.Throttling.Refines.{throttle-refines}
use deadhorse.Server.Throttling.Transaction.{
  any_throttled, throttle-Unconsumed, throttle_all_or_none,
}
use deadhorse.Gcra.{
  add_non_neg, ceil_div, check_counts, debt_units, debts, decide, gcra_check, mul_non_neg,
  remaining_units,
}
use deadhorse.Fnv1a.{bytes_of, hash, hash_bytes, rune_bytes}
use deadhorse.Server.Throttling.Range.{InTime, throttle-InTime}
use deadhorse.Server.Limit.{StoreEvent, called, collected, consumes, run_store}
use deadhorse.Server.Limit.Conforms.{HasLimit}
use deadhorse.Server.Limit.Retention.{IsTimed, gc_interval-conforms}

abbrev alice : Str
alice = b'a' ∷ []

abbrev bob : Str
bob = b'b' ∷ []

-- Two units, one draining each second.
abbrev entry : Str → ℕ → Bool → RequestEntry
entry k cost peek = record {
  key = k;
  limit = record { capacity = pos 2; rate = record { units = pos 1; period = pos 1000000000 } };
  cost = pos cost;
  peek = peek;
}

-- Alice asks twice, Bob is looked at and asks for too much.
abbrev batch : List RequestEntry
batch = entry alice 1 false ∷ entry bob 1 true ∷ entry alice 1 false ∷ entry bob 3 false ∷ []

abbrev start : Store
start = new_store (pos 1)

-- Both buckets are there, and the batch committed nothing: Bob's last entry fails.
abbrev answered : Store × List ResponseEntry × Option Failure
answered = throttle none 1000 batch start

run_batch :
    (map (λ r. r.throttled) answered.1 ≡ false ∷ false ∷ false ∷ true ∷ [])
    × (map (λ r. r.remaining) answered.1 ≡ pos 2 ∷ pos 2 ∷ pos 1 ∷ pos 2 ∷ [])
    × (answered.0.heap ≡ 0 ∷ 0 ∷ [])
unfolding throttle scan_entries evaluate_real_group group_buckets working_tats evaluate commit
    check_entry touch get_or_create stripe_for stripe_index new_store hash hash_bytes bytes_of
    rune_bytes lookup insert delete str_eq gcra_check check_counts debts decide mul_non_neg
    add_non_neg remaining_units debt_units ceil_div sub64 effective_cost effective_units
run_batch = (refl, refl, refl)

-- The same without Bob's last entry: Alice's bucket is full.
run_committed :
    (throttle none 1000 (entry alice 1 false ∷ entry alice 1 false ∷ []) start).0.heap
    ≡ 2000001000 ∷ []
unfolding throttle scan_entries evaluate_real_group group_buckets working_tats evaluate commit
    check_entry touch get_or_create stripe_for stripe_index new_store hash hash_bytes bytes_of
    rune_bytes lookup insert delete str_eq gcra_check check_counts debts decide mul_non_neg
    add_non_neg remaining_units debt_units ceil_div sub64 effective_cost effective_units
run_committed = refl

run_loop :
    (gc_loop (gc_tick ∷ metrics_tick ∷ done_closed ∷ gc_tick ∷ []) (touch alice start).0).1
    ≡ (1, 0) ∷ (0, 1) ∷ (0, 1) ∷ []
unfolding gc_loop gc_events collect rotate key_counts add_sizes sizes touch get_or_create stripe_for
    stripe_index new_store hash hash_bytes bytes_of rune_bytes lookup insert
run_loop = refl

run_close : ((close start).done ≡ true) × (length (new_store (negsuc 4)).stripes ≡ default_stripes)
unfolding close new_store
run_close = (refl, refl)

alice_ne : alice ≢ bob
unfolding str_eq
alice_ne e = ground (arith, str_eq_iff alice bob, e)

bob_ne : bob ≢ alice
bob_ne e = alice_ne (sym e)

start-IsValid : IsValid start
start-IsValid = (new_store-IsValid (pos 1)).0

throttle-refines_example :
    IsValid answered.0
    × ((k : Str) → tat_of answered.0 k ≡ transact 1000 batch (tat_of start) k)
    × (answered.1 ≡ answers 1000 (tat_of start) batch (tat_of start))
    × (answered.2 ≡ none)
throttle-refines_example = throttle-refines 1000 batch start start-IsValid

throttle_all_or_none_example :
    (any_throttled batch answered.1 ≡ true → (k : Str) → tat_of answered.0 k ≡ tat_of start k)
    × (any_throttled batch answered.1 ≡ false
        → (k : Str) → tat_of answered.0 k ≡ advance_all 1000 batch (tat_of start) k)
throttle_all_or_none_example = throttle_all_or_none 1000 batch start start-IsValid

throttle-Unconsumed_example :
    tat_of (throttle none 1000 (entry alice 1 false ∷ entry bob 1 true ∷ []) start).0 bob
    ≡ tat_of start bob
throttle-Unconsumed_example =
    throttle-Unconsumed 1000 (entry alice 1 false ∷ entry bob 1 true ∷ []) start bob start-IsValid
      (inr alice_ne, (inl refl, tt))

find-collect_touched_example :
    find alice (collect (touch_all (bob ∷ alice ∷ []) (touch alice start).0))
    ≡ some (touch alice start).1
find-collect_touched_example =
    find-collect_touched alice (bob ∷ alice ∷ []) start start-IsValid.has_stripe

find-collect-Untouched_example : find alice (collect (touch_all (bob ∷ []) (collect start))) ≡ none
find-collect-Untouched_example =
    find-collect-Untouched alice (bob ∷ []) start start-IsValid.has_stripe (bob_ne, tt)

collect-IsValid_example :
    IsValid (collect start)
    × ((k : Str)
        → tat_of (collect start) k ≡ elim (find_hot k start) [ some b ↦ tat_of start k | none ↦ 0 ])
collect-IsValid_example = collect-IsValid start start-IsValid

throttle-InTime_example : InTime (tat_of answered.0)
throttle-InTime_example =
    throttle-InTime 1000 (omega arith) batch start start-IsValid
      (omega arith, (omega arith, (omega arith, (omega arith, tt))))
      (λ k. rw ((new_store-IsValid (pos 1)).1 k) (omega arith))

-- Alice empties her bucket and asks again, the store is rotated, and she asks once more.
abbrev greedy : List StoreEvent
greedy =
    called 1000 (entry alice 1 false ∷ entry alice 1 false ∷ [])
    ∷ called 2000 (entry alice 1 false ∷ entry bob 1 true ∷ [])
    ∷ collected 2000001000
    ∷ called 3000000000 (entry alice 2 false ∷ [])
    ∷ []

entry-HasLimit : (k : Str) (cost : ℕ) (peek : Bool) → HasLimit 2 1 1000000000 (entry k cost peek)
unfolding effective_units
entry-HasLimit k cost peek = (refl, refl, refl)

bob_peek : consumes alice (entry bob 1 true) ≡ false
bob_peek = refl

greedy-IsTimed :
    IsTimed 2 1 1000000000
      (omega arith)
      (omega arith)
      (omega arith)
      alice
      2000000000
      1000
      1000
      4000000000
      greedy
greedy-IsTimed = (
  omega arith,
  omega arith,
  (inr (entry-HasLimit alice 1 false), (inr (entry-HasLimit alice 1 false), tt)),
  (
    omega arith,
    omega arith,
    (inr (entry-HasLimit alice 1 false), (inl bob_peek, tt)),
    (
      omega arith,
      omega arith,
      (omega arith, omega arith, (inr (entry-HasLimit alice 2 false), tt), tt),
    ),
  ),
)

gc_interval-conforms_example :
    (run_store alice greedy (new_store (pos 1))).1 * 1000000000
    ≤ 2 * 1000000000 + 1 * (4000000000 - 1000)
gc_interval-conforms_example =
    gc_interval-conforms 2 1 1000000000 (omega arith) (omega arith) (omega arith) alice (pos 1)
      greedy 2000000000 1000 4000000000 (omega arith) (omega arith) (omega arith) greedy-IsTimed
