-- ===== src/Client/Examples.antt =====
-- Runs of client/breaker.go, client/conn.go and client/client.go, and the theorems about them at
-- concrete breakers and calls.
use deadhorse.Common.{
  Bool, List, [], arith, false, if◌then◌else◌, leb, length, not, refl, some, true, ℕ, ◌*◌, ◌∷◌, ◌≡◌,
}
use deadhorse.Common.Int.{add64, ltb_ℤ, pos}
use deadhorse.Common.Assoc.{Str}
use deadhorse.Types.{
  RequestEntry, ResponseEntry, blank_entry, blank_response, circuit_open, context_ended,
  invalid_key,
}
use deadhorse.Client.Breaker.{
  Breaker, allow, new_circuit_breaker, record_failure, record_success, since,
}
use deadhorse.Client.Breaker.Machine.{
  AllInTurn, Event, asks, closed, fails, run, run-refines, spec_run, spec_step, step, succeeds,
}
use deadhorse.Client.Breaker.Laws.{
  allow_all, allow_all-first_only, fail_all, fail_all-new_circuit_breaker, first_only,
  trial-outcomes,
}
use deadhorse.Client.Conn.{
  Clock, Ended, attempt, contains_delimiter, delivered, exchange, fill, is_empty, record_outcome,
  throttle, throttle_valid, unanswered, valid_key, validate, wait_over,
}
use deadhorse.Client.Conn.Results.{key_errors, refused_all, throttle_unanswered, valid_entries}
use deadhorse.Client.Conn.Wedge.{Call, all_refused, run_calls, run_calls_cancelled_trial}
use deadhorse.Client.Sharded.{
  ShardedClient, apply_options, default_timeout, new_client, new_shard, new_sharded_client,
  with_breaker, with_fail_closed, with_timeout,
}
use deadhorse.Client.Sharded.Routing.{shard_at}
use deadhorse.Dhp1.{is_key_delimiter, is_space, pipe}
use deadhorse.Client.Conn.Delivered.{answered_results, throttle_delivered}
use deadhorse.Client.Sharded.Sequence.{
  ShardedCall, answers_of, calls_of, run_shard, run_sharded, run_sharded-run_shard,
}
use deadhorse.Fnv1a.{hash}

-- Two failures in a row, and a second of cooldown.
abbrev second : ℕ
second = 1000000000

abbrev fresh : Breaker
fresh = new_circuit_breaker (pos 2) (pos second)

-- Open since 100.
abbrev tripped : Breaker
tripped = record {
  failure_threshold = pos 2;
  open_duration = pos second;
  is_open = true;
  consecutive_failures = pos 2;
  opened_at = 100;
  trial_in_flight = false;
}

abbrev script : List Event
script =
    fails 50 false
    ∷ fails 100 false
    ∷ asks 200
    ∷ asks (2 * second)
    ∷ asks (2 * second)
    ∷ fails (3 * second) true
    ∷ asks (5 * second)
    ∷ succeeds
    ∷ asks 300
    ∷ []

run_tripped : fail_all (50 ∷ 100 ∷ []) fresh ≡ tripped
unfolding fail_all record_failure new_circuit_breaker add64
run_tripped = refl

script_answers :
    run script fresh ≡ true ∷ true ∷ false ∷ true ∷ false ∷ true ∷ true ∷ true ∷ true ∷ []
unfolding run step add64 new_circuit_breaker allow record_success record_failure
script_answers = refl

abbrev good : RequestEntry
good = record blank_entry { key = b'k' ∷ [] }

abbrev bad : RequestEntry
bad = record blank_entry { key = b'k' ∷ pipe ∷ [] }

abbrev clock : Clock
clock = record { asked = 2 * second; ended = 2 * second }

-- The wait of the caller ends first.
abbrev gives_up : List RequestEntry → Bool × Ended
gives_up _ = (true, wait_over (context_ended 1))

run_call : throttle clock true gives_up (good ∷ bad ∷ []) tripped ≡ (
  record tripped { trial_in_flight = true },
  unanswered false (context_ended 1) good ∷ unanswered true invalid_key bad ∷ [],
  invalid_key ∷ context_ended 1 ∷ [],
)
unfolding throttle throttle_valid validate valid_key contains_delimiter is_empty is_key_delimiter
    is_space attempt exchange record_outcome fill allow
run_call = refl

script_in_turn : AllInTurn 2 (pos second) script (closed 0)
unfolding spec_step
script_in_turn = (tt, (tt, (tt, (tt, (tt, (refl, (tt, (tt, (tt, tt)))))))))

run-refines_example : run script fresh ≡ spec_run 2 (pos second) script (closed 0)
run-refines_example = run-refines script 2 (pos second) (omega arith) (omega arith) script_in_turn

fail_all-new_circuit_breaker_example :
    (fail_all (50 ∷ 100 ∷ []) fresh).is_open ≡ leb 2 (length {A = ℕ} (50 ∷ 100 ∷ []))
fail_all-new_circuit_breaker_example =
    fail_all-new_circuit_breaker (50 ∷ 100 ∷ []) 2 (pos second) (omega arith) (omega arith)

allow_all-first_only_example :
    (allow_all (200 ∷ 2 * second ∷ 3 * second ∷ 0 ∷ []) tripped).1
    ≡ first_only
        (λ t. not (ltb_ℤ (since t 100) (pos second)))
        (200 ∷ 2 * second ∷ 3 * second ∷ 0 ∷ [])
allow_all-first_only_example =
    allow_all-first_only (200 ∷ 2 * second ∷ 3 * second ∷ 0 ∷ []) tripped refl refl

run_allow_all :
    (allow_all (200 ∷ 2 * second ∷ 3 * second ∷ 0 ∷ []) tripped).1
    ≡ false ∷ true ∷ false ∷ false ∷ []
unfolding allow_all allow
run_allow_all = refl

trial-outcomes_example :
    ((allow 500 (record_failure (3 * second) (allow (2 * second) tripped).0)).1
      ≡ not (ltb_ℤ (since 500 (3 * second)) (pos second)))
    × ((allow 500 (record_success (allow (2 * second) tripped).0)).1 ≡ true)
trial-outcomes_example = trial-outcomes (2 * second) (3 * second) 500 tripped refl refl refl refl

throttle_unanswered_example :
    (throttle clock true gives_up (good ∷ bad ∷ []) tripped).1
    ≡ refused_all false
        (if (allow (2 * second) tripped).1 then context_ended 1 else circuit_open)
        (good ∷ bad ∷ [])
throttle_unanswered_example =
    throttle_unanswered clock true gives_up tripped (good ∷ bad ∷ []) true
      (wait_over (context_ended 1)) (context_ended 1) refl refl

good_key : valid_key good.key ≡ true
unfolding valid_key contains_delimiter is_empty is_key_delimiter is_space
good_key = refl

-- A call that the shard would answer.
abbrev answered_call : Call
answered_call = record {
  clock = record { asked = 100 * second; ended = 100 * second };
  network = λ _. (false, delivered (blank_response ∷ []));
  entries = good ∷ [];
}

run_calls_cancelled_trial_example :
    (let b' =
        (throttle clock true (λ _. (true, wait_over (context_ended 1))) (good ∷ []) tripped).0 in
      (b'.trial_in_flight ≡ true)
      × (run_calls true (answered_call ∷ answered_call ∷ []) b'
          ≡ (b', all_refused true (answered_call ∷ answered_call ∷ []))))
run_calls_cancelled_trial_example =
    run_calls_cancelled_trial true clock good [] (context_ended 1)
      (answered_call ∷ answered_call ∷ []) tripped good_key refl refl refl refl

-- Two shards, the second with an open breaker.
abbrev pair : ShardedClient
pair = record {
  shards =
      new_shard (pos 2) (pos second) (b'x' ∷ [])
      ∷ record { addr = b'y' ∷ []; breaker = tripped; is_closed = false }
      ∷ [];
  timeout = default_timeout;
  fail_open = true;
  breaker_failure_threshold = pos 2;
  breaker_open_duration = pos second;
}

run_built :
    new_client
      (b'x' ∷ [])
      (with_fail_closed ∷ with_breaker (pos 7) (pos 9) ∷ with_timeout (pos 3) ∷ [])
    ≡ some (record {
      shards = new_shard (pos 7) (pos 9) (b'x' ∷ []) ∷ [];
      timeout = pos 3;
      fail_open = false;
      breaker_failure_threshold = pos 7;
      breaker_open_duration = pos 9;
    })
unfolding new_client new_sharded_client apply_options
run_built = refl

-- Calls with two shard keys, one for each shard.
abbrev call_with : Str → ShardedCall
call_with key = record {
  clock = clock;
  network = λ _. gives_up;
  shard_key = key;
  entries = good ∷ [];
}

abbrev three_calls : List ShardedCall
three_calls = call_with (b'l' ∷ []) ∷ call_with (b'k' ∷ []) ∷ call_with (b'l' ∷ []) ∷ []

run_calls_of : (length (calls_of 2 0 three_calls) ≡ 1) × (length (calls_of 2 1 three_calls) ≡ 2)
unfolding hash
run_calls_of = (refl, refl)

run_sharded-run_shard_example :
    (let (c', answers) = run_sharded three_calls pair in
      let (s', own) = run_shard true (calls_of 2 1 three_calls) (shard_at pair 1) in
      (shard_at c' 1 ≡ s') × (answers_of 2 1 three_calls answers ≡ own))
run_sharded-run_shard_example = run_sharded-run_shard three_calls pair 2 1 refl (omega arith)

abbrev lone : ShardedClient
lone = record pair { shards = new_shard (pos 2) (pos second) (b'x' ∷ []) ∷ [] }

-- The shard's answer to the valid entry.
abbrev answer : ResponseEntry
answer = record blank_response { key = b'k' ∷ []; remaining = pos 4 }

good_entries : valid_entries (bad ∷ good ∷ []) ≡ good ∷ []
unfolding valid_key contains_delimiter is_empty is_key_delimiter is_space
good_entries = refl

tripped_lets : (allow (2 * second) tripped).1 ≡ true
unfolding allow
tripped_lets = refl

throttle_delivered_example :
    throttle clock true (λ _. (false, delivered (answer ∷ []))) (bad ∷ good ∷ []) tripped ≡ (
      record_success (allow (2 * second) tripped).0,
      answered_results (bad ∷ good ∷ []) (answer ∷ []),
      key_errors (bad ∷ good ∷ []),
    )
throttle_delivered_example =
    throttle_delivered clock true (λ _. (false, delivered (answer ∷ []))) tripped (bad ∷ good ∷ [])
      good [] false (answer ∷ []) good_entries refl tripped_lets

-- Of two calls that are let through, the first fails and opens the breaker; the trial is let through;
-- the second fails, and is taken for the trial; and another trial is let through beside the first.
abbrev straggler : Breaker
straggler =
    let opened = record_failure 0 (new_circuit_breaker (pos 1) (pos 10)) in
    record_failure 20 (allow 20 opened).0

run_straggler :
    ((allow 20 (record_failure 0 (new_circuit_breaker (pos 1) (pos 10)))).1 ≡ true)
    × ((allow 30 straggler).1 ≡ true)
unfolding allow record_failure new_circuit_breaker add64
run_straggler = (refl, refl)
