-- ===== src/Client/Conn.antt =====
-- client/conn.go: one call on a shard's connection. What the connection does with a submitted
-- request is the argument `network`: whether the caller's own context is done when the exchange
-- ends, and how it ends. The clock is read when the breaker is asked and when an outcome is recorded.
pub mod Results
pub mod Wedge
pub mod Delivered
use deadhorse.Common.{
  Bool, List, Option, [], false, get_or, if◌then◌else◌, none, not, set, some, true, ℕ, ◌++◌, ◌+◌,
  ◌||◌, ◌∷◌,
}
use deadhorse.Common.Assoc.{Str}
use deadhorse.Common.Scatter.{scatter}
use deadhorse.Types.{
  Failure, RequestEntry, ResponseEntry, blank_entry, blank_response, circuit_open, invalid_key,
}
use deadhorse.Dhp1.{is_key_delimiter}
use deadhorse.Client.Breaker.{Breaker, allow, record_failure, record_success}

unfoldable pub contains_delimiter : Str → Bool
contains_delimiter [] = false
contains_delimiter (r ∷ s) = is_key_delimiter r || contains_delimiter s

unfoldable pub is_empty : Str → Bool
is_empty [] = true
is_empty (r ∷ s) = false

-- `validateKey(key) == nil`.
unfoldable pub valid_key : Str → Bool
unfolding contains_delimiter is_empty
valid_key key = not (is_empty key || contains_delimiter key)

-- How an exchange ends: the request could not be submitted, the reader loop delivered results or an
-- error, or the wait ended first.
pub data Ended : Type 0 where
  not_submitted : Failure → Ended
  delivered : List ResponseEntry → Ended
  delivered_error : Failure → Ended
  wait_over : Failure → Ended

-- `exchange`: `shardFault`, the error, and the results.
unfoldable pub exchange :
    Bool × Ended → List ℕ → List ResponseEntry → Bool × Option Failure × List ResponseEntry
exchange (caller_done, not_submitted err) valid_idx results = (not caller_done, some err, results)
exchange (caller_done, delivered answers) valid_idx results =
    (false, none, scatter valid_idx answers results)
exchange (caller_done, delivered_error err) valid_idx results = (true, some err, results)
exchange (caller_done, wait_over err) valid_idx results = (not caller_done, some err, results)

-- The result of an entry that was not answered.
abbrev pub unanswered : Bool → Failure → RequestEntry → ResponseEntry
unanswered throttled err e = record blank_response {
  key = e.key;
  throttled = throttled;
  err = some err;
}

-- The loop that validates the keys, from the index `i` on: the results, the valid entries, their
-- indices and the errors.
unfoldable pub validate :
    ℕ → List RequestEntry → List ResponseEntry × List RequestEntry × List ℕ × List Failure
validate i [] = ([], [], [], [])
validate i (e ∷ es) =
    let (results, valid, valid_idx, errs) = validate (i + 1) es in
    if valid_key e.key
    then (blank_response ∷ results, e ∷ valid, i ∷ valid_idx, errs)
    else (unanswered true invalid_key e ∷ results, valid, valid_idx, invalid_key ∷ errs)

-- `results[idx] = …entries[idx]…` for each index.
unfoldable pub fill :
    (RequestEntry → ResponseEntry)
    → List RequestEntry
    → List ℕ
    → List ResponseEntry
    → List ResponseEntry
fill f entries [] results = results
fill f entries (i ∷ is) results =
    fill f entries is (set results i (f (get_or entries i blank_entry)))

-- What the breaker is told.
unfoldable pub record_outcome : ℕ → Bool → Option Failure → Breaker → Breaker
record_outcome now shard_fault (some err) b = if shard_fault then record_failure now b else b
record_outcome now shard_fault none b = record_success b

-- The clock at the two times that a call reads it.
pub record Clock : Type 0 where
  pub asked : ℕ
  pub ended : ℕ

-- Behind the breaker: the end of the exchange, its outcome recorded, and the results.
unfoldable pub attempt :
    Clock
    → Bool
    → List RequestEntry
    → List ResponseEntry × List ℕ × List Failure
    → Bool × Ended
    → Breaker
    → Breaker × List ResponseEntry × List Failure
unfolding exchange record_outcome
attempt clock fail_open entries (results, valid_idx, errs) answer b =
    let (shard_fault, failed, answered) = exchange answer valid_idx results in
    let b' = record_outcome clock.ended shard_fault failed b in
    elim failed [
      | none ↦ (b', answered, errs)
      | some err ↦
          (b', fill (unanswered (not fail_open) err) entries valid_idx answered, errs ++ err ∷ [])
    ]

-- `throttle`, behind the validation of the keys.
unfoldable pub throttle_valid :
    Clock
    → Bool
    → (List RequestEntry → Bool × Ended)
    → List RequestEntry
    → List ResponseEntry × List RequestEntry × List ℕ × List Failure
    → Breaker
    → Breaker × List ResponseEntry × List Failure
unfolding attempt fill
throttle_valid clock fail_open network entries (results, [], valid_idx, errs) b = (b, results, errs)
throttle_valid clock fail_open network entries (results, e ∷ valid, valid_idx, errs) b =
    let (asked, allowed) = allow clock.asked b in
    if allowed
    then attempt clock fail_open entries (results, valid_idx, errs) (network (e ∷ valid)) asked
    else (
      asked,
      fill (unanswered (not fail_open) circuit_open) entries valid_idx results,
      errs ++ circuit_open ∷ [],
    )

unfoldable pub throttle :
    Clock
    → Bool
    → (List RequestEntry → Bool × Ended)
    → List RequestEntry
    → Breaker
    → Breaker × List ResponseEntry × List Failure
unfolding throttle_valid validate
throttle clock fail_open network entries =
    throttle_valid clock fail_open network entries (validate 0 entries)
