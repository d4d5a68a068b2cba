-- ===== src/Server/Throttling.antt =====
-- server/throttling.go: one Throttle call of the InMemoryThrottler, as one step on the store. The
-- clock reading and the context's error are arguments. The locks of the source hold no data: the
-- group keeps every bucket that it touches locked from the first read to the last write, so that the
-- call is one step for these buckets. Ranging over a Go map is in the order of the association list,
-- and nothing depends on that order.
pub mod Locks
pub mod Touched
pub mod Spec
pub mod Group
pub mod Working
pub mod Evaluate
pub mod Refines
pub mod Transaction
pub mod Range
use deadhorse.Common.{
  Bool, List, Option, [], false, get_or, if◌then◌else◌, length, ltb, map, none, set, some, true, ℕ,
  ◌+◌, ◌∷◌,
}
use deadhorse.Common.Int.{pos}
use deadhorse.Common.Assoc.{Dict, Str, insert, lookup}
use deadhorse.Types.{
  Failure, RequestEntry, ResponseEntry, blank_entry, effective_cost, effective_units,
}
use deadhorse.Gcra.{Verdict, gcra_check}
use deadhorse.Server.Store.{Store, read_tat, touch, write_tat}

-- The check of an entry against a TAT.
unfoldable pub check_entry : ℕ → ℕ → RequestEntry → Verdict
check_entry tat now e =
    gcra_check tat now e.limit.capacity (effective_units e.limit.rate.units) e.limit.rate.period
      (effective_cost e.cost)

-- `result[i].Throttled`, `Remaining` and `RetryAfter` are set.
abbrev pub report : Verdict → ResponseEntry → ResponseEntry
report v r = record r {
  throttled = v.throttled;
  remaining = v.remaining;
  retry_after = v.retry_after;
}

-- The zero value of a result, with its key.
abbrev pub keyed : Str → ResponseEntry
keyed k = record { key = k; throttled = false; remaining = pos 0; retry_after = pos 0; err = none }

-- The loop over the entries, from the index `i` on: a peek is evaluated at once; of the others the
-- index is kept. The results are made in the order of the entries.
unfoldable pub scan_entries :
    ℕ → ℕ → List RequestEntry → Store → Store × List ResponseEntry × List ℕ
scan_entries now i [] st = (st, [], [])
scan_entries now i (e ∷ es) st =
    let (touched, b) = touch e.key st in
    let (last, results, real_idx) = scan_entries now (i + 1) es (if e.peek then touched else st) in
    if e.peek
    then (last, report (check_entry (read_tat touched b) now e) (keyed e.key) ∷ results, real_idx)
    else (last, keyed e.key ∷ results, i ∷ real_idx)

-- `entries[i]`; the indices of a group are in range.
abbrev pub entry_at : List RequestEntry → ℕ → RequestEntry
entry_at entries i = get_or entries i blank_entry

-- `buckets`: one bucket for each key of the group.
unfoldable pub group_buckets : List Str → Store → Dict ℕ → Store × Dict ℕ
group_buckets [] st buckets = (st, buckets)
group_buckets (key ∷ keys) st buckets = elim (lookup key buckets) [
  | some _ ↦ group_buckets keys st buckets
  | none ↦ let (touched, b) = touch key st in group_buckets keys touched (insert key b buckets)
]

-- `workingTAT`, as it is at first.
unfoldable pub working_tats : Store → Dict ℕ → Dict ℕ
working_tats st [] = []
working_tats st ((k, b) ∷ buckets) = (k, read_tat st b) ∷ working_tats st buckets

-- `workingTAT[key]`, zero for a key that is not there.
abbrev pub working_at : Dict ℕ → Str → ℕ
working_at working key = elim (lookup key working) [ some tat ↦ tat | none ↦ 0 ]

-- The loop that checks the group against its working TATs: the TATs, `admitAll` and the results.
unfoldable pub evaluate :
    List RequestEntry
    → ℕ
    → List ℕ
    → Dict ℕ
    → Bool
    → List ResponseEntry
    → Dict ℕ × Bool × List ResponseEntry
evaluate entries now [] working admit_all result = (working, admit_all, result)
evaluate entries now (i ∷ is) working admit_all result =
    let e = entry_at entries i in
    let v = check_entry (working_at working e.key) now e in
    evaluate entries now is (if v.throttled then working else insert e.key v.admitted_tat working)
      (if v.throttled then false else admit_all)
      (set result i (report v (get_or result i (keyed []))))

-- `buckets[k].tat = tat` for each working TAT.
unfoldable pub commit : Dict ℕ → Dict ℕ → Store → Store
commit buckets [] st = st
commit buckets ((k, tat) ∷ working) st =
    let rest = commit buckets working st in
    elim (lookup k buckets) [ some b ↦ write_tat b tat rest | none ↦ rest ]

unfoldable pub evaluate_real_group :
    List RequestEntry → List ℕ → ℕ → List ResponseEntry → Store → Store × List ResponseEntry
evaluate_real_group entries real_idx now result st =
    let (touched, buckets) = group_buckets (map (λ i. (entry_at entries i).key) real_idx) st [] in
    let (working, admit_all, reported) =
      evaluate entries now real_idx (working_tats touched buckets) true result in
    (if admit_all then commit buckets working touched else touched, reported)

-- Every entry of a call whose context is done.
refuse_all : Failure → List RequestEntry → List ResponseEntry
refuse_all err [] = []
refuse_all err (e ∷ es) =
    record (keyed e.key) { throttled = true; err = some err } ∷ refuse_all err es

-- `Throttle`, with the error of the context and the clock reading. The results and the error.
unfoldable pub throttle :
    Option Failure → ℕ → List RequestEntry → Store → Store × List ResponseEntry × Option Failure
unfolding refuse_all
throttle (some err) now entries st = (st, refuse_all err entries, some err)
throttle none now entries st =
    let (scanned, result, real_idx) = scan_entries now 0 entries st in
    let (last, reported) = evaluate_real_group entries real_idx now result scanned in
    if ltb 0 (length real_idx) then (last, reported, none) else (scanned, result, none)
