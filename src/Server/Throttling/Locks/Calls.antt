-- ===== src/Server/Throttling/Locks/Calls.antt =====
-- The locks of concurrent calls of evaluateRealGroup, from the keys of their entries on.
use deadhorse.Common.{
  ==_iff, Bool-cases, List, [], arith, get_elem?, inl, inr, map, refl, some, suc, true, zero, ℕ,
  ◌++◌, ◌+◌, ◌<◌, ◌∷◌, ◌≡◌, ◌≤◌, ◌⊎◌,
}
use deadhorse.Common.Assoc.{Dict, Str, lookup, str_eq, str_eq_iff}
use deadhorse.Common.Order.{times}
use deadhorse.Server.Store.{Store}
use deadhorse.Server.Store.Lookup.{find}
use deadhorse.Server.Store.Tats.{IsValid}
use deadhorse.Server.Throttling.{group_buckets}
use deadhorse.Server.Throttling.Group.{Linked-nil, Present, group_buckets-Grouped}
use deadhorse.Server.Throttling.Locks.{Caller, LockSteps, count, holds}
use deadhorse.Server.Throttling.Locks.Order.{Rising}
use deadhorse.Server.Throttling.Locks.Progress.{AllDone, CanStep, calls_complete, work}
use deadhorse.Server.Throttling.Locks.Gathered.{
  AllFound, Distinct, Group, IsSort, Keeps, Keeps-AllFound, bucket_at, callers, gather,
  group_buckets-Collected, keys_of, lock_order, lookup-AllFound, lookup-times, names,
}
use deadhorse.Server.Throttling.Locks.Sorted.{key_place, map-Rising, times-append}

-- What the calls have collected, at the store that is left.
abbrev Gathered : List Group → List (Dict ℕ) → Store → Type 0
Gathered [] [] st = Unit
Gathered (g ∷ gs) (m ∷ ms) st =
    AllFound m st × Distinct m × Present (keys_of g) m × Gathered gs ms st
Gathered _ _ st = ⊥

gather-Gathered :
    (gs : List Group) (st : Store)
    → IsValid st
    → IsValid (gather gs st).0
      × Gathered gs (gather gs st).1 (gather gs st).0
      × Keeps st (gather gs st).0
unfolding gather
gather-Gathered [] st v = (v, tt, λ k b e. e)
gather-Gathered (g ∷ gs) st v =
    let r = group_buckets-Collected (keys_of g) st [] v tt (λ k. omega arith) in
    let present = (group_buckets-Grouped (keys_of g) st [] v (Linked-nil st)).present in
    let (valid, others, keep) = gather-Gathered gs (group_buckets (keys_of g) st []).0 r.valid in
    (
      valid,
      (Keeps-AllFound _ _ _ keep r.found, r.distinct, present, others),
      λ k b e. keep k b (r.keeps k b e),
    )

-- The buckets of all calls.
all_buckets : List (Dict ℕ) → Dict ℕ
all_buckets [] = []
all_buckets (m ∷ ms) = m ++ all_buckets ms

append-AllFound :
    (xs ys : Dict ℕ) (st : Store) → AllFound xs st → AllFound ys st → AllFound (xs ++ ys) st
append-AllFound [] ys st f h = h
append-AllFound ((k, b) ∷ xs) ys st (here, f) h = (here, append-AllFound xs ys st f h)

all_buckets-AllFound :
    (gs : List Group) (ms : List (Dict ℕ)) (st : Store)
    → Gathered gs ms st
    → AllFound (all_buckets ms) st
unfolding all_buckets
all_buckets-AllFound [] [] st h = tt
all_buckets-AllFound [] (m ∷ ms) st h = elim h [ ]
all_buckets-AllFound (g ∷ gs) [] st h = elim h [ ]
all_buckets-AllFound (g ∷ gs) (m ∷ ms) st (f, _, _, h) =
    append-AllFound m (all_buckets ms) st f (all_buckets-AllFound gs ms st h)

-- Each call is to lock the bucket that the store has for each of its keys.
abbrev pub LocksAll : List Group → List Caller → Store → Type 0
LocksAll [] [] st = Unit
LocksAll (g ∷ gs) (c ∷ cs) st =
    ((k : Str)
      → 0 < times k (keys_of g)
      → (b : ℕ) × (find k st ≡ some b) × (holds b c.wanted ≡ true))
    × LocksAll gs cs st
LocksAll _ _ st = ⊥

Present-lookup :
    (k : Str) (ks : List Str) (m : Dict ℕ)
    → Present ks m
    → 0 < times k ks
    → (b : ℕ) × (lookup k m ≡ some b)
Present-lookup k [] m h t = absurd (omega arith)
Present-lookup k (x ∷ ks) m (here, h) t = elim (Bool-cases (str_eq x k)) [
  | inl same ↦ rw (← (str_eq_iff x k).0 same) here
  | inr other ↦ Present-lookup k ks m h (rw other at t)
]

holds-map :
    (k : Str) (ks : List Str) (m : Dict ℕ) (b : ℕ)
    → lookup k m ≡ some b
    → 0 < times k ks
    → holds b (map (bucket_at m) ks) ≡ true
holds-map k [] m b e t = absurd (omega arith)
holds-map k (x ∷ ks) m b e t = elim (Bool-cases (str_eq x k)) [
  | inl same ↦ rw ((str_eq_iff x k).0 same, e, bucket_at) (ground (arith, ==_iff b b))
  | inr other ↦ let later = holds-map k ks m b e (rw other at t) in ground (arith, later)
]

module _ (sort : List Str → List Str) (is_sort : IsSort sort) where
  callers-LocksAll :
      (gs : List Group) (ms : List (Dict ℕ)) (st : Store)
      → Gathered gs ms st
      → LocksAll gs (callers sort ms) st
  callers-LocksAll [] [] st h = tt
  callers-LocksAll [] (m ∷ ms) st h = elim h [ ]
  callers-LocksAll (g ∷ gs) [] st h = elim h [ ]
  callers-LocksAll (g ∷ gs) (m ∷ ms) st (f, _, present, h) = (
    (λ k t.
        let (b, e) = Present-lookup k (keys_of g) m present t in
        let there = lookup-times k m b e in
        (
          b,
          lookup-AllFound k m b st f e,
          holds-map k (sort (names m)) m b e (omega (arith, is_sort.same k (names m))),
        )),
    callers-LocksAll gs ms st h,
  )

  callers-Rising :
      (p : Dict ℕ) (st : Store)
      → IsValid st
      → AllFound p st
      → (gs : List Group) (ms : List (Dict ℕ)) → Gathered gs ms st
      → ((k : Str) → times k (names (all_buckets ms)) ≤ times k (names p))
      → (i : ℕ) (c : Caller) → get_elem? (callers sort ms) i ≡ some c
      → (c.held ≡ []) × Rising (key_place p) c.wanted
  unfolding all_buckets
  callers-Rising p st v all [] [] h within i c at = cc
  callers-Rising p st v all [] (m ∷ ms) h within i c at = elim h [ ]
  callers-Rising p st v all (g ∷ gs) [] h within i c at = elim h [ ]
  callers-Rising p st v all (g ∷ gs) (m ∷ ms) (f, d, present, h) within zero c at =
      let same : record { wanted = lock_order sort m; held = [] } ≡ c = cc in
      rw (← same) (
        refl,
        map-Rising p m st v all f
            (λ k t. omega (arith, within k, times-append k m (all_buckets ms))) (sort (names m))
            (λ k t. omega (arith, is_sort.same k (names m))) (is_sort.ascending (names m))
            (λ k. omega (arith, is_sort.same k (names m), d k)),
      )
  callers-Rising p st v all (g ∷ gs) (m ∷ ms) (f, d, present, h) within (suc i) c at =
      callers-Rising p st v all gs ms h
        (λ k. omega (arith, within k, times-append k m (all_buckets ms))) i c at

  -- Calls collect their buckets from a valid store, one call after the other, and then lock them in
  -- the order that `sort` gives the keys of their maps, with their steps interleaved in any way; of
  -- `sort` it is known that the result ascends and has the same strings. Each call is to lock the
  -- bucket that the store has for each of its keys. The calls never deadlock: at every moment all are
  -- done, or some call can take its next step; the steps taken and those left are together two for
  -- each lock to take; and at no moment do two calls hold the lock of the same bucket.
  pub gather-calls_complete :
      (gs : List Group) (st : Store)
      → IsValid st
      → (ds : List Caller) (steps : LockSteps (callers sort (gather gs st).1) ds)
      → LocksAll gs (callers sort (gather gs st).1) (gather gs st).0
        × (AllDone ds ⊎ CanStep ds)
        × (count steps + work ds ≡ work (callers sort (gather gs st).1))
        × ((i j : ℕ) (c d : Caller) (b : ℕ)
            → get_elem? ds i ≡ some c
            → get_elem? ds j ≡ some d
            → holds b c.held ≡ true
            → holds b d.held ≡ true
            → i ≡ j)
  gather-calls_complete gs st v ds steps =
      let (valid, g, _) = gather-Gathered gs st v in
      let ms = (gather gs st).1 in
      let p = all_buckets ms in
      let start =
        callers-Rising p (gather gs st).0 valid (all_buckets-AllFound gs ms (gather gs st).0 g) gs
          ms g (λ k. omega arith) in
      let (goes_on, left, alone) = calls_complete (key_place p) (callers sort ms) ds start steps in
      (callers-LocksAll gs ms (gather gs st).0 g, goes_on, left, alone)
