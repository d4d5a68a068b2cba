-- ===== src/Server/Throttling/Locks/Examples.antt =====
-- Two calls that share a bucket, with an insertion sort for `sort.Strings`.
use deadhorse.Common.{
  Bool-cases, List, [], arith, false, get_elem?, if◌then◌else◌, inl, inr, refl, some, true, ℕ, ◌+◌,
  ◌∙◌, ◌∷◌, ◌≡◌, ◌⊎◌,
}
use deadhorse.Common.Assoc.{Str, insert, lookup, str_eq}
use deadhorse.Common.Order.{
  Ascending, NoneBelow, str_lt, str_lt_irrefl, str_lt_total, str_lt_trans, times,
}
use deadhorse.Types.{RequestEntry, blank_entry}
use deadhorse.Server.Store.{get_or_create, new_store, stripe_for, stripe_index, touch}
use deadhorse.Server.Throttling.{group_buckets}
use deadhorse.Server.Throttling.Locks.{
  Caller, LockSteps, count, holds, lock, none_yet, then, unlock,
}
use deadhorse.Common.Int.{pos}
use deadhorse.Server.Store.Collection.{new_store-IsValid}
use deadhorse.Server.Throttling.Locks.Progress.{AllDone, CanStep, work}
use deadhorse.Server.Throttling.Locks.Gathered.{Group, IsSort, callers, gather}
use deadhorse.Server.Throttling.Locks.Calls.{LocksAll, gather-calls_complete}
use deadhorse.Fnv1a.{hash}

abbrev place : Str → List Str → List Str
place k [] = k ∷ []
place k (x ∷ xs) = if str_lt x k then x ∷ place k xs else k ∷ x ∷ xs

abbrev sort : List Str → List Str
sort [] = []
sort (x ∷ xs) = place x (sort xs)

times-place : (j k : Str) (xs : List Str) → times j (place k xs) ≡ times j (k ∷ xs)
times-place j k [] = refl
times-place j k (x ∷ xs) = ground (arith, times-place j k xs)

times-sort : (k : Str) (xs : List Str) → times k (sort xs) ≡ times k xs
times-sort k [] = refl
times-sort k (x ∷ xs) = times-place k x (sort xs) ∙ ground (arith, times-sort k xs)

NoneBelow-place :
    (x k : Str) (ys : List Str) → str_lt k x ≡ false → NoneBelow x ys → NoneBelow x (place k ys)
NoneBelow-place x k [] e h = (e, tt)
NoneBelow-place x k (y ∷ ys) e (f, h) = elim (Bool-cases (str_lt y k)) [
  | inl below ↦ rw below (f, NoneBelow-place x k ys e h)
  | inr not_below ↦ rw not_below (e, (f, h))
]

-- What is not below a string is not below one that is at most that string.
NoneBelow-trans : (k x : Str) (ys : List Str) → str_lt x k ≡ false → NoneBelow x ys → NoneBelow k ys
NoneBelow-trans k x [] e h = tt
NoneBelow-trans k x (y ∷ ys) e (f, h) = (apart, NoneBelow-trans k x ys e h)
  where
    apart : str_lt y k ≡ false
    apart = elim (Bool-cases (str_lt y k)) [
      | inr done ↦ done
      | inl below ↦ elim (Bool-cases (str_lt k x)) [
        | inl before ↦ let q = str_lt_trans y k x below before in cc
        | inr not_before ↦ let same : x ≡ k = str_lt_total x k e not_before in cc
      ]
    ]

place-Ascending : (k : Str) (xs : List Str) → Ascending xs → Ascending (place k xs)
place-Ascending k [] h = (tt, tt)
place-Ascending k (x ∷ xs) (f, h) = elim (Bool-cases (str_lt x k)) [
  | inl below ↦
      let apart : str_lt k x ≡ false = ground (arith, str_lt_trans x k x, str_lt_irrefl x) in
      rw below (NoneBelow-place x k xs apart f, place-Ascending k xs h)
  | inr not_below ↦ rw not_below ((not_below, NoneBelow-trans k x xs not_below f), (f, h))
]

sort-Ascending : (xs : List Str) → Ascending (sort xs)
sort-Ascending [] = tt
sort-Ascending (x ∷ xs) = place-Ascending x (sort xs) (sort-Ascending xs)

sort-IsSort : IsSort sort
sort-IsSort = record { ascending = sort-Ascending; same = times-sort }

abbrev asks : Str → RequestEntry
asks k = record blank_entry { key = k }

-- The first call asks for `b`, `a` and `b`, the second for `b`.
abbrev two_groups : List Group
two_groups =
    record {
      entries = asks (b'b' ∷ []) ∷ asks (b'a' ∷ []) ∷ asks (b'b' ∷ []) ∷ [];
      real_idx = 0 ∷ 1 ∷ 2 ∷ [];
    }
    ∷ record { entries = asks (b'b' ∷ []) ∷ []; real_idx = 0 ∷ [] }
    ∷ []

abbrev two_callers : List Caller
two_callers = callers sort (gather two_groups (new_store (pos 4))).1

-- The bucket of `b` is made first, and locked last.
run_two_callers :
    two_callers
    ≡ record { wanted = 1 ∷ 0 ∷ []; held = [] } ∷ record { wanted = 0 ∷ []; held = [] } ∷ []
unfolding gather group_buckets touch new_store lookup insert str_eq str_lt get_or_create stripe_for
    stripe_index hash
run_two_callers = refl

-- The first call locks both buckets, and gives up the first.
shared : (cs : List Caller) × LockSteps two_callers cs
shared = rw run_two_callers (
  _,
  (then)
      ((then)
        ((then) none_yet
          (lock 0 1 (0 ∷ []) record { wanted = 1 ∷ 0 ∷ []; held = [] } refl refl refl))
        (lock 0 0 [] record { wanted = 0 ∷ []; held = 1 ∷ [] } refl refl refl))
      (unlock 0 1 (0 ∷ []) record { wanted = []; held = 1 ∷ 0 ∷ [] } refl refl refl),
)

gather-calls_complete_example :
    LocksAll two_groups two_callers (gather two_groups (new_store (pos 4))).0
    × (AllDone shared.0 ⊎ CanStep shared.0)
    × (count shared.1 + work shared.0 ≡ work two_callers)
    × ((i j : ℕ) (c d : Caller) (b : ℕ)
        → get_elem? shared.0 i ≡ some c
        → get_elem? shared.0 j ≡ some d
        → holds b c.held ≡ true
        → holds b d.held ≡ true
        → i ≡ j)
gather-calls_complete_example =
    gather-calls_complete sort sort-IsSort two_groups (new_store (pos 4))
      (new_store-IsValid (pos 4)).0 shared.0 shared.1
