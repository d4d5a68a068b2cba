-- ===== src/Server/Throttling/Locks/Sorted.antt =====
-- The sorted keys of a call give the order of its locks.
use deadhorse.Common.{
  ==_iff, Bool-cases, List, [], ap, arith, false, if◌then◌else◌, inl, inr, map, some, true, ℕ, ◌++◌,
  ◌+◌, ◌<◌, ◌==◌, ◌∙◌, ◌∷◌, ◌≡◌, ◌≤◌,
}
use deadhorse.Common.Assoc.{Dict, Str, str_eq, str_eq_iff, str_eq_refl}
use deadhorse.Common.Order.{Ascending, NoneBelow, rank, rank-lt, str_lt, str_lt_total, times}
use deadhorse.Server.Store.{Store}
use deadhorse.Server.Store.Lookup.{find}
use deadhorse.Server.Store.Tats.{IsValid}
use deadhorse.Server.Throttling.Locks.Order.{AllAbove, Rising}
use deadhorse.Server.Throttling.Locks.Gathered.{
  AllFound, bucket_at, lookup-AllFound, names, times-lookup,
}

-- The key that has a bucket.
owner : Dict ℕ → ℕ → Str
owner [] b = []
owner ((k, x) ∷ m) b = if x == b then k else owner m b

owner-found :
    (p : Dict ℕ) (k : Str) (b : ℕ) (st : Store)
    → IsValid st
    → AllFound p st
    → find k st ≡ some b
    → 0 < times k (names p)
    → owner p b ≡ k
unfolding owner
owner-found [] k b st v f e h = absurd (omega arith)
owner-found ((i, x) ∷ p) k b st v (here, f) e h = elim (Bool-cases (x == b)) [
  | inl same ↦ rw same (v.one_owner i k b (here ∙ ap some ((==_iff x b).0 same)) e)
  | inr other ↦ elim (Bool-cases (str_eq i k)) [
    | inl is_k ↦
        let twice = rw ((str_eq_iff i k).0 is_k, e) at here in
        let equal : x ≡ b = cc in absurd (ground (arith, equal))
    | inr is_not ↦ rw other (owner-found p k b st v f e (rw is_not at h))
  ]
]

pub times-append :
    (k : Str) (xs ys : Dict ℕ)
    → times k (names (xs ++ ys)) ≡ times k (names xs) + times k (names ys)
times-append k [] ys = omega arith
times-append k ((i, x) ∷ xs) ys = ground (arith, times-append k xs ys)

-- The place of a bucket: the number of keys before its key.
pub key_place : Dict ℕ → ℕ → ℕ
key_place p b = rank (owner p b) (names p)

-- The keys of a list are among those of a map.
abbrev AllIn : List Str → Dict ℕ → Type 0
AllIn ks m = (k : Str) → 0 < times k ks → 0 < times k (names m)

module _ (p m : Dict ℕ) (st : Store) (v : IsValid st) (all : AllFound p st) (own : AllFound m st)
    (within : AllIn (names m) p) where
  owner-bucket_at : (k : Str) → 0 < times k (names m) → owner p (bucket_at m k) ≡ k
  owner-bucket_at k h =
      let (b, e) = times-lookup k m h in
      rw (e, bucket_at) (owner-found p k b st v all (lookup-AllFound k m b st own e) (within k h))

  key_place-lt :
      (x y : Str)
      → 0 < times x (names m)
      → 0 < times y (names m)
      → str_lt x y ≡ true
      → key_place p (bucket_at m x) < key_place p (bucket_at m y)
  unfolding key_place
  key_place-lt x y hx hy h =
      rw (owner-bucket_at x hx, owner-bucket_at y hy) (rank-lt x y (names p) h (within x hx))

  map-AllAbove :
      (x : Str) (ys : List Str)
      → 0 < times x (names m)
      → AllIn ys m
      → NoneBelow x ys
      → times x ys ≡ 0
      → AllAbove (key_place p) (bucket_at m x) (map (bucket_at m) ys)
  map-AllAbove x [] hx h below once = tt
  map-AllAbove x (y ∷ ys) hx h (first, below) once =
      let apart : str_eq y x ≡ false = ground arith in
      let before : str_lt x y ≡ true = ground (arith, str_lt_total x y, str_eq_refl x) in
      (
        key_place-lt x y hx (h y (rw (str_eq_refl y) (omega arith))) before,
        map-AllAbove x ys hx (λ k t. h k (ground arith)) below (rw apart at once),
      )

  pub map-Rising :
      (ks : List Str)
      → AllIn ks m
      → Ascending ks
      → ((k : Str) → times k ks ≤ 1)
      → Rising (key_place p) (map (bucket_at m) ks)
  map-Rising [] h up once = tt
  map-Rising (x ∷ ks) h (below, up) once =
      let alone : times x ks ≡ 0 = omega (arith, rw (str_eq_refl x) at (once x)) in
      (
        map-AllAbove x ks (h x (rw (str_eq_refl x) (omega arith))) (λ k t. h k (ground arith)) below
            alone,
        map-Rising ks (λ k t. h k (ground arith)) up (λ k. ground (arith, once k)),
      )
