-- ===== src/Server/Throttling/Locks/Gathered.antt =====
-- The buckets that concurrent calls of evaluateRealGroup collect, and the order in which each takes
-- their locks. `sort` is `sort.Strings`, of which the order and the contents of the result are known.
use deadhorse.Common.{
  Bool-cases, List, Option-cases, [], arith, false, if◌then◌else◌, inl, inr, map, none, refl, some,
  suc, ℕ, ◌<◌, ◌∙◌, ◌∷◌, ◌≡◌, ◌≤◌,
}
use deadhorse.Common.Assoc.{Dict, Str, insert, lookup, str_eq, str_eq_iff}
use deadhorse.Common.Order.{Ascending, times}
use deadhorse.Types.{RequestEntry}
use deadhorse.Server.Store.{Store, touch}
use deadhorse.Server.Store.Lookup.{find}
use deadhorse.Server.Store.Tats.{IsValid, find-touch_self, touch-IsValid}
use deadhorse.Server.Throttling.{entry_at, group_buckets}
use deadhorse.Server.Throttling.Group.{find-touch_kept}
use deadhorse.Server.Throttling.Locks.{Caller}

-- The arguments `entries` and `realIdx` of a call.
pub record Group : Type 0 where
  pub entries : List RequestEntry
  pub real_idx : List ℕ

abbrev pub keys_of : Group → List Str
keys_of g = map (λ i. (entry_at g.entries i).key) g.real_idx

-- Each call collects the buckets of its keys, one call after the other.
unfoldable pub gather : List Group → Store → Store × List (Dict ℕ)
gather [] st = (st, [])
gather (g ∷ gs) st =
    let (touched, buckets) = group_buckets (keys_of g) st [] in
    let (last, others) = gather gs touched in (last, buckets ∷ others)

-- The keys of the map, as ranging over it collects them.
abbrev pub names : Dict ℕ → List Str
names buckets = map (λ p. p.0) buckets

abbrev pub bucket_at : Dict ℕ → Str → ℕ
bucket_at buckets k = elim (lookup k buckets) [ some b ↦ b | none ↦ 0 ]

-- The buckets in the order in which they are locked.
abbrev pub lock_order : (sort : List Str → List Str) → Dict ℕ → List ℕ
lock_order sort buckets = map (bucket_at buckets) (sort (names buckets))

abbrev pub callers : (sort : List Str → List Str) → List (Dict ℕ) → List Caller
callers sort [] = []
callers sort (buckets ∷ others) =
    record { wanted = lock_order sort buckets; held = [] } ∷ callers sort others

-- What is documented of `sort.Strings`.
pub record IsSort (sort : List Str → List Str) : Type 0 where
  pub ascending : (ks : List Str) → Ascending (sort ks)
  pub same : (k : Str) (ks : List Str) → times k (sort ks) ≡ times k ks

abbrev pub Distinct : Dict ℕ → Type 0
Distinct m = (k : Str) → times k (names m) ≤ 1

-- The store has each bucket of a map, under its key.
abbrev pub AllFound : Dict ℕ → Store → Type 0
AllFound [] st = Unit
AllFound ((k, b) ∷ m) st = (find k st ≡ some b) × AllFound m st

times-insert :
    (j k : Str) (b : ℕ) (m : Dict ℕ)
    → lookup k m ≡ none
    → times j (names (insert k b m))
      ≡ (if str_eq k j then suc (times j (names m)) else times j (names m))
unfolding lookup insert
times-insert j k b [] e = refl
times-insert j k b ((i, w) ∷ m) e =
    let apart : str_eq i k ≡ false = ground arith in
    let later = times-insert j k b m (rw apart at e) in rw apart (ground (arith, later))

times-missing : (k : Str) (m : Dict ℕ) → lookup k m ≡ none → times k (names m) ≡ 0
unfolding lookup
times-missing k [] e = refl
times-missing k ((i, w) ∷ m) e = ground (arith, times-missing k m)

insert-Distinct :
    (k : Str) (b : ℕ) (m : Dict ℕ) → lookup k m ≡ none → Distinct m → Distinct (insert k b m)
insert-Distinct k b m e d j = elim (Bool-cases (str_eq k j)) [
  | inl same ↦
      let is_j = (str_eq_iff k j).0 same in
      let zero_times : times j (names m) ≡ 0 = rw (← is_j) (times-missing k m e) in
      rw (times-insert j k b m e, same) (omega (arith, zero_times))
  | inr other ↦ rw (times-insert j k b m e, other) (d j)
]

pub times-lookup : (k : Str) (m : Dict ℕ) → 0 < times k (names m) → (b : ℕ) × (lookup k m ≡ some b)
unfolding lookup
times-lookup k [] h = absurd (omega arith)
times-lookup k ((i, w) ∷ m) h = elim (Bool-cases (str_eq i k)) [
  | inl same ↦ (w, rw same refl)
  | inr other ↦ rw other (times-lookup k m (rw other at h))
]

pub lookup-times : (k : Str) (m : Dict ℕ) (b : ℕ) → lookup k m ≡ some b → 0 < times k (names m)
unfolding lookup
lookup-times k [] b e = cc
lookup-times k ((i, w) ∷ m) b e = ground (arith, lookup-times k m b)

pub lookup-AllFound :
    (k : Str) (m : Dict ℕ) (b : ℕ) (st : Store)
    → AllFound m st
    → lookup k m ≡ some b
    → find k st ≡ some b
unfolding lookup
lookup-AllFound k [] b st f e = cc
lookup-AllFound k ((i, w) ∷ m) b st (here, f) e = elim (Bool-cases (str_eq i k)) [
  | inl same ↦ rw (← (str_eq_iff i k).0 same) (here ∙ (rw same at e))
  | inr other ↦ lookup-AllFound k m b st f (rw other at e)
]

-- A step of the store that keeps every bucket that it has.
abbrev pub Keeps : (st st' : Store) → Type 0
Keeps st st' = (k : Str) (b : ℕ) → find k st ≡ some b → find k st' ≡ some b

pub Keeps-AllFound : (m : Dict ℕ) (st st' : Store) → Keeps st st' → AllFound m st → AllFound m st'
Keeps-AllFound [] st st' keep f = tt
Keeps-AllFound ((k, b) ∷ m) st st' keep (here, f) = (keep k b here, Keeps-AllFound m st st' keep f)

insert-AllFound :
    (k : Str) (b : ℕ) (m : Dict ℕ) (st : Store)
    → lookup k m ≡ none
    → find k st ≡ some b
    → AllFound m st
    → AllFound (insert k b m) st
unfolding lookup insert
insert-AllFound k b [] st e here f = (here, tt)
insert-AllFound k b ((i, w) ∷ m) st e here (there, f) =
    let apart : str_eq i k ≡ false = ground arith in
    let later = insert-AllFound k b m st (rw apart at e) here f in rw apart (there, later)

pub record Collected (st : Store) (r : Store × Dict ℕ) : Type 0 where
  pub valid : IsValid r.0
  pub found : AllFound r.1 r.0
  pub distinct : Distinct r.1
  pub keeps : Keeps st r.0

pub group_buckets-Collected :
    (keys : List Str) (st : Store) (m : Dict ℕ)
    → IsValid st
    → AllFound m st
    → Distinct m
    → Collected st (group_buckets keys st m)
unfolding group_buckets
group_buckets-Collected [] st m v f d = record {
  valid = v;
  found = f;
  distinct = d;
  keeps = λ k b e. e;
}
group_buckets-Collected (key ∷ keys) st m v f d = elim (Option-cases (lookup key m)) [
  | inr (b, old) ↦ rw (old, group_buckets) (group_buckets-Collected keys st m v f d)
  | inl new ↦
      let st' = (touch key st).0 in
      let keep : Keeps st st' = λ k b e. find-touch_kept st key k b v e in
      let r =
        group_buckets-Collected keys st' (insert key (touch key st).1 m) (touch-IsValid st key v)
          (insert-AllFound key (touch key st).1 m st' new (find-touch_self st key v)
            (Keeps-AllFound m st st' keep f))
          (insert-Distinct key (touch key st).1 m new d) in
      rw (new, group_buckets)
        (record {
          valid = r.valid;
          found = r.found;
          distinct = r.distinct;
          keeps = λ k b e. r.keeps k b (keep k b e);
        })
]
