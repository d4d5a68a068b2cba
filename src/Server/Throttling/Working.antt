-- ===== src/Server/Throttling/Working.antt =====
-- The working copy of a group's TATs, and the writes at the end.
use deadhorse.Common.{
  Bool-cases, List, Option-cases, [], ap, arith, false, if◌then◌else◌, inl, inr, none, refl, some,
  sym, ℕ, ◌∙◌, ◌∷◌, ◌≡◌,
}
use deadhorse.Common.Assoc.{
  Dict, Str, insert, lookup, lookup-insert, str_eq, str_eq_iff, str_eq_refl,
}
use deadhorse.Server.Store.{Store, read_tat}
use deadhorse.Server.Store.Lookup.{find}
use deadhorse.Server.Store.Tats.{
  IsValid, find-write_tat, tat_of, tat_of-found, tat_of-write_tat, write_tat-IsValid,
}
use deadhorse.Server.Throttling.{commit, working_tats}
use deadhorse.Server.Throttling.Group.{Linked, Present}

-- The working copy over the store's TATs.
abbrev pub overlay : Dict ℕ → (Str → ℕ) → Str → ℕ
overlay working before k = elim (lookup k working) [ some tat ↦ tat | none ↦ before k ]

lookup-working_tats :
    (st : Store) (buckets : Dict ℕ) (k : Str)
    → lookup k (working_tats st buckets)
      ≡ elim (lookup k buckets) [ some b ↦ some (read_tat st b) | none ↦ none ]
unfolding lookup working_tats
lookup-working_tats st [] k = refl
lookup-working_tats st ((j, b) ∷ buckets) k = ground (arith, lookup-working_tats st buckets k)

-- It starts as the store's own TATs, on the keys of the buckets.
pub overlay-working_tats :
    (st : Store) (buckets : Dict ℕ) (k : Str)
    → Linked buckets st
    → overlay (working_tats st buckets) (tat_of st) k ≡ tat_of st k
overlay-working_tats st buckets k link = elim (Option-cases (lookup k buckets)) [
  | inl missing ↦ ground (arith, lookup-working_tats st buckets k)
  | inr (b, found) ↦
      ground (arith, lookup-working_tats st buckets k, tat_of-found st k b (link k b found))
]

pub working_tats-Present :
    (st : Store) (ks : List Str) (buckets : Dict ℕ)
    → Present ks buckets
    → Present ks (working_tats st buckets)
working_tats-Present st [] buckets h = tt
working_tats-Present st (k ∷ ks) buckets ((b, e), h) =
    ((read_tat st b, lookup-working_tats st buckets k ∙ rw e), working_tats-Present st ks buckets h)

-- Every key of the working copy has a bucket.
abbrev pub Backed : Dict ℕ → Dict ℕ → Type 0
Backed working buckets =
    (k : Str) (tat : ℕ) → lookup k working ≡ some tat → (b : ℕ) × (lookup k buckets ≡ some b)

pub working_tats-Backed : (st : Store) (buckets : Dict ℕ) → Backed (working_tats st buckets) buckets
working_tats-Backed st buckets k tat e = elim (Option-cases (lookup k buckets)) [
  | inr (b, found) ↦ (b, found)
  | inl missing ↦ absurd (ground (arith, lookup-working_tats st buckets k))
]

overlay-cons :
    (key : Str) (tat : ℕ) (working : Dict ℕ) (before : Str → ℕ) (k : Str)
    → overlay ((key, tat) ∷ working) before k
      ≡ (if str_eq key k then tat else overlay working before k)
unfolding lookup
overlay-cons key tat working before k = ground arith

pub overlay-insert :
    (key : Str) (tat : ℕ) (working : Dict ℕ) (before : Str → ℕ) (k : Str)
    → overlay (insert key tat working) before k
      ≡ (if str_eq key k then tat else overlay working before k)
overlay-insert key tat working before k = ground (arith, lookup-insert k key tat working)

pub insert-Backed :
    (key : Str) (tat : ℕ) (working buckets : Dict ℕ) (b : ℕ)
    → Backed working buckets
    → lookup key buckets ≡ some b
    → Backed (insert key tat working) buckets
insert-Backed key tat working buckets b back found j t e = elim (Bool-cases (str_eq key j)) [
  | inl same ↦ (b, rw (← (str_eq_iff key j).0 same) found)
  | inr apart ↦ back j t (sym (lookup-insert j key tat working ∙ rw apart) ∙ e)
]

lookup_at :
    (k j : Str) (tat : ℕ) (m : Dict ℕ) → str_eq k j ≡ false → lookup j ((k, tat) ∷ m) ≡ lookup j m
unfolding lookup
lookup_at k j tat m e = rw e

lookup_head : (k : Str) (tat : ℕ) (m : Dict ℕ) → lookup k ((k, tat) ∷ m) ≡ some tat
unfolding lookup
lookup_head k tat m = rw (str_eq_refl k)

Backed-tail :
    (k : Str) (tat : ℕ) (working buckets : Dict ℕ)
    → Backed ((k, tat) ∷ working) buckets
    → Backed working buckets
Backed-tail k tat working buckets h j t e = elim (Bool-cases (str_eq k j)) [
  | inl same ↦ rw (← (str_eq_iff k j).0 same) (h k tat (lookup_head k tat working))
  | inr apart ↦ h j t (lookup_at k j tat working apart ∙ e)
]

-- The writes at the end: the store then has the working copy's TATs.
pub record Committed (working : Dict ℕ) (st last : Store) : Type 0 where
  pub valid : IsValid last
  pub same_buckets : (k : Str) → find k last ≡ find k st
  pub tats : (k : Str) → tat_of last k ≡ overlay working (tat_of st) k

pub commit-Committed :
    (buckets working : Dict ℕ) (st : Store)
    → IsValid st
    → Linked buckets st
    → Backed working buckets
    → Committed working st (commit buckets working st)
unfolding commit
commit-Committed buckets [] st v link back = record {
  valid = v;
  same_buckets = λ k. refl;
  tats = λ k. unfold lookup in refl;
}
commit-Committed buckets ((key, tat) ∷ working) st v link back =
    let (b, found) = back key tat (lookup_head key tat working) in
    let rest = commit buckets working st in
    let c = commit-Committed buckets working st v link (Backed-tail key tat working buckets back) in
    let here = c.same_buckets key ∙ link key b found in
    rw (found, commit)
      (record {
        valid = write_tat-IsValid rest key b tat c.valid here;
        same_buckets = λ k. find-write_tat rest key b tat c.valid here k ∙ c.same_buckets k;
        tats = λ k.
            tat_of-write_tat rest key b tat c.valid here k
            ∙ ap (λ (t : ℕ). if str_eq key k then tat else t) (c.tats k)
            ∙ sym (overlay-cons key tat working (tat_of st) k);
      })
