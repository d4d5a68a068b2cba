-- ===== src/Server/Throttling/Group.antt =====
-- The buckets of a group: each key has one, and it is the store's.
use deadhorse.Common.{
  Bool-cases, List, Option-cases, [], ap, inl, inr, refl, some, sym, ℕ, ◌∙◌, ◌∷◌, ◌≡◌,
}
use deadhorse.Common.Assoc.{
  Dict, Str, insert, lookup, lookup-insert, str_eq, str_eq_iff, str_eq_refl,
}
use deadhorse.Server.Store.{Store, touch}
use deadhorse.Server.Store.Lookup.{find, touch-find}
use deadhorse.Server.Store.Tats.{
  IsValid, find-touch_ne, find-touch_self, tat_of, tat_of-touch, touch-IsValid,
}
use deadhorse.Server.Throttling.{group_buckets}

-- The buckets are those of the store.
abbrev pub Linked : Dict ℕ → Store → Type 0
Linked buckets st = (k : Str) (b : ℕ) → lookup k buckets ≡ some b → find k st ≡ some b

pub Linked-nil : (st : Store) → Linked [] st
unfolding lookup
Linked-nil st k b e = cc

-- The keys of a list are all there.
abbrev pub Present : List Str → Dict ℕ → Type 0
Present [] m = Unit
Present (k ∷ ks) m = ((b : ℕ) × (lookup k m ≡ some b)) × Present ks m

pub find-touch_kept :
    (st : Store) (key k : Str) (b : ℕ)
    → IsValid st
    → find k st ≡ some b
    → find k (touch key st).0 ≡ some b
find-touch_kept st key k b v e = elim (Bool-cases (str_eq key k)) [
  | inr apart ↦ find-touch_ne st key v k apart ∙ e
  | inl same ↦
      let k_is = (str_eq_iff key k).0 same in
      rw (← k_is) (find-touch_self st key v ∙ ap some (touch-find st key b (rw k_is e)))
]

insert-Linked :
    (st : Store) (key : Str) (buckets : Dict ℕ)
    → IsValid st
    → Linked buckets st
    → Linked (insert key (touch key st).1 buckets) (touch key st).0
insert-Linked st key buckets v link k b e = elim (Bool-cases (str_eq key k)) [
  | inl same ↦
      let here = sym (lookup-insert k key (touch key st).1 buckets ∙ rw same) ∙ e in
      rw (← (str_eq_iff key k).0 same) (find-touch_self st key v ∙ here)
  | inr apart ↦
      find-touch_kept st key k b v
        (link k b (sym (lookup-insert k key (touch key st).1 buckets ∙ rw apart) ∙ e))
]

lookup-insert-some :
    (k key : Str) (b v : ℕ) (m : Dict ℕ)
    → lookup k m ≡ some b
    → (c : ℕ) × (lookup k (insert key v m) ≡ some c)
lookup-insert-some k key b v m e = elim (Bool-cases (str_eq key k)) [
  | inl same ↦ (v, lookup-insert k key v m ∙ rw same)
  | inr apart ↦ (b, lookup-insert k key v m ∙ rw apart e)
]

pub insert-Present :
    (ks : List Str) (key : Str) (v : ℕ) (m : Dict ℕ) → Present ks m → Present ks (insert key v m)
insert-Present [] key v m h = tt
insert-Present (k ∷ ks) key v m ((b, e), h) =
    (lookup-insert-some k key b v m e, insert-Present ks key v m h)

-- What `group_buckets` yields.
pub record Grouped (keys : List Str) (st : Store) (r : Store × Dict ℕ) : Type 0 where
  pub valid : IsValid r.0
  pub linked : Linked r.1 r.0
  pub present : Present keys r.1
  pub same_tats : (k : Str) → tat_of r.0 k ≡ tat_of st k

group_buckets-kept :
    (keys : List Str) (st : Store) (buckets : Dict ℕ) (k : Str) (b : ℕ)
    → lookup k buckets ≡ some b
    → (c : ℕ) × (lookup k (group_buckets keys st buckets).1 ≡ some c)
unfolding group_buckets
group_buckets-kept [] st buckets k b e = (b, e)
group_buckets-kept (key ∷ keys) st buckets k b e = elim (Option-cases (lookup key buckets)) [
  | inr (_, old) ↦ rw (old, group_buckets) (group_buckets-kept keys st buckets k b e)
  | inl new ↦
      let (c, e') = lookup-insert-some k key b (touch key st).1 buckets e in
      rw (new, group_buckets)
        (group_buckets-kept keys (touch key st).0 (insert key (touch key st).1 buckets) k c e')
]

pub group_buckets-Grouped :
    (keys : List Str) (st : Store) (buckets : Dict ℕ)
    → IsValid st
    → Linked buckets st
    → Grouped keys st (group_buckets keys st buckets)
unfolding group_buckets
group_buckets-Grouped [] st buckets v link = record {
  valid = v;
  linked = link;
  present = tt;
  same_tats = λ k. refl;
}
group_buckets-Grouped (key ∷ keys) st buckets v link = elim (Option-cases (lookup key buckets)) [
  | inr (b, old) ↦
      let g = group_buckets-Grouped keys st buckets v link in
      rw (old, group_buckets)
        (record {
          valid = g.valid;
          linked = g.linked;
          present = (group_buckets-kept keys st buckets key b old, g.present);
          same_tats = g.same_tats;
        })
  | inl new ↦
      let st' = (touch key st).0 in
      let buckets' = insert key (touch key st).1 buckets in
      let g =
        group_buckets-Grouped keys st' buckets' (touch-IsValid st key v)
          (insert-Linked st key buckets v link) in
      rw (new, group_buckets)
        (record {
          valid = g.valid;
          linked = g.linked;
          present = (
            group_buckets-kept keys st' buckets' key (touch key st).1
                (lookup-insert key key (touch key st).1 buckets ∙ rw (str_eq_refl key)),
            g.present,
          );
          same_tats = λ k. g.same_tats k ∙ tat_of-touch st key v k;
        })
]
