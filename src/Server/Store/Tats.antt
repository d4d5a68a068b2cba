-- ===== src/Server/Store/Tats.antt =====
-- The TATs in the store: what `touch` and a write to a bucket change.
use deadhorse.Common.{
  Bool-cases, Option-cases, [], ap, arith, false, get_or-append, get_or-concat, get_or-set_ne,
  get_or-set_self, if◌then◌else◌, inl, inr, length, length-append, length-set, none, set, some, sym,
  ℕ, ◌<◌, ◌∙◌, ◌∷◌, ◌≡◌, ◌≤◌, ◌⊎◌,
}
use deadhorse.Common.Assoc.{Str, str_eq, str_eq_iff, str_eq_refl}
use deadhorse.Server.Store.{Store, read_tat, touch, write_tat}
use deadhorse.Server.Store.Lookup.{find, find-heap, find-touch, touch-heap}

-- The TAT of a key, zero for one that was never seen or was dropped.
pub tat_of : Store → Str → ℕ
tat_of st k = elim (find k st) [ some b ↦ read_tat st b | none ↦ 0 ]

-- There is a stripe; a bucket in the maps is in the heap, and belongs to one key.
pub record IsValid (st : Store) : Type 0 where
  pub has_stripe : 0 < length st.stripes
  pub in_heap : (k : Str) (b : ℕ) → find k st ≡ some b → b < length st.heap
  pub one_owner : (j k : Str) (b : ℕ) → find j st ≡ some b → find k st ≡ some b → j ≡ k

pub tat_of-found : (st : Store) (k : Str) (b : ℕ) → find k st ≡ some b → tat_of st k ≡ read_tat st b
unfolding tat_of
tat_of-found st k b e = rw (e, tat_of)

pub tat_of-missing : (st : Store) (k : Str) → find k st ≡ none → tat_of st k ≡ 0
unfolding tat_of
tat_of-missing st k e = rw (e, tat_of)

-- A key's bucket is `none` exactly if another key's is, and the same number.
tat_of-same :
    (st st' : Store) (k : Str)
    → find k st' ≡ find k st
    → ((b : ℕ) → find k st ≡ some b → read_tat st' b ≡ read_tat st b)
    → tat_of st' k ≡ tat_of st k
tat_of-same st st' k e same = elim (Option-cases (find k st)) [
  | inl missing ↦ tat_of-missing st' k (e ∙ missing) ∙ sym (tat_of-missing st k missing)
  | inr (b, found) ↦
      tat_of-found st' k b (e ∙ found) ∙ same b found ∙ sym (tat_of-found st k b found)
]

module _ (st : Store) (key : Str) (v : IsValid st) where
  pub find-touch_self : find key (touch key st).0 ≡ some (touch key st).1
  find-touch_self = rw (find-touch st key key v.has_stripe, str_eq_refl key)

  pub find-touch_ne : (k : Str) → str_eq key k ≡ false → find k (touch key st).0 ≡ find k st
  find-touch_ne k e = rw (find-touch st key k v.has_stripe, e)

  pub read_tat-touch : read_tat (touch key st).0 (touch key st).1 ≡ tat_of st key
  read_tat-touch = elim (touch-heap st key) [
    | inl (found, same) ↦ rw same (sym (tat_of-found st key _ found))
    | inr (fresh, grown, at) ↦
        rw (grown, at) (get_or-concat st.heap 0 0 ∙ sym (tat_of-missing st key fresh))
  ]

  read_tat-touch_old : (b : ℕ) → b < length st.heap → read_tat (touch key st).0 b ≡ read_tat st b
  read_tat-touch_old b h = elim (touch-heap st key) [
    | inl (found, same) ↦ rw same
    | inr (fresh, grown, at) ↦ rw grown (get_or-append st.heap (0 ∷ []) b 0 h)
  ]

  -- `touch` changes no TAT.
  pub tat_of-touch : (k : Str) → tat_of (touch key st).0 k ≡ tat_of st k
  tat_of-touch k = elim (Bool-cases (str_eq key k)) [
    | inl e ↦
        let same = (str_eq_iff key k).0 e in
        rw (← same) (tat_of-found (touch key st).0 key _ find-touch_self ∙ read_tat-touch)
    | inr e ↦
        tat_of-same st (touch key st).0 k (find-touch_ne k e)
          (λ b found. read_tat-touch_old b (v.in_heap k b found))
  ]

  touch-in_heap :
      (length st.heap ≤ length (touch key st).0.heap)
      × ((touch key st).1 < length (touch key st).0.heap)
  touch-in_heap = elim (touch-heap st key) [
    | inl (found, same) ↦ rw same (omega arith, v.in_heap key _ found)
    | inr (fresh, grown, at) ↦
        rw (grown, at, length-append st.heap (0 ∷ [])) (omega arith, omega arith)
  ]

  touch-owner : (k : Str) → find k st ≡ some (touch key st).1 → key ≡ k
  touch-owner k e = elim (touch-heap st key) [
    | inl (found, same) ↦ v.one_owner key k _ found e
    | inr (fresh, grown, at) ↦ absurd (omega (arith, v.in_heap k _ e))
  ]

  find-touch_cases :
      (k : Str) (b : ℕ)
      → find k (touch key st).0 ≡ some b
      → ((key ≡ k) × (b ≡ (touch key st).1)) ⊎ (find k st ≡ some b)
  find-touch_cases k b e = elim (Bool-cases (str_eq key k)) [
    | inl same ↦
        let e' = sym (rw same at (find-touch st key k v.has_stripe)) ∙ e in
        inl ((str_eq_iff key k).0 same, cc)
    | inr apart ↦ inr (sym (find-touch_ne k apart) ∙ e)
  ]

  touch-one_owner :
      (j k : Str) (b : ℕ)
      → ((key ≡ j) × (b ≡ (touch key st).1)) ⊎ (find j st ≡ some b)
      → ((key ≡ k) × (b ≡ (touch key st).1)) ⊎ (find k st ≡ some b)
      → j ≡ k
  touch-one_owner j k b (inl (ej, _)) (inl (ek, _)) = sym ej ∙ ek
  touch-one_owner j k b (inl (ej, at)) (inr found) = sym ej ∙ touch-owner k (found ∙ ap some at)
  touch-one_owner j k b (inr found) (inl (ek, at)) = sym (touch-owner j (found ∙ ap some at)) ∙ ek
  touch-one_owner j k b (inr fj) (inr fk) = v.one_owner j k b fj fk

  pub touch-IsValid : IsValid (touch key st).0
  touch-IsValid = record {
    has_stripe = (unfold touch in rw length-set v.has_stripe);
    in_heap = λ k b e. elim (find-touch_cases k b e) [
      | inl (_, at) ↦ rw at touch-in_heap.1
      | inr found ↦ omega (arith, touch-in_heap, v.in_heap k b found)
    ];
    one_owner =
        λ j k b ej ek. touch-one_owner j k b (find-touch_cases j b ej) (find-touch_cases k b ek);
  }

-- A write to the bucket of a key changes that key's TAT and no other.
module _ (st : Store) (key : Str) (b tat : ℕ) (v : IsValid st) (e : find key st ≡ some b) where
  pub find-write_tat : (k : Str) → find k (write_tat b tat st) ≡ find k st
  find-write_tat k = find-heap k st (set st.heap b tat)

  pub tat_of-write_tat :
      (k : Str) → tat_of (write_tat b tat st) k ≡ (if str_eq key k then tat else tat_of st k)
  tat_of-write_tat k = elim (Bool-cases (str_eq key k)) [
    | inl same ↦
        rw (same, ← (str_eq_iff key k).0 same)
          (tat_of-found (write_tat b tat st) key b (find-write_tat key ∙ e)
            ∙ get_or-set_self st.heap b tat 0 (v.in_heap key b e))
    | inr apart ↦ rw apart (
        tat_of-same st (write_tat b tat st) k (find-write_tat k) (λ c found.
          get_or-set_ne st.heap b c tat 0 (λ same.
            ground (arith, str_eq_iff key k, v.one_owner key k b e (found ∙ ap some (sym same))))))
  ]

  pub write_tat-IsValid : IsValid (write_tat b tat st)
  write_tat-IsValid = record {
    has_stripe = v.has_stripe;
    in_heap = λ k c f. rw length-set (v.in_heap k c (sym (find-write_tat k) ∙ f));
    one_owner = λ j k c fj fk.
        v.one_owner j k c (sym (find-write_tat j) ∙ fj) (sym (find-write_tat k) ∙ fk);
  }
