-- ===== src/Server/Store/Lookup.antt =====
-- The store as a map from keys to buckets and TATs: what `touch` and a write change.
use deadhorse.Common.{
  ==_iff, Bool-cases, List, Option, Option-cases, [], ap, arith, false, get_or, get_or-set_ne,
  get_or-set_self, if◌then◌else◌, inl, inr, length, length-map, length-set, map, none, refl, some,
  suc, zero, ℕ, ◌%◌, ◌++◌, ◌<◌, ◌==◌, ◌∙◌, ◌∷◌, ◌≡◌, ◌⊎◌,
}
use deadhorse.Common.Assoc.{
  Str, lookup, lookup-delete, lookup-insert, str_eq, str_eq_iff, str_eq_ne,
}
use deadhorse.Server.Store.{
  Store, Stripe, collect, get_or_create, new_stripe, rotate, stripe_for, stripe_index, touch,
}
use deadhorse.Fnv1a.{hash, hash-mod-lt}

-- The bucket of a key, in either generation of a stripe.
unfoldable pub stripe_find : Str → Stripe → Option ℕ
stripe_find k s = elim (lookup k s.hot) [ some b ↦ some b | none ↦ lookup k s.cold ]

unfoldable pub find : Str → Store → Option ℕ
find k st = stripe_find k (stripe_for st k)

-- The bucket of a key in the hot generation.
unfoldable pub find_hot : Str → Store → Option ℕ
find_hot k st = lookup k (stripe_for st k).hot

-- The heap plays no part in it.
pub find-heap :
    (k : Str) (st : Store) (heap : List ℕ) → find k (record st { heap = heap }) ≡ find k st
unfolding find stripe_for stripe_index
find-heap k st heap = refl

-- One stripe.
stripe_find-get_or_create :
    (key k : Str) (heap : List ℕ) (s : Stripe)
    → stripe_find k (get_or_create key heap s).1
      ≡ (if str_eq key k then some (get_or_create key heap s).2 else stripe_find k s)
unfolding stripe_find get_or_create
stripe_find-get_or_create key k heap s = elim (Option-cases (lookup key s.cold)) [
  | inl e ↦ ground (arith, str_eq_iff key k, lookup-insert k key (length heap) s.hot)
  | inr (b, e) ↦
      ground (arith, str_eq_iff key k, lookup-insert k key b s.hot, lookup-delete k key s.cold)
]

lookup-get_or_create :
    (key k : Str) (heap : List ℕ) (s : Stripe)
    → lookup k (get_or_create key heap s).1.hot
      ≡ (if str_eq key k then some (get_or_create key heap s).2 else lookup k s.hot)
unfolding get_or_create
lookup-get_or_create key k heap s = elim (Option-cases (lookup key s.cold)) [
  | inl e ↦ ground (arith, str_eq_iff key k, lookup-insert k key (length heap) s.hot)
  | inr (b, e) ↦ ground (arith, str_eq_iff key k, lookup-insert k key b s.hot)
]

get_or_create-heap :
    (key : Str) (heap : List ℕ) (s : Stripe)
    → ((stripe_find key s ≡ some (get_or_create key heap s).2)
        × ((get_or_create key heap s).0 ≡ heap))
      ⊎ ((stripe_find key s ≡ none)
          × ((get_or_create key heap s).0 ≡ heap ++ 0 ∷ [])
          × ((get_or_create key heap s).2 ≡ length heap))
unfolding stripe_find get_or_create
get_or_create-heap key heap s = ground arith

stripe_index-lt :
    (st : Store) (key : Str) → 0 < length st.stripes → stripe_index st key < length st.stripes
unfolding stripe_index
stripe_index-lt st key h = hash-mod-lt key (length st.stripes) h

get_or-map-rotate :
    (ss : List Stripe) (i : ℕ)
    → get_or (map rotate ss) i new_stripe ≡ rotate (get_or ss i new_stripe)
get_or-map-rotate [] i = unfold rotate in refl
get_or-map-rotate (s ∷ ss) zero = refl
get_or-map-rotate (s ∷ ss) (suc i) = get_or-map-rotate ss i

stripe_for-collect : (k : Str) (st : Store) → stripe_for (collect st) k ≡ rotate (stripe_for st k)
unfolding stripe_for stripe_index collect
stripe_for-collect k st =
    rw (length-map st.stripes rotate) (get_or-map-rotate st.stripes (hash k % length st.stripes))

-- A rotation keeps what is hot, as cold, and drops the rest.
pub find-collect : (k : Str) (st : Store) → find k (collect st) ≡ find_hot k st
unfolding find find_hot stripe_find
find-collect k st = rw (stripe_for-collect k st) (unfold rotate lookup in refl)

pub find_hot-collect : (k : Str) (st : Store) → find_hot k (collect st) ≡ none
unfolding find_hot
find_hot-collect k st = rw (stripe_for-collect k st) (unfold rotate lookup in refl)

module _ (st : Store) (key : Str) where
  stripe_index-touch : (k : Str) → stripe_index (touch key st).0 k ≡ stripe_index st k
  unfolding stripe_index touch
  stripe_index-touch k = rw length-set

  stripe_for-touch :
      (k : Str)
      → 0 < length st.stripes
      → stripe_for (touch key st).0 k ≡ (
          if stripe_index st key == stripe_index st k
          then (get_or_create key st.heap (stripe_for st key)).1
          else stripe_for st k)
  unfolding stripe_for touch
  stripe_for-touch k h =
      let i = stripe_index st key in
      let s = (get_or_create key st.heap (stripe_for st key)).1 in
      elim (Bool-cases (i == stripe_index st k)) [
        | inl e ↦
            rw (e, stripe_index-touch k, ← (==_iff i (stripe_index st k)).0 e)
              (get_or-set_self st.stripes i s new_stripe (stripe_index-lt st key h))
        | inr e ↦
            rw (e, stripe_index-touch k)
              (get_or-set_ne st.stripes i (stripe_index st k) s new_stripe (λ same. ground arith))
      ]

  same_index : (k : Str) → key ≡ k → (stripe_index st key == stripe_index st k) ≡ false → ⊥
  same_index k e apart = ground (arith, ap (stripe_index st) e)

  stripe_for-eq :
      (k : Str) → stripe_index st key ≡ stripe_index st k → stripe_for st key ≡ stripe_for st k
  unfolding stripe_for
  stripe_for-eq k e = rw e

  pub find-touch :
      (k : Str)
      → 0 < length st.stripes
      → find k (touch key st).0 ≡ (if str_eq key k then some (touch key st).1 else find k st)
  unfolding find touch
  find-touch k h = elim (Bool-cases (stripe_index st key == stripe_index st k)) [
    | inl same ↦
        rw (stripe_for-touch k h, same)
          (stripe_find-get_or_create key k st.heap (stripe_for st key)
            ∙ ap (λ s. if str_eq key k then some (touch key st).1 else stripe_find k s)
                (stripe_for-eq k ((==_iff _ _).0 same)))
    | inr apart ↦ rw (stripe_for-touch k h, apart, str_eq_ne key k (λ e. same_index k e apart))
  ]

  pub touch-heap :
      ((find key st ≡ some (touch key st).1) × ((touch key st).0.heap ≡ st.heap))
      ⊎ ((find key st ≡ none)
          × ((touch key st).0.heap ≡ st.heap ++ 0 ∷ [])
          × ((touch key st).1 ≡ length st.heap))
  unfolding find touch
  touch-heap = get_or_create-heap key st.heap (stripe_for st key)

  -- The same, in the hot generation alone.
  pub find_hot-touch :
      (k : Str)
      → 0 < length st.stripes
      → find_hot k (touch key st).0
        ≡ (if str_eq key k then some (touch key st).1 else find_hot k st)
  unfolding find_hot touch
  find_hot-touch k h = elim (Bool-cases (stripe_index st key == stripe_index st k)) [
    | inl same ↦
        rw (stripe_for-touch k h, same)
          (lookup-get_or_create key k st.heap (stripe_for st key)
            ∙ ap (λ s. if str_eq key k then some (touch key st).1 else lookup k s.hot)
                (stripe_for-eq k ((==_iff _ _).0 same)))
    | inr apart ↦ rw (stripe_for-touch k h, apart, str_eq_ne key k (λ e. same_index k e apart))
  ]

  pub touch-find_hot : (b : ℕ) → find_hot key st ≡ some b → (touch key st).1 ≡ b
  unfolding touch find_hot get_or_create
  touch-find_hot b e = rw (e, get_or_create)

  pub touch-find : (b : ℕ) → find key st ≡ some b → (touch key st).1 ≡ b
  unfolding touch find stripe_find get_or_create
  touch-find b e = ground arith
