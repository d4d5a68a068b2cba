-- ===== src/Server/Store/Generations.antt =====
-- The two generations: which keys the garbage collection keeps, and which it drops.
use deadhorse.Common.{
  Bool-cases, List, [], ap, inl, inr, length, length-map, length-set, none, refl, some, ℕ, ◌<◌, ◌∙◌,
  ◌∷◌, ◌≡◌, ◌≢◌,
}
use deadhorse.Common.Assoc.{Str, str_eq, str_eq_iff, str_eq_ne, str_eq_refl}
use deadhorse.Server.Store.{Store, collect, rotate, touch}
use deadhorse.Server.Store.Lookup.{
  find, find-collect, find_hot, find_hot-collect, find_hot-touch, touch-find_hot,
}

-- The keys that are asked for between two rotations.
pub touch_all : List Str → Store → Store
touch_all [] st = st
touch_all (k ∷ ks) st = touch_all ks (touch k st).0

-- A key is not among those asked for.
abbrev pub Untouched : Str → List Str → Type 0
Untouched k [] = Unit
Untouched k (j ∷ ks) = (j ≢ k) × Untouched k ks

pub length-touch : (k : Str) (st : Store) → length (touch k st).0.stripes ≡ length st.stripes
unfolding touch
length-touch k st = rw length-set

length-collect : (st : Store) → length (collect st).stripes ≡ length st.stripes
unfolding collect
length-collect st = length-map st.stripes rotate

pub find_hot-touch_self :
    (k : Str) (st : Store) → 0 < length st.stripes → find_hot k (touch k st).0 ≡ some (touch k st).1
find_hot-touch_self k st h = rw (find_hot-touch st k k h, str_eq_refl k)

pub find_hot-touch_kept :
    (k j : Str) (st : Store) (b : ℕ)
    → 0 < length st.stripes
    → find_hot k st ≡ some b
    → find_hot k (touch j st).0 ≡ some b
find_hot-touch_kept k j st b h e = elim (Bool-cases (str_eq j k)) [
  | inl same ↦
      rw (find_hot-touch st j k h, same)
        (ap some (touch-find_hot st j b (rw ((str_eq_iff j k).0 same) e)))
  | inr apart ↦ rw (find_hot-touch st j k h, apart) e
]

find_hot-touch_all :
    (k : Str) (ks : List Str) (st : Store) (b : ℕ)
    → 0 < length st.stripes
    → find_hot k st ≡ some b
    → find_hot k (touch_all ks st) ≡ some b
unfolding touch_all
find_hot-touch_all k [] st b h e = e
find_hot-touch_all k (j ∷ ks) st b h e =
    find_hot-touch_all k ks (touch j st).0 b (rw length-touch h) (find_hot-touch_kept k j st b h e)

find_hot-Untouched :
    (k : Str) (ks : List Str) (st : Store)
    → 0 < length st.stripes
    → Untouched k ks
    → find_hot k (touch_all ks st) ≡ find_hot k st
unfolding touch_all
find_hot-Untouched k [] st h u = refl
find_hot-Untouched k (j ∷ ks) st h (ne, u) =
    find_hot-Untouched k ks (touch j st).0 (rw length-touch h) u
    ∙ find_hot-touch st j k h
    ∙ rw (str_eq_ne j k ne)

-- A key that is asked for between two rotations is kept by the second one, in the same bucket,
-- whatever other keys are asked for before the rotation.
pub find-collect_touched :
    (k : Str) (ks : List Str) (st : Store)
    → 0 < length st.stripes
    → find k (collect (touch_all ks (touch k st).0)) ≡ some (touch k st).1
find-collect_touched k ks st h =
    find-collect k _
    ∙ find_hot-touch_all k ks (touch k st).0 (touch k st).1 (rw length-touch h)
        (find_hot-touch_self k st h)

-- A key that is not asked for between two rotations is dropped by the second one.
pub find-collect-Untouched :
    (k : Str) (ks : List Str) (st : Store)
    → 0 < length st.stripes
    → Untouched k ks
    → find k (collect (touch_all ks (collect st))) ≡ none
find-collect-Untouched k ks st h u =
    find-collect k _
    ∙ find_hot-Untouched k ks (collect st) (rw length-collect h) u
    ∙ find_hot-collect k st
