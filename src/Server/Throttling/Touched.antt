-- ===== src/Server/Throttling/Touched.antt =====
-- Which buckets a call puts into the hot generation.
use deadhorse.Common.{
  Bool, Bool-cases, List, Option-cases, [], ap, false, if◌then◌else◌, inl, inr, length, map, none,
  refl, some, true, ℕ, ◌+◌, ◌<◌, ◌||◌, ◌∙◌, ◌∷◌, ◌≡◌, ◌⊎◌,
}
use deadhorse.Common.Assoc.{Dict, Str, insert, lookup, lookup-insert, str_eq, str_eq_iff}
use deadhorse.Types.{RequestEntry, ResponseEntry}
use deadhorse.Server.Store.{Store, stripe_for, stripe_index, touch}
use deadhorse.Server.Store.Lookup.{find_hot}
use deadhorse.Server.Store.Generations.{find_hot-touch_kept, find_hot-touch_self, length-touch}
use deadhorse.Server.Throttling.{
  commit, entry_at, evaluate, evaluate_real_group, group_buckets, scan_entries, throttle,
  working_tats,
}
use deadhorse.Server.Store.Tats.{IsValid}
use deadhorse.Server.Throttling.Evaluate.{real_keys}
use deadhorse.Server.Throttling.Refines.{map-positions, scan_entries-Scanned, throttle-eq}

abbrev pub IsHot : Str → Store → Type 0
IsHot k st = (b : ℕ) × (find_hot k st ≡ some b)

abbrev HasStripe : Store → Type 0
HasStripe st = 0 < length st.stripes

-- There are still stripes, and what was hot is.
abbrev Warms : Str → Store → Store → Type 0
Warms k st st' = HasStripe st' × (IsHot k st → IsHot k st')

touch-Warms : (k j : Str) (st : Store) → HasStripe st → Warms k st (touch j st).0
touch-Warms k j st h = (rw (length-touch j st) h, λ (b, e). (b, find_hot-touch_kept k j st b h e))

touch-IsHot : (k j : Str) (st : Store) → HasStripe st → j ≡ k → IsHot k (touch j st).0
touch-IsHot k j st h same = rw (← same) ((touch j st).1, find_hot-touch_self j st h)

scan_entries-Warms :
    (k : Str) (now i : ℕ) (es : List RequestEntry) (st : Store)
    → HasStripe st
    → Warms k st (scan_entries now i es st).0
unfolding scan_entries
scan_entries-Warms k now i [] st h = (h, λ e. e)
scan_entries-Warms k now i (e ∷ es) st h = elim (Bool-cases e.peek) [
  | inl peek ↦
      let (h', touched) = touch-Warms k e.key st h in
      let (h'', rest) = scan_entries-Warms k now (i + 1) es (touch e.key st).0 h' in
      simp peek (h'', λ hot. rest (touched hot))
  | inr real ↦ simp real (scan_entries-Warms k now (i + 1) es st h)
]

abbrev pub has_key : Str → List Str → Bool
has_key k [] = false
has_key k (j ∷ js) = str_eq j k || has_key k js

group_buckets-missing :
    (j : Str) (keys : List Str) (st : Store) (buckets : Dict ℕ)
    → lookup j buckets ≡ none
    → group_buckets (j ∷ keys) st buckets
      ≡ group_buckets keys (touch j st).0 (insert j (touch j st).1 buckets)
unfolding group_buckets
group_buckets-missing j keys st buckets e = rw (e, group_buckets) refl

group_buckets-there :
    (j : Str) (keys : List Str) (st : Store) (buckets : Dict ℕ) (b : ℕ)
    → lookup j buckets ≡ some b
    → group_buckets (j ∷ keys) st buckets ≡ group_buckets keys st buckets
unfolding group_buckets
group_buckets-there j keys st buckets b e = rw (e, group_buckets) refl

-- A key that was not hot has no bucket in the group yet.
group_buckets-Warms :
    (k : Str) (keys : List Str) (st : Store) (buckets : Dict ℕ)
    → HasStripe st
    → (lookup k buckets ≡ none) ⊎ IsHot k st
    → Warms k st (group_buckets keys st buckets).0
      × (has_key k keys ≡ true → IsHot k (group_buckets keys st buckets).0)
unfolding group_buckets
group_buckets-Warms k [] st buckets h fresh = ((h, λ e. e), λ e. cc)
group_buckets-Warms k (j ∷ keys) st buckets h fresh = elim (Option-cases (lookup j buckets)) [
  | inl missing ↦
      let (h', touched) = touch-Warms k j st h in
      elim (Bool-cases (str_eq j k)) [
        | inl same ↦
            let hot = touch-IsHot k j st h ((str_eq_iff j k).0 same) in
            let ((h'', kept), _) =
              group_buckets-Warms k keys (touch j st).0 (insert j (touch j st).1 buckets) h'
                (inr hot) in
            rw (group_buckets-missing j keys st buckets missing)
              ((h'', λ e. kept hot), λ _. kept hot)
        | inr apart ↦
            let fresh' : (lookup k (insert j (touch j st).1 buckets) ≡ none)
                ⊎ IsHot k (touch j st).0 =
              elim fresh [
                | inl none_there ↦
                    inl (lookup-insert k j (touch j st).1 buckets ∙ rw apart none_there)
                | inr hot ↦ inr (touched hot)
              ] in
            let ((h'', kept), found) =
              group_buckets-Warms k keys (touch j st).0 (insert j (touch j st).1 buckets) h'
                fresh' in
            rw (group_buckets-missing j keys st buckets missing, apart)
              ((h'', λ e. kept (touched e)), found)
      ]
  | inr (b, there) ↦
      let ((h', kept), found) = group_buckets-Warms k keys st buckets h fresh in
      rw (group_buckets-there j keys st buckets b there) (
        (h', kept),
        λ mine. elim (Bool-cases (str_eq j k)) [
          | inl same ↦ kept (elim fresh [
            | inl none_there ↦ absurd (let q = rw ((str_eq_iff j k).0 same) at there in cc)
            | inr hot ↦ hot
          ])
          | inr apart ↦ found (rw apart at mine)
        ],
      )
]

commit-stripes :
    (buckets working : Dict ℕ) (st : Store) → (commit buckets working st).stripes ≡ st.stripes
unfolding commit
commit-stripes buckets [] st = refl
commit-stripes buckets ((k, tat) ∷ working) st = elim (Option-cases (lookup k buckets)) [
  | inl e ↦ rw (e, commit) (commit-stripes buckets working st)
  | inr (b, e) ↦ rw (e, commit) (commit-stripes buckets working st)
]

same_stripes-IsHot :
    (k : Str) (st st' : Store) → st'.stripes ≡ st.stripes → IsHot k st → IsHot k st'
unfolding find_hot stripe_for stripe_index
same_stripes-IsHot k st st' e (b, f) = (b, rw e f)

chosen-stripes :
    (b : Bool) (x y : Store) → x.stripes ≡ y.stripes → (if b then x else y).stripes ≡ y.stripes
chosen-stripes true x y e = e
chosen-stripes false x y e = refl

evaluate_real_group-Warms :
    (k : Str) (es : List RequestEntry) (is : List ℕ) (now : ℕ) (result : List ResponseEntry)
    (st : Store)
    → HasStripe st
    → Warms k st (evaluate_real_group es is now result st).0
      × (has_key k (map (λ i. (entry_at es i).key) is) ≡ true
          → IsHot k (evaluate_real_group es is now result st).0)
unfolding evaluate_real_group lookup
evaluate_real_group-Warms k es is now result st h =
    let keys = map (λ i. (entry_at es i).key) is in
    let g = group_buckets keys st [] in
    let r = evaluate es now is (working_tats g.0 g.1) true result in
    let ((h', kept), found) = group_buckets-Warms k keys st [] h (inl refl) in
    let same = chosen-stripes r.1 (commit g.1 r.0 g.0) g.0 (commit-stripes g.1 r.0 g.0) in
    let last = same_stripes-IsHot k g.0 (if r.1 then commit g.1 r.0 g.0 else g.0) same in
    ((rw same h', λ e. last (kept e)), λ e. last (found e))

-- A call keeps hot every bucket that was hot, and the bucket of every key of an entry that is no peek
-- is hot after it.
pub throttle-IsHot :
    (k : Str) (now : ℕ) (es : List RequestEntry) (st : Store)
    → IsValid st
    → (IsHot k st → IsHot k (throttle none now es st).0)
      × (has_key k (real_keys es) ≡ true → IsHot k (throttle none now es st).0)
throttle-IsHot k now es st v =
    let r = scan_entries now 0 es st in
    let (h, scanned) = scan_entries-Warms k now 0 es st v.has_stripe in
    let ((_, kept), found) = evaluate_real_group-Warms k es r.2 now r.1 r.0 h in
    let keys : map (λ i. (entry_at es i).key) r.2 ≡ real_keys es =
      ap (map (λ i. (entry_at es i).key)) (scan_entries-Scanned now 0 es st v).indices
      ∙ map-positions es [] 0 refl in
    rw (throttle-eq now es st) ((λ hot. kept (scanned hot)), λ mine. found (rw keys mine))
