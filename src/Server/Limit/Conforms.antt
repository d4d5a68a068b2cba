-- ===== src/Server/Limit/Conforms.antt =====
-- The limit on a key holds over the life of a store.
use native.Mathlib.Nat.{zero-add, add_assoc}
use deadhorse.Common.{
  Bool-cases, List, [], ap, arith, false, inl, inr, none, not, refl, sym, true, ℕ, ◌*◌, ◌+◌, ◌-◌,
  ◌<◌, ◌||◌, ◌∙◌, ◌∷◌, ◌≡◌, ◌≢◌, ◌≤◌, ◌⊎◌,
}
use deadhorse.Common.Int.{magnitude, max_int64, negsuc, pos, ℤ}
use deadhorse.Common.Assoc.{Str, str_eq_iff, str_eq_refl}
use deadhorse.Types.{RequestEntry, effective_cost, effective_units}
use deadhorse.Gcra.{gcra_check}
use deadhorse.Gcra.Window.{Spent, Spent-later, Spent-nil, admitted_debt, conclude, spend}
use deadhorse.Server.Store.{Store, collect}
use deadhorse.Server.Store.Tats.{IsValid, tat_of}
use deadhorse.Server.Throttling.{check_entry, throttle}
use deadhorse.Server.Throttling.Spec.{State, admits, advance, advance_all, update}
use deadhorse.Server.Limit.{
  StoreEvent, asked_units, called, collected, consumes, cost_of, granted, run_store,
}
use deadhorse.Server.Throttling.Transaction.{
  admits-any_throttled, advance_ne, any_throttled, throttle_all_or_none,
}
use deadhorse.Server.Store.Collection.{collect-IsValid, tat_of-collect_le}
use deadhorse.Server.Throttling.Refines.{throttle-refines}

-- The entry's limit, as the check reads it.
abbrev pub HasLimit : (capacity units p : ℕ) → RequestEntry → Type 0
HasLimit capacity units p e =
    (e.limit.capacity ≡ pos capacity)
    × (effective_units e.limit.rate.units ≡ pos units)
    × (e.limit.rate.period ≡ pos p)

-- Every entry that consumes from the key has this limit.
abbrev pub AllLimited : (capacity units p : ℕ) → Str → List RequestEntry → Type 0
AllLimited capacity units p k [] = Unit
AllLimited capacity units p k (e ∷ es) =
    ((consumes k e ≡ false) ⊎ HasLimit capacity units p e) × AllLimited capacity units p k es

-- The events are in the order of time, up to the end of the window; the entries for the key have the
-- limit; and a rotation drops the key only when its TAT has passed.
abbrev pub IsPaced :
    (capacity units p : ℕ) → Str → (from until : ℕ) → List StoreEvent → Store → Type 0
IsPaced capacity units p k from until [] st = Unit
IsPaced capacity units p k from until (called now es ∷ events) st =
    (from ≤ now)
    × (now ≤ until)
    × AllLimited capacity units p k es
    × IsPaced capacity units p k now until events (throttle none now es st).0
IsPaced capacity units p k from until (collected t ∷ events) st =
    (from ≤ t)
    × ((tat_of (collect st) k ≡ tat_of st k) ⊎ (tat_of st k ≤ t))
    × IsPaced capacity units p k t until events (collect st)

effective_cost-pos : (cost : ℤ) → effective_cost cost ≡ pos (magnitude (effective_cost cost))
unfolding effective_cost
effective_cost-pos (pos n) = ground arith
effective_cost-pos (negsuc n) = refl

pub consumes-false :
    (k : Str) (e : RequestEntry) → consumes k e ≡ false → (e.peek ≡ true) ⊎ (e.key ≢ k)
consumes-false k e h = ground (arith, str_eq_iff e.key k)

pub consumes-true :
    (k : Str) (e : RequestEntry) → consumes k e ≡ true → (e.peek ≡ false) × (e.key ≡ k)
consumes-true k e h = ground (arith, str_eq_iff e.key k)

pub admits-cons :
    (now : ℕ) (e : RequestEntry) (es : List RequestEntry) (s : State)
    → admits now (e ∷ es) s ≡ true
    → ((e.peek || not (check_entry (s e.key) now e).throttled) ≡ true)
      × (admits now es (advance now e s) ≡ true)
unfolding admits
admits-cons now e es s h = ground arith

pub advance_consumed :
    (now : ℕ) (e : RequestEntry) (s : State)
    → e.peek ≡ false
    → (check_entry (s e.key) now e).throttled ≡ false
    → advance now e s e.key ≡ (check_entry (s e.key) now e).admitted_tat
unfolding advance update
advance_consumed now e s real ok = simp (real, ok, str_eq_refl e.key)

module _ (capacity units p : ℕ) (hu : 0 < units) (hp : 0 < p) (hc : capacity ≤ max_int64)
    (k : Str) where
  pub check_entry-limit :
      (tat now : ℕ) (e : RequestEntry)
      → HasLimit capacity units p e
      → check_entry tat now e
        ≡ gcra_check tat now (pos capacity) (pos units) (pos p) (pos (cost_of e))
  unfolding check_entry
  check_entry-limit tat now e (ec, eu, ep) = rw (ec, eu, ep, ← effective_cost-pos e.cost)

  -- An entry that consumes from the key and is admitted.
  pub consumed-Spent :
      (from until now : ℕ) (e : RequestEntry) (s : State) (total : ℕ)
      → from ≤ now
      → now ≤ until
      → until ≤ max_int64
      → s k ≤ max_int64
      → HasLimit capacity units p e
      → consumes k e ≡ true
      → (e.peek || not (check_entry (s e.key) now e).throttled) ≡ true
      → (advance now e s k ≤ max_int64)
        × (Spent capacity units p hu hp hc from until (advance now e s k) total
            → Spent capacity units p hu hp hc from until (s k) (cost_of e + total))
  consumed-Spent from until now e s total lo hi range hs limit mine ok =
      let (real, same) = consumes-true k e mine in
      let passed : (check_entry (s e.key) now e).throttled ≡ false = ground arith in
      let exact : check_entry (s e.key) now e ≡ _ =
        ap (λ j. check_entry (s j) now e) same ∙ check_entry-limit (s k) now e limit in
      let (paid, bounded, fresh, kept) =
        admitted_debt capacity units p hu hp hc (s k) now (cost_of e) hs (omega arith)
          (sym (ap (λ v. v.throttled) exact) ∙ passed) in
      let next =
        ap (advance now e s) (sym same)
        ∙ advance_consumed now e s real passed
        ∙ ap (λ v. v.admitted_tat) exact in
      rw next (
        kept,
        λ spent.
            spend capacity units p hu hp hc from until now (s k) _ (cost_of e) total lo hi fresh
              paid bounded spent,
      )

  -- The entries of a call that is admitted pay for what they ask for.
  admitted-Spent :
      (from until now : ℕ) (es : List RequestEntry) (s : State) (total : ℕ)
      → from ≤ now
      → now ≤ until
      → until ≤ max_int64
      → s k ≤ max_int64
      → AllLimited capacity units p k es
      → admits now es s ≡ true
      → (advance_all now es s k ≤ max_int64)
        × (Spent capacity units p hu hp hc from until (advance_all now es s k) total
            → Spent capacity units p hu hp hc from until (s k) (asked_units k es + total))
  unfolding asked_units advance_all
  admitted-Spent from until now [] s total lo hi range hs h ok =
      rw (zero-add total) (hs, λ spent. spent)
  admitted-Spent from until now (e ∷ es) s total lo hi range hs (he, h) ok =
      let (passed, later) = admits-cons now e es s ok in
      elim (Bool-cases (consumes k e)) [
        | inl mine ↦ elim he [
          | inl other ↦ absurd (ground arith)
          | inr limit ↦
              let (kept, pay) =
                consumed-Spent from until now e s (asked_units k es + total) lo hi range hs limit
                  mine passed in
              let (last, rest) =
                admitted-Spent from until now es (advance now e s) total lo hi range kept h later in
              simp mine (
                last,
                λ spent. rw (add_assoc (cost_of e) (asked_units k es) total) (pay (rest spent)),
              )
        ]
        | inr other ↦
            let same = advance_ne now e s k (consumes-false k e other) in
            let (last, rest) =
              admitted-Spent from until now es (advance now e s) total lo hi range (rw same hs) h
                later in
            simp (other, zero-add (asked_units k es)) (last, λ spent. rw same at (rest spent))
      ]

  -- One call, whether it is granted or not.
  call-Spent :
      (from until now : ℕ) (es : List RequestEntry) (st : Store) (total : ℕ)
      → from ≤ now
      → now ≤ until
      → until ≤ max_int64
      → IsValid st
      → tat_of st k ≤ max_int64
      → AllLimited capacity units p k es
      → (let r = throttle none now es st in
          (tat_of r.0 k ≤ max_int64)
          × (Spent capacity units p hu hp hc now until (tat_of r.0 k) total
              → Spent capacity units p hu hp hc from until
                  (tat_of st k)
                  (granted k es r.1 + total)))
  call-Spent from until now es st total lo hi range v hs h =
      let r = throttle none now es st in
      let (_, tats, results, _) = throttle-refines now es st v in
      let (unchanged, changed) = throttle_all_or_none now es st v in
      let later = Spent-later capacity units p hu hp hc from now until (tat_of st k) in
      elim (Bool-cases (any_throttled es r.1)) [
        | inl none_of ↦
            simp (none_of, unchanged none_of k, zero-add total)
              (hs, λ spent. later (tat_of st k) total (omega arith) spent)
        | inr all ↦
            let ok : admits now es (tat_of st) ≡ true =
              admits-any_throttled now (tat_of st) es (tat_of st)
              ∙ ap (λ rs. not (any_throttled es rs)) (sym results)
              ∙ ap not all in
            let (kept, pay) =
              admitted-Spent now until now es (tat_of st) total (omega arith) hi range hs h ok in
            simp (all, changed all k)
              (
                kept,
                λ spent. later (tat_of st k) (asked_units k es + total) (omega arith) (pay spent),
              )
      ]

  run_store-Spent :
      (events : List StoreEvent) (from until : ℕ) (st : Store)
      → until ≤ max_int64
      → IsValid st
      → tat_of st k ≤ max_int64
      → IsPaced capacity units p k from until events st
      → Spent capacity units p hu hp hc from until (tat_of st k) (run_store k events st).1
  unfolding run_store
  run_store-Spent [] from until st range v hs h =
      Spent-nil capacity units p hu hp hc from until (tat_of st k)
  run_store-Spent (called now es ∷ events) from until st range v hs (lo, hi, limited, h) =
      let st' = (throttle none now es st).0 in
      let (kept, pay) =
        call-Spent from until now es st (run_store k events st').1 lo hi range v hs limited in
      pay (run_store-Spent events now until st' range (throttle-refines now es st v).0 kept h)
  run_store-Spent (collected t ∷ events) from until st range v hs (lo, dropped, h) =
      let low = tat_of-collect_le st k v in
      let spent =
        run_store-Spent events t until (collect st) range (collect-IsValid st v).0 (omega arith)
          h in
      let later =
        Spent-later capacity units p hu hp hc from t until (tat_of st k) (tat_of (collect st) k)
          (run_store k events (collect st)).1 in
      elim dropped [
        | inl same ↦ later (omega arith) spent
        | inr drained ↦ later (omega arith) spent
      ]

  -- The limit on a key is enforced over the life of a store: whatever calls come in a window, with any
  -- other keys, peeks, repeated keys and costs in them, and whenever the store is rotated in between,
  -- the units of the key that callers are granted, taking a call with a throttled result as granted
  -- nothing, are no more than a full bucket and what drains in the window. The clock does not run
  -- backwards, all entries for the key agree on its limit, and a rotation that drops the key comes
  -- after its TAT.
  pub run_store-conforms :
      (events : List StoreEvent) (from until : ℕ) (st : Store)
      → from ≤ until
      → until ≤ max_int64
      → IsValid st
      → tat_of st k ≤ max_int64
      → IsPaced capacity units p k from until events st
      → (run_store k events st).1 * p ≤ capacity * p + units * (until - from)
  run_store-conforms events from until st h range v hs paced =
      conclude capacity units p hu hp hc from until (tat_of st k) (run_store k events st).1 h
        (run_store-Spent events from until st range v hs paced)
