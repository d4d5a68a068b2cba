-- ===== src/Server/Throttling/Transaction.antt =====
-- What a caller can tell from the results of a call.
use deadhorse.Common.{
  Bool, Bool-cases, List, [], ap, arith, false, inl, inr, none, not, refl, sym, true, ℕ, ◌&&◌, ◌||◌,
  ◌∙◌, ◌∷◌, ◌≡◌, ◌≢◌, ◌⊎◌,
}
use deadhorse.Common.Assoc.{Str, str_eq_ne}
use deadhorse.Types.{RequestEntry, ResponseEntry}
use deadhorse.Server.Store.{Store}
use deadhorse.Server.Store.Tats.{IsValid, tat_of}
use deadhorse.Server.Throttling.{check_entry, throttle}
use deadhorse.Server.Throttling.Spec.{
  State, admits, advance, advance_all, answers, transact, update,
}
use deadhorse.Server.Throttling.Refines.{throttle-refines}

-- `Throttled`, OR'ed over the entries that are no peek.
pub any_throttled : List RequestEntry → List ResponseEntry → Bool
any_throttled (e ∷ es) (r ∷ rs) = (not e.peek && r.throttled) || any_throttled es rs
any_throttled _ _ = false

one_entry :
    (peek thr rest : Bool) → ((peek || not thr) && not rest) ≡ not ((not peek && thr) || rest)
one_entry peek thr rest = ground arith

pub admits-any_throttled :
    (now : ℕ) (before : State) (es : List RequestEntry) (s : State)
    → admits now es s ≡ not (any_throttled es (answers now before es s))
unfolding admits answers any_throttled
admits-any_throttled now before [] s = refl
admits-any_throttled now before (e ∷ es) s =
    rw (admits-any_throttled now before es (advance now e s)) (elim (Bool-cases e.peek) [
      | inl peek ↦ simp peek
      | inr real ↦ simp real (
          one_entry false (check_entry (s e.key) now e).throttled
            (any_throttled es (answers now before es (advance now e s))))
    ])

-- OR'ing `throttled` over the entries of a call that are no peek tells whether the call committed:
-- if it is true, no key's TAT has changed; if it is false, every one of these entries has taken
-- effect, in order.
pub throttle_all_or_none :
    (now : ℕ) (es : List RequestEntry) (st : Store)
    → IsValid st
    → (let r = throttle none now es st in
        (any_throttled es r.1 ≡ true → (k : Str) → tat_of r.0 k ≡ tat_of st k)
        × (any_throttled es r.1 ≡ false
            → (k : Str) → tat_of r.0 k ≡ advance_all now es (tat_of st) k))
unfolding transact
throttle_all_or_none now es st v =
    let (_, tats, results, _) = throttle-refines now es st v in
    let visible = admits-any_throttled now (tat_of st) es (tat_of st) in
    (
      λ any k.
          tats k
          ∙ (let e = visible ∙ ap (λ rs. not (any_throttled es rs)) (sym results) ∙ ap not any in
              simp e),
      λ any k.
          tats k
          ∙ (let e = visible ∙ ap (λ rs. not (any_throttled es rs)) (sym results) ∙ ap not any in
              simp e),
    )

-- The key of no entry that consumes.
abbrev pub Unconsumed : Str → List RequestEntry → Type 0
Unconsumed k [] = Unit
Unconsumed k (e ∷ es) = ((e.peek ≡ true) ⊎ (e.key ≢ k)) × Unconsumed k es

pub advance_ne :
    (now : ℕ) (e : RequestEntry) (s : State) (k : Str)
    → (e.peek ≡ true) ⊎ (e.key ≢ k)
    → advance now e s k ≡ s k
unfolding advance update
advance_ne now e s k (inl peek) = simp peek
advance_ne now e s k (inr ne) =
    elim (Bool-cases (e.peek || (check_entry (s e.key) now e).throttled)) [
      | inl same ↦ simp same
      | inr changed ↦ simp (changed, str_eq_ne e.key k ne)
    ]

advance_all_ne :
    (now : ℕ) (es : List RequestEntry) (s : State) (k : Str)
    → Unconsumed k es
    → advance_all now es s k ≡ s k
unfolding advance_all
advance_all_ne now [] s k u = refl
advance_all_ne now (e ∷ es) s k (h, u) =
    advance_all_ne now es (advance now e s) k u ∙ advance_ne now e s k h

-- A call changes no key but those of its entries that are no peek; peeks alone change nothing.
pub throttle-Unconsumed :
    (now : ℕ) (es : List RequestEntry) (st : Store) (k : Str)
    → IsValid st
    → Unconsumed k es
    → tat_of (throttle none now es st).0 k ≡ tat_of st k
unfolding transact
throttle-Unconsumed now es st k v u =
    let (_, tats, _, _) = throttle-refines now es st v in
    tats k ∙ (elim (Bool-cases (admits now es (tat_of st))) [
      | inl yes_all ↦ simp yes_all (advance_all_ne now es (tat_of st) k u)
      | inr not_all ↦ simp not_all
    ])
