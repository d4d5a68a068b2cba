-- ===== src/Server/Limit/Retention.antt =====
-- The limit on a key where the GC interval is long enough.
use native.Mathlib.Nat.{mul-add, mul-le-mul_left, mul-lt-mul_of_pos_left, mul-zero}
use deadhorse.Common.{
  Bool, Bool-cases, List, Option-cases, [], ap, arith, false, inl, inr, lt_or_le, none, not, refl,
  sym, true, ℕ, ◌*◌, ◌+◌, ◌-◌, ◌<◌, ◌||◌, ◌∙◌, ◌∷◌, ◌≡◌, ◌≤◌, ◌⊎◌,
}
use deadhorse.Common.Int.{max_int64, ℤ}
use deadhorse.Common.Assoc.{Str}
use deadhorse.Types.{RequestEntry}
use deadhorse.Gcra.Window.{admitted_debt}
use deadhorse.Server.Throttling.{check_entry, throttle}
use deadhorse.Server.Throttling.Spec.{State, admits, advance, advance_all}
use deadhorse.Server.Throttling.Evaluate.{real_keys}
use deadhorse.Server.Throttling.Transaction.{
  admits-any_throttled, advance_ne, any_throttled, throttle_all_or_none,
}
use deadhorse.Server.Throttling.Touched.{IsHot, has_key, throttle-IsHot}
use deadhorse.Server.Limit.{StoreEvent, called, collected, consumes, cost_of, run_store}
use deadhorse.Server.Limit.Conforms.{
  AllLimited, HasLimit, IsPaced, admits-cons, advance_consumed, check_entry-limit, consumes-false,
  consumes-true, run_store-conforms,
}
use deadhorse.Server.Store.{Store, collect, new_store}
use deadhorse.Server.Store.Tats.{IsValid, tat_of}
use deadhorse.Server.Store.Lookup.{find_hot}
use deadhorse.Server.Store.Collection.{collect-IsValid, new_store-IsValid, tat_of-collect_le}
use deadhorse.Server.Throttling.Refines.{throttle-refines}

module _ (capacity units p : ℕ) (hu : 0 < units) (hp : 0 < p) (hc : capacity ≤ max_int64)
    (k : Str) where
  -- The bucket has drained by `at` and a full bucket's time.
  abbrev DrainsBy : (at tat : ℕ) → Type 0
  DrainsBy at tat = units * tat ≤ units * at + capacity * p

  DrainsBy-later : (at at' tat : ℕ) → at ≤ at' → DrainsBy at tat → DrainsBy at' tat
  DrainsBy-later at at' tat le d = omega (arith, mul-le-mul_left units le)

  -- One entry of a call that is admitted.
  advance-DrainsBy :
      (now : ℕ) (e : RequestEntry) (s : State)
      → now ≤ max_int64
      → s k ≤ max_int64
      → (consumes k e ≡ false) ⊎ HasLimit capacity units p e
      → (e.peek || not (check_entry (s e.key) now e).throttled) ≡ true
      → (advance now e s k ≤ max_int64)
        × ((advance now e s k ≡ s k) ⊎ (DrainsBy now (advance now e s k) × (consumes k e ≡ true)))
  advance-DrainsBy now e s hn hs limited ok = elim (Bool-cases (consumes k e)) [
    | inr other ↦
        let same = advance_ne now e s k (consumes-false k e other) in rw same (hs, inl refl)
    | inl mine ↦ elim limited [
      | inl other ↦ absurd (ground arith)
      | inr limit ↦
          let (real, same) = consumes-true k e mine in
          let passed : (check_entry (s e.key) now e).throttled ≡ false = ground arith in
          let exact : check_entry (s e.key) now e ≡ _ =
            ap (λ j. check_entry (s j) now e) same
            ∙ check_entry-limit capacity units p hu hp hc k (s k) now e limit in
          let (paid, bounded, fresh, kept) =
            admitted_debt capacity units p hu hp hc (s k) now (cost_of e) hs hn
              (sym (ap (λ v. v.throttled) exact) ∙ passed) in
          let next =
            ap (advance now e s) (sym same)
            ∙ advance_consumed now e s real passed
            ∙ ap (λ v. v.admitted_tat) exact in
          rw next (kept, inr (bounded, mine))
    ]
  ]

  asks : List RequestEntry → Bool
  asks es = has_key k (real_keys es)

  advance_all-DrainsBy :
      (now : ℕ) (es : List RequestEntry) (s : State)
      → now ≤ max_int64
      → s k ≤ max_int64
      → AllLimited capacity units p k es
      → admits now es s ≡ true
      → (advance_all now es s k ≤ max_int64)
        × ((advance_all now es s k ≡ s k)
            ⊎ (DrainsBy now (advance_all now es s k) × (asks es ≡ true)))
  unfolding advance_all asks
  advance_all-DrainsBy now [] s hn hs h ok = (hs, inl refl)
  advance_all-DrainsBy now (e ∷ es) s hn hs (he, h) ok =
      let (passed, later) = admits-cons now e es s ok in
      let (kept, first) = advance-DrainsBy now e s hn hs he passed in
      let (last, rest) = advance_all-DrainsBy now es (advance now e s) hn kept h later in
      (
        last,
        elim rest [
          | inr (d, asked) ↦ inr (d, ground (arith, asked))
          | inl same ↦ elim first [
            | inl same' ↦ inl (same ∙ same')
            | inr (d, mine) ↦ inr (rw same d, ground (arith, mine))
          ]
        ],
      )

  call-DrainsBy :
      (now : ℕ) (es : List RequestEntry) (st : Store)
      → IsValid st
      → now ≤ max_int64
      → tat_of st k ≤ max_int64
      → AllLimited capacity units p k es
      → (let tat = tat_of (throttle none now es st).0 k in
          (tat ≤ max_int64) × ((tat ≡ tat_of st k) ⊎ (DrainsBy now tat × (asks es ≡ true))))
  call-DrainsBy now es st v hn hs limited =
      let r = throttle none now es st in
      let (_, tats, results, _) = throttle-refines now es st v in
      let (unchanged, changed) = throttle_all_or_none now es st v in
      elim (Bool-cases (any_throttled es r.1)) [
        | inl none_of ↦ rw (unchanged none_of k) (hs, inl refl)
        | inr all ↦
            let ok : admits now es (tat_of st) ≡ true =
              admits-any_throttled now (tat_of st) es (tat_of st)
              ∙ ap (λ rs. not (any_throttled es rs)) (sym results)
              ∙ ap not all in
            rw (changed all k) (advance_all-DrainsBy now es (tat_of st) hn hs limited ok)
      ]

  -- Calls at most at `from`, and rotations at most at `last`: the bucket drains in time, and one that
  -- is not hot was last used before the last rotation.
  abbrev Fresh : (last from : ℕ) → Store → Type 0
  Fresh last from st = DrainsBy from (tat_of st k) × (IsHot k st ⊎ DrainsBy last (tat_of st k))

  -- The events are in the order of time, up to the end of the window; the entries for the key have the
  -- limit; and a rotation comes an interval or more after the one before it.
  abbrev pub IsTimed : (interval last from until : ℕ) → List StoreEvent → Type 0
  IsTimed interval last from until [] = Unit
  IsTimed interval last from until (called now es ∷ events) =
      (from ≤ now)
      × (now ≤ until)
      × AllLimited capacity units p k es
      × IsTimed interval last now until events
  IsTimed interval last from until (collected t ∷ events) =
      (from ≤ t) × (last + interval ≤ t) × IsTimed interval t t until events

  call-Fresh :
      (last from now : ℕ) (es : List RequestEntry) (st : Store)
      → from ≤ now
      → now ≤ max_int64
      → IsValid st
      → tat_of st k ≤ max_int64
      → AllLimited capacity units p k es
      → Fresh last from st
      → Fresh last now (throttle none now es st).0
  call-Fresh last from now es st le hn v hs limited (drains, cold) =
      let (hot_kept, hot_asked) = throttle-IsHot k now es st v in
      let (_, changed) = call-DrainsBy now es st v hn hs limited in
      elim changed [
        | inr (d, asked) ↦ (d, inl (hot_asked (unfold asks in asked)))
        | inl same ↦ (
          rw same (DrainsBy-later from now (tat_of st k) le drains),
          elim cold [ inl hot ↦ inl (hot_kept hot) | inr d ↦ inr (rw same d) ],
        )
      ]

  drained :
      (interval last t tat : ℕ)
      → capacity * p ≤ units * interval
      → last + interval ≤ t
      → DrainsBy last tat
      → tat ≤ t
  drained interval last t tat enough le d = elim (lt_or_le t tat) [
    | inr fits ↦ fits
    | inl over ↦ absurd (
        omega (
          arith,
          mul-lt-mul_of_pos_left over hu,
          mul-le-mul_left units le,
          mul-add units last interval,
        ))
  ]

  collect-Fresh :
      (interval last from t : ℕ) (st : Store)
      → capacity * p ≤ units * interval
      → from ≤ t
      → last + interval ≤ t
      → IsValid st
      → Fresh last from st
      → Fresh t t (collect st) × ((tat_of (collect st) k ≡ tat_of st k) ⊎ (tat_of st k ≤ t))
  collect-Fresh interval last from t st enough le apart v (drains, cold) =
      elim (Option-cases (find_hot k st)) [
        | inr (b, hot) ↦
            let same = (collect-IsValid st v).1 k ∙ rw hot refl in
            let d = DrainsBy-later from t (tat_of st k) le drains in
            ((rw same d, inr (rw same d)), inl same)
        | inl gone ↦
            let empty : tat_of (collect st) k ≡ 0 = (collect-IsValid st v).1 k ∙ rw gone refl in
            let d : DrainsBy t 0 = omega (arith, mul-zero units) in
            (
              (rw empty d, inr (rw empty d)),
              elim cold [
                | inl (b, hot) ↦ cc
                | inr before ↦ inr (drained interval last t (tat_of st k) enough apart before)
              ],
            )
      ]

  IsTimed-IsPaced :
      (interval last from until : ℕ) (events : List StoreEvent) (st : Store)
      → capacity * p ≤ units * interval
      → until ≤ max_int64
      → IsValid st
      → tat_of st k ≤ max_int64
      → Fresh last from st
      → IsTimed interval last from until events
      → IsPaced capacity units p k from until events st
  IsTimed-IsPaced interval last from until [] st enough range v hs f timed = tt
  IsTimed-IsPaced interval last from until (called now es ∷ events) st enough range v hs f
        (le, hi, limited, timed) =
      let st' = (throttle none now es st).0 in
      let (kept, _) = call-DrainsBy now es st v (omega arith) hs limited in
      (
        le,
        hi,
        limited,
        IsTimed-IsPaced interval last now until events st' enough range
            (throttle-refines now es st v).0 kept
            (call-Fresh last from now es st le (omega arith) v hs limited f) timed,
      )
  IsTimed-IsPaced interval last from until (collected t ∷ events) st enough range v hs f
        (le, apart, timed) =
      let (f', dropped) = collect-Fresh interval last from t st enough le apart v f in
      let low = tat_of-collect_le st k v in
      (
        le,
        dropped,
        IsTimed-IsPaced interval t t until events (collect st) enough range (collect-IsValid st v).0
            (omega arith) f' timed,
      )

  -- Where the GC interval is at least the time in which a full bucket of the limit drains, capacity
  -- times period over units, the limit on a key is enforced from the start of the store on: whatever
  -- calls come, with any other keys, peeks, repeated keys and costs in them, with the rotations an
  -- interval or more apart between them, the units of the key that callers are granted are no more
  -- than a full bucket and what drains since the start. The clock does not run backwards, and all
  -- entries for the key agree on its limit.
  pub gc_interval-conforms :
      (n : ℤ) (events : List StoreEvent) (interval from until : ℕ)
      → capacity * p ≤ units * interval
      → from ≤ until
      → until ≤ max_int64
      → IsTimed interval from from until events
      → (run_store k events (new_store n)).1 * p ≤ capacity * p + units * (until - from)
  gc_interval-conforms n events interval from until enough h range timed =
      let (v, empty) = new_store-IsValid n in
      let start : Fresh from from (new_store n) = (
        rw (empty k) (omega (arith, mul-zero units)),
        inr (rw (empty k) (omega (arith, mul-zero units))),
      ) in
      let low : tat_of (new_store n) k ≤ max_int64 = rw (empty k) (omega arith) in
      run_store-conforms capacity units p hu hp hc k events from until (new_store n) h range v low (
        IsTimed-IsPaced interval from from until events (new_store n) enough range v low start
          timed)
