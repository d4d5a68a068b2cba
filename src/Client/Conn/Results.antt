-- ===== src/Client/Conn/Results.antt =====
-- The results of a call: always one for each entry, in order.
use mathlib.Core.List.{cons-ne-nil}
use deadhorse.Common.{
  Bool, Bool-cases, List, Option, [], ap, append_assoc, arith, false, get_or, get_or-middle,
  if◌then◌else◌, inl, inr, length, length-append, none, not, refl, set, some, true, ℕ, ◌++◌, ◌+◌,
  ◌∙◌, ◌∷◌, ◌≡◌,
}
use deadhorse.Types.{
  Failure, RequestEntry, ResponseEntry, blank_entry, blank_response, circuit_open, invalid_key,
}
use deadhorse.Client.Conn.{
  Clock, Ended, attempt, delivered, delivered_error, fill, not_submitted, throttle, throttle_valid,
  unanswered, valid_key, validate, wait_over,
}
use deadhorse.Common.Scatter.{positions, set-middle}
use deadhorse.Client.Breaker.{Breaker, allow}

abbrev pub is_valid : RequestEntry → Bool
is_valid e = valid_key e.key

-- The results when the keys are validated.
abbrev pub validated : List RequestEntry → List ResponseEntry
validated [] = []
validated (e ∷ es) =
    (if is_valid e then blank_response else unanswered true invalid_key e) ∷ validated es

abbrev pub valid_entries : List RequestEntry → List RequestEntry
valid_entries [] = []
valid_entries (e ∷ es) = if is_valid e then e ∷ valid_entries es else valid_entries es

abbrev pub key_errors : List RequestEntry → List Failure
key_errors [] = []
key_errors (e ∷ es) = if is_valid e then key_errors es else invalid_key ∷ key_errors es

validate-eq :
    (i : ℕ) (es : List RequestEntry)
    → validate i es ≡ (validated es, valid_entries es, positions is_valid i es, key_errors es)
unfolding validate positions
validate-eq i [] = refl
validate-eq i (e ∷ es) = elim (Bool-cases (is_valid e)) [
  | inl ok ↦ simp (ok, validate-eq (i + 1) es)
  | inr bad ↦ simp (bad, validate-eq (i + 1) es)
]

-- One result for each entry, when the valid ones were not answered.
pub refused_all : Bool → Failure → List RequestEntry → List ResponseEntry
refused_all throttled err [] = []
refused_all throttled err (e ∷ es) =
    (if is_valid e then unanswered throttled err e else unanswered true invalid_key e)
    ∷ refused_all throttled err es

fill-cons :
    (f : RequestEntry → ResponseEntry) (entries : List RequestEntry) (i : ℕ) (is : List ℕ)
    (results : List ResponseEntry)
    → fill f entries (i ∷ is) results
      ≡ fill f entries is (set results i (f (get_or entries i blank_entry)))
unfolding fill
fill-cons f entries i is results = refl

fill-refused_all :
    (throttled : Bool) (err : Failure) (es pre : List RequestEntry) (done : List ResponseEntry)
    (n : ℕ)
    → length pre ≡ n
    → length done ≡ n
    → fill (unanswered throttled err) (pre ++ es) (positions is_valid n es) (done ++ validated es)
      ≡ done ++ refused_all throttled err es
unfolding positions refused_all
fill-refused_all throttled err [] pre done n hp hd = unfold fill in refl
fill-refused_all throttled err (e ∷ es) pre done n hp hd =
    let f = unanswered throttled err in
    let go = λ (r : ResponseEntry).
      fill-refused_all throttled err es (pre ++ e ∷ []) (done ++ r ∷ []) (n + 1)
        (omega (arith, length-append pre (e ∷ []))) (omega (arith, length-append done (r ∷ []))) in
    elim (Bool-cases (is_valid e)) [
      | inl ok ↦ simp ok (
          fill-cons f (pre ++ e ∷ es) n (positions is_valid (n + 1) es)
            (done ++ blank_response ∷ validated es)
          ∙ rw
              (
                get_or-middle pre e es n blank_entry hp,
                set-middle done blank_response (f e) (validated es) n hd,
                ← append_assoc pre (e ∷ []) es,
                ← append_assoc done (f e ∷ []) (validated es),
              )
              (go (f e) ∙ append_assoc done (f e ∷ []) (refused_all throttled err es)))
      | inr bad ↦
          let r = unanswered true invalid_key e in
          simp bad (
            rw (← append_assoc pre (e ∷ []) es, ← append_assoc done (r ∷ []) (validated es))
              (go r ∙ append_assoc done (r ∷ []) (refused_all throttled err es)))
    ]

-- The error of an exchange that brought no results.
abbrev pub ended_error : Ended → Option Failure
ended_error (not_submitted err) = some err
ended_error (delivered answers) = none
ended_error (delivered_error err) = some err
ended_error (wait_over err) = some err

-- With no valid entry nothing is left to answer.
refused_all-none_valid :
    (throttled : Bool) (err : Failure) (es : List RequestEntry)
    → valid_entries es ≡ []
    → validated es ≡ refused_all throttled err es
unfolding refused_all
refused_all-none_valid throttled err [] h = refl
refused_all-none_valid throttled err (e ∷ es) h = elim (Bool-cases (is_valid e)) [
  | inl ok ↦ absurd (cons-ne-nil e (valid_entries es) (simp ok at h))
  | inr bad ↦ simp bad (
      ap (◌∷◌ (unanswered true invalid_key e))
        (refused_all-none_valid throttled err es (simp bad at h)))
]

fill-refused_by :
    (throttled : Bool) (x err : Failure) (es : List RequestEntry)
    → some x ≡ some err
    → fill (unanswered throttled x) es (positions is_valid 0 es) (validated es)
      ≡ refused_all throttled err es
fill-refused_by throttled x err es h =
    fill-refused_all throttled x es [] [] 0 refl refl
    ∙ (let same : x ≡ err = cc in ap (λ y. refused_all throttled y es) same)

attempt_unanswered :
    (clock : Clock) (fail_open caller_done : Bool) (entries : List RequestEntry) (b : Breaker)
    (err : Failure) (ended : Ended) (errs : List Failure)
    → ended_error ended ≡ some err
    → (attempt clock fail_open entries
        (validated entries, positions is_valid 0 entries, errs)
        (caller_done, ended)
        b).1
      ≡ refused_all (not fail_open) err entries
unfolding attempt
attempt_unanswered clock fo done es b err (not_submitted x) errs h =
    fill-refused_by (not fo) x err es h
attempt_unanswered clock fo done es b err (delivered x) errs h = cc
attempt_unanswered clock fo done es b err (delivered_error x) errs h =
    fill-refused_by (not fo) x err es h
attempt_unanswered clock fo done es b err (wait_over x) errs h = fill-refused_by (not fo) x err es h

module _ (clock : Clock) (fail_open : Bool) (network : List RequestEntry → Bool × Ended)
    (b : Breaker) where
  pub throttle-eq :
      (es : List RequestEntry)
      → throttle clock fail_open network es b
        ≡ throttle_valid clock fail_open network es
            (validated es, valid_entries es, positions is_valid 0 es, key_errors es)
            b
  unfolding throttle
  throttle-eq es = rw (validate-eq 0 es)

  throttle_valid_unanswered :
      (es valid : List RequestEntry) (caller_done : Bool) (ended : Ended) (err : Failure)
      → valid_entries es ≡ valid
      → network valid ≡ (caller_done, ended)
      → ended_error ended ≡ some err
      → (throttle_valid clock fail_open network es
          (validated es, valid, positions is_valid 0 es, key_errors es)
          b).1
        ≡ refused_all (not fail_open) (if (allow clock.asked b).1 then err else circuit_open) es
  unfolding throttle_valid
  throttle_valid_unanswered es [] caller_done ended err hv hn he = refused_all-none_valid _ _ es hv
  throttle_valid_unanswered es (e ∷ valid) caller_done ended err hv hn he =
      elim (Bool-cases (allow clock.asked b).1) [
        | inl go ↦
            rw (go, hn)
              (attempt_unanswered clock fail_open caller_done es _ err ended (key_errors es) he)
        | inr stop ↦ rw stop (fill-refused_all (not fail_open) circuit_open es [] [] 0 refl refl)
      ]

  -- When the exchange fails, in whatever way, or the breaker refuses the call, there is still one
  -- result for each entry in order: an entry with an invalid key is throttled as such, and every
  -- other one carries the error, throttled exactly if the client fails closed.
  pub throttle_unanswered :
      (es : List RequestEntry) (caller_done : Bool) (ended : Ended) (err : Failure)
      → network (valid_entries es) ≡ (caller_done, ended)
      → ended_error ended ≡ some err
      → (throttle clock fail_open network es b).1
        ≡ refused_all (not fail_open) (if (allow clock.asked b).1 then err else circuit_open) es
  throttle_unanswered es caller_done ended err hn he =
      rw (throttle-eq es)
        (throttle_valid_unanswered es (valid_entries es) caller_done ended err refl hn he)

  throttle_valid_refused :
      (es valid : List RequestEntry)
      → valid_entries es ≡ valid
      → allow clock.asked b ≡ (b, false)
      → (let r =
            throttle_valid clock fail_open network es
              (validated es, valid, positions is_valid 0 es, key_errors es)
              b in
          (r.0 ≡ b) × (r.1 ≡ refused_all (not fail_open) circuit_open es))
  unfolding throttle_valid
  throttle_valid_refused es [] hv h = (refl, refused_all-none_valid _ _ es hv)
  throttle_valid_refused es (e ∷ valid) hv h =
      rw h (refl, fill-refused_all (not fail_open) circuit_open es [] [] 0 refl refl)

  -- A call that the breaker refuses.
  pub throttle_refused :
      (es : List RequestEntry)
      → allow clock.asked b ≡ (b, false)
      → ((throttle clock fail_open network es b).0 ≡ b)
        × ((throttle clock fail_open network es b).1 ≡ refused_all (not fail_open) circuit_open es)
  throttle_refused es h = rw (throttle-eq es) (throttle_valid_refused es (valid_entries es) refl h)

-- A call whose caller gives up leaves the breaker as `allow` left it.
pub throttle_cancelled :
    (clock : Clock) (fail_open : Bool) (b : Breaker) (e : RequestEntry) (es : List RequestEntry)
    (err : Failure) {asked : Breaker}
    → valid_key e.key ≡ true
    → allow clock.asked b ≡ (asked, true)
    → (throttle clock fail_open (λ _. (true, wait_over err)) (e ∷ es) b).0 ≡ asked
unfolding throttle_valid attempt
throttle_cancelled clock fail_open b e es err k h =
    rw (throttle-eq clock fail_open (λ _. (true, wait_over err)) b (e ∷ es)) (simp (k, h))
