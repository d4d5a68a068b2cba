-- ===== src/Client/Conn/Delivered.antt =====
-- A call that the shard answers.
use deadhorse.Common.{
  Bool, Bool-cases, List, [], ap, if◌then◌else◌, inl, inr, length, refl, suc, true, ◌∷◌, ◌≡◌,
}
use deadhorse.Common.Scatter.{positions, scatter, scatter-weave, weave}
use deadhorse.Types.{RequestEntry, ResponseEntry, blank_response, invalid_key}
use deadhorse.Client.Breaker.{Breaker, allow, record_success}
use deadhorse.Client.Conn.{
  Clock, Ended, attempt, delivered, exchange, record_outcome, throttle, throttle_valid, unanswered,
}
use deadhorse.Client.Conn.Results.{is_valid, key_errors, throttle-eq, valid_entries, validated}

-- The results of a call whose valid entries were answered: for each entry in order, the refusal of
-- its key, or the next answer.
pub answered_results : List RequestEntry → List ResponseEntry → List ResponseEntry
answered_results [] answers = []
answered_results (e ∷ es) [] =
    (if is_valid e then blank_response else unanswered true invalid_key e) ∷ answered_results es []
answered_results (e ∷ es) (r ∷ answers) =
    let later = answered_results es answers in
    let kept = answered_results es (r ∷ answers) in
    if is_valid e then r ∷ later else unanswered true invalid_key e ∷ kept

validated-answered_results : (es : List RequestEntry) → validated es ≡ answered_results es []
unfolding answered_results
validated-answered_results [] = refl
validated-answered_results (e ∷ es) =
    ap (◌∷◌ (if is_valid e then blank_response else unanswered true invalid_key e))
      (validated-answered_results es)

weave-answered_results :
    (es : List RequestEntry) (answers : List ResponseEntry)
    → weave is_valid es answers (validated es) ≡ answered_results es answers
unfolding weave answered_results
weave-answered_results [] answers = refl
weave-answered_results (e ∷ es) [] =
    ap (◌∷◌ (if is_valid e then blank_response else unanswered true invalid_key e))
      (validated-answered_results es)
weave-answered_results (e ∷ es) (r ∷ answers) = elim (Bool-cases (is_valid e)) [
  | inl ok ↦ simp ok (ap (◌∷◌ r) (weave-answered_results es answers))
  | inr bad ↦
      simp bad (ap (◌∷◌ (unanswered true invalid_key e)) (weave-answered_results es (r ∷ answers)))
]

length-validated : (es : List RequestEntry) → length (validated es) ≡ length es
length-validated [] = refl
length-validated (e ∷ es) = ap suc (length-validated es)

module _ (clock : Clock) (fail_open : Bool) (network : List RequestEntry → Bool × Ended)
    (b : Breaker) where
  throttle_valid_delivered :
      (es : List RequestEntry) (v : RequestEntry) (valid : List RequestEntry) (caller_done : Bool)
      (answers : List ResponseEntry)
      → network (v ∷ valid) ≡ (caller_done, delivered answers)
      → (allow clock.asked b).1 ≡ true
      → throttle_valid clock fail_open network es
          (validated es, v ∷ valid, positions is_valid 0 es, key_errors es)
          b
        ≡ (
          record_success (allow clock.asked b).0,
          scatter (positions is_valid 0 es) answers (validated es),
          key_errors es,
        )
  unfolding throttle_valid attempt exchange record_outcome
  throttle_valid_delivered es v valid caller_done answers hn go = rw (go, hn)

  -- A call that the breaker lets through and the shard answers: each valid entry has the shard's
  -- answer at its own place, each invalid key is refused there, the only errors are those of the
  -- keys, and the breaker records a success, even if the caller's context is done by then.
  pub throttle_delivered :
      (es : List RequestEntry) (v : RequestEntry) (valid : List RequestEntry) (caller_done : Bool)
      (answers : List ResponseEntry)
      → valid_entries es ≡ v ∷ valid
      → network (v ∷ valid) ≡ (caller_done, delivered answers)
      → (allow clock.asked b).1 ≡ true
      → throttle clock fail_open network es b
        ≡ (record_success (allow clock.asked b).0, answered_results es answers, key_errors es)
  throttle_delivered es v valid caller_done answers hv hn go = rw (
    throttle-eq clock fail_open network b es,
    hv,
    throttle_valid_delivered es v valid caller_done answers hn go,
    scatter-weave is_valid es answers (validated es) (length-validated es),
    weave-answered_results es answers,
  )
