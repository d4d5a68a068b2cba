-- ===== src/Server/Throttling/Evaluate.antt =====
-- The loop of evaluateRealGroup over the indices of a group, against the chain of the specification.
use deadhorse.Common.{
  Bool, Bool-cases, List, [], ap, append_assoc, arith, false, get_or, get_or-middle, if◌then◌else◌,
  inl, inr, length, length-append, not, refl, set, some, true, ℕ, ◌&&◌, ◌++◌, ◌+◌, ◌∙◌, ◌∷◌, ◌≡◌,
}
use deadhorse.Common.Assoc.{Dict, Str, insert, lookup, str_eq}
use deadhorse.Common.Scatter.{positions, set-middle}
use deadhorse.Types.{RequestEntry, ResponseEntry}
use deadhorse.Server.Throttling.{check_entry, entry_at, evaluate, keyed, report, working_at}
use deadhorse.Server.Throttling.Spec.{State, admits, advance, advance_all, answers, update}
use deadhorse.Server.Throttling.Group.{Present, insert-Present}
use deadhorse.Server.Throttling.Working.{Backed, insert-Backed, overlay, overlay-insert}

abbrev pub is_real : RequestEntry → Bool
is_real e = not e.peek

abbrev pub real_keys : List RequestEntry → List Str
real_keys [] = []
real_keys (e ∷ es) = if e.peek then real_keys es else e.key ∷ real_keys es

-- The results when the group is reached: the peeks are done.
abbrev pub first_results : ℕ → State → List RequestEntry → List ResponseEntry
first_results now before [] = []
first_results now before (e ∷ es) =
    (if e.peek then report (check_entry (before e.key) now e) (keyed e.key) else keyed e.key)
    ∷ first_results now before es

pub record Evaluated (now : ℕ) (before s : State) (es : List RequestEntry) (admit : Bool)
    (done : List ResponseEntry) (buckets : Dict ℕ) (r : Dict ℕ × Bool × List ResponseEntry)
    : Type 0 where
  pub decided : r.1 ≡ (admit && admits now es s)
  pub answered : r.2 ≡ done ++ answers now before es s
  pub tats : (k : Str) → overlay r.0 before k ≡ advance_all now es s k
  pub backed : Backed r.0 buckets

working_at-overlay :
    (working : Dict ℕ) (before s : State) (k : Str)
    → (b : ℕ) × (lookup k working ≡ some b)
    → overlay working before k ≡ s k
    → working_at working k ≡ s k
working_at-overlay working before s k (b, e) h = ground arith

evaluate-cons :
    (entries : List RequestEntry) (now i : ℕ) (is : List ℕ) (working : Dict ℕ) (admit : Bool)
    (result : List ResponseEntry)
    → evaluate entries now (i ∷ is) working admit result ≡ (
        let e = entry_at entries i in
        let v = check_entry (working_at working e.key) now e in
        evaluate entries now is
          (if v.throttled then working else insert e.key v.admitted_tat working)
          (if v.throttled then false else admit)
          (set result i (report v (get_or result i (keyed [])))))
unfolding evaluate
evaluate-cons entries now i is working admit result = refl

all_or_none :
    (thr admit rest : Bool)
    → ((if thr then false else admit) && rest) ≡ (admit && (not thr && rest))
all_or_none thr admit rest = ground arith

round-Present :
    (thr : Bool) (k : Str) (tat : ℕ) (working : Dict ℕ) (ks : List Str)
    → Present ks working
    → Present ks (if thr then working else insert k tat working)
round-Present true k tat working ks h = h
round-Present false k tat working ks h = insert-Present ks k tat working h

module _ (now : ℕ) (before : State) (buckets : Dict ℕ) where
  round-Backed :
      (thr : Bool) (k : Str) (tat : ℕ) (working : Dict ℕ) (b : ℕ)
      → Backed working buckets
      → lookup k buckets ≡ some b
      → Backed (if thr then working else insert k tat working) buckets
  round-Backed true k tat working b back e = back
  round-Backed false k tat working b back e = insert-Backed k tat working buckets b back e

  -- One round on an entry that is no peek.
  evaluate_round :
      (e : RequestEntry) (es pre : List RequestEntry) (is : List ℕ) (done rs : List ResponseEntry)
      (n tat : ℕ) (working : Dict ℕ) (admit : Bool)
      → length pre ≡ n
      → length done ≡ n
      → working_at working e.key ≡ tat
      → evaluate (pre ++ e ∷ es) now (n ∷ is) working admit (done ++ keyed e.key ∷ rs) ≡ (
          let v = check_entry tat now e in
          evaluate
            ((pre ++ e ∷ []) ++ es)
            now
            is
            (if v.throttled then working else insert e.key v.admitted_tat working)
            (if v.throttled then false else admit)
            ((done ++ report v (keyed e.key) ∷ []) ++ rs))
  evaluate_round e es pre is done rs n tat working admit hp hd ht =
      evaluate-cons (pre ++ e ∷ es) now n is working admit (done ++ keyed e.key ∷ rs)
      ∙ rw (
        get_or-middle pre e es n _ hp,
        get_or-middle done (keyed e.key) rs n _ hd,
        ht,
        set-middle done (keyed e.key) _ rs n hd,
        append_assoc pre (e ∷ []) es,
        append_assoc done _ rs,
      )

  Evaluated-peek :
      (e : RequestEntry) (es : List RequestEntry) (done : List ResponseEntry) (admit : Bool)
      (s : State) (r : Dict ℕ × Bool × List ResponseEntry)
      → e.peek ≡ true
      → Evaluated now before s es admit
          (done ++ report (check_entry (before e.key) now e) (keyed e.key) ∷ [])
          buckets
          r
      → Evaluated now before s (e ∷ es) admit done buckets r
  unfolding admits answers advance_all advance
  Evaluated-peek e es done admit s r peek v = record {
    decided = simp peek v.decided;
    answered = simp peek (v.answered ∙ append_assoc done _ _);
    tats = λ k. simp peek (v.tats k);
    backed = v.backed;
  }

  Evaluated-real :
      (e : RequestEntry) (es : List RequestEntry) (done : List ResponseEntry) (admit : Bool)
      (s : State) (r : Dict ℕ × Bool × List ResponseEntry)
      → e.peek ≡ false
      → (let v = check_entry (s e.key) now e in
          Evaluated now before
            (advance now e s)
            es
            (if v.throttled then false else admit)
            (done ++ report v (keyed e.key) ∷ [])
            buckets
            r)
      → Evaluated now before s (e ∷ es) admit done buckets r
  unfolding admits answers advance_all
  Evaluated-real e es done admit s r real v = record {
    decided =
        v.decided
        ∙ simp real (
            all_or_none (check_entry (s e.key) now e).throttled admit
              (admits now es (advance now e s)));
    answered = simp real (v.answered ∙ append_assoc done _ _);
    tats = λ k. v.tats k;
    backed = v.backed;
  }

  -- The working copy after a round is the state that the entry leaves.
  overlay-advance :
      (e : RequestEntry) (working : Dict ℕ) (s : State)
      → e.peek ≡ false
      → ((k : Str) → overlay working before k ≡ s k)
      → (k : Str)
      → (let v = check_entry (s e.key) now e in
          overlay (if v.throttled then working else insert e.key v.admitted_tat working) before k)
        ≡ advance now e s k
  unfolding advance update
  overlay-advance e working s real over k =
      simp real (elim (Bool-cases (check_entry (s e.key) now e).throttled) [
        | inl thr ↦ simp thr (over k)
        | inr adm ↦ simp adm (
            overlay-insert e.key (check_entry (s e.key) now e).admitted_tat working before k
            ∙ ap
                (λ (t : ℕ).
                  if str_eq e.key k then (check_entry (s e.key) now e).admitted_tat else t)
                (over k))
      ])

  pub evaluate-Evaluated :
      (es pre : List RequestEntry) (done : List ResponseEntry) (n : ℕ) (working : Dict ℕ)
      (admit : Bool) (s : State)
      → length pre ≡ n
      → length done ≡ n
      → Present (real_keys es) working
      → Present (real_keys es) buckets
      → Backed working buckets
      → ((k : Str) → overlay working before k ≡ s k)
      → Evaluated now before s es admit done buckets (
          evaluate
            (pre ++ es)
            now
            (positions is_real n es)
            working
            admit
            (done ++ first_results now before es))
  unfolding positions admits answers advance_all
  evaluate-Evaluated [] pre done n working admit s hp hd hw hb back over =
      unfold evaluate in
      record { decided = ground arith; answered = refl; tats = over; backed = back }
  evaluate-Evaluated (e ∷ es) pre done n working admit s hp hd hw hb back over =
      elim (Bool-cases e.peek) [
        | inl peek ↦ Evaluated-peek e es done admit s _ peek (
            simp peek (
              rw
                (
                  ← append_assoc pre (e ∷ []) es,
                  ← append_assoc done (_ ∷ []) (first_results now before es),
                )
                (evaluate-Evaluated es (pre ++ e ∷ []) (done ++ _ ∷ []) (n + 1) working admit s
                  (omega (arith, length-append pre (e ∷ [])))
                  (omega (arith, length-append done (_ ∷ []))) (simp peek at hw) (simp peek at hb)
                  back over)))
        | inr real ↦
            let v = check_entry (s e.key) now e in
            let ((b, found), rest) = simp real at hw in
            let ((c, found'), rest') = simp real at hb in
            Evaluated-real e es done admit s _ real (
              simp real (
                rw
                  (evaluate_round e es pre (positions is_real (n + 1) es) done
                    (first_results now before es) n (s e.key) working admit hp hd
                    (working_at-overlay working before s e.key (b, found) (over e.key)))
                  (evaluate-Evaluated es (pre ++ e ∷ []) (done ++ report v (keyed e.key) ∷ [])
                    (n + 1) (if v.throttled then working else insert e.key v.admitted_tat working)
                    (if v.throttled then false else admit) (advance now e s)
                    (omega (arith, length-append pre (e ∷ [])))
                    (omega (arith, length-append done (report v (keyed e.key) ∷ [])))
                    (round-Present v.throttled e.key v.admitted_tat working (real_keys es) rest)
                    rest' (round-Backed v.throttled e.key v.admitted_tat working c back found')
                    (overlay-advance e working s real over))))
      ]
