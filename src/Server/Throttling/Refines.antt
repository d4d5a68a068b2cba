-- ===== src/Server/Throttling/Refines.antt =====
-- A Throttle call implements the specification.
use mathlib.Core.Path.{fun_ext}
use deadhorse.Common.{
  Bool, Bool-cases, List, Option, [], ap, append_assoc, arith, false, get_or-middle, if◌then◌else◌,
  inl, inr, length, length-append, ltb, lt→ltb, map, none, refl, suc, sym, true, ℕ, ◌++◌, ◌+◌, ◌∙◌,
  ◌∷◌, ◌≡◌,
}
use deadhorse.Common.Assoc.{Dict, Str}
use deadhorse.Common.Scatter.{positions}
use deadhorse.Types.{Failure, RequestEntry, ResponseEntry}
use deadhorse.Server.Store.{Store, touch}
use deadhorse.Server.Store.Tats.{IsValid, read_tat-touch, tat_of, tat_of-touch, touch-IsValid}
use deadhorse.Server.Throttling.{
  check_entry, commit, entry_at, evaluate, evaluate_real_group, group_buckets, keyed, report,
  scan_entries, throttle, working_tats,
}
use deadhorse.Server.Throttling.Spec.{State, admits, answers, transact}
use deadhorse.Server.Throttling.Evaluate.{
  Evaluated, evaluate-Evaluated, first_results, is_real, real_keys,
}
use deadhorse.Server.Throttling.Group.{Linked, Linked-nil, Present, group_buckets-Grouped}
use deadhorse.Server.Throttling.Working.{
  commit-Committed, overlay-working_tats, working_tats-Backed, working_tats-Present,
}

-- What the loop over the entries yields.
pub record Scanned (now i : ℕ) (es : List RequestEntry) (st : Store)
    (r : Store × List ResponseEntry × List ℕ) : Type 0 where
  valid : IsValid r.0
  tats : (k : Str) → tat_of r.0 k ≡ tat_of st k
  results : r.1 ≡ first_results now (tat_of st) es
  pub indices : r.2 ≡ positions is_real i es

pub scan_entries-Scanned :
    (now i : ℕ) (es : List RequestEntry) (st : Store)
    → IsValid st
    → Scanned now i es st (scan_entries now i es st)
unfolding scan_entries positions
scan_entries-Scanned now i [] st v = record {
  valid = v;
  tats = λ k. refl;
  results = refl;
  indices = refl;
}
scan_entries-Scanned now i (e ∷ es) st v = elim (Bool-cases e.peek) [
  | inl peek ↦
      let s = scan_entries-Scanned now (i + 1) es (touch e.key st).0 (touch-IsValid st e.key v) in
      let same : tat_of (touch e.key st).0 ≡ tat_of st = fun_ext (tat_of-touch st e.key v) in
      record {
        valid = simp peek s.valid;
        tats = λ k. simp peek (s.tats k ∙ tat_of-touch st e.key v k);
        results =
            simp (peek, read_tat-touch st e.key v)
              (ap (◌∷◌ (report (check_entry (tat_of st e.key) now e) (keyed e.key)))
                (s.results ∙ ap (λ f. first_results now f es) same));
        indices = simp peek s.indices;
      }
  | inr real ↦
      let s = scan_entries-Scanned now (i + 1) es st v in
      record {
        valid = simp real s.valid;
        tats = λ k. simp real (s.tats k);
        results = simp real (ap (◌∷◌ (keyed e.key)) s.results);
        indices = simp real (ap (◌∷◌ i) s.indices);
      }
]

pub map-positions :
    (es pre : List RequestEntry) (n : ℕ)
    → length pre ≡ n
    → map (λ i. (entry_at (pre ++ es) i).key) (positions is_real n es) ≡ real_keys es
unfolding positions
map-positions [] pre n h = refl
map-positions (e ∷ es) pre n h =
    let rest =
      rw (append_assoc pre (e ∷ []) es) at
        (map-positions es (pre ++ e ∷ []) (n + 1) (omega (arith, length-append pre (e ∷ [])))) in
    elim (Bool-cases e.peek) [
      | inl peek ↦ simp peek rest
      | inr real ↦ simp (real, get_or-middle pre e es n _ h) (ap (◌∷◌ e.key) rest)
    ]

-- What a call comes to.
pub record Refines (now : ℕ) (es : List RequestEntry) (st : Store) (r : Store × List ResponseEntry)
    : Type 0 where
  pub valid : IsValid r.0
  pub tats : (k : Str) → tat_of r.0 k ≡ transact now es (tat_of st) k
  pub results : r.1 ≡ answers now (tat_of st) es (tat_of st)

abbrev final_store : Dict ℕ → Store → Dict ℕ × Bool × List ResponseEntry → Store
final_store buckets st r = if r.1 then commit buckets r.0 st else st

finish-Refines :
    (now : ℕ) (es : List RequestEntry) (st : Store) (buckets : Dict ℕ)
    (r : Dict ℕ × Bool × List ResponseEntry)
    → IsValid st
    → Linked buckets st
    → Evaluated now (tat_of st) (tat_of st) es true [] buckets r
    → Refines now es st (final_store buckets st r, r.2)
unfolding transact
finish-Refines now es st buckets r v link ev =
    let c = commit-Committed buckets r.0 st v link ev.backed in
    elim (Bool-cases r.1) [
      | inl all ↦
          let passed : admits now es (tat_of st) ≡ true = sym ev.decided ∙ all in
          record {
            valid = simp all c.valid;
            tats = λ k. simp (all, passed) (c.tats k ∙ ev.tats k);
            results = ev.answered;
          }
      | inr none_of ↦
          let failed : admits now es (tat_of st) ≡ false = sym ev.decided ∙ none_of in
          record {
            valid = simp none_of v;
            tats = λ k. simp (none_of, failed);
            results = ev.answered;
          }
    ]

-- The group, once its buckets are there.
grouped-Refines :
    (now : ℕ) (es : List RequestEntry) (st : Store) (buckets : Dict ℕ)
    → IsValid st
    → Linked buckets st
    → Present (real_keys es) buckets
    → (let r =
          evaluate es now
            (positions is_real 0 es)
            (working_tats st buckets)
            true
            (first_results now (tat_of st) es) in
        Refines now es st (final_store buckets st r, r.2))
grouped-Refines now es st buckets v link present = finish-Refines now es st buckets _ v link (
    evaluate-Evaluated now (tat_of st) buckets es [] [] 0 (working_tats st buckets) true (tat_of st)
      refl refl (working_tats-Present st (real_keys es) buckets present) present
      (working_tats-Backed st buckets) (λ k. overlay-working_tats st buckets k link))

same_state-Refines :
    (now : ℕ) (es : List RequestEntry) (st st' : Store) (r : Store × List ResponseEntry)
    → ((k : Str) → tat_of st' k ≡ tat_of st k)
    → Refines now es st' r
    → Refines now es st r
same_state-Refines now es st st' r same f =
    let e : tat_of st' ≡ tat_of st = fun_ext same in
    record {
      valid = f.valid;
      tats = λ k. f.tats k ∙ ap (λ s. transact now es s k) e;
      results = f.results ∙ ap (λ s. answers now s es s) e;
    }

evaluate_real_group-Refines :
    (now : ℕ) (es : List RequestEntry) (st : Store) (s : State)
    → IsValid st
    → s ≡ tat_of st
    → Refines now es st
        (evaluate_real_group es (positions is_real 0 es) now (first_results now s es) st)
unfolding evaluate_real_group
evaluate_real_group-Refines now es st s v e =
    let g = group_buckets-Grouped (real_keys es) st [] v (Linked-nil st) in
    let touched = (group_buckets (real_keys es) st []).0 in
    let e' : s ≡ tat_of touched = e ∙ sym (fun_ext g.same_tats) in
    rw (map-positions es [] 0 refl, e')
      (same_state-Refines now es st touched _ g.same_tats
        (grouped-Refines now es touched _ g.valid g.linked g.present))

-- With no index there is no group, and evaluating it would change nothing.
evaluate_real_group-nil :
    (es : List RequestEntry) (now : ℕ) (result : List ResponseEntry) (st : Store)
    → evaluate_real_group es [] now result st ≡ (st, result)
unfolding evaluate_real_group group_buckets evaluate working_tats commit
evaluate_real_group-nil es now result st = refl

abbrev pub no_error : Store × List ResponseEntry → Store × List ResponseEntry × Option Failure
no_error r = (r.0, r.1, none)

skip-nil :
    (es : List RequestEntry) (now : ℕ) (result : List ResponseEntry) (st : Store) (is : List ℕ)
    → (if ltb 0 (length is)
        then no_error (evaluate_real_group es is now result st)
        else no_error (st, result))
      ≡ no_error (evaluate_real_group es is now result st)
skip-nil es now result st [] = ap no_error (sym (evaluate_real_group-nil es now result st))
skip-nil es now result st (i ∷ is) = rw (lt→ltb 0 (suc (length is)) (omega arith))

pub throttle-eq :
    (now : ℕ) (es : List RequestEntry) (st : Store)
    → (let r = scan_entries now 0 es st in
        throttle none now es st ≡ no_error (evaluate_real_group es r.2 now r.1 r.0))
unfolding throttle
throttle-eq now es st =
    let (st', result, is) = scan_entries now 0 es st in skip-nil es now result st' is

-- A call that is not cancelled keeps the store valid, leaves every key the TAT that the
-- specification gives it, returns the specification's answers in the order of the entries, and no
-- error; stripes, generations, index lists and the working copy do not show.
pub throttle-refines :
    (now : ℕ) (es : List RequestEntry) (st : Store)
    → IsValid st
    → (let r = throttle none now es st in
        IsValid r.0
        × ((k : Str) → tat_of r.0 k ≡ transact now es (tat_of st) k)
        × (r.1 ≡ answers now (tat_of st) es (tat_of st))
        × (r.2 ≡ none))
throttle-refines now es st v =
    let s = scan_entries-Scanned now 0 es st v in
    let scanned = (scan_entries now 0 es st).0 in
    let f =
      same_state-Refines now es st scanned _ s.tats
        (evaluate_real_group-Refines now es scanned (tat_of st) s.valid (sym (fun_ext s.tats))) in
    rw (throttle-eq now es st, s.indices, s.results) (f.valid, f.tats, f.results, refl)
