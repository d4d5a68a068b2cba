-- ===== src/Server/Text/Handling.antt =====
-- What handleThrottle makes of a line, malformed tokens and failing throttlers included.
use deadhorse.Common.{
  Bool-cases, List, Option, [], ap, arith, false, if◌then◌else◌, inl, inr, length, length-replicate,
  map, none, refl, replicate, set, some, true, ℕ, ◌+◌, ◌==◌, ◌∙◌, ◌∷◌, ◌≡◌,
}
use deadhorse.Common.Assoc.{Str}
use deadhorse.Common.Scatter.{positions, scatter, scatter-weave, weave}
use deadhorse.Server.Text.{
  answer_with, entry_ok, err_text, fail_at, format_result, handle_throttle, mark_errors, parse_all,
  reply,
}
use deadhorse.Types.{Failure, RequestEntry, ResponseEntry}
use deadhorse.Wire.Words.{fields}

-- The results of the tokens in order: the values for those that are entries, ERR for the others.
unfoldable pub placed : List Str → List Str → List Str
placed [] values = []
placed (tok ∷ toks) [] = (if entry_ok tok then [] else err_text) ∷ placed toks []
placed (tok ∷ toks) (v ∷ values) =
    let rest = placed toks values in
    let later = placed toks (v ∷ values) in if entry_ok tok then v ∷ rest else err_text ∷ later

mark_errors-blank :
    (toks : List Str) → mark_errors toks (replicate (length toks) []) ≡ placed toks []
unfolding mark_errors placed
mark_errors-blank [] = refl
mark_errors-blank (tok ∷ toks) =
    ap (◌∷◌ (if entry_ok tok then [] else err_text)) (mark_errors-blank toks)

mark_errors-weave :
    (toks values : List Str)
    → mark_errors toks (weave entry_ok toks values (replicate (length toks) []))
      ≡ placed toks values
unfolding mark_errors placed weave
mark_errors-weave [] values = refl
mark_errors-weave (tok ∷ toks) [] =
    ap (◌∷◌ (if entry_ok tok then [] else err_text)) (mark_errors-blank toks)
mark_errors-weave (tok ∷ toks) (v ∷ values) = elim (Bool-cases (entry_ok tok)) [
  | inl ok ↦ simp ok (ap (◌∷◌ v) (mark_errors-weave toks values))
  | inr bad ↦ simp bad (ap (◌∷◌ err_text) (mark_errors-weave toks (v ∷ values)))
]

mark_errors-scatter :
    (toks values : List Str)
    → mark_errors toks (scatter (positions entry_ok 0 toks) values (replicate (length toks) []))
      ≡ placed toks values
mark_errors-scatter toks values =
    ap (mark_errors toks) (
      scatter-weave entry_ok toks values (replicate (length toks) [])
        (length-replicate (length toks) []))
    ∙ mark_errors-weave toks values

-- ERR for every token.
abbrev pub all_errors : List Str → List Str
all_errors [] = []
all_errors (tok ∷ toks) = err_text ∷ all_errors toks

abbrev errors_at : List ℕ → List Str
errors_at [] = []
errors_at (i ∷ is) = err_text ∷ errors_at is

fail_at-scatter :
    (is : List ℕ) (results : List Str) → fail_at is results ≡ scatter is (errors_at is) results
unfolding fail_at scatter
fail_at-scatter [] results = refl
fail_at-scatter (i ∷ is) results = fail_at-scatter is (set results i err_text)

placed_bad :
    (tok : Str) (toks values : List Str)
    → entry_ok tok ≡ false
    → placed (tok ∷ toks) values ≡ err_text ∷ placed toks values
unfolding placed
placed_bad tok toks [] bad = simp bad
placed_bad tok toks (v ∷ values) bad = simp bad

pub placed_ok :
    (tok v : Str) (toks values : List Str)
    → entry_ok tok ≡ true
    → placed (tok ∷ toks) (v ∷ values) ≡ v ∷ placed toks values
unfolding placed
placed_ok tok v toks values ok = simp ok

placed_errors :
    (toks : List Str) (n : ℕ)
    → placed toks (errors_at (positions entry_ok n toks)) ≡ all_errors toks
unfolding positions
placed_errors [] n = unfold placed in refl
placed_errors (tok ∷ toks) n = elim (Bool-cases (entry_ok tok)) [
  | inl ok ↦ simp ok (
      placed_ok tok err_text toks (errors_at (positions entry_ok (n + 1) toks)) ok
      ∙ ap (◌∷◌ err_text) (placed_errors toks (n + 1)))
  | inr bad ↦ simp bad (
      placed_bad tok toks (errors_at (positions entry_ok (n + 1) toks)) bad
      ∙ ap (◌∷◌ err_text) (placed_errors toks (n + 1)))
]

mark_errors-fail_at :
    (toks : List Str)
    → mark_errors toks (fail_at (positions entry_ok 0 toks) (replicate (length toks) []))
      ≡ all_errors toks
mark_errors-fail_at toks =
    let is = positions entry_ok 0 toks in
    ap (mark_errors toks) (fail_at-scatter is (replicate (length toks) []))
    ∙ mark_errors-scatter toks (errors_at is)
    ∙ placed_errors toks 0

parse_all_cases :
    (tok : Str) (toks : List Str)
    → parse_all (tok ∷ toks) ≡ []
    → (entry_ok tok ≡ false) × (parse_all toks ≡ [])
unfolding parse_all
parse_all_cases tok toks h = ground arith

placed-nil : (toks : List Str) → parse_all toks ≡ [] → placed toks [] ≡ all_errors toks
placed-nil [] h = unfold placed in refl
placed-nil (tok ∷ toks) h =
    let (bad, none_left) = parse_all_cases tok toks h in
    placed_bad tok toks [] bad ∙ ap (◌∷◌ err_text) (placed-nil toks none_left)

module _ {ℓ} {σ : Type ℓ}
    (throttler : List RequestEntry → σ → σ × List ResponseEntry × Option Failure) where
  -- The results of a line whose entries were answered in some way.
  abbrev pub answer_lines :
      List Str → List RequestEntry → σ × List ResponseEntry × Option Failure → List Str
  answer_lines toks es (st, responses, some _) = all_errors toks
  answer_lines toks es (st, responses, none) =
      if length responses == length es
      then placed toks (map format_result responses)
      else all_errors toks

  marked-answer_with :
      (toks : List Str) (es : List RequestEntry) (answer : σ × List ResponseEntry × Option Failure)
      → (let r =
            answer_with throttler
              (positions entry_ok 0 toks)
              es
              (replicate (length toks) [])
              answer in
          (r.0 ≡ answer.0) × (mark_errors toks r.1 ≡ answer_lines toks es answer))
  marked-answer_with toks es (st, responses, some x) = (refl, mark_errors-fail_at toks)
  marked-answer_with toks es (st, responses, none) =
      elim (Bool-cases (length responses == length es)) [
        | inl same ↦ simp same (refl, mark_errors-scatter toks (map format_result responses))
        | inr apart ↦ simp apart (refl, mark_errors-fail_at toks)
      ]

  -- A line with an entry on it: the throttler gets the well-formed entries of the line, in one call,
  -- and the response has one result for each token, in order: ERR for a malformed one, and for the
  -- others the throttler's responses in order; or ERR for all, if the throttler fails or answers
  -- with another number of responses.
  pub handle_throttle-answer_lines :
      (rest : Str) (st : σ) (e : RequestEntry) (es : List RequestEntry)
      → parse_all (fields rest) ≡ e ∷ es
      → (let answer = throttler (e ∷ es) st in
          handle_throttle throttler rest st
          ≡ (answer.0, reply (answer_lines (fields rest) (e ∷ es) answer)))
  unfolding handle_throttle
  handle_throttle-answer_lines rest st e es h =
      let toks = fields rest in
      let (kept, lines) = marked-answer_with toks (e ∷ es) (throttler (e ∷ es) st) in
      rw (h, kept, lines)

  -- A line without a well-formed entry does not reach the throttler, and reads ERR for each token.
  pub handle_throttle-nil :
      (rest : Str) (st : σ)
      → parse_all (fields rest) ≡ []
      → handle_throttle throttler rest st ≡ (st, reply (all_errors (fields rest)))
  unfolding handle_throttle
  handle_throttle-nil rest st h =
      rw (h, mark_errors-blank (fields rest), placed-nil (fields rest) h)
