-- ===== src/Server/Text.antt =====
-- server/textserver.go: one line of DHP/1. The throttler behind the server is a function on a state of
-- its own; `handle_throttle` passes it the entries, and the metrics are left out.
pub mod Handling
pub mod Dispatch
pub mod Command
use deadhorse.Common.{
  Bool, List, Option, [], false, if◌then◌else◌, length, map, none, replicate, set, some, true, ℕ,
  ◌++◌, ◌==◌, ◌>>=◌, ◌||◌, ◌∷◌,
}
use deadhorse.Common.Int.{is_neg, ℤ}
use deadhorse.Common.Assoc.{Str, str_eq}
use deadhorse.Common.Scatter.{positions, scatter}
use deadhorse.Types.{Failure, RequestEntry, ResponseEntry}
use deadhorse.Dhp1.{mode_text, pipe}
use deadhorse.Wire.Decimal.{append_int, parse_int}
use deadhorse.Wire.Words.{fields, join, split}

-- "ERR", "RESULT", and the others of the protocol.
abbrev pub err_text : Str
err_text = b'E' ∷ b'R' ∷ b'R' ∷ []

abbrev pub result_text : Str
result_text = b'R' ∷ b'E' ∷ b'S' ∷ b'U' ∷ b'L' ∷ b'T' ∷ []

abbrev pub throttle_text : Str
throttle_text = b'T' ∷ b'H' ∷ b'R' ∷ b'O' ∷ b'T' ∷ b'T' ∷ b'L' ∷ b'E' ∷ []

abbrev pub new_entry : Str → ℤ → ℤ → ℤ → ℤ → Bool → RequestEntry
new_entry key capacity units period cost peek = record {
  key = key;
  limit = record { capacity = capacity; rate = record { units = units; period = period } };
  cost = cost;
  peek = peek;
}

-- The end of `parseEntry`: the checks behind the numbers, and the mode.
abbrev pub entry_of : Str → ℤ → ℤ → ℤ → ℤ → Str → Option RequestEntry
entry_of key capacity units period cost mode =
    if is_neg capacity || is_neg units || is_neg period || is_neg cost
    then none
    else if str_eq mode (mode_text false)
    then some (new_entry key capacity units period cost false)
    else if str_eq mode (mode_text true)
    then some (new_entry key capacity units period cost true)
    else none

abbrev pub parse_fields : List Str → Option RequestEntry
parse_fields (key ∷ c ∷ u ∷ p ∷ k ∷ mode ∷ []) =
    if str_eq key []
    then none
    else (parse_int c >>= λ capacity. parse_int u >>= λ units. parse_int p >>= λ period.
        parse_int k >>= λ cost. entry_of key capacity units period cost mode)
parse_fields _ = none

-- `parseEntry`; `none` is `false`.
unfoldable pub parse_entry : Str → Option RequestEntry
parse_entry tok = parse_fields (split pipe tok)

-- The fields of an entry that was evaluated.
abbrev pub decision_text : ResponseEntry → Str
decision_text r =
    r.key
    ++ pipe
      ∷ (if r.throttled then b'1' else b'0')
      ∷ pipe
      ∷ (append_int r.remaining ++ pipe ∷ append_int r.retry_after)

unfoldable pub format_result : ResponseEntry → Str
format_result r = elim r.err [ some _ ↦ err_text | none ↦ decision_text r ]

-- The loop over the tokens: `entries`; and `entryOK`.
unfoldable pub parse_all : List Str → List RequestEntry
parse_all [] = []
parse_all (tok ∷ toks) =
    let rest = parse_all toks in elim (parse_entry tok) [ some e ↦ e ∷ rest | none ↦ rest ]

abbrev pub entry_ok : Str → Bool
entry_ok tok = elim (parse_entry tok) [ some _ ↦ true | none ↦ false ]

-- `results[i] = "ERR"` for each token that is no entry.
unfoldable pub mark_errors : List Str → List Str → List Str
mark_errors (tok ∷ toks) (r ∷ results) =
    let rest = mark_errors toks results in (if entry_ok tok then r else err_text) ∷ rest
mark_errors _ results = results

-- `results[idx] = "ERR"` for each index.
unfoldable pub fail_at : List ℕ → List Str → List Str
fail_at [] results = results
fail_at (i ∷ is) results = fail_at is (set results i err_text)

abbrev pub reply : List Str → Str
reply [] = result_text
reply (r ∷ results) = result_text ++ b' ' ∷ join b' ' (r ∷ results)

module _ {ℓ} {σ : Type ℓ}
    (throttler : List RequestEntry → σ → σ × List ResponseEntry × Option Failure) where
  -- The results of a call: an error, or a list of another length, fails every entry that was sent.
  abbrev pub answer_with :
      List ℕ → List RequestEntry → List Str → σ × List ResponseEntry × Option Failure → σ × List Str
  answer_with idx entries results (st, responses, some _) = (st, fail_at idx results)
  answer_with idx entries results (st, responses, none) = (
    st,
    if length responses == length entries
        then scatter idx (map format_result responses) results
        else fail_at idx results,
  )

  abbrev pub call_throttler : List ℕ → List RequestEntry → List Str → σ → σ × List Str
  call_throttler idx [] results st = (st, results)
  call_throttler idx (e ∷ entries) results st =
      answer_with idx (e ∷ entries) results (throttler (e ∷ entries) st)

  -- `handleThrottle`: the state behind the server, and the response.
  unfoldable pub handle_throttle : Str → σ → σ × Str
  handle_throttle rest st =
      let tokens = fields rest in
      let (st', results) =
        call_throttler (positions entry_ok 0 tokens) (parse_all tokens)
          (replicate (length tokens) []) st in
      (st', reply (mark_errors tokens results))
