-- ===== src/Client/Wire.antt =====
-- client/conn.go: the line that a call sends, and how its answer is read.
pub mod RoundTrip
use deadhorse.Common.{
  List, Option, [], if◌then◌else◌, length, none, not, some, true, ℕ, ◌&&◌, ◌++◌, ◌==◌, ◌>>=◌, ◌||◌,
  ◌∷◌,
}
use deadhorse.Common.Int.{is_neg, pos}
use deadhorse.Common.Assoc.{Str, str_eq}
use deadhorse.Types.{RequestEntry, ResponseEntry, effective_cost, effective_units, entry_rejected}
use deadhorse.Dhp1.{mode_text, pipe}
use deadhorse.Wire.Decimal.{append_int, parse_int}
use deadhorse.Wire.Words.{fields, split}

abbrev pub newline : ℕ
newline = 10

abbrev pub carriage_return : ℕ
carriage_return = 13

abbrev pub command_text : Str
command_text = b'T' ∷ b'H' ∷ b'R' ∷ b'O' ∷ b'T' ∷ b'T' ∷ b'L' ∷ b'E' ∷ []

-- One entry, behind its blank.
unfoldable pub encode_entry : RequestEntry → Str
encode_entry e =
    e.key
    ++ pipe
      ∷ (append_int e.limit.capacity
          ++ pipe
            ∷ (append_int (effective_units e.limit.rate.units)
                ++ pipe
                  ∷ (append_int e.limit.rate.period
                      ++ pipe ∷ (append_int (effective_cost e.cost) ++ pipe ∷ mode_text e.peek))))

-- The loop of `encodeThrottle`.
unfoldable pub encode_entries : List RequestEntry → Str
encode_entries [] = []
encode_entries (e ∷ es) = b' ' ∷ (encode_entry e ++ encode_entries es)

unfoldable pub encode_throttle : List RequestEntry → Str
encode_throttle es = command_text ++ encode_entries es ++ newline ∷ []

-- `TrimRight(line, "\r\n")`.
unfoldable pub trim_right : Str → Str
trim_right [] = []
trim_right (c ∷ s) =
    let rest = trim_right s in
    if str_eq rest [] && (c == newline || c == carriage_return) then [] else c ∷ rest

-- The fields of a result token that is not ERR.
abbrev pub decode_fields : RequestEntry → List Str → Option ResponseEntry
decode_fields e (key ∷ throttled ∷ remaining ∷ retry ∷ []) =
    if not (str_eq key e.key)
    then none
    else (parse_int remaining >>= λ n. parse_int retry >>= λ d.
        if is_neg n
        then none
        else some (record {
          key = e.key;
          throttled = str_eq throttled (b'1' ∷ []);
          remaining = n;
          retry_after = d;
          err = none;
        }))
decode_fields e _ = none

unfoldable pub decode_token : RequestEntry → Str → Option ResponseEntry
decode_token e tok =
    if str_eq tok (b'E' ∷ b'R' ∷ b'R' ∷ [])
    then some (record {
      key = e.key;
      throttled = true;
      remaining = pos 0;
      retry_after = pos 0;
      err = some entry_rejected;
    })
    else decode_fields e (split pipe tok)

-- The loop over the tokens, which are as many as the entries.
unfoldable pub decode_tokens : List RequestEntry → List Str → Option (List ResponseEntry)
decode_tokens (e ∷ es) (tok ∷ toks) =
    let rest = decode_tokens es toks in decode_token e tok >>= λ r. rest >>= λ rs. some (r ∷ rs)
decode_tokens _ _ = some []

abbrev pub decode_words : List RequestEntry → List Str → Option (List ResponseEntry)
decode_words es [] = none
decode_words es (w ∷ toks) =
    if str_eq w (b'R' ∷ b'E' ∷ b'S' ∷ b'U' ∷ b'L' ∷ b'T' ∷ [])
    then if length toks == length es then decode_tokens es toks else none
    else none

-- `decodeResult`; `none` is an error.
unfoldable pub decode_result : Str → List RequestEntry → Option (List ResponseEntry)
decode_result line es = decode_words es (fields (trim_right line))
