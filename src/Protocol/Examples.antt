-- ===== src/Protocol/Examples.antt =====
-- Runs of the text protocol of server/textserver.go and client/conn.go, and the theorems about it on a
-- small line.
use mathlib.Core.List.{cons-ne-nil}
use deadhorse.Common.{
  List, Option, [], arith, false, length, map, none, refl, some, true, ℕ, ◌++◌, ◌+◌, ◌∷◌, ◌≡◌, ◌≢◌,
  ◌≤◌,
}
use deadhorse.Common.Int.{negsuc, pos}
use deadhorse.Common.Assoc.{Str, str_eq}
use deadhorse.Types.{
  Failure, RequestEntry, ResponseEntry, blank_entry, blank_response, effective_cost,
  effective_units,
}
use deadhorse.Dhp1.{is_key_delimiter, is_space, pipe}
use deadhorse.Fnv1a.{bytes_of, rune_bytes}
use deadhorse.Wire.Decimal.{
  append_int, digits_from, is_digit, parse_digits, parse_int, parse_unsigned, signed,
}
use deadhorse.Wire.Words.{fields, split}
use deadhorse.Client.Wire.{
  decode_result, decode_token, encode_entries, encode_entry, encode_throttle,
}
use deadhorse.Client.Wire.RoundTrip.{
  IsSendable, decode_token-format_result, normalised, parse_entry-encode_entry, received,
}
use deadhorse.Server.Text.{
  err_text, format_result, handle_throttle, new_entry, parse_all, parse_entry, reply,
}
use deadhorse.Server.Text.Dispatch.{
  dispatch, drop_word, handle_conn, handle_hello, handle_stats, missing_version, normalize_command,
  ping_text, quit_text, serve_line, split_command, stats_text, take_word, trim_left, unknown_text,
  unsupported_version,
}
use deadhorse.Server.Text.Handling.{answer_lines, handle_throttle-answer_lines}
use deadhorse.Protocol.Response.{all_received}
use deadhorse.Protocol.Exchange.{serve_line-decode_result}
use deadhorse.Server.Store.{Store, new_store}
use deadhorse.Server.Store.Tats.{IsValid, tat_of}
use deadhorse.Server.Store.Collection.{new_store-IsValid}
use deadhorse.Server.Throttling.{throttle}
use deadhorse.Server.Throttling.Spec.{answers, transact}
use deadhorse.Protocol.System.{serve_line-transact}
use deadhorse.Server.Throttling.Range.{InTime}
use deadhorse.Protocol.Pipeline.{decode_lines, handle_conn-run_batches, run_batches}

-- A throttler that counts its calls and throttles every entry, to be retried after a number of
-- nanoseconds that is negative.
abbrev refusals : List RequestEntry → List ResponseEntry
refusals [] = []
refusals (e ∷ es) =
    record blank_response { key = e.key; throttled = true; retry_after = negsuc 6 } ∷ refusals es

abbrev counting : List RequestEntry → ℕ → ℕ × List ResponseEntry × Option Failure
counting es n = (n + 1, refusals es, none)

-- Cost and rate omitted; and a peek.
abbrev first : RequestEntry
first = record blank_entry {
  key = b'k' ∷ [];
  limit = record { capacity = pos 12; rate = record { units = negsuc 3; period = pos 5 } };
}

abbrev second : RequestEntry
second = record first { key = b'm' ∷ b'n' ∷ []; cost = pos 9; peek = true }

first-IsSendable : IsSendable first
unfolding is_key_delimiter is_space
first-IsSendable =
    ((refl, tt), cons-ne-nil b'k' [], omega arith, omega arith, omega arith, omega arith)

second-IsSendable : IsSendable second
unfolding is_key_delimiter is_space
second-IsSendable = (
  (refl, (refl, tt)),
  cons-ne-nil b'm' (b'n' ∷ []),
  omega arith,
  omega arith,
  omega arith,
  omega arith,
)

line_fits : length (bytes_of (encode_throttle (first ∷ second ∷ []))) ≤ 100
unfolding bytes_of rune_bytes encode_throttle encode_entries encode_entry append_int digits_from
    effective_units effective_cost
line_fits = omega arith

run_parse :
    (parse_int (b'-' ∷ b'0' ∷ b'7' ∷ []) ≡ some (negsuc 6))
    × (parse_int (b'+' ∷ []) ≡ none)
    × (parse_int (b'1' ∷ b'x' ∷ []) ≡ none)
unfolding parse_int parse_unsigned parse_digits signed is_digit
run_parse = (refl, refl, refl)

run_label : (normalize_command ping_text ≡ ping_text) × (normalize_command err_text ≡ unknown_text)
unfolding normalize_command str_eq
run_label = (refl, refl)

run_quit : dispatch counting (pos 8) (pos 2) (b' ' ∷ quit_text) 4 ≡ (4, [], true)
unfolding dispatch split_command trim_left take_word drop_word is_space str_eq
run_quit = refl

run_stats :
    dispatch counting (pos 8) (pos 20) stats_text 4
    ≡ (4, stats_text ++ b' ' ∷ b'8' ∷ b' ' ∷ b'2' ∷ b'0' ∷ [], false)
unfolding dispatch split_command trim_left take_word drop_word is_space str_eq handle_stats
    append_int digits_from
run_stats = refl

run_hello :
    (handle_hello [] ≡ missing_version) × (handle_hello (b' ' ∷ b'2' ∷ []) ≡ unsupported_version)
unfolding handle_hello fields is_space str_eq
run_hello = (refl, refl)

serve_line-decode_result_example :
    (response : Str) × (serve_line counting
        (pos 0)
        (pos 0)
        100
        (encode_throttle (first ∷ second ∷ []))
        4
      ≡ (5, some response, false))
    × (decode_result response (first ∷ second ∷ [])
        ≡ some (all_received (first ∷ second ∷ []) (refusals (first ∷ second ∷ []))))
serve_line-decode_result_example =
    serve_line-decode_result counting (pos 0) (pos 0) 100 first (second ∷ []) 4 5
      (refusals (first ∷ second ∷ [])) (first-IsSendable, (second-IsSendable, tt)) line_fits refl
      ((refl, omega arith, omega arith), ((refl, omega arith, omega arith), tt))

parse_entry-encode_entry_example : parse_entry (encode_entry first) ≡ some (normalised first)
parse_entry-encode_entry_example = parse_entry-encode_entry first first-IsSendable

decode_token-format_result_example :
    decode_token second (format_result (record blank_response { key = b'm' ∷ b'n' ∷ [] }))
    ≡ some (received second (record blank_response { key = b'm' ∷ b'n' ∷ [] }))
decode_token-format_result_example =
    decode_token-format_result second (record blank_response { key = b'm' ∷ b'n' ∷ [] })
      second-IsSendable.0 (refl, omega arith, omega arith)

-- A malformed token, and an entry.
abbrev mixed : Str
mixed =
    b' ' ∷ b'x' ∷ b' ' ∷ b'k' ∷ pipe ∷ b'2' ∷ pipe ∷ b'1' ∷ pipe ∷ b'5' ∷ pipe ∷ b'1' ∷ pipe ∷ b'R'
    ∷ []

mixed_entries :
    parse_all (fields mixed) ≡ new_entry (b'k' ∷ []) (pos 2) (pos 1) (pos 5) (pos 1) false ∷ []
unfolding fields is_space parse_all parse_entry split parse_int parse_unsigned parse_digits signed
    is_digit str_eq
mixed_entries = refl

handle_throttle-answer_lines_example :
    (let e = new_entry (b'k' ∷ []) (pos 2) (pos 1) (pos 5) (pos 1) false in
      let answer = counting (e ∷ []) 4 in
      handle_throttle counting mixed 4
      ≡ (answer.0, reply (answer_lines counting (fields mixed) (e ∷ []) answer)))
handle_throttle-answer_lines_example =
    handle_throttle-answer_lines counting mixed 4
      (new_entry (b'k' ∷ []) (pos 2) (pos 1) (pos 5) (pos 1) false) [] mixed_entries

tab_line : trim_left (ping_text ++ 9 ∷ []) ≢ []
unfolding trim_left is_space
tab_line = cons-ne-nil b'P' (b'I' ∷ b'N' ∷ b'G' ∷ 9 ∷ [])

empty-InTime : InTime (tat_of (new_store (pos 4)))
empty-InTime k = rw ((new_store-IsValid (pos 4)).1 k) (omega arith)

serve_line-transact_example :
    (st' : Store) × (response : Str) × (serve_line
        (throttle none 1000)
        (pos 0)
        (pos 0)
        100
        (encode_throttle (first ∷ second ∷ []))
        (new_store (pos 4))
      ≡ (st', some response, false))
    × IsValid st'
    × ((k : Str)
        → tat_of st' k
          ≡ transact 1000 (map normalised (first ∷ second ∷ [])) (tat_of (new_store (pos 4))) k)
    × (decode_result response (first ∷ second ∷ [])
        ≡ some (
            answers 1000
              (tat_of (new_store (pos 4)))
              (map normalised (first ∷ second ∷ []))
              (tat_of (new_store (pos 4)))))
serve_line-transact_example =
    serve_line-transact 1000 (omega arith) (pos 0) (pos 0) 100 first (second ∷ [])
      (new_store (pos 4)) (new_store-IsValid (pos 4)).0 empty-InTime
      (first-IsSendable, (second-IsSendable, tt)) line_fits

handle_conn-run_batches_example :
    (let batches = (first ∷ second ∷ []) ∷ (first ∷ second ∷ []) ∷ [] in
      let r = handle_conn counting (pos 0) (pos 0) 100 (map encode_throttle batches) 4 in
      (r.0 ≡ (run_batches counting (pos 0) (pos 0) 100 batches 4).0)
      × (length r.1 ≡ length batches)
      × (decode_lines r.1 batches
          ≡ map some (run_batches counting (pos 0) (pos 0) 100 batches 4).1))
handle_conn-run_batches_example =
    handle_conn-run_batches counting (pos 0) (pos 0) 100
      ((first ∷ second ∷ []) ∷ (first ∷ second ∷ []) ∷ []) 4
      (
        (first-IsSendable, (second-IsSendable, tt)),
        line_fits,
        refl,
        ((refl, omega arith, omega arith), ((refl, omega arith, omega arith), tt)),
        (
          (first-IsSendable, (second-IsSendable, tt)),
          line_fits,
          refl,
          ((refl, omega arith, omega arith), ((refl, omega arith, omega arith), tt)),
          tt,
        ),
      )
