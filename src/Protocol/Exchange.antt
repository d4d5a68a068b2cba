-- ===== src/Protocol/Exchange.antt =====
-- One exchange: the client's line, the server's round, and the client's reading of the response.
use deadhorse.Common.{
  ==_iff, List, Option, [], ap, false, length, length-map, le→ltb, map, none, refl, some, suc, true,
  ℕ, ◌++◌, ◌∙◌, ◌∷◌, ◌≡◌, ◌≤◌,
}
use deadhorse.Common.Int.{ℤ}
use deadhorse.Common.Assoc.{Str, str_eq}
use deadhorse.Types.{Failure, RequestEntry, ResponseEntry}
use deadhorse.Dhp1.{is_space}
use deadhorse.Fnv1a.{bytes_of}
use deadhorse.Wire.Words.{IsWord, ends_word}
use deadhorse.Client.Wire.{decode_result, encode_entries, encode_entry, encode_throttle, newline}
use deadhorse.Client.Wire.RoundTrip.{normalised, parse_entry-encode_entry}
use deadhorse.Server.Text.{format_result, handle_throttle, parse_all, reply, throttle_text}
use deadhorse.Server.Text.Dispatch.{dispatch, read_line, serve_line, written}
use deadhorse.Server.Text.Command.{split_command-word, trim_left-IsWord_append}
use deadhorse.Server.Text.Handling.{handle_throttle-answer_lines, placed, placed_ok}
use deadhorse.Protocol.Request.{
  AllSendable, fields-encode_entries, parse_all-encode_entry, trim-encode_throttle,
}
use deadhorse.Protocol.Response.{AllAnswers, all_received, decode_result-reply, length-AllAnswers}

throttle_text-IsWord : IsWord throttle_text
unfolding is_space
throttle_text-IsWord = (refl, (refl, (refl, (refl, (refl, (refl, (refl, (refl, tt))))))))

encode_entries-ends_word : (es : List RequestEntry) → ends_word (encode_entries es) ≡ true
unfolding encode_entries is_space
encode_entries-ends_word [] = refl
encode_entries-ends_word (e ∷ es) = refl

placed-nil_left : (values : List Str) → placed [] values ≡ []
unfolding placed
placed-nil_left values = refl

placed-encode_entry :
    (es : List RequestEntry) (rs : List ResponseEntry)
    → AllSendable es
    → AllAnswers es rs
    → placed (map encode_entry es) (map format_result rs) ≡ map format_result rs
placed-encode_entry [] [] h a = placed-nil_left []
placed-encode_entry [] (r ∷ rs) h a = elim a [ ]
placed-encode_entry (e ∷ es) [] h a = elim a [ ]
placed-encode_entry (e ∷ es) (r ∷ rs) (h, hs) (a, others) =
    placed_ok (encode_entry e) (format_result r) (map encode_entry es) (map format_result rs)
      (ap (λ o. elim o [ some _ ↦ true | none ↦ false ]) (parse_entry-encode_entry e h))
    ∙ ap (◌∷◌ (format_result r)) (placed-encode_entry es rs hs others)

read_line-encode_throttle :
    (max_size : ℕ) (e : RequestEntry) (es : List RequestEntry)
    → AllSendable (e ∷ es)
    → length (bytes_of (encode_throttle (e ∷ es))) ≤ max_size
    → read_line max_size (encode_throttle (e ∷ es))
      ≡ some (throttle_text ++ encode_entries (e ∷ es))
unfolding read_line
read_line-encode_throttle max_size e es h fits =
    rw (le→ltb max_size (length (bytes_of (encode_throttle (e ∷ es)))) fits)
      (ap some (trim-encode_throttle e es h))

module _ {ℓ} {σ : Type ℓ}
    (throttler : List RequestEntry → σ → σ × List ResponseEntry × Option Failure)
    (uptime keys : ℤ) where
  handle_throttle-encode_entries :
      (e : RequestEntry) (es : List RequestEntry) (st st' : σ) (rs : List ResponseEntry)
      → AllSendable (e ∷ es)
      → throttler (map normalised (e ∷ es)) st ≡ (st', rs, none)
      → AllAnswers (e ∷ es) rs
      → handle_throttle throttler (encode_entries (e ∷ es)) st ≡ (st', reply (map format_result rs))
  handle_throttle-encode_entries e es st st' rs h run a =
      let toks = fields-encode_entries (e ∷ es) h in
      handle_throttle-answer_lines throttler (encode_entries (e ∷ es)) st (normalised e)
        (map normalised es) (ap parse_all toks ∙ parse_all-encode_entry (e ∷ es) h)
      ∙ rw (
        run,
        toks,
        length-map es normalised,
        length-AllAnswers (e ∷ es) rs a,
        (==_iff (suc (length es)) (suc (length es))).1 refl,
        placed-encode_entry (e ∷ es) rs h a,
      )

  dispatch-throttle_text :
      (rest : Str) (st : σ)
      → ends_word rest ≡ true
      → (let r = handle_throttle throttler rest st in
          dispatch throttler uptime keys (throttle_text ++ rest) st ≡ (r.0, r.1, false))
  unfolding dispatch str_eq
  dispatch-throttle_text rest st ends =
      rw (split_command-word throttle_text rest throttle_text-IsWord ends)

  serve_line-throttle_text :
      (max_size : ℕ) (buf rest : Str) (st : σ)
      → read_line max_size buf ≡ some (throttle_text ++ rest)
      → ends_word rest ≡ true
      → (let r = handle_throttle throttler rest st in
          serve_line throttler uptime keys max_size buf st
          ≡ (r.0, written throttler uptime keys r.1, false))
  unfolding serve_line str_eq
  serve_line-throttle_text max_size buf rest st read ends = rw (
    serve_line,
    read,
    trim_left-IsWord_append throttle_text rest throttle_text-IsWord,
    dispatch-throttle_text rest st ends,
  )

  written-reply :
      (ws : List Str) → written throttler uptime keys (reply ws) ≡ some (reply ws ++ newline ∷ [])
  unfolding str_eq
  written-reply [] = refl
  written-reply (w ∷ ws) = refl

  -- From end to end: the client sends a line of entries that DHP/1 can carry, within the server's
  -- limit on a line; the server runs its throttler once, on these entries with their omitted costs
  -- and rates filled in, and keeps the connection; and from the line that it writes the client reads
  -- the throttler's answers, each for its own entry and in order.
  pub serve_line-decode_result :
      (max_size : ℕ) (e : RequestEntry) (es : List RequestEntry) (st st' : σ)
      (rs : List ResponseEntry)
      → AllSendable (e ∷ es)
      → length (bytes_of (encode_throttle (e ∷ es))) ≤ max_size
      → throttler (map normalised (e ∷ es)) st ≡ (st', rs, none)
      → AllAnswers (e ∷ es) rs
      → (response : Str) × (serve_line throttler uptime keys max_size (encode_throttle (e ∷ es)) st
          ≡ (st', some response, false))
        × (decode_result response (e ∷ es) ≡ some (all_received (e ∷ es) rs))
  serve_line-decode_result max_size e es st st' rs h fits run a =
      let response = reply (map format_result rs) ++ newline ∷ [] in
      (
        response,
        serve_line-throttle_text max_size (encode_throttle (e ∷ es)) (encode_entries (e ∷ es)) st
              (read_line-encode_throttle max_size e es h fits) (encode_entries-ends_word (e ∷ es))
            ∙ rw (
              handle_throttle-encode_entries e es st st' rs h run a,
              written-reply (map format_result rs),
            ),
        decode_result-reply (e ∷ es) rs h a,
      )
