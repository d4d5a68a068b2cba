-- ===== src/Protocol/Response.antt =====
-- The line of a response, as the client splits it.
use deadhorse.Common.{
  ==_iff, Bool, Bool-cases, List, Option-cases, [], ap, append-nil, arith, false, if◌then◌else◌,
  inl, inr, length, length-map, map, none, refl, some, subst, suc, sym, true, ℕ, ◌&&◌, ◌++◌, ◌==◌,
  ◌||◌, ◌∙◌, ◌∷◌, ◌≡◌, ◌≢◌,
}
use deadhorse.Common.Assoc.{Str, str_eq, str_eq_iff, str_eq_refl}
use deadhorse.Types.{Failure, RequestEntry, ResponseEntry}
use deadhorse.Dhp1.{is_space, pipe}
use deadhorse.Wire.Decimal.{Clean, append_int, append_int-Clean}
use deadhorse.Wire.Words.{
  AllWords, Clean-NoSpace, IsWord, NoSpace, NoSpace-pipe, ends_word, fields, fields-ext, fields-nil,
  fields-space, fields-spaced, fields-word, join-spaced, spaced, spaced-ends_word,
}
use deadhorse.Client.Wire.{carriage_return, decode_result, decode_tokens, newline, trim_right}
use deadhorse.Client.Wire.RoundTrip.{IsAnswer, decode_token-format_result, received}
use deadhorse.Server.Text.{decision_text, err_text, format_result, reply, result_text}
use deadhorse.Protocol.Request.{AllSendable, key-IsWord}

-- One answer for each entry, in order.
abbrev pub AllAnswers : List RequestEntry → List ResponseEntry → Type 0
AllAnswers [] [] = Unit
AllAnswers (e ∷ es) (r ∷ rs) = IsAnswer e r × AllAnswers es rs
AllAnswers _ _ = ⊥

abbrev pub all_received : List RequestEntry → List ResponseEntry → List ResponseEntry
all_received (e ∷ es) (r ∷ rs) = received e r ∷ all_received es rs
all_received _ _ = []

pub length-AllAnswers :
    (es : List RequestEntry) (rs : List ResponseEntry) → AllAnswers es rs → length rs ≡ length es
length-AllAnswers [] [] h = refl
length-AllAnswers [] (r ∷ rs) h = elim h [ ]
length-AllAnswers (e ∷ es) [] h = elim h [ ]
length-AllAnswers (e ∷ es) (r ∷ rs) (h, hs) = ap suc (length-AllAnswers es rs hs)

err_text-IsWord : IsWord err_text
unfolding is_space
err_text-IsWord = (refl, (refl, (refl, tt)))

flag-NoSpace : (t : Bool) (s : Str) → NoSpace s → NoSpace ((if t then b'1' else b'0') ∷ pipe ∷ s)
unfolding is_space
flag-NoSpace true s h = (refl, (refl, h))
flag-NoSpace false s h = (refl, (refl, h))

decision_text-IsWord : (r : ResponseEntry) → r.key ≢ [] → Clean r.key → IsWord (decision_text r)
decision_text-IsWord r ne h = key-IsWord r.key _ ne h (
    flag-NoSpace r.throttled _ (
      NoSpace-pipe (append_int r.remaining) _ (append_int-Clean r.remaining)
        (Clean-NoSpace (append_int r.retry_after) (append_int-Clean r.retry_after))))

format_result-fine : (r : ResponseEntry) → r.err ≡ none → format_result r ≡ decision_text r
unfolding format_result
format_result-fine r fine = rw fine

format_result-failed :
    (r : ResponseEntry) (x : Failure) → r.err ≡ some x → format_result r ≡ err_text
unfolding format_result
format_result-failed r x failed = rw failed

format_result-IsWord : (r : ResponseEntry) → r.key ≢ [] → Clean r.key → IsWord (format_result r)
format_result-IsWord r ne h = elim (Option-cases r.err) [
  | inl fine ↦ subst IsWord (sym (format_result-fine r fine)) (decision_text-IsWord r ne h)
  | inr (x, failed) ↦ subst IsWord (sym (format_result-failed r x failed)) err_text-IsWord
]

pub format_result-AllWords :
    (es : List RequestEntry) (rs : List ResponseEntry)
    → AllSendable es
    → AllAnswers es rs
    → AllWords (map format_result rs)
format_result-AllWords [] [] h a = tt
format_result-AllWords [] (r ∷ rs) h a = elim a [ ]
format_result-AllWords (e ∷ es) [] h a = elim a [ ]
format_result-AllWords (e ∷ es) (r ∷ rs) ((clean, ne, _, _, _, _), hs) ((same, _, _), others) =
    (format_result-IsWord r (rw same ne) (rw same clean), format_result-AllWords es rs hs others)

pub decode_tokens-format_result :
    (es : List RequestEntry) (rs : List ResponseEntry)
    → AllSendable es
    → AllAnswers es rs
    → decode_tokens es (map format_result rs) ≡ some (all_received es rs)
unfolding decode_tokens
decode_tokens-format_result [] [] h a = refl
decode_tokens-format_result [] (r ∷ rs) h a = elim a [ ]
decode_tokens-format_result (e ∷ es) [] h a = elim a [ ]
decode_tokens-format_result (e ∷ es) (r ∷ rs) ((clean, _, _, _, _, _), hs) (a, others) = rw (
  decode_tokens,
  decode_token-format_result e r clean a,
  decode_tokens-format_result es rs hs others,
)

line_end-is_space : (c : ℕ) → (c == newline || c == carriage_return) ≡ true → is_space c ≡ true
unfolding is_space
line_end-is_space c h = ground arith

-- The end of a line plays no part.
and_true : (a b : Bool) → (a && b) ≡ true → (a ≡ true) × (b ≡ true)
and_true a b h = ground arith

trim_right-fields :
    (s : Str) → (fields (trim_right s) ≡ fields s) × (ends_word (trim_right s) ≡ ends_word s)
unfolding trim_right
trim_right-fields [] = (refl, refl)
trim_right-fields (c ∷ s) =
    let (same, ends) = trim_right-fields s in
    elim (Bool-cases (str_eq (trim_right s) [] && (c == newline || c == carriage_return))) [
      | inl cut ↦
          let (empty, at_end) = and_true _ _ cut in
          let blank = line_end-is_space c at_end in
          let nothing = (str_eq_iff (trim_right s) []).0 empty in
          rw cut (ap fields (sym nothing) ∙ same ∙ sym (fields-space c s blank), sym blank)
      | inr kept ↦ rw kept (fields-ext c (trim_right s) s same ends, refl)
    ]

is_space-newline : is_space newline ≡ true
unfolding is_space
is_space-newline = refl

fields-newline : fields (newline ∷ []) ≡ []
fields-newline = fields-space newline [] is_space-newline ∙ fields-nil

result_text-IsWord : IsWord result_text
unfolding is_space
result_text-IsWord = (refl, (refl, (refl, (refl, (refl, (refl, tt))))))

reply-spaced : (ws : List Str) → reply ws ≡ result_text ++ spaced ws
reply-spaced [] = unfold spaced in refl
reply-spaced (w ∷ ws) = unfold spaced in ap (λ s. result_text ++ b' ' ∷ s) (join-spaced w ws)

fields-reply : (ws : List Str) → AllWords ws → fields (reply ws ++ newline ∷ []) ≡ result_text ∷ ws
fields-reply ws h =
    ap (λ s. fields (s ++ newline ∷ [])) (reply-spaced ws)
    ∙ fields-word result_text (spaced ws ++ newline ∷ []) result_text-IsWord
        (spaced-ends_word ws (newline ∷ []) is_space-newline)
    ∙ ap (◌∷◌ result_text) (
        fields-spaced ws (newline ∷ []) h is_space-newline
        ∙ ap (λ vs. ws ++ vs) fields-newline
        ∙ append-nil ws)

-- The client reads from the response line of the server the answers to its entries, in order.
pub decode_result-reply :
    (es : List RequestEntry) (rs : List ResponseEntry)
    → AllSendable es
    → AllAnswers es rs
    → decode_result (reply (map format_result rs) ++ newline ∷ []) es ≡ some (all_received es rs)
unfolding decode_result
decode_result-reply es rs h a =
    rw
      (
        (trim_right-fields (reply (map format_result rs) ++ newline ∷ [])).0,
        fields-reply (map format_result rs) (format_result-AllWords es rs h a),
        str_eq_refl result_text,
        length-map rs format_result,
        length-AllAnswers es rs a,
        (==_iff (length es) (length es)).1 refl,
      )
      (decode_tokens-format_result es rs h a)
