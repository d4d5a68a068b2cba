-- ===== src/Protocol/Request.antt =====
-- The line of a request, as the server splits it.
use deadhorse.Common.{
  List, [], ap, append-nil, arith, false, map, refl, sym, true, ℕ, ◌++◌, ◌==◌, ◌∙◌, ◌∷◌, ◌≡◌, ◌≢◌,
}
use deadhorse.Common.Assoc.{Str, str_eq}
use deadhorse.Types.{RequestEntry, effective_cost, effective_units}
use deadhorse.Dhp1.{is_space, mode_text, pipe}
use deadhorse.Wire.Decimal.{Clean, append_int, append_int-Clean}
use deadhorse.Wire.Words.{
  AllWords, Clean-NoSpace, IsWord, IsWord-append, NoSpace, NoSpace-pipe, fields, fields-nil,
  fields-spaced, is_space-pipe, spaced,
}
use deadhorse.Client.Wire.{encode_entries, encode_entry, encode_throttle}
use deadhorse.Client.Wire.RoundTrip.{
  IsSendable, mode_text-Clean, normalised, parse_entry-encode_entry,
}
use deadhorse.Server.Text.{parse_all, throttle_text}
use deadhorse.Server.Text.Dispatch.{trim_suffix}

abbrev pub AllSendable : List RequestEntry → Type 0
AllSendable [] = Unit
AllSendable (e ∷ es) = IsSendable e × AllSendable es

pub encode_entries-spaced :
    (es : List RequestEntry) → encode_entries es ≡ spaced (map encode_entry es)
unfolding encode_entries spaced
encode_entries-spaced [] = refl
encode_entries-spaced (e ∷ es) = ap (λ s. b' ' ∷ (encode_entry e ++ s)) (encode_entries-spaced es)

nonempty-IsWord : (s t : Str) → s ≢ [] → Clean s → NoSpace t → IsWord (s ++ t)
nonempty-IsWord [] t ne h k = absurd (ne refl)
nonempty-IsWord (c ∷ s) t ne h k = IsWord-append (c ∷ s) t (Clean-NoSpace (c ∷ s) h) k

-- A key and a separator in front of a text without white space.
pub key-IsWord : (s t : Str) → s ≢ [] → Clean s → NoSpace t → IsWord (s ++ pipe ∷ t)
key-IsWord s t ne h k = nonempty-IsWord s (pipe ∷ t) ne h (is_space-pipe, k)

encode_entry-IsWord : (e : RequestEntry) → IsSendable e → IsWord (encode_entry e)
unfolding encode_entry
encode_entry-IsWord e (h, ne, _, _, _, _) = key-IsWord e.key _ ne h (
    NoSpace-pipe (append_int e.limit.capacity) _ (append_int-Clean e.limit.capacity) (
      NoSpace-pipe (append_int (effective_units e.limit.rate.units)) _
        (append_int-Clean (effective_units e.limit.rate.units))
        (NoSpace-pipe (append_int e.limit.rate.period) _ (append_int-Clean e.limit.rate.period) (
          NoSpace-pipe (append_int (effective_cost e.cost)) _
            (append_int-Clean (effective_cost e.cost))
            (Clean-NoSpace (mode_text e.peek) (mode_text-Clean e.peek))))))

pub encode_entry-AllWords :
    (es : List RequestEntry) → AllSendable es → AllWords (map encode_entry es)
encode_entry-AllWords [] h = tt
encode_entry-AllWords (e ∷ es) (h, hs) = (encode_entry-IsWord e h, encode_entry-AllWords es hs)

pub fields-encode_entries :
    (es : List RequestEntry) → AllSendable es → fields (encode_entries es) ≡ map encode_entry es
fields-encode_entries es h =
    ap fields (encode_entries-spaced es ∙ sym (append-nil (spaced (map encode_entry es))))
    ∙ fields-spaced (map encode_entry es) [] (encode_entry-AllWords es h) refl
    ∙ ap (λ ws. map encode_entry es ++ ws) fields-nil
    ∙ append-nil (map encode_entry es)

pub parse_all-encode_entry :
    (es : List RequestEntry) → AllSendable es → parse_all (map encode_entry es) ≡ map normalised es
unfolding parse_all
parse_all-encode_entry [] h = refl
parse_all-encode_entry (e ∷ es) (h, hs) =
    rw (parse_all, parse_entry-encode_entry e h)
      (ap (◌∷◌ (normalised e)) (parse_all-encode_entry es hs))

-- The end of a line that is no newline is kept.
space_ne : (c x : ℕ) → is_space c ≡ false → is_space x ≡ true → (c == x) ≡ false
space_ne c x h k = ground (arith, ap is_space)

trim_suffix-NoSpace : (x : ℕ) (s : Str) → is_space x ≡ true → NoSpace s → trim_suffix x s ≡ s
unfolding trim_suffix
trim_suffix-NoSpace x [] hx h = refl
trim_suffix-NoSpace x (c ∷ s) hx (h, hs) =
    rw (space_ne c x h hx, trim_suffix-NoSpace x s hx hs) (ground arith)

trim_suffix-append :
    (x : ℕ) (s : Str) (c : ℕ) (t : Str) → trim_suffix x (s ++ c ∷ t) ≡ s ++ trim_suffix x (c ∷ t)
unfolding trim_suffix str_eq
trim_suffix-append x [] c t = refl
trim_suffix-append x (b ∷ []) c t = refl
trim_suffix-append x (b ∷ d ∷ s) c t = ap (◌∷◌ b) (trim_suffix-append x (d ∷ s) c t)

trim_suffix-spaced :
    (x : ℕ) (ws : List Str)
    → is_space x ≡ true
    → AllWords ws
    → trim_suffix x (spaced ws) ≡ spaced ws
unfolding spaced
trim_suffix-spaced x [] hx h = unfold trim_suffix in refl
trim_suffix-spaced x ([] ∷ ws) hx (h, hs) = elim h [ ]
trim_suffix-spaced x ((c ∷ w) ∷ []) hx (h, hs) =
    trim_suffix-append x (b' ' ∷ []) c (w ++ [])
    ∙ ap (λ s. b' ' ∷ s)
        (ap (trim_suffix x) (append-nil (c ∷ w))
          ∙ trim_suffix-NoSpace x (c ∷ w) hx h
          ∙ sym (append-nil (c ∷ w)))
trim_suffix-spaced x (w ∷ v ∷ ws) hx (h, hs) =
    trim_suffix-append x (b' ' ∷ w) b' ' (v ++ spaced ws)
    ∙ ap (λ s. b' ' ∷ (w ++ s)) (trim_suffix-spaced x (v ∷ ws) hx hs)

trim_suffix-newline : (s : Str) → trim_suffix 10 (s ++ 10 ∷ []) ≡ s
trim_suffix-newline s = trim_suffix-append 10 s 10 [] ∙ (unfold trim_suffix str_eq in append-nil s)

is_space-carriage_return : is_space 13 ≡ true
unfolding is_space
is_space-carriage_return = refl

trim_suffix-behind :
    (w : Str) (ws : List Str)
    → trim_suffix 13 (throttle_text ++ spaced (w ∷ ws))
      ≡ throttle_text ++ trim_suffix 13 (spaced (w ∷ ws))
unfolding spaced
trim_suffix-behind w ws = trim_suffix-append 13 throttle_text b' ' (w ++ spaced ws)

-- What the server keeps of the line of a request: all but the newline.
pub trim-encode_throttle :
    (e : RequestEntry) (es : List RequestEntry)
    → AllSendable (e ∷ es)
    → trim_suffix 13 (trim_suffix 10 (encode_throttle (e ∷ es)))
      ≡ throttle_text ++ encode_entries (e ∷ es)
unfolding encode_throttle
trim-encode_throttle e es h =
    ap (trim_suffix 13) (trim_suffix-newline (throttle_text ++ encode_entries (e ∷ es)))
    ∙ ap (λ s. trim_suffix 13 (throttle_text ++ s)) (encode_entries-spaced (e ∷ es))
    ∙ trim_suffix-behind (encode_entry e) (map encode_entry es)
    ∙ ap (λ s. throttle_text ++ s)
        (trim_suffix-spaced 13 (map encode_entry (e ∷ es)) is_space-carriage_return
            (encode_entry-AllWords (e ∷ es) h)
          ∙ sym (encode_entries-spaced (e ∷ es)))
