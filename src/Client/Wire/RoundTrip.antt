-- ===== src/Client/Wire/RoundTrip.antt =====
-- What one side writes for an entry, the other side reads.
use deadhorse.Common.{
  Bool, Option-cases, [], ap, arith, false, if◌then◌else◌, inl, inr, length, none, refl, some, sym,
  true, ◌∙◌, ◌∷◌, ◌≡◌, ◌≢◌,
}
use deadhorse.Common.Int.{is_neg, negsuc, pos, ℤ}
use deadhorse.Common.Assoc.{Str, str_eq, str_eq_ne, str_eq_refl}
use deadhorse.Types.{RequestEntry, ResponseEntry, effective_cost, effective_units, entry_rejected}
use deadhorse.Dhp1.{is_key_delimiter, is_space, mode_text, pipe}
use deadhorse.Wire.Decimal.{Clean, InRange, append_int, append_int-Clean, parse_int-append_int}
use deadhorse.Wire.Words.{split, split-Clean, split-Clean-pipe}
use deadhorse.Client.Wire.{decode_fields, decode_token, encode_entry}
use deadhorse.Server.Text.{decision_text, entry_of, err_text, format_result, new_entry, parse_entry}
use deadhorse.Gcra.Range.{IsCount}

-- The entry with an omitted cost and rate filled in, as both sides do.
abbrev pub normalised : RequestEntry → RequestEntry
normalised e =
    new_entry e.key e.limit.capacity (effective_units e.limit.rate.units) e.limit.rate.period
      (effective_cost e.cost) e.peek

-- An entry that the server accepts: a key without delimiters, and no negative capacity or period.
abbrev pub IsSendable : RequestEntry → Type 0
IsSendable e =
    Clean e.key
    × (e.key ≢ [])
    × IsCount e.limit.capacity
    × InRange e.limit.rate.units
    × IsCount e.limit.rate.period
    × InRange e.cost

IsCount-is_neg : (v : ℤ) → IsCount v → InRange v × (is_neg v ≡ false)
IsCount-is_neg (pos n) h = (h, refl)
IsCount-is_neg (negsuc n) h = elim h [ ]

effective_units-IsCount : (v : ℤ) → InRange v → IsCount (effective_units v)
unfolding effective_units
effective_units-IsCount (pos n) h = ground arith
effective_units-IsCount (negsuc n) h = omega arith

effective_cost-IsCount : (v : ℤ) → InRange v → IsCount (effective_cost v)
unfolding effective_cost
effective_cost-IsCount (pos n) h = ground arith
effective_cost-IsCount (negsuc n) h = omega arith

pub mode_text-Clean : (peek : Bool) → Clean (mode_text peek)
unfolding is_key_delimiter is_space
mode_text-Clean true = (refl, tt)
mode_text-Clean false = (refl, tt)

split-encode_entry :
    (e : RequestEntry)
    → IsSendable e
    → split pipe (encode_entry e)
      ≡ e.key
        ∷ append_int e.limit.capacity
        ∷ append_int (effective_units e.limit.rate.units)
        ∷ append_int e.limit.rate.period
        ∷ append_int (effective_cost e.cost)
        ∷ mode_text e.peek
        ∷ []
unfolding encode_entry
split-encode_entry e (h, _, _, _, _, _) = rw (
  split-Clean-pipe e.key _ h,
  split-Clean-pipe (append_int e.limit.capacity) _ (append_int-Clean e.limit.capacity),
  split-Clean-pipe (append_int (effective_units e.limit.rate.units)) _
      (append_int-Clean (effective_units e.limit.rate.units)),
  split-Clean-pipe (append_int e.limit.rate.period) _ (append_int-Clean e.limit.rate.period),
  split-Clean-pipe (append_int (effective_cost e.cost)) _
      (append_int-Clean (effective_cost e.cost)),
  split-Clean (mode_text e.peek) (mode_text-Clean e.peek),
)

entry_of-mode_text :
    (key : Str) (capacity units period cost : ℤ) (peek : Bool)
    → is_neg capacity ≡ false
    → is_neg units ≡ false
    → is_neg period ≡ false
    → is_neg cost ≡ false
    → entry_of key capacity units period cost (mode_text peek)
      ≡ some (new_entry key capacity units period cost peek)
unfolding str_eq
entry_of-mode_text key c u p k true hc hu hp hk = rw (hc, hu, hp, hk)
entry_of-mode_text key c u p k false hc hu hp hk = rw (hc, hu, hp, hk)

-- The server reads from the token that the client writes the entry that was asked for, its omitted
-- cost and rate filled in: every field is kept, whatever the int64s, for a key without delimiters
-- and a capacity and a period that are not negative.
pub parse_entry-encode_entry :
    (e : RequestEntry) → IsSendable e → parse_entry (encode_entry e) ≡ some (normalised e)
unfolding parse_entry
parse_entry-encode_entry e (h, ne, hc, hu, hp, hk) =
    let (rc, nc) = IsCount-is_neg e.limit.capacity hc in
    let (ru, nu) = IsCount-is_neg _ (effective_units-IsCount e.limit.rate.units hu) in
    let (rp, np) = IsCount-is_neg e.limit.rate.period hp in
    let (rk, nk) = IsCount-is_neg _ (effective_cost-IsCount e.cost hk) in
    rw
      (
        split-encode_entry e (h, ne, hc, hu, hp, hk),
        str_eq_ne e.key [] ne,
        parse_int-append_int e.limit.capacity rc,
        parse_int-append_int (effective_units e.limit.rate.units) ru,
        parse_int-append_int e.limit.rate.period rp,
        parse_int-append_int (effective_cost e.cost) rk,
      )
      (entry_of-mode_text e.key e.limit.capacity (effective_units e.limit.rate.units)
        e.limit.rate.period (effective_cost e.cost) e.peek nc nu np nk)

-- An answer to an entry: a decision for its key.
abbrev pub IsAnswer : RequestEntry → ResponseEntry → Type 0
IsAnswer e r = (r.key ≡ e.key) × IsCount r.remaining × InRange r.retry_after

-- What the client makes of an answer: itself, or the refusal of the entry where it carries an error.
abbrev pub received : RequestEntry → ResponseEntry → ResponseEntry
received e r = elim r.err [
  | none ↦ r
  | some _ ↦ record {
    key = e.key;
    throttled = true;
    remaining = pos 0;
    retry_after = pos 0;
    err = some entry_rejected;
  }
]

flag_text : Bool → Str
flag_text t = (if t then b'1' else b'0') ∷ []

flag_text-Clean : (t : Bool) → Clean (flag_text t)
unfolding is_key_delimiter is_space flag_text
flag_text-Clean true = (refl, tt)
flag_text-Clean false = (refl, tt)

str_eq-flag_text : (t : Bool) → str_eq (flag_text t) (b'1' ∷ []) ≡ t
unfolding str_eq flag_text
str_eq-flag_text true = refl
str_eq-flag_text false = refl

split-decision_text :
    (r : ResponseEntry)
    → Clean r.key
    → split pipe (decision_text r)
      ≡ r.key ∷ flag_text r.throttled ∷ append_int r.remaining ∷ append_int r.retry_after ∷ []
unfolding flag_text
split-decision_text r h = rw (
  split-Clean-pipe r.key _ h,
  split-Clean-pipe (flag_text r.throttled) _ (flag_text-Clean r.throttled),
  split-Clean-pipe (append_int r.remaining) _ (append_int-Clean r.remaining),
  split-Clean (append_int r.retry_after) (append_int-Clean r.retry_after),
)

err_text-Clean : Clean err_text
unfolding is_key_delimiter is_space
err_text-Clean = (refl, (refl, (refl, tt)))

decision_text-err_text :
    (r : ResponseEntry) → Clean r.key → str_eq (decision_text r) err_text ≡ false
decision_text-err_text r h = str_eq_ne (decision_text r) err_text (λ same.
    let pieces =
      sym (split-decision_text r h) ∙ ap (split pipe) same ∙ split-Clean err_text err_text-Clean in
    (let n = ap length pieces in omega arith))

decode_fields-decision_text :
    (e : RequestEntry) (r : ResponseEntry)
    → IsAnswer e r
    → decode_fields e
        (r.key ∷ flag_text r.throttled ∷ append_int r.remaining ∷ append_int r.retry_after ∷ [])
      ≡ some (record r { err = none })
decode_fields-decision_text e r (same, hn, hd) =
    let (rn, nn) = IsCount-is_neg r.remaining hn in
    rw (
      same,
      str_eq_refl e.key,
      parse_int-append_int r.remaining rn,
      parse_int-append_int r.retry_after hd,
      nn,
      str_eq-flag_text r.throttled,
    )

-- The client reads from the token that the server writes the answer itself, for an entry whose key
-- has no delimiter; an answer that carries an error reads as the rejection of the entry.
pub decode_token-format_result :
    (e : RequestEntry) (r : ResponseEntry)
    → Clean e.key
    → IsAnswer e r
    → decode_token e (format_result r) ≡ some (received e r)
unfolding decode_token format_result
decode_token-format_result e r h (same, hn, hd) = elim (Option-cases r.err) [
  | inl fine ↦
      let clean : Clean r.key = rw same h in
      rw (fine, decision_text-err_text r clean, split-decision_text r clean)
        (decode_fields-decision_text e r (same, hn, hd))
  | inr (x, failed) ↦ rw (failed, str_eq_refl err_text)
]
