-- ===== src/Protocol/System.antt =====
-- The whole path of a call: the client's line, the text server with the in-memory throttler behind it,
-- and the results that the client reads.
use deadhorse.Common.{
  Bool-cases, List, [], ap, false, if◌then◌else◌, inl, inr, length, map, none, refl, some, ℕ, ◌∙◌,
  ◌∷◌, ◌≡◌, ◌≤◌,
}
use deadhorse.Common.Int.{max_int64, negsuc, pos, ℤ}
use deadhorse.Common.Assoc.{Str}
use deadhorse.Types.{RequestEntry}
use deadhorse.Fnv1a.{bytes_of}
use deadhorse.Gcra.Range.{IsCount}
use deadhorse.Client.Wire.{decode_result, encode_throttle}
use deadhorse.Client.Wire.RoundTrip.{normalised}
use deadhorse.Server.Store.{Store}
use deadhorse.Server.Store.Tats.{IsValid, tat_of}
use deadhorse.Server.Throttling.{check_entry, keyed, report, throttle}
use deadhorse.Server.Throttling.Spec.{State, advance, answers, transact}
use deadhorse.Server.Throttling.Refines.{throttle-refines}
use deadhorse.Server.Text.Dispatch.{serve_line}
use deadhorse.Protocol.Request.{AllSendable}
use deadhorse.Protocol.Response.{AllAnswers, all_received}
use deadhorse.Protocol.Exchange.{serve_line-decode_result}
use deadhorse.Wire.Decimal.{InRange}
use deadhorse.Server.Throttling.Range.{InTime, advance-InTime, check_entry-range}

module _ (now : ℕ) (hn : now ≤ max_int64) where
  seen : State → State → RequestEntry → ℕ
  seen before s e = if e.peek then before e.key else s e.key

  seen-InTime :
      (before s : State) (e : RequestEntry) → InTime before → InTime s → seen before s e ≤ max_int64
  unfolding seen
  seen-InTime before s e hb hs = elim (Bool-cases e.peek) [
    | inl peek ↦ rw peek (hb e.key)
    | inr real ↦ rw real (hs e.key)
  ]

  IsCount-InRange : (v : ℤ) → IsCount v → InRange v
  IsCount-InRange (pos n) h = h
  IsCount-InRange (negsuc n) h = elim h [ ]

  -- The throttler's answers can be carried by the protocol.
  answers-AllAnswers :
      (es : List RequestEntry) (before s : State)
      → AllSendable es
      → InTime before
      → InTime s
      → AllAnswers es (answers now before (map normalised es) s)
  unfolding answers
  answers-AllAnswers [] before s h hb hs = tt
  answers-AllAnswers (e ∷ es) before s ((_, _, hc, _, _, _), h) hb hs =
      let (_, remaining, retry) =
        check_entry-range now hn (seen before s (normalised e)) (normalised e) hc
          (seen-InTime before s (normalised e) hb hs) in
      (
        unfold seen in (refl, remaining, IsCount-InRange _ retry),
        answers-AllAnswers es before (advance now (normalised e) s) h hb
            (advance-InTime now hn (normalised e) s hc hs),
      )

  all_received-answers :
      (es : List RequestEntry) (before s : State)
      → all_received es (answers now before (map normalised es) s)
        ≡ answers now before (map normalised es) s
  unfolding answers
  all_received-answers [] before s = refl
  all_received-answers (e ∷ es) before s =
      ap
        (◌∷◌ (
          report (check_entry (if e.peek then before e.key else s e.key) now (normalised e))
            (keyed e.key)))
        (all_received-answers es before (advance now (normalised e) s))

  -- The whole path of a call, against the abstract transaction over the TATs of the keys: on a valid
  -- store with every TAT in range, the line of a client with entries that DHP/1 can carry, within the
  -- server's limit on a line, is answered; the store changes as the all-or-none transaction of these
  -- entries says, and the client reads the transaction's answers, in the order of its entries.
  pub serve_line-transact :
      (uptime keys : ℤ) (max_size : ℕ) (e : RequestEntry) (es : List RequestEntry) (st : Store)
      → IsValid st
      → InTime (tat_of st)
      → AllSendable (e ∷ es)
      → length (bytes_of (encode_throttle (e ∷ es))) ≤ max_size
      → (st' : Store) × (response : Str) × (serve_line
            (throttle none now)
            uptime
            keys
            max_size
            (encode_throttle (e ∷ es))
            st
          ≡ (st', some response, false))
        × IsValid st'
        × ((k : Str) → tat_of st' k ≡ transact now (map normalised (e ∷ es)) (tat_of st) k)
        × (decode_result response (e ∷ es)
            ≡ some (answers now (tat_of st) (map normalised (e ∷ es)) (tat_of st)))
  serve_line-transact uptime keys max_size e es st v ht h fits =
      let s = tat_of st in
      let rs = answers now s (map normalised (e ∷ es)) s in
      let st' = (throttle none now (map normalised (e ∷ es)) st).0 in
      let (valid, tats, results, no_failure) =
        throttle-refines now (map normalised (e ∷ es)) st v in
      let run : throttle none now (map normalised (e ∷ es)) st ≡ (st', rs, none) =
        ap (λ x. (st', x, (throttle none now (map normalised (e ∷ es)) st).2)) results
        ∙ ap (λ x. (st', rs, x)) no_failure in
      let (response, served, decoded) =
        serve_line-decode_result (throttle none now) uptime keys max_size e es st st' rs h fits run
          (answers-AllAnswers (e ∷ es) s s h ht ht) in
      (st', response, served, valid, tats, decoded ∙ ap some (all_received-answers (e ∷ es) s s))
