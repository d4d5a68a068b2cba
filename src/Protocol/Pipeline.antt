-- ===== src/Protocol/Pipeline.antt =====
-- Requests that are pipelined on one connection.
use deadhorse.Common.{List, Option, [], ap, length, map, none, refl, some, suc, ℕ, ◌∷◌, ◌≡◌, ◌≤◌}
use deadhorse.Common.Int.{ℤ}
use deadhorse.Common.Assoc.{Str}
use deadhorse.Types.{Failure, RequestEntry, ResponseEntry}
use deadhorse.Fnv1a.{bytes_of}
use deadhorse.Client.Wire.{decode_result, encode_throttle}
use deadhorse.Client.Wire.RoundTrip.{normalised}
use deadhorse.Server.Text.Dispatch.{handle_conn}
use deadhorse.Protocol.Request.{AllSendable}
use deadhorse.Protocol.Response.{AllAnswers, all_received}
use deadhorse.Protocol.Exchange.{serve_line-decode_result}

-- What is made of each line for the request at the same place.
pub decode_lines : List Str → List (List RequestEntry) → List (Option (List ResponseEntry))
decode_lines (line ∷ lines) (es ∷ batches) = decode_result line es ∷ decode_lines lines batches
decode_lines _ _ = []

module _ {ℓ} {σ : Type ℓ}
    (throttler : List RequestEntry → σ → σ × List ResponseEntry × Option Failure) (uptime keys : ℤ)
    (max_size : ℕ) where
  -- The throttler's own calls for the batches, one after another.
  unfoldable pub run_batches : List (List RequestEntry) → σ → σ × List (List ResponseEntry)
  run_batches [] st = (st, [])
  run_batches (es ∷ batches) st =
      let (st', rs, _) = throttler (map normalised es) st in
      let (last, later) = run_batches batches st' in (last, all_received es rs ∷ later)

  -- Each batch has an entry, can be sent, and is answered without an error.
  abbrev pub AllServed : List (List RequestEntry) → σ → Type 0
  AllServed [] st = Unit
  AllServed ([] ∷ batches) st = ⊥
  AllServed ((e ∷ es) ∷ batches) st =
      AllSendable (e ∷ es)
      × (length (bytes_of (encode_throttle (e ∷ es))) ≤ max_size)
      × ((throttler (map normalised (e ∷ es)) st).2 ≡ none)
      × AllAnswers (e ∷ es) (throttler (map normalised (e ∷ es)) st).1
      × AllServed batches (throttler (map normalised (e ∷ es)) st).0

  -- Requests pipelined on one connection are answered one for one and in order: there are as many
  -- response lines as requests; reading the n-th response line for the n-th request gives what the
  -- throttler answers to that request in the state that the requests before it left; and the last
  -- state is that of the throttler after all of them. Each request has an entry, can be sent in a line
  -- that the server reads, and is answered without an error.
  pub handle_conn-run_batches :
      (batches : List (List RequestEntry)) (st : σ)
      → AllServed batches st
      → (let r = handle_conn throttler uptime keys max_size (map encode_throttle batches) st in
          (r.0 ≡ (run_batches batches st).0)
          × (length r.1 ≡ length batches)
          × (decode_lines r.1 batches ≡ map some (run_batches batches st).1))
  unfolding handle_conn run_batches decode_lines
  handle_conn-run_batches [] st h = (refl, refl, refl)
  handle_conn-run_batches ([] ∷ batches) st h = elim h [ ]
  handle_conn-run_batches ((e ∷ es) ∷ batches) st (h, fits, fine, answered, later) =
      let r = throttler (map normalised (e ∷ es)) st in
      let (response, served, decoded) =
        serve_line-decode_result throttler uptime keys max_size e es st r.0 r.1 h fits
          (ap (λ x. (r.0, r.1, x)) fine) answered in
      let (last, count, others) = handle_conn-run_batches batches r.0 later in
      rw (served, decoded) (last, ap suc count, ap (◌∷◌ (some (all_received (e ∷ es) r.1))) others)
