-- ===== src/Client/Pipe/Placed.antt =====
-- Where a call is: not sent, pending, with a reader, or answered.
use deadhorse.Common.{
  Bool, List, arith, false, get_elem?, get_elem?-set_cases, if◌then◌else◌, inl, inr, length, refl,
  set, some, true, ℕ, ◌+◌, ◌-◌, ◌==◌, ◌≡◌, ◌≤◌,
}
use deadhorse.Client.Pipe.{
  Link, Phase, aborting, acquire, admitted, caller_draining, connected, connecting, decoding,
  dialing_now, drain_call, enqueue, failed_with, got_line, joined_dial, line_of, not_written,
  put_gen, reader_at, reader_draining, reading, release, returned, submitted, write_done,
  write_failed,
}
use deadhorse.Client.Pipe.Steps.{
  Reach, Step, abort_call, abort_reader, begin_dial, close_link, deliver_bad_line, deliver_line,
  dial_after_close, drain_in_call, drain_in_reader, end_dial, end_drain_in_call,
  end_drain_in_reader, fail_dial, fail_send, find_closed, find_conn, find_dial, find_nothing,
  find_stale, get_token, give_up, later, leave_dial, leave_queue, read_error, receive, receive_line,
  see_dial_end, send, start, take_pending,
}
use deadhorse.Client.Pipe.Known.{Known, Reach-Known, replicate-connecting, started_at}
use deadhorse.Client.Pipe.Copies.{
  clear_conn-calls, clear_conn-places, delivers-places, install-places, places, put_gen-places,
  sends-places,
}

-- In this phase, the call has not been sent yet; in this one, it has.
abbrev pub is_unsent : Phase → Bool
is_unsent connecting = true
is_unsent (joined_dial _) = true
is_unsent (dialing_now _) = true
is_unsent (connected _) = true
is_unsent (admitted _) = true
is_unsent _ = false

abbrev pub is_sent : Phase → Bool
is_sent (write_failed _) = true
is_sent (caller_draining _) = true
is_sent submitted = true
is_sent _ = false

-- A call that is not sent is nowhere, one that is sent is in one place, and any other call is in one
-- at most.
abbrev pub PlacedAt : ℕ → Phase → Type 0
PlacedAt places ph = (is_unsent ph ≡ true → places ≡ 0) × (is_sent ph ≡ true → places ≡ 1)

pub record Placed (calls : List Phase) (at : ℕ → ℕ) : Type 0 where
  pub placed : (c : ℕ) (ph : Phase) → get_elem? calls c ≡ some ph → PlacedAt (at c) ph
  pub most : (c : ℕ) → at c ≤ 1

same-Placed :
    {calls : List Phase} {at at' : ℕ → ℕ}
    → ((c : ℕ) → at' c ≡ at c)
    → Placed calls at
    → Placed calls at'
same-Placed same p = record {
  placed = λ c ph e. rw (same c) (p.placed c ph e);
  most = λ c. rw (same c) (p.most c);
}

-- A call moves on.
moves-Placed :
    {calls : List Phase} {at : ℕ → ℕ} (c : ℕ) (old new : Phase)
    → get_elem? calls c ≡ some old
    → (PlacedAt (at c) old → PlacedAt (at c) new)
    → Placed calls at
    → Placed (set calls c new) at
moves-Placed {calls} {at} c old new e keep p = record {
  placed = λ i ph f. elim (get_elem?-set_cases calls c i new ph f) [
    | inl (same, same_phase) ↦ rw (same_phase, ← same) (keep (p.placed c old e))
    | inr (_, before) ↦ p.placed i ph before
  ];
  most = p.most;
}

-- A call is sent.
sends-Placed :
    {calls : List Phase} {at at' : ℕ → ℕ} (c : ℕ) (old new : Phase)
    → get_elem? calls c ≡ some old
    → is_unsent old ≡ true
    → is_unsent new ≡ false
    → ((i : ℕ) → at' i ≡ at i + (if c == i then 1 else 0))
    → Placed calls at
    → Placed (set calls c new) at'
sends-Placed {calls} {at} {at'} c old new e unsent sent grows p = record {
  placed = λ i ph f. elim (get_elem?-set_cases calls c i new ph f) [
    | inl (same, same_phase) ↦ rw (same_phase, ← same, one) ((λ q. absurd (both q)), λ _. refl)
    | inr (apart, before) ↦
        let kept : at' i ≡ at i = ground (arith, grows i) in rw kept (p.placed i ph before)
  ];
  most = λ i. ground (arith, p.most i, grows i, one);
}
  where
    one : at' c ≡ 1
    one = ground (arith, (p.placed c old e).0 unsent, grows c)

    both : is_unsent new ≡ true → ⊥
    both q = cc

-- A call that is not sent, or that is done, is where it was.
unsent_moves :
    (k : ℕ) (old new : Phase)
    → is_unsent old ≡ true
    → is_sent new ≡ false
    → PlacedAt k old
    → PlacedAt k new
unsent_moves k old new e f (nowhere, once) = ((λ _. nowhere e), λ q. absurd (both q))
  where
    both : is_sent new ≡ true → ⊥
    both q = cc

sent_moves :
    (k : ℕ) (old new : Phase)
    → is_sent old ≡ true
    → is_unsent new ≡ false
    → PlacedAt k old
    → PlacedAt k new
sent_moves k old new e f (nowhere, once) = ((λ q. absurd (both q)), λ _. once e)
  where
    both : is_unsent new ≡ true → ⊥
    both q = cc

unsent_goes-Placed :
    {calls : List Phase} {at : ℕ → ℕ} (c : ℕ) (old new : Phase)
    → get_elem? calls c ≡ some old
    → is_unsent old ≡ true
    → is_sent new ≡ false
    → Placed calls at
    → Placed (set calls c new) at
unsent_goes-Placed {at} c old new e f g p =
    moves-Placed c old new e (unsent_moves (at c) old new f g) p

sent_goes-Placed :
    {calls : List Phase} {at : ℕ → ℕ} (c : ℕ) (old new : Phase)
    → get_elem? calls c ≡ some old
    → is_sent old ≡ true
    → is_unsent new ≡ false
    → Placed calls at
    → Placed (set calls c new) at
sent_goes-Placed {at} c old new e f g p = moves-Placed c old new e (sent_moves (at c) old new f g) p

Step-Placed :
    {s t : Link} → Known s → Step s t → Placed s.calls (places s) → Placed t.calls (places t)
Step-Placed {s} k (find_closed c at h) p = unsent_goes-Placed c connecting returned at refl refl p
Step-Placed {s} k (find_conn c j at h e) p =
    unsent_goes-Placed c connecting (connected j) at refl refl p
Step-Placed {s} k (find_dial c d at h e f) p =
    unsent_goes-Placed c connecting (joined_dial d) at refl refl p
Step-Placed {s} k (begin_dial c at h e f) p =
    unsent_goes-Placed c connecting (dialing_now s.next_dial) at refl refl p
Step-Placed {s} k (see_dial_end c d at h) p =
    unsent_goes-Placed c (joined_dial d) connecting at refl refl p
Step-Placed {s} k (leave_dial c d at) p =
    unsent_goes-Placed c (joined_dial d) returned at refl refl p
Step-Placed {s} k (fail_dial c d at) p =
    unsent_goes-Placed c (dialing_now d) returned at refl refl p
Step-Placed {s} k (dial_after_close c d at h) p =
    unsent_goes-Placed c (dialing_now d) returned at refl refl p
Step-Placed {s} k (end_dial c d at h) p =
    same-Placed (install-places s c)
      (unsent_goes-Placed c (dialing_now d) (connected s.next_gen) at refl refl p)
Step-Placed {s} k (get_token c h at e) p =
    same-Placed (put_gen-places s h (acquire (s.gens h)) (k.phases c (connected h) at) (λ i. refl))
      (unsent_goes-Placed c (connected h) (admitted h) at refl refl p)
Step-Placed {s} k (leave_queue c h at) p =
    unsent_goes-Placed c (connected h) returned at refl refl p
Step-Placed {s} k (find_stale c h at e) p =
    same-Placed (put_gen-places s h (release (s.gens h)) (k.phases c (admitted h) at) (λ i. refl))
      (unsent_goes-Placed c (admitted h) connecting at refl refl p)
Step-Placed {s} k (send c h at e) p =
    sends-Placed c (admitted h) submitted at refl refl
      (sends-places s h c (write_done c (enqueue c (s.gens h))) (k.phases c (admitted h) at) refl
        refl)
      p
Step-Placed {s} k (fail_send c h at e) p =
    sends-Placed c (admitted h) (write_failed h) at refl refl
      (sends-places s h c (not_written (enqueue c (s.gens h))) (k.phases c (admitted h) at) refl
        refl)
      p
Step-Placed {s} k (abort_call c h at) p = same-Placed (clear_conn-places s h) (
    rw (clear_conn-calls s h)
      (sent_goes-Placed c (write_failed h) (caller_draining h) at refl refl p))
Step-Placed {s} k (drain_in_call c h x rest at e) p =
    same-Placed
      (delivers-places s h x (failed_with h) (drain_call rest (s.gens h))
        (k.phases c (caller_draining h) at) (λ i. rw e (omega arith)))
      p
Step-Placed {s} k (end_drain_in_call c h at e) p =
    sent_goes-Placed c (caller_draining h) returned at refl refl p
Step-Placed {s} k (receive c at h) p = sent_goes-Placed c submitted returned at refl refl p
Step-Placed {s} k (give_up c at) p = sent_goes-Placed c submitted returned at refl refl p
Step-Placed {s} k (receive_line h e) p =
    same-Placed
      (put_gen-places s h _ (started_at s h reading k e (λ f. cc)) (λ i. rw e (omega arith))) p
Step-Placed {s} k (read_error h e) p =
    same-Placed
      (put_gen-places s h _ (started_at s h reading k e (λ f. cc)) (λ i. rw e (omega arith))) p
Step-Placed {s} k (take_pending h x rest e f) p =
    same-Placed
      (put_gen-places s h _ (started_at s h got_line k e (λ q. cc)) (λ i. rw (e, f) (omega arith)))
      p
Step-Placed {s} k (find_nothing h e f) p =
    same-Placed
      (put_gen-places s h _ (started_at s h got_line k e (λ q. cc)) (λ i. rw e (omega arith))) p
Step-Placed {s} k (deliver_line h x e) p =
    same-Placed
      (delivers-places s h x (line_of h (length (s.gens h).answered - 1))
        (reader_at reading (s.gens h)) (started_at s h (decoding x) k e (λ q. cc))
        (λ i. rw e (omega arith)))
      p
Step-Placed {s} k (deliver_bad_line h x e) p =
    same-Placed
      (delivers-places s h x (failed_with h) (reader_at aborting (s.gens h))
        (started_at s h (decoding x) k e (λ q. cc)) (λ i. rw e (omega arith)))
      p
Step-Placed {s} k (abort_reader h e) p =
    let there = started_at s h aborting k e (λ q. cc) in
    let s' = put_gen h (reader_at reader_draining (s.gens h)) s in
    same-Placed (clear_conn-places s' h) (
      rw (clear_conn-calls s' h)
        (same-Placed (put_gen-places s h _ there (λ i. rw e (omega arith))) p))
Step-Placed {s} k (drain_in_reader h x rest e f) p =
    same-Placed
      (delivers-places s h x (failed_with h) (drain_call rest (s.gens h))
        (started_at s h reader_draining k e (λ q. cc)) (λ i. rw f (omega arith)))
      p
Step-Placed {s} k (end_drain_in_reader h e f) p =
    same-Placed
      (put_gen-places s h _ (started_at s h reader_draining k e (λ q. cc))
        (λ i. rw e (omega arith)))
      p
Step-Placed {s} k close_link p = p

pub Reach-Placed : {n : ℕ} {s : Link} → Reach n s → Placed s.calls (places s)
Reach-Placed {n} start = record {
  placed = λ c ph e. rw (replicate-connecting n c ph e) ((λ _. refl), λ q. cc);
  most = λ c. omega arith;
}
Reach-Placed (later r st) = Step-Placed (Reach-Known r) st (Reach-Placed r)
