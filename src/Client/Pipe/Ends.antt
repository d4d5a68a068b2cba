-- ===== src/Client/Pipe/Ends.antt =====
-- The end of a connection that was given up.
use deadhorse.Common.{
  Bool-cases, List, [], arith, false, inl, inr, length, refl, true, ℕ, ◌+◌, ◌<◌, ◌∙◌, ◌∷◌, ◌≡◌, ◌≤◌,
  ◌⊎◌,
}
use deadhorse.Client.Pipe.{
  Generation, Link, Phase, ReaderPhase, aborting, acquire, caller_draining, clear_conn, decoding,
  drain_call, enqueue, go_to, got_line, is_current, new_generation, not_written, put_gen, reader_at,
  reader_draining, reading, release, stopped, take_call, write_done,
}
use deadhorse.Client.Pipe.Readers.{Reach-Attended, gens-clear_conn, is_idle}
use deadhorse.Client.Pipe.Known.{Known, Reach-Known, put_elim}
use deadhorse.Client.Pipe.Turns.{
  CanTurn, Reach-Steps, busy-CanTurn, one_if_same, one_if_same_apart, one_if_same_le, turn, turns,
}
use deadhorse.Client.Pipe.Progress.{rounds, rounds-suc}
use deadhorse.Client.Pipe.Slots.{pending_bound}
use deadhorse.Client.Pipe.Liveness.{rounds_le}
use deadhorse.Client.Pipe.Steps.{
  Reach, Step, Steps, abort_call, abort_reader, begin_dial, close_link, deliver_bad_line,
  deliver_line, dial_after_close, drain_in_call, drain_in_reader, end_dial, end_drain_in_call,
  end_drain_in_reader, fail_dial, fail_send, find_closed, find_conn, find_dial, find_nothing,
  find_stale, get_token, give_up, here, leave_dial, leave_queue, next, read_error, receive,
  receive_line, see_dial_end, send, take_pending,
}

-- The turns that the reader of a generation has left if no more calls are sent on it.
abbrev turns_left : Generation → ℕ
turns_left gen = rounds (length gen.pending) gen.reader

-- The generation has a number already, and it is not the current one.
abbrev IsDetached : Link → ℕ → Type 0
IsDetached s g = (g < s.next_gen) × (is_current g s ≡ false)

-- What happens to a detached generation in a step that is `turn` turns of its reader.
abbrev Winds : ℕ → Generation → Generation → Type 0
Winds turn gen gen' =
    (turns_left gen' + turn ≤ turns_left gen) × (gen'.sent ≡ gen.sent) × (gen'.queued ≡ gen.queued)

clear_conn-IsDetached : (s : Link) (g h : ℕ) → IsDetached s g → IsDetached (clear_conn h s) g
clear_conn-IsDetached s g h (there, detached) = elim (Bool-cases (is_current h s)) [
  | inl e ↦ rw e (there, refl)
  | inr e ↦ rw e (there, detached)
]

clear_conn_then-IsDetached :
    (s : Link) (g h c : ℕ) (ph : Phase)
    → IsDetached s g
    → IsDetached (go_to c ph (clear_conn h s)) g
clear_conn_then-IsDetached s g h c ph (there, detached) = elim (Bool-cases (is_current h s)) [
  | inl e ↦ rw e (there, refl)
  | inr e ↦ rw e (there, detached)
]

same_Winds : (gen : Generation) → Winds 0 gen gen
same_Winds gen = (omega arith, refl, refl)

reader-Winds :
    (s : Link) (g h : ℕ) (gen : Generation)
    → Winds 1 (s.gens h) gen
    → Winds (one_if_same h g) (s.gens g) ((put_gen h gen s).gens g)
reader-Winds s g h gen w =
    put_elim (Winds (one_if_same h g) (s.gens g)) h g gen s.gens
      (λ same. let (le, e, q) = rw same at w in (omega (arith, one_if_same_le h g), e, q))
      (λ ne. (omega (arith, one_if_same_apart h g ne), refl, refl))

call-Winds :
    (s : Link) (g h : ℕ) (gen : Generation)
    → (h ≡ g → Winds 0 (s.gens h) gen)
    → Winds 0 (s.gens g) ((put_gen h gen s).gens g)
call-Winds s g h gen w =
    put_elim (Winds 0 (s.gens g)) h g gen s.gens (λ same. rw same at (w same))
      (λ ne. same_Winds (s.gens g))

drains :
    (x : ℕ) (rest : List ℕ) (gen : Generation)
    → gen.pending ≡ x ∷ rest
    → Winds 0 gen (drain_call rest gen)
drains x rest gen e = (rw e (omega (arith, rounds-suc (length rest) gen.reader)), refl, refl)

drains_in_turn :
    (x : ℕ) (rest : List ℕ) (gen : Generation)
    → gen.reader ≡ reader_draining
    → gen.pending ≡ x ∷ rest
    → Winds 1 gen (drain_call rest gen)
drains_in_turn x rest gen e f = (rw (e, f) (omega arith), refl, refl)

turned :
    (gen : Generation) (ph ph' : ReaderPhase)
    → gen.reader ≡ ph
    → ((k : ℕ) → rounds k ph' < rounds k ph)
    → Winds 1 gen (reader_at ph' gen)
turned gen ph ph' e nearer = (rw e (omega (arith, nearer (length gen.pending))), refl, refl)

absurd_current :
    (s : Link) (g h : ℕ) (gen : Generation)
    → is_current g s ≡ false
    → is_current h s ≡ true
    → h ≡ g
    → Winds 0 (s.gens h) gen
absurd_current s g h gen detached current same = let f = rw same at current in cc

-- A detached generation stays detached; no call is sent on it; and its reader has the fewer turns left
-- the more it takes.
Step-Winds :
    {s t : Link} (g : ℕ)
    → Known s
    → (st : Step s t) → IsDetached s g
    → IsDetached t g × Winds (turn g st) (s.gens g) (t.gens g)
Step-Winds {s} g k (find_closed i at h) d = (d, same_Winds (s.gens g))
Step-Winds {s} g k (find_conn i j at q e) d = (d, same_Winds (s.gens g))
Step-Winds {s} g k (find_dial i j at q e f) d = (d, same_Winds (s.gens g))
Step-Winds {s} g k (begin_dial i at q e f) d = (d, same_Winds (s.gens g))
Step-Winds {s} g k (see_dial_end i j at h) d = (d, same_Winds (s.gens g))
Step-Winds {s} g k (leave_dial i j at) d = (d, same_Winds (s.gens g))
Step-Winds {s} g k (fail_dial i j at) d = (d, same_Winds (s.gens g))
Step-Winds {s} g k (dial_after_close i j at h) d = (d, same_Winds (s.gens g))
Step-Winds {s} g k (leave_queue i h at) d = (d, same_Winds (s.gens g))
Step-Winds {s} g k (end_drain_in_call i h at e) d = (d, same_Winds (s.gens g))
Step-Winds {s} g k (receive i at h) d = (d, same_Winds (s.gens g))
Step-Winds {s} g k (give_up i at) d = (d, same_Winds (s.gens g))
Step-Winds {s} g k close_link d = ((d.0, refl), same_Winds (s.gens g))
Step-Winds {s} g k (end_dial i j at h) d = (
  (omega arith, ground (arith, d.0)),
  call-Winds s g s.next_gen (reader_at reading new_generation) (λ same. absurd (omega arith)),
)
Step-Winds {s} g k (abort_call i h at) d = (
  clear_conn_then-IsDetached s g h i (caller_draining h) d,
  rw (gens-clear_conn s h) (same_Winds (s.gens g)),
)
Step-Winds {s} g k (abort_reader h e) d = (
  clear_conn-IsDetached (put_gen h (reader_at reader_draining (s.gens h)) s) g h d,
  rw (gens-clear_conn (put_gen h (reader_at reader_draining (s.gens h)) s) h) (
      reader-Winds s g h (reader_at reader_draining (s.gens h))
        (turned (s.gens h) aborting reader_draining e (λ n. omega arith))),
)
Step-Winds {s} g k (get_token i h at e) d =
    (d, call-Winds s g h (acquire (s.gens h)) (λ _. (omega arith, refl, refl)))
Step-Winds {s} g k (find_stale i h at e) d =
    (d, call-Winds s g h (release (s.gens h)) (λ _. (omega arith, refl, refl)))
Step-Winds {s} g k (send i h at e) d = (
  d,
  call-Winds s g h (write_done i (enqueue i (s.gens h)))
      (absurd_current s g h (write_done i (enqueue i (s.gens h))) d.1 e),
)
Step-Winds {s} g k (fail_send i h at e) d = (
  d,
  call-Winds s g h (not_written (enqueue i (s.gens h)))
      (absurd_current s g h (not_written (enqueue i (s.gens h))) d.1 e),
)
Step-Winds {s} g k (drain_in_call i h x rest at e) d =
    (d, call-Winds s g h (drain_call rest (s.gens h)) (λ _. drains x rest (s.gens h) e))
Step-Winds {s} g k (receive_line h e) d = (
  d,
  reader-Winds s g h (reader_at got_line (s.gens h))
      (turned (s.gens h) reading got_line e (λ n. omega arith)),
)
Step-Winds {s} g k (read_error h e) d = (
  d,
  reader-Winds s g h (reader_at aborting (s.gens h))
      (turned (s.gens h) reading aborting e (λ n. omega arith)),
)
Step-Winds {s} g k (find_nothing h e f) d = (
  d,
  reader-Winds s g h (reader_at aborting (s.gens h))
      (turned (s.gens h) got_line aborting e (λ n. omega arith)),
)
Step-Winds {s} g k (deliver_line h x e) d = (
  d,
  reader-Winds s g h (reader_at reading (s.gens h))
      (turned (s.gens h) (decoding x) reading e (λ n. omega arith)),
)
Step-Winds {s} g k (deliver_bad_line h x e) d = (
  d,
  reader-Winds s g h (reader_at aborting (s.gens h))
      (turned (s.gens h) (decoding x) aborting e (λ n. omega arith)),
)
Step-Winds {s} g k (take_pending h x rest e f) d =
    (d, reader-Winds s g h (take_call x rest (s.gens h)) (rw (e, f) (omega arith), refl, refl))
Step-Winds {s} g k (drain_in_reader h x rest e f) d =
    (d, reader-Winds s g h (drain_call rest (s.gens h)) (drains_in_turn x rest (s.gens h) e f))
Step-Winds {s} g k (end_drain_in_reader h e f) d =
    (d, reader-Winds s g h (reader_at stopped (s.gens h)) (rw (e, f) (omega arith), refl, refl))

Steps-Winds :
    {n : ℕ} {s t : Link} (g : ℕ)
    → Reach n s
    → (steps : Steps s t) → IsDetached s g
    → IsDetached t g × Winds (turns g steps) (s.gens g) (t.gens g)
Steps-Winds {s} g r here d = (d, same_Winds (s.gens g))
Steps-Winds g r (next steps st) d =
    let (d', (le, e, q)) = Steps-Winds g r steps d in
    let (d'', (le', e', q')) = Step-Winds g (Reach-Known (Reach-Steps r steps)) st d' in
    (d'', (omega arith, e' ∙ e, q' ∙ q))

-- However the goroutines interleave from a reachable state in which a connection is not, or no
-- longer, the current one of its shard: no call is put into its
-- `pending` and no request is written to it any more; its reader takes at most
-- 773 more turns; and in every later state either it can take one, or it has ended and no call is
-- pending.
pub reader_ends :
    {n : ℕ} {s t : Link} (g : ℕ)
    → Reach n s
    → g < s.next_gen
    → is_current g s ≡ false
    → (steps : Steps s t)
    → ((t.gens g).queued ≡ (s.gens g).queued)
      × ((t.gens g).sent ≡ (s.gens g).sent)
      × (turns g steps ≤ 773)
      × (((is_idle (t.gens g).reader ≡ true) × ((t.gens g).pending ≡ [])) ⊎ CanTurn t g)
reader_ends {s} {t} g r there detached steps =
    let (d, (le, e, q)) = Steps-Winds g r steps (there, detached) in
    (
      q,
      e,
      omega (arith, rounds_le (length (s.gens g).pending) (s.gens g).reader, pending_bound g r),
      elim (Bool-cases (is_idle (t.gens g).reader)) [
        | inl idle ↦ inl (idle, (Reach-Attended (Reach-Steps r steps) g).0 idle)
        | inr busy ↦ inr (busy-CanTurn t g busy)
      ],
    )
