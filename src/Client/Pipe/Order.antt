-- ===== src/Client/Pipe/Order.antt =====
-- The order in which the pending calls of a generation are taken.
use deadhorse.Common.{
  Bool-cases, List, [], ap, append_assoc, arith, inl, inr, length, length-append, refl, sym, ℕ,
  ◌++◌, ◌+◌, ◌∙◌, ◌∷◌, ◌≡◌,
}
use deadhorse.Client.Pipe.{
  Generation, Link, ReaderPhase, aborting, acquire, clear_conn, drain_call, enqueue, got_line,
  is_current, new_generation, not_started, not_written, put_gen, reader_at, reader_draining,
  reading, release, stopped, take_call, write_done,
}
use deadhorse.Client.Pipe.Known.{put_elim}
use deadhorse.Client.Pipe.Steps.{
  Reach, Step, abort_call, abort_reader, begin_dial, close_link, deliver_bad_line, deliver_line,
  dial_after_close, drain_in_call, drain_in_reader, end_dial, end_drain_in_call,
  end_drain_in_reader, fail_dial, fail_send, find_closed, find_conn, find_dial, find_nothing,
  find_stale, get_token, give_up, later, leave_dial, leave_queue, read_error, receive, receive_line,
  see_dial_end, send, start, take_pending,
}

-- While nothing was drained, the calls that were answered and those that wait are, in this order, the
-- calls that were put into `pending`; every such call was answered, was drained, or waits; and while no
-- write failed, the requests of these calls are on the wire, in this order.
abbrev pub Ordered : Generation → Type 0
Ordered gen =
    (gen.drained ≡ 0 → gen.answered ++ gen.pending ≡ gen.queued)
    × (length gen.answered + gen.drained + length gen.pending ≡ length gen.queued)
    × (gen.failed_writes ≡ 0 → gen.sent ≡ gen.queued)

put_gen-Ordered :
    (s : Link) (g h : ℕ) (gen : Generation)
    → (Ordered (s.gens h) → Ordered gen)
    → ((j : ℕ) → Ordered (s.gens j))
    → Ordered ((put_gen h gen s).gens g)
put_gen-Ordered s g h gen keep o = put_elim Ordered h g gen s.gens (λ _. keep (o h)) (λ _. o g)

queues :
    (c : ℕ) (gen : Generation)
    → Ordered gen
    → (gen.drained ≡ 0 → gen.answered ++ (gen.pending ++ c ∷ []) ≡ gen.queued ++ c ∷ [])
      × (length gen.answered + gen.drained + length (gen.pending ++ c ∷ [])
          ≡ length (gen.queued ++ c ∷ []))
queues c gen (same, total, _) = (
  λ none_of.
      sym (append_assoc gen.answered gen.pending (c ∷ [])) ∙ ap (λ xs. xs ++ c ∷ []) (same none_of),
  omega (arith, length-append gen.pending (c ∷ []), length-append gen.queued (c ∷ [])),
)

sends : (c : ℕ) (gen : Generation) → Ordered gen → Ordered (write_done c (enqueue c gen))
sends c gen o =
    let (same, total) = queues c gen o in
    (same, total, λ whole. ap (λ xs. xs ++ c ∷ []) (o.2 whole))

fails : (c : ℕ) (gen : Generation) → Ordered gen → Ordered (not_written (enqueue c gen))
fails c gen o = let (same, total) = queues c gen o in (same, total, λ whole. absurd (omega arith))

takes :
    (x : ℕ) (rest : List ℕ) (gen : Generation)
    → gen.pending ≡ x ∷ rest
    → Ordered gen
    → Ordered (take_call x rest gen)
takes x rest gen e (same, total, wire) = (
  λ none_of.
      append_assoc gen.answered (x ∷ []) rest
      ∙ ap (λ xs. gen.answered ++ xs) (sym e)
      ∙ same none_of,
  omega (arith, length-append gen.answered (x ∷ []), ap length e),
  wire,
)

drains :
    (x : ℕ) (rest : List ℕ) (gen : Generation)
    → gen.pending ≡ x ∷ rest
    → Ordered gen
    → Ordered (drain_call rest gen)
drains x rest gen e (same, total, wire) =
    ((λ none_of. absurd (omega arith)), omega (arith, ap length e), wire)

clear_conn-Ordered : (s : Link) (g h : ℕ) → Ordered (s.gens g) → Ordered ((clear_conn h s).gens g)
clear_conn-Ordered s g h o = elim (Bool-cases (is_current h s)) [ inl e ↦ rw e o | inr e ↦ rw e o ]

new_generation-Ordered : (ph : ReaderPhase) → Ordered (reader_at ph new_generation)
new_generation-Ordered ph = ((λ _. refl), omega arith, λ _. refl)

Step-Ordered :
    {s t : Link} → Step s t → ((j : ℕ) → Ordered (s.gens j)) → (g : ℕ) → Ordered (t.gens g)
Step-Ordered {s} (find_closed c at h) o g = o g
Step-Ordered {s} (find_conn c j at h e) o g = o g
Step-Ordered {s} (find_dial c d at h e f) o g = o g
Step-Ordered {s} (begin_dial c at h e f) o g = o g
Step-Ordered {s} (see_dial_end c d at h) o g = o g
Step-Ordered {s} (leave_dial c d at) o g = o g
Step-Ordered {s} (fail_dial c d at) o g = o g
Step-Ordered {s} (dial_after_close c d at h) o g = o g
Step-Ordered {s} (end_dial c d at h) o g =
    put_elim Ordered s.next_gen g (reader_at reading new_generation) s.gens
      (λ _. new_generation-Ordered reading) (λ _. o g)
Step-Ordered {s} (get_token c h at e) o g = put_gen-Ordered s g h (acquire (s.gens h)) (λ b. b) o
Step-Ordered {s} (leave_queue c h at) o g = o g
Step-Ordered {s} (find_stale c h at e) o g = put_gen-Ordered s g h (release (s.gens h)) (λ b. b) o
Step-Ordered {s} (send c h at e) o g = put_gen-Ordered s g h _ (sends c (s.gens h)) o
Step-Ordered {s} (fail_send c h at e) o g = put_gen-Ordered s g h _ (fails c (s.gens h)) o
Step-Ordered {s} (abort_call c h at) o g = clear_conn-Ordered s g h (o g)
Step-Ordered {s} (drain_in_call c h x rest at e) o g =
    put_gen-Ordered s g h _ (drains x rest (s.gens h) e) o
Step-Ordered {s} (end_drain_in_call c h at e) o g = o g
Step-Ordered {s} (receive c at h) o g = o g
Step-Ordered {s} (give_up c at) o g = o g
Step-Ordered {s} (receive_line h e) o g =
    put_gen-Ordered s g h (reader_at got_line (s.gens h)) (λ b. b) o
Step-Ordered {s} (read_error h e) o g =
    put_gen-Ordered s g h (reader_at aborting (s.gens h)) (λ b. b) o
Step-Ordered {s} (take_pending h x rest e f) o g =
    put_gen-Ordered s g h _ (takes x rest (s.gens h) f) o
Step-Ordered {s} (find_nothing h e f) o g =
    put_gen-Ordered s g h (reader_at aborting (s.gens h)) (λ b. b) o
Step-Ordered {s} (deliver_line h x e) o g =
    put_gen-Ordered s g h (reader_at reading (s.gens h)) (λ b. b) o
Step-Ordered {s} (deliver_bad_line h x e) o g =
    put_gen-Ordered s g h (reader_at aborting (s.gens h)) (λ b. b) o
Step-Ordered {s} (abort_reader h e) o g =
    clear_conn-Ordered (put_gen h (reader_at reader_draining (s.gens h)) s) g h
      (put_gen-Ordered s g h (reader_at reader_draining (s.gens h)) (λ b. b) o)
Step-Ordered {s} (drain_in_reader h x rest e f) o g =
    put_gen-Ordered s g h _ (drains x rest (s.gens h) f) o
Step-Ordered {s} (end_drain_in_reader h e f) o g =
    put_gen-Ordered s g h (reader_at stopped (s.gens h)) (λ b. b) o
Step-Ordered {s} close_link o g = o g

pub Reach-Ordered : {n : ℕ} {s : Link} → Reach n s → (g : ℕ) → Ordered (s.gens g)
Reach-Ordered start g = new_generation-Ordered not_started
Reach-Ordered (later r st) g = Step-Ordered st (Reach-Ordered r) g
