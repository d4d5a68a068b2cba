-- ===== src/Client/Pipe/Answers.antt =====
-- Which response line a call is given.
use deadhorse.Common.{
  Bool-cases, List, [], arith, get_elem?, get_elem?-append, get_elem?-concat,
  get_elem?-concat_cases, inl, inr, length, length-append, refl, some, sym, ℕ, ◌++◌, ◌-◌, ◌∙◌, ◌∷◌,
  ◌≡◌, ◌≢◌,
}
use deadhorse.Client.Pipe.{
  Delivery, Generation, Link, Phase, ReaderPhase, aborting, acquire, caller_draining, clear_conn,
  decoding, deliver, drain_call, enqueue, failed_with, go_to, got_line, install, is_current,
  line_of, new_generation, not_written, put_gen, reader_at, reader_draining, reading, release,
  stopped, take_call, write_done,
}
use deadhorse.Client.Pipe.Known.{Known, Reach-Known, put_elim, put_self}
use deadhorse.Client.Pipe.Order.{Reach-Ordered}
use deadhorse.Client.Pipe.Steps.{
  Reach, Step, abort_call, abort_reader, begin_dial, close_link, deliver_bad_line, deliver_line,
  dial_after_close, drain_in_call, drain_in_reader, end_dial, end_drain_in_call,
  end_drain_in_reader, fail_dial, fail_send, find_closed, find_conn, find_dial, find_nothing,
  find_stale, get_token, give_up, later, leave_dial, leave_queue, read_error, receive, receive_line,
  see_dial_end, send, start, take_pending,
}

-- The call that the reader holds is the last one answered.
abbrev pub Holds : Generation → Type 0
Holds gen =
    (x : ℕ) → gen.reader ≡ decoding x → get_elem? gen.answered (length gen.answered - 1) ≡ some x

-- The calls that were answered on `gen` were answered on `gen'` too, at the same numbers.
abbrev Extends : Generation → Generation → Type 0
Extends gen gen' =
    (c k : ℕ) → get_elem? gen.answered k ≡ some c → get_elem? gen'.answered k ≡ some c

-- A line in the inbox of a call is one that was matched with the call.
abbrev pub Matched : Link → Type 0
Matched s =
    ((g : ℕ) → Holds (s.gens g))
    × ((c i g k : ℕ)
        → get_elem? (s.inbox c) i ≡ some (line_of g k)
        → get_elem? (s.gens g).answered k ≡ some c)

put_gen-Matched :
    (s : Link) (h : ℕ) (gen : Generation)
    → Holds gen
    → Extends (s.gens h) gen
    → Matched s
    → Matched (put_gen h gen s)
put_gen-Matched s h gen holds more (held, matched) = (
  (λ g. put_elim Holds h g gen s.gens (λ _. holds) (λ _. held g)),
  λ c i g k e.
      put_elim (λ x. get_elem? x.answered k ≡ some c) h g gen s.gens
        (λ same. more c k (rw (← same) at (matched c i g k e))) (λ _. matched c i g k e),
)

-- Something goes into the inbox of a call: a failure, or a line that was matched with the call.
deliver-Matched :
    (s : Link) (x : ℕ) (d : Delivery)
    → ((g k : ℕ) → d ≡ line_of g k → get_elem? (s.gens g).answered k ≡ some x)
    → Matched s
    → Matched (deliver x d s)
deliver-Matched s x d fits (held, matched) = (
  held,
  λ c i g k.
      put_elim
        (λ inbox. get_elem? inbox i ≡ some (line_of g k) → get_elem? (s.gens g).answered k ≡ some c)
        x c (s.inbox x ++ d ∷ []) s.inbox
        (λ same e. elim (get_elem?-concat_cases (s.inbox x) d (line_of g k) i e) [
          | inl is_new ↦ rw (← same) (fits g k (sym is_new))
          | inr old ↦ rw (← same) (matched x i g k old)
        ])
        (λ _ e. matched c i g k e),
)

clear_conn-Matched : (s : Link) (h : ℕ) → Matched s → Matched (clear_conn h s)
clear_conn-Matched s h m = elim (Bool-cases (is_current h s)) [ inl e ↦ rw e m | inr e ↦ rw e m ]

clear_conn_then-Matched :
    (s : Link) (h c : ℕ) (ph : Phase) → Matched s → Matched (go_to c ph (clear_conn h s))
clear_conn_then-Matched s h c ph m = elim (Bool-cases (is_current h s)) [
  | inl e ↦ rw e m
  | inr e ↦ rw e m
]

-- A generation whose reader holds no call any more.
moves-Matched :
    (s : Link) (h : ℕ) (ph : ReaderPhase)
    → ((x : ℕ) → ph ≢ decoding x)
    → Matched s
    → Matched (put_gen h (reader_at ph (s.gens h)) s)
moves-Matched s h ph free m =
    put_gen-Matched s h (reader_at ph (s.gens h)) (λ x e. absurd (free x e)) (λ c k e. e) m

-- A generation that keeps its reader and its answers.
keeps-Matched :
    (s : Link) (h : ℕ) (gen : Generation)
    → gen.reader ≡ (s.gens h).reader
    → gen.answered ≡ (s.gens h).answered
    → Matched s
    → Matched (put_gen h gen s)
keeps-Matched s h gen e f m =
    put_gen-Matched s h gen (λ x q. rw f (m.0 h x (sym e ∙ q))) (λ c k q. rw f q) m

takes-Matched :
    (s : Link) (h x : ℕ) (rest : List ℕ)
    → Matched s
    → Matched (put_gen h (take_call x rest (s.gens h)) s)
takes-Matched s h x rest m =
    put_gen-Matched s h (take_call x rest (s.gens h))
      (λ y e. let same : x ≡ y = cc in rw (← same, last) (get_elem?-concat (s.gens h).answered x))
      (λ c k e. get_elem?-append (s.gens h).answered (x ∷ []) k c e) m
  where
    last : length ((s.gens h).answered ++ x ∷ []) - 1 ≡ length (s.gens h).answered
    last = omega (arith, length-append (s.gens h).answered (x ∷ []))

-- The line goes to the call that the reader holds.
delivers-Matched :
    (s : Link) (h x : ℕ)
    → (s.gens h).reader ≡ decoding x
    → Matched s
    → Matched (
        deliver x
          (line_of h (length (s.gens h).answered - 1))
          (put_gen h (reader_at reading (s.gens h)) s))
delivers-Matched s h x e m =
    deliver-Matched (put_gen h (reader_at reading (s.gens h)) s) x
      (line_of h (length (s.gens h).answered - 1))
      (λ g k q.
        let same_gen : h ≡ g = cc in
        let same_number : length (s.gens h).answered - 1 ≡ k = cc in
        rw (← same_gen, ← same_number, put_self h (reader_at reading (s.gens h)) s.gens)
          (m.0 h x e))
      (moves-Matched s h reading (λ y q. cc) m)

fails-Matched : (s : Link) (x g : ℕ) → Matched s → Matched (deliver x (failed_with g) s)
fails-Matched s x g m = deliver-Matched s x (failed_with g) (λ h k e. cc) m

install-Matched : (s : Link) (c : ℕ) → Known s → Matched s → Matched (install c s)
install-Matched s c k (held, matched) = (
  (λ g.
      put_elim Holds s.next_gen g (reader_at reading new_generation) s.gens (λ _ x e. cc)
        (λ _. held g)),
  λ c' i g n e.
      put_elim (λ x. get_elem? x.answered n ≡ some c') s.next_gen g
        (reader_at reading new_generation) s.gens
        (λ same. rw (k.fresh g (omega arith)) at (matched c' i g n e)) (λ _. matched c' i g n e),
)

Step-Matched : {s t : Link} → Known s → Step s t → Matched s → Matched t
Step-Matched {s} k (find_closed c at h) m = m
Step-Matched {s} k (find_conn c j at h e) m = m
Step-Matched {s} k (find_dial c d at h e f) m = m
Step-Matched {s} k (begin_dial c at h e f) m = m
Step-Matched {s} k (see_dial_end c d at h) m = m
Step-Matched {s} k (leave_dial c d at) m = m
Step-Matched {s} k (fail_dial c d at) m = m
Step-Matched {s} k (dial_after_close c d at h) m = m
Step-Matched {s} k (end_dial c d at h) m = install-Matched s c k m
Step-Matched {s} k (get_token c h at e) m = keeps-Matched s h (acquire (s.gens h)) refl refl m
Step-Matched {s} k (leave_queue c h at) m = m
Step-Matched {s} k (find_stale c h at e) m = keeps-Matched s h (release (s.gens h)) refl refl m
Step-Matched {s} k (send c h at e) m =
    keeps-Matched s h (write_done c (enqueue c (s.gens h))) refl refl m
Step-Matched {s} k (fail_send c h at e) m =
    keeps-Matched s h (not_written (enqueue c (s.gens h))) refl refl m
Step-Matched {s} k (abort_call c h at) m = clear_conn_then-Matched s h c (caller_draining h) m
Step-Matched {s} k (drain_in_call c h x rest at e) m =
    fails-Matched (put_gen h (drain_call rest (s.gens h)) s) x h
      (keeps-Matched s h (drain_call rest (s.gens h)) refl refl m)
Step-Matched {s} k (end_drain_in_call c h at e) m = m
Step-Matched {s} k (receive c at h) m = m
Step-Matched {s} k (give_up c at) m = m
Step-Matched {s} k (receive_line h e) m = moves-Matched s h got_line (λ x q. cc) m
Step-Matched {s} k (read_error h e) m = moves-Matched s h aborting (λ x q. cc) m
Step-Matched {s} k (take_pending h x rest e f) m = takes-Matched s h x rest m
Step-Matched {s} k (find_nothing h e f) m = moves-Matched s h aborting (λ x q. cc) m
Step-Matched {s} k (deliver_line h x e) m = delivers-Matched s h x e m
Step-Matched {s} k (deliver_bad_line h x e) m =
    fails-Matched (put_gen h (reader_at aborting (s.gens h)) s) x h
      (moves-Matched s h aborting (λ y q. cc) m)
Step-Matched {s} k (abort_reader h e) m =
    clear_conn-Matched (put_gen h (reader_at reader_draining (s.gens h)) s) h
      (moves-Matched s h reader_draining (λ x q. cc) m)
Step-Matched {s} k (drain_in_reader h x rest e f) m =
    fails-Matched (put_gen h (drain_call rest (s.gens h)) s) x h
      (keeps-Matched s h (drain_call rest (s.gens h)) refl refl m)
Step-Matched {s} k (end_drain_in_reader h e f) m = moves-Matched s h stopped (λ x q. cc) m
Step-Matched {s} k close_link m = m

Reach-Matched : {n : ℕ} {s : Link} → Reach n s → Matched s
Reach-Matched start = ((λ g x e. cc), λ c i g k e. cc)
Reach-Matched (later r st) = Step-Matched (Reach-Known r) st (Reach-Matched r)

-- However the calls, the readers and the aborts interleave: if a response line is in the inbox of a
-- call, and so far no write on that connection failed and no call of it was drained, then the line
-- has the number on the connection that the request of this call has among the requests written to it.
pub answers_own_call :
    {n : ℕ} {s : Link} (g c i number : ℕ)
    → Reach n s
    → (s.gens g).failed_writes ≡ 0
    → (s.gens g).drained ≡ 0
    → get_elem? (s.inbox c) i ≡ some (line_of g number)
    → get_elem? (s.gens g).sent number ≡ some c
answers_own_call {s} g c i number r whole undrained e =
    let (same, _, wire) = Reach-Ordered r g in
    rw (wire whole, ← same undrained)
      (get_elem?-append (s.gens g).answered (s.gens g).pending number c
        ((Reach-Matched r).1 c i g number e))
