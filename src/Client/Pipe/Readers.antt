-- ===== src/Client/Pipe/Readers.antt =====
-- Who looks after the pending calls of a generation.
use mathlib.Core.List.{cons-ne-nil}
use deadhorse.Common.{
  ==_iff, Bool, Bool-cases, List, [], ap, false, inl, inr, refl, sym, true, ℕ, ◌==◌, ◌∙◌, ◌∷◌, ◌≡◌,
  ◌≢◌,
}
use deadhorse.Client.Pipe.{
  Generation, Link, ReaderPhase, aborting, acquire, clear_conn, decoding, drain_call, enqueue,
  got_line, install, is_current, new_generation, not_started, not_written, put_gen, reader_at,
  reader_draining, reading, release, stopped, take_call, write_done,
}
use deadhorse.Client.Pipe.Known.{Known, Reach-Known, put_elim}
use deadhorse.Client.Pipe.Steps.{
  Reach, Step, abort_call, abort_reader, begin_dial, close_link, deliver_bad_line, deliver_line,
  dial_after_close, drain_in_call, drain_in_reader, end_dial, end_drain_in_call,
  end_drain_in_reader, fail_dial, fail_send, find_closed, find_conn, find_dial, find_nothing,
  find_stale, get_token, give_up, later, leave_dial, leave_queue, read_error, receive, receive_line,
  see_dial_end, send, start, take_pending,
}

-- The reader has not started, or has ended.
abbrev pub is_idle : ReaderPhase → Bool
is_idle not_started = true
is_idle stopped = true
is_idle _ = false

-- The reader runs, and has not yet given the connection up.
abbrev pub is_live : ReaderPhase → Bool
is_live reading = true
is_live got_line = true
is_live (decoding _) = true
is_live aborting = true
is_live _ = false

-- A generation without a reader has no pending call, and the current one has a live reader.
abbrev pub AttendedBy : Bool → Generation → Type 0
AttendedBy current gen =
    (is_idle gen.reader ≡ true → gen.pending ≡ []) × (current ≡ true → is_live gen.reader ≡ true)

abbrev pub Attended : Link → ℕ → Type 0
Attended s g = AttendedBy (is_current g s) (s.gens g)

put_gen-Attended :
    (s : Link) (g h : ℕ) (gen : Generation)
    → (AttendedBy (is_current h s) (s.gens h) → AttendedBy (is_current h s) gen)
    → ((j : ℕ) → Attended s j)
    → Attended (put_gen h gen s) g
put_gen-Attended s g h gen keep a =
    put_elim (AttendedBy (is_current g s)) h g gen s.gens (λ same. rw same at (keep (a h)))
      (λ _. a g)

pub is_current-clear_conn :
    (s : Link) (g h : ℕ) → is_current g (clear_conn h s) ≡ true → (is_current g s ≡ true) × (h ≢ g)
is_current-clear_conn s g h e = elim (Bool-cases (is_current h s)) [
  | inl cleared ↦ let f = rw cleared at e in cc
  | inr kept ↦
      let f : is_current g s ≡ true = rw kept at e in (f, λ same. let f' = rw (← same) at f in cc)
]

pub gens-clear_conn : (s : Link) (h : ℕ) → (clear_conn h s).gens ≡ s.gens
gens-clear_conn s h = elim (Bool-cases (is_current h s)) [ inl e ↦ rw e | inr e ↦ rw e ]

clear_conn-Attended :
    (s : Link) (g h : ℕ)
    → (h ≢ g → Attended s g)
    → (is_idle (s.gens g).reader ≡ true → (s.gens g).pending ≡ [])
    → Attended (clear_conn h s) g
clear_conn-Attended s g h a idle =
    rw (gens-clear_conn s h) (
      idle,
      λ e. let (now_current, apart) = is_current-clear_conn s g h e in (a apart).1 now_current,
    )

absurd_bool : {b : Bool} → b ≡ false → b ≡ true → ⊥
absurd_bool e f = cc

-- The reader of a generation goes on to another phase in which it runs.
runs :
    (ph : ReaderPhase) (current : Bool) (gen : Generation)
    → is_idle ph ≡ false
    → is_live ph ≡ true
    → AttendedBy current (reader_at ph gen)
runs ph current gen busy live = ((λ e. absurd (absurd_bool busy e)), λ _. live)

-- A call is drained.
drains :
    (current : Bool) (gen : Generation) (x : ℕ) (rest : List ℕ)
    → gen.pending ≡ x ∷ rest
    → AttendedBy current gen
    → AttendedBy current (drain_call rest gen)
drains current gen x rest e (idle, live) =
    ((λ f. absurd (cons-ne-nil x rest (sym e ∙ idle f))), live)

live-busy : (ph : ReaderPhase) → is_live ph ≡ true → is_idle ph ≡ false
live-busy not_started h = cc
live-busy reading h = refl
live-busy got_line h = refl
live-busy (decoding x) h = refl
live-busy aborting h = refl
live-busy reader_draining h = cc
live-busy stopped h = cc

-- A call is sent on the current connection.
sends :
    (c : ℕ) (gen : Generation) (current : Bool)
    → current ≡ true
    → AttendedBy current gen
    → AttendedBy current (enqueue c gen)
sends c gen current e (idle, live) =
    ((λ f. absurd (absurd_bool (live-busy gen.reader (live e)) f)), live)

install-Attended : (s : Link) (c g : ℕ) → Known s → Attended s g → Attended (install c s) g
install-Attended s c g k a =
    put_elim (AttendedBy (s.next_gen == g)) s.next_gen g (reader_at reading new_generation) s.gens
      (λ same. ((λ e. cc), λ _. refl))
      (λ apart. (a.0, λ e. absurd (apart ((==_iff s.next_gen g).0 e))))

Step-Attended :
    {s t : Link} → Known s → Step s t → ((j : ℕ) → Attended s j) → (g : ℕ) → Attended t g
Step-Attended {s} k (find_closed c at h) a g = a g
Step-Attended {s} k (find_conn c j at h e) a g = a g
Step-Attended {s} k (find_dial c d at h e f) a g = a g
Step-Attended {s} k (begin_dial c at h e f) a g = a g
Step-Attended {s} k (see_dial_end c d at h) a g = a g
Step-Attended {s} k (leave_dial c d at) a g = a g
Step-Attended {s} k (fail_dial c d at) a g = a g
Step-Attended {s} k (dial_after_close c d at h) a g = a g
Step-Attended {s} k (end_dial c d at h) a g = install-Attended s c g k (a g)
Step-Attended {s} k (get_token c h at e) a g =
    put_gen-Attended s g h (acquire (s.gens h)) (λ b. b) a
Step-Attended {s} k (leave_queue c h at) a g = a g
Step-Attended {s} k (find_stale c h at e) a g =
    put_gen-Attended s g h (release (s.gens h)) (λ b. b) a
Step-Attended {s} k (send c h at e) a g =
    put_gen-Attended s g h (write_done c (enqueue c (s.gens h)))
      (sends c (s.gens h) (is_current h s) e) a
Step-Attended {s} k (fail_send c h at e) a g =
    put_gen-Attended s g h (not_written (enqueue c (s.gens h)))
      (sends c (s.gens h) (is_current h s) e) a
Step-Attended {s} k (abort_call c h at) a g = clear_conn-Attended s g h (λ _. a g) (a g).0
Step-Attended {s} k (drain_in_call c h x rest at e) a g =
    put_gen-Attended s g h (drain_call rest (s.gens h))
      (drains (is_current h s) (s.gens h) x rest e) a
Step-Attended {s} k (end_drain_in_call c h at e) a g = a g
Step-Attended {s} k (receive c at h) a g = a g
Step-Attended {s} k (give_up c at) a g = a g
Step-Attended {s} k (receive_line h e) a g =
    put_gen-Attended s g h _ (λ _. runs got_line (is_current h s) (s.gens h) refl refl) a
Step-Attended {s} k (read_error h e) a g =
    put_gen-Attended s g h _ (λ _. runs aborting (is_current h s) (s.gens h) refl refl) a
Step-Attended {s} k (take_pending h x rest e f) a g =
    put_gen-Attended s g h (take_call x rest (s.gens h))
      (λ _. ((λ q. absurd (absurd_bool refl q)), λ _. refl)) a
Step-Attended {s} k (find_nothing h e f) a g =
    put_gen-Attended s g h _ (λ _. runs aborting (is_current h s) (s.gens h) refl refl) a
Step-Attended {s} k (deliver_line h x e) a g =
    put_gen-Attended s g h _ (λ _. runs reading (is_current h s) (s.gens h) refl refl) a
Step-Attended {s} k (deliver_bad_line h x e) a g =
    put_gen-Attended s g h _ (λ _. runs aborting (is_current h s) (s.gens h) refl refl) a
Step-Attended {s} k (abort_reader h e) a g =
    clear_conn-Attended (put_gen h (reader_at reader_draining (s.gens h)) s) g h
      (λ apart.
        put_elim (AttendedBy (is_current g s)) h g (reader_at reader_draining (s.gens h)) s.gens
          (λ same. absurd (apart same)) (λ _. a g))
      (put_elim (λ gen. is_idle gen.reader ≡ true → gen.pending ≡ []) h g
        (reader_at reader_draining (s.gens h)) s.gens (λ _ q. absurd (absurd_bool refl q))
        (λ _. (a g).0))
Step-Attended {s} k (drain_in_reader h x rest e f) a g =
    put_gen-Attended s g h (drain_call rest (s.gens h))
      (drains (is_current h s) (s.gens h) x rest f) a
Step-Attended {s} k (end_drain_in_reader h e f) a g =
    put_gen-Attended s g h (reader_at stopped (s.gens h))
      (λ b. ((λ _. f), λ q. absurd (absurd_bool (ap is_live e) (b.1 q)))) a
Step-Attended {s} k close_link a g = ((a g).0, λ e. cc)

pub Reach-Attended : {n : ℕ} {s : Link} → Reach n s → (g : ℕ) → Attended s g
Reach-Attended start g = ((λ _. refl), λ e. cc)
Reach-Attended (later r st) g = Step-Attended (Reach-Known r) st (Reach-Attended r) g
