-- ===== src/Client/Pipe/Known.antt =====
-- Generations that are not there yet: no call and no reader is about one of them.
use deadhorse.Common.{
  ==_iff, Bool-cases, ap, arith, get_elem?, get_elem?-set_cases, inl, inr, length, lt_or_le, none,
  refl, replicate, some, suc, sym, zero, ℕ, ◌-◌, ◌<◌, ◌==◌, ◌∙◌, ◌≡◌, ◌≢◌, ◌≤◌,
}
use deadhorse.Client.Pipe.{
  Delivery, Generation, Link, Phase, ReaderPhase, aborting, acquire, admitted, caller_draining,
  clear_conn, connected, connecting, decoding, deliver, dialing_now, drain_call, enqueue,
  failed_with, go_to, got_line, install, is_current, joined_dial, line_of, new_generation,
  not_started, not_written, put, put_gen, reader_at, reader_draining, reading, release, returned,
  submitted, write_done, write_failed,
}
use deadhorse.Client.Pipe.Steps.{
  IsAt, Reach, Step, abort_call, abort_reader, begin_dial, close_link, deliver_bad_line,
  deliver_line, dial_after_close, drain_in_call, drain_in_reader, end_dial, end_drain_in_call,
  end_drain_in_reader, fail_dial, fail_send, find_closed, find_conn, find_dial, find_nothing,
  find_stale, get_token, give_up, later, leave_dial, leave_queue, read_error, receive, receive_line,
  see_dial_end, send, start, take_pending,
}

pub put_elim {ℓ κ} :
    {A : Type ℓ} (P : A → Type κ) (i j : ℕ) (a : A) (f : ℕ → A)
    → (i ≡ j → P a)
    → (i ≢ j → P (f j))
    → P (put i a f j)
unfolding put
put_elim P i j a f same apart = elim (Bool-cases (i == j)) [
  | inl e ↦ rw e (same ((==_iff i j).0 e))
  | inr e ↦ rw e (apart (λ eq. ground (arith, ==_iff i j)))
]

pub put_self : {A : Type 0} (i : ℕ) (a : A) (f : ℕ → A) → put i a f i ≡ a
put_self i a f = put_elim (λ x. x ≡ a) i i a f (λ _. refl) (λ ne. absurd (ne refl))

-- The generation of the phase is below `n`.
abbrev pub KnownPhase : ℕ → Phase → Type 0
KnownPhase n (connected g) = g < n
KnownPhase n (admitted g) = g < n
KnownPhase n (write_failed g) = g < n
KnownPhase n (caller_draining g) = g < n
KnownPhase n _ = Unit

KnownPhase-suc : (n : ℕ) (ph : Phase) → KnownPhase n ph → KnownPhase (suc n) ph
KnownPhase-suc n connecting h = tt
KnownPhase-suc n (joined_dial d) h = tt
KnownPhase-suc n (dialing_now d) h = tt
KnownPhase-suc n (connected g) h = omega arith
KnownPhase-suc n (admitted g) h = omega arith
KnownPhase-suc n (write_failed g) h = omega arith
KnownPhase-suc n (caller_draining g) h = omega arith
KnownPhase-suc n submitted h = tt
KnownPhase-suc n returned h = tt

pub record Known (s : Link) : Type 0 where
  pub fresh : (g : ℕ) → s.next_gen ≤ g → s.gens g ≡ new_generation
  pub phases : (c : ℕ) (ph : Phase) → IsAt s c ph → KnownPhase s.next_gen ph
  pub conn : (g : ℕ) → s.current ≡ some g → g < s.next_gen

-- A reader that runs is about a generation that is there.
pub started : (s : Link) (g : ℕ) → Known s → (s.gens g).reader ≢ not_started → g < s.next_gen
started s g k h = elim (lt_or_le g s.next_gen) [
  | inl lt ↦ lt
  | inr le ↦ absurd (h (ap (λ gen. gen.reader) (k.fresh g le)))
]

go_to-Known :
    (s : Link) (c : ℕ) (ph : Phase) → KnownPhase s.next_gen ph → Known s → Known (go_to c ph s)
go_to-Known s c ph h k = record {
  fresh = k.fresh;
  phases = λ c' ph' at. elim (get_elem?-set_cases s.calls c c' ph ph' at) [
    | inl (_, same) ↦ rw same h
    | inr (_, old) ↦ k.phases c' ph' old
  ];
  conn = k.conn;
}

put_gen-Known :
    (s : Link) (g : ℕ) (gen : Generation) → g < s.next_gen → Known s → Known (put_gen g gen s)
put_gen-Known s g gen h k = record {
  fresh = λ j le.
      put_elim (λ x. x ≡ new_generation) g j gen s.gens (λ e. absurd (omega arith))
        (λ _. k.fresh j le);
  phases = k.phases;
  conn = k.conn;
}

no_conn-Known : (s : Link) → Known s → Known (record s { current = none })
no_conn-Known s k = record { fresh = k.fresh; phases = k.phases; conn = λ g e. cc }

clear_conn-Known : (s : Link) (g : ℕ) → Known s → Known (clear_conn g s)
clear_conn-Known s g k = elim (Bool-cases (is_current g s)) [
  | inl e ↦ rw e (no_conn-Known s k)
  | inr e ↦ rw e k
]

clear_conn_then-Known :
    (s : Link) (g c : ℕ) (ph : Phase)
    → KnownPhase s.next_gen ph
    → Known s
    → Known (go_to c ph (clear_conn g s))
clear_conn_then-Known s g c ph h k = elim (Bool-cases (is_current g s)) [
  | inl e ↦ rw e (go_to-Known (record s { current = none }) c ph h (no_conn-Known s k))
  | inr e ↦ rw e (go_to-Known s c ph h k)
]

deliver-Known : (s : Link) (c : ℕ) (d : Delivery) → Known s → Known (deliver c d s)
deliver-Known s c d k = record { fresh = k.fresh; phases = k.phases; conn = k.conn }

install-Known : (s : Link) (c : ℕ) → Known s → Known (install c s)
install-Known s c k = record {
  fresh = λ j le.
      put_elim (λ x. x ≡ new_generation) s.next_gen j (reader_at reading new_generation) s.gens
        (λ e. absurd (omega arith)) (λ _. k.fresh j (omega arith));
  phases = λ c' ph' at. elim (get_elem?-set_cases s.calls c c' (connected s.next_gen) ph' at) [
    | inl (_, same) ↦ rw same (omega arith)
    | inr (_, old) ↦ KnownPhase-suc s.next_gen ph' (k.phases c' ph' old)
  ];
  conn = λ g e. ground arith;
}

pub started_at :
    (s : Link) (g : ℕ) (ph : ReaderPhase)
    → Known s
    → (s.gens g).reader ≡ ph
    → ph ≢ not_started
    → g < s.next_gen
started_at s g ph k e ne = started s g k (λ idle. ne (sym e ∙ idle))

-- Every step keeps to the generations that are there, and a dial that ends adds one.
pub Step-Known : {s t : Link} → Step s t → Known s → Known t
Step-Known {s} (find_closed c at h) k = go_to-Known s c returned tt k
Step-Known {s} (find_conn c g at h e) k = go_to-Known s c (connected g) (k.conn g e) k
Step-Known {s} (find_dial c d at h e f) k = go_to-Known s c (joined_dial d) tt k
Step-Known {s} (begin_dial c at h e f) k =
    go_to-Known (record s { dialing = some s.next_dial; next_dial = suc s.next_dial }) c
      (dialing_now s.next_dial) tt (record { fresh = k.fresh; phases = k.phases; conn = k.conn })
Step-Known {s} (see_dial_end c d at h) k = go_to-Known s c connecting tt k
Step-Known {s} (leave_dial c d at) k = go_to-Known s c returned tt k
Step-Known {s} (fail_dial c d at) k =
    go_to-Known (record s { dialing = none }) c returned tt
      (record { fresh = k.fresh; phases = k.phases; conn = k.conn })
Step-Known {s} (dial_after_close c d at h) k =
    go_to-Known (record s { dialing = none }) c returned tt
      (record { fresh = k.fresh; phases = k.phases; conn = k.conn })
Step-Known {s} (end_dial c d at h) k = install-Known s c k
Step-Known {s} (get_token c g at h) k =
    let there = k.phases c (connected g) at in
    go_to-Known (put_gen g (acquire (s.gens g)) s) c (admitted g) there
      (put_gen-Known s g (acquire (s.gens g)) there k)
Step-Known {s} (leave_queue c g at) k = go_to-Known s c returned tt k
Step-Known {s} (find_stale c g at h) k =
    go_to-Known (put_gen g (release (s.gens g)) s) c connecting tt
      (put_gen-Known s g (release (s.gens g)) (k.phases c (admitted g) at) k)
Step-Known {s} (send c g at h) k =
    go_to-Known (put_gen g (write_done c (enqueue c (s.gens g))) s) c submitted tt
      (put_gen-Known s g (write_done c (enqueue c (s.gens g))) (k.phases c (admitted g) at) k)
Step-Known {s} (fail_send c g at h) k =
    let there = k.phases c (admitted g) at in
    go_to-Known (put_gen g (not_written (enqueue c (s.gens g))) s) c (write_failed g) there
      (put_gen-Known s g (not_written (enqueue c (s.gens g))) there k)
Step-Known {s} (abort_call c g at) k =
    clear_conn_then-Known s g c (caller_draining g) (k.phases c (write_failed g) at) k
Step-Known {s} (drain_in_call c g x rest at e) k =
    deliver-Known (put_gen g (drain_call rest (s.gens g)) s) x (failed_with g)
      (put_gen-Known s g (drain_call rest (s.gens g)) (k.phases c (caller_draining g) at) k)
Step-Known {s} (end_drain_in_call c g at e) k = go_to-Known s c returned tt k
Step-Known {s} (receive c at h) k = go_to-Known s c returned tt k
Step-Known {s} (give_up c at) k = go_to-Known s c returned tt k
Step-Known {s} (receive_line g e) k = put_gen-Known s g _ (started_at s g reading k e (λ f. cc)) k
Step-Known {s} (read_error g e) k = put_gen-Known s g _ (started_at s g reading k e (λ f. cc)) k
Step-Known {s} (take_pending g x rest e f) k =
    put_gen-Known s g _ (started_at s g got_line k e (λ f. cc)) k
Step-Known {s} (find_nothing g e f) k =
    put_gen-Known s g _ (started_at s g got_line k e (λ f. cc)) k
Step-Known {s} (deliver_line g x e) k =
    deliver-Known (put_gen g (reader_at reading (s.gens g)) s) x
      (line_of g (length (s.gens g).answered - 1))
      (put_gen-Known s g _ (started_at s g (decoding x) k e (λ f. cc)) k)
Step-Known {s} (deliver_bad_line g x e) k =
    deliver-Known (put_gen g (reader_at aborting (s.gens g)) s) x (failed_with g)
      (put_gen-Known s g _ (started_at s g (decoding x) k e (λ f. cc)) k)
Step-Known {s} (abort_reader g e) k =
    clear_conn-Known (put_gen g (reader_at reader_draining (s.gens g)) s) g
      (put_gen-Known s g _ (started_at s g aborting k e (λ f. cc)) k)
Step-Known {s} (drain_in_reader g x rest e f) k =
    deliver-Known (put_gen g (drain_call rest (s.gens g)) s) x (failed_with g)
      (put_gen-Known s g _ (started_at s g reader_draining k e (λ f. cc)) k)
Step-Known {s} (end_drain_in_reader g e f) k =
    put_gen-Known s g _ (started_at s g reader_draining k e (λ f. cc)) k
Step-Known {s} close_link k = record { fresh = k.fresh; phases = k.phases; conn = λ g e. cc }

pub replicate-connecting :
    (n c : ℕ) (ph : Phase) → get_elem? (replicate n connecting) c ≡ some ph → ph ≡ connecting
replicate-connecting zero c ph h = cc
replicate-connecting (suc n) zero ph h = cc
replicate-connecting (suc n) (suc c) ph h = replicate-connecting n c ph h

pub Reach-Known : {n : ℕ} {s : Link} → Reach n s → Known s
Reach-Known {n} start = record {
  fresh = λ g le. refl;
  phases = λ c ph at. rw (replicate-connecting n c ph at) tt;
  conn = λ g e. cc;
}
Reach-Known (later r st) = Step-Known st (Reach-Known r)
