-- ===== src/Client/Pipe/Slots.antt =====
-- The tokens of a generation: neither a send into `pending` nor a release can ever wait.
use deadhorse.Common.{
  ==_iff, Bool-cases, List, [], ap, arith, false, get_elem?, if◌then◌else◌, inl, inr, length,
  length-append, none, refl, replicate, set, some, suc, sym, zero, ℕ, ◌++◌, ◌+◌, ◌<◌, ◌==◌, ◌∙◌,
  ◌∷◌, ◌≡◌, ◌≢◌, ◌≤◌,
}
use deadhorse.Client.Pipe.{
  Generation, Link, Phase, aborting, acquire, admitted, caller_draining, clear_conn, connected,
  connecting, dialing_now, drain_call, enqueue, go_to, got_line, is_current, joined_dial,
  max_in_flight, new_generation, not_written, put, put_gen, reader_at, reader_draining, reading,
  release, returned, stopped, submitted, take_call, write_done, write_failed,
}
use deadhorse.Client.Pipe.Known.{Known, Reach-Known}
use deadhorse.Client.Pipe.Steps.{
  IsAt, Reach, Step, abort_call, abort_reader, begin_dial, close_link, deliver_bad_line,
  deliver_line, dial_after_close, drain_in_call, drain_in_reader, end_dial, end_drain_in_call,
  end_drain_in_reader, fail_dial, fail_send, find_closed, find_conn, find_dial, find_nothing,
  find_stale, get_token, give_up, later, leave_dial, leave_queue, read_error, receive, receive_line,
  see_dial_end, send, start, take_pending,
}

-- The tokens of a generation that a call in this phase holds.
abbrev pub held_at : ℕ → Phase → ℕ
held_at g (admitted h) = if h == g then 1 else 0
held_at g _ = 0

abbrev pub held : ℕ → List Phase → ℕ
held g [] = 0
held g (ph ∷ calls) = held_at g ph + held g calls

-- Every token is in `sem`, with a call on its way, or with a pending call.
abbrev pub Slots : Link → ℕ → Type 0
Slots s g = (s.gens g).sem + held g s.calls + length (s.gens g).pending ≡ max_in_flight

held-set :
    (g : ℕ) (calls : List Phase) (c : ℕ) (old new : Phase)
    → get_elem? calls c ≡ some old
    → held g (set calls c new) + held_at g old ≡ held g calls + held_at g new
held-set g [] c old new h = cc
held-set g (ph ∷ calls) zero old new h = let same : ph ≡ old = cc in rw same (omega arith)
held-set g (ph ∷ calls) (suc c) old new h = omega (arith, held-set g calls c old new h)

held-replicate : (g n : ℕ) → held g (replicate n connecting) ≡ 0
held-replicate g zero = refl
held-replicate g (suc n) = omega (arith, held-replicate g n)

-- A call moves between phases that hold the same tokens.
go_to-Slots :
    (g : ℕ) (s : Link) (c : ℕ) (old new : Phase)
    → IsAt s c old
    → held_at g old ≡ held_at g new
    → Slots s g
    → Slots (go_to c new s) g
go_to-Slots g s c old new at same h = omega (arith, held-set g s.calls c old new at)

-- A generation changes with its tokens and its pending calls in balance.
put_gen-Slots :
    (g h : ℕ) (s : Link) (gen : Generation)
    → gen.sem + length gen.pending ≡ (s.gens h).sem + length (s.gens h).pending
    → Slots s g
    → Slots (put_gen h gen s) g
unfolding put
put_gen-Slots g h s gen balance slots = elim (Bool-cases (h == g)) [
  | inl same ↦ let e = (==_iff h g).0 same in rw (same, ← e) (omega (arith, rw (← e) at slots))
  | inr apart ↦ rw apart slots
]

-- Both at once.
exchange-Slots :
    (g h : ℕ) (s : Link) (gen : Generation) (c : ℕ) (old new : Phase)
    → IsAt s c old
    → gen.sem + length gen.pending + held_at h new
      ≡ (s.gens h).sem + length (s.gens h).pending + held_at h old
    → ((h == g) ≡ false → held_at g old ≡ held_at g new)
    → Slots s g
    → Slots (go_to c new (put_gen h gen s)) g
unfolding put
exchange-Slots g h s gen c old new at balance apart_same slots = elim (Bool-cases (h == g)) [
  | inl same ↦
      let e = (==_iff h g).0 same in
      rw (same, ← e) (omega (arith, rw (← e) at slots, held-set h s.calls c old new at))
  | inr apart ↦ rw apart (omega (arith, apart_same apart, held-set g s.calls c old new at))
]

clear_conn-Slots : (g h : ℕ) (s : Link) → Slots s g → Slots (clear_conn h s) g
clear_conn-Slots g h s slots = elim (Bool-cases (is_current h s)) [
  | inl e ↦ rw e slots
  | inr e ↦ rw e slots
]

held_self : (g : ℕ) → held_at g (admitted g) ≡ 1
held_self g = ground arith

held_apart : (g h : ℕ) → (h == g) ≡ false → held_at g (admitted h) ≡ 0
held_apart g h e = rw e

clear_conn_then-Slots :
    (g h : ℕ) (s : Link) (c : ℕ)
    → IsAt s c (write_failed h)
    → Slots s g
    → Slots (go_to c (caller_draining h) (clear_conn h s)) g
clear_conn_then-Slots g h s c at slots = elim (Bool-cases (is_current h s)) [
  | inl e ↦ rw e (
      go_to-Slots g (record s { current = none }) c (write_failed h) (caller_draining h) at refl
        slots)
  | inr e ↦ rw e (go_to-Slots g s c (write_failed h) (caller_draining h) at refl slots)
]

-- A call that is taken out of `pending` gives its token back.
popped :
    (gen : Generation) (x : ℕ) (rest : List ℕ)
    → gen.pending ≡ x ∷ rest
    → gen.sem + 1 + length rest ≡ gen.sem + length gen.pending
popped gen x rest e = rw e (omega arith)

-- A call that is sent leaves its token with it.
pushed :
    (gen : Generation) (c : ℕ)
    → gen.sem + length (gen.pending ++ c ∷ []) ≡ gen.sem + length gen.pending + 1
pushed gen c = omega (arith, length-append gen.pending (c ∷ []))

send-Slots :
    (g h : ℕ) (s : Link) (c : ℕ) (new : Phase) (gen : Generation)
    → IsAt s c (admitted h)
    → ((j : ℕ) → held_at j new ≡ 0)
    → gen.sem ≡ (s.gens h).sem
    → gen.pending ≡ (s.gens h).pending ++ c ∷ []
    → Slots s g
    → Slots (go_to c new (put_gen h gen s)) g
send-Slots g h s c new gen at none_held e f slots =
    exchange-Slots g h s gen c (admitted h) new at
      (omega (arith, pushed (s.gens h) c, held_self h, none_held h, e, ap length f))
      (λ apart. held_apart g h apart ∙ sym (none_held g)) slots

Step-Slots : {s t : Link} (g : ℕ) → Known s → Step s t → Slots s g → Slots t g
Step-Slots {s} g k (find_closed c at h) slots = go_to-Slots g s c connecting returned at refl slots
Step-Slots {s} g k (find_conn c j at h e) slots =
    go_to-Slots g s c connecting (connected j) at refl slots
Step-Slots {s} g k (find_dial c d at h e f) slots =
    go_to-Slots g s c connecting (joined_dial d) at refl slots
Step-Slots {s} g k (begin_dial c at h e f) slots =
    go_to-Slots g (record s { dialing = some s.next_dial; next_dial = suc s.next_dial }) c
      connecting (dialing_now s.next_dial) at refl slots
Step-Slots {s} g k (see_dial_end c d at h) slots =
    go_to-Slots g s c (joined_dial d) connecting at refl slots
Step-Slots {s} g k (leave_dial c d at) slots =
    go_to-Slots g s c (joined_dial d) returned at refl slots
Step-Slots {s} g k (fail_dial c d at) slots =
    go_to-Slots g (record s { dialing = none }) c (dialing_now d) returned at refl slots
Step-Slots {s} g k (dial_after_close c d at h) slots =
    go_to-Slots g (record s { dialing = none }) c (dialing_now d) returned at refl slots
Step-Slots {s} g k (end_dial c d at h) slots =
    exchange-Slots g s.next_gen s (reader_at reading new_generation) c (dialing_now d)
      (connected s.next_gen) at (rw (k.fresh s.next_gen (omega arith)) refl) (λ _. refl) slots
Step-Slots {s} g k (get_token c h at e) slots =
    exchange-Slots g h s (acquire (s.gens h)) c (connected h) (admitted h) at
      (omega (arith, held_self h)) (λ apart. sym (held_apart g h apart)) slots
Step-Slots {s} g k (leave_queue c h at) slots =
    go_to-Slots g s c (connected h) returned at refl slots
Step-Slots {s} g k (find_stale c h at e) slots =
    exchange-Slots g h s (release (s.gens h)) c (admitted h) connecting at
      (omega (arith, held_self h)) (λ apart. held_apart g h apart) slots
Step-Slots {s} g k (send c h at e) slots =
    send-Slots g h s c submitted (write_done c (enqueue c (s.gens h))) at (λ j. refl) refl refl
      slots
Step-Slots {s} g k (fail_send c h at e) slots =
    send-Slots g h s c (write_failed h) (not_written (enqueue c (s.gens h))) at (λ j. refl) refl
      refl slots
Step-Slots {s} g k (abort_call c h at) slots = clear_conn_then-Slots g h s c at slots
Step-Slots {s} g k (drain_in_call c h x rest at e) slots =
    put_gen-Slots g h s (drain_call rest (s.gens h)) (popped (s.gens h) x rest e) slots
Step-Slots {s} g k (end_drain_in_call c h at e) slots =
    go_to-Slots g s c (caller_draining h) returned at refl slots
Step-Slots {s} g k (receive c at h) slots = go_to-Slots g s c submitted returned at refl slots
Step-Slots {s} g k (give_up c at) slots = go_to-Slots g s c submitted returned at refl slots
Step-Slots {s} g k (receive_line h e) slots =
    put_gen-Slots g h s (reader_at got_line (s.gens h)) refl slots
Step-Slots {s} g k (read_error h e) slots =
    put_gen-Slots g h s (reader_at aborting (s.gens h)) refl slots
Step-Slots {s} g k (take_pending h x rest e f) slots =
    put_gen-Slots g h s (take_call x rest (s.gens h)) (popped (s.gens h) x rest f) slots
Step-Slots {s} g k (find_nothing h e f) slots =
    put_gen-Slots g h s (reader_at aborting (s.gens h)) refl slots
Step-Slots {s} g k (deliver_line h x e) slots =
    put_gen-Slots g h s (reader_at reading (s.gens h)) refl slots
Step-Slots {s} g k (deliver_bad_line h x e) slots =
    put_gen-Slots g h s (reader_at aborting (s.gens h)) refl slots
Step-Slots {s} g k (abort_reader h e) slots =
    clear_conn-Slots g h (put_gen h (reader_at reader_draining (s.gens h)) s)
      (put_gen-Slots g h s (reader_at reader_draining (s.gens h)) refl slots)
Step-Slots {s} g k (drain_in_reader h x rest e f) slots =
    put_gen-Slots g h s (drain_call rest (s.gens h)) (popped (s.gens h) x rest f) slots
Step-Slots {s} g k (end_drain_in_reader h e f) slots =
    put_gen-Slots g h s (reader_at stopped (s.gens h)) refl slots
Step-Slots {s} g k close_link slots = slots

pub Reach-Slots : {n : ℕ} {s : Link} → Reach n s → (g : ℕ) → Slots s g
Reach-Slots {n} start g = omega (arith, held-replicate g n)
Reach-Slots (later r st) g = Step-Slots g (Reach-Known r) st (Reach-Slots r g)

held-IsAt :
    (g : ℕ) (calls : List Phase) (c : ℕ) → get_elem? calls c ≡ some (admitted g) → 0 < held g calls
held-IsAt g [] c h = cc
held-IsAt g (ph ∷ calls) zero h =
    let same : ph ≡ admitted g = cc in rw same (omega (arith, held_self g))
held-IsAt g (ph ∷ calls) (suc c) h = omega (arith, held-IsAt g calls c h)

pub pending_bound :
    {n : ℕ} {s : Link} (g : ℕ) → Reach n s → length (s.gens g).pending ≤ max_in_flight
pending_bound g r = omega (arith, Reach-Slots r g)

-- In every state that any interleaving reaches, each of the tokens of a generation is in its `sem`,
-- with a call that has taken it and was not sent yet, or with a call in its `pending`: none is lost
-- and none is made. So no send into `pending` and no release waits: a call that holds a token finds
-- room in `pending`, and `sem` has room for its token, and for that of each pending call.
pub no_wait :
    {n : ℕ} {s : Link} (g : ℕ)
    → Reach n s
    → ((s.gens g).sem + held g s.calls + length (s.gens g).pending ≡ max_in_flight)
      × ((c : ℕ)
          → IsAt s c (admitted g)
          → (length (s.gens g).pending < max_in_flight) × ((s.gens g).sem < max_in_flight))
      × ((s.gens g).pending ≢ [] → (s.gens g).sem < max_in_flight)
no_wait {s} g r =
    let slots = Reach-Slots r g in
    (
      slots,
      (λ c at. (omega (arith, held-IsAt g s.calls c at), omega (arith, held-IsAt g s.calls c at))),
      λ some_left. omega (arith, nonempty (s.gens g).pending some_left),
    )
  where
    nonempty : (xs : List ℕ) → xs ≢ [] → 0 < length xs
    nonempty [] h = absurd (h refl)
    nonempty (x ∷ xs) h = omega arith
