-- ===== src/Client/Pipe/Liveness.antt =====
-- Every call that was sent is answered.
use mathlib.Core.List.{cons-ne-nil}
use deadhorse.Common.{
  ==_iff, Bool-cases, List, [], ap, arith, get_elem?, inl, inr, length, refl, some, ℕ, ◌*◌, ◌++◌,
  ◌+◌, ◌-◌, ◌<◌, ◌==◌, ◌∷◌, ◌≡◌, ◌≢◌, ◌≤◌, ◌⊎◌,
}
use deadhorse.Client.Pipe.{
  Delivery, Link, ReaderPhase, aborting, acquire, clear_conn, decoding, deliver, drain_call,
  enqueue, failed_with, got_line, is_current, line_of, new_generation, not_started, not_written,
  put_gen, reader_at, reader_draining, reading, release, stopped, take_call, write_done,
}
use deadhorse.Client.Pipe.Readers.{Reach-Attended, gens-clear_conn, is_idle}
use deadhorse.Client.Pipe.Known.{Known, Reach-Known, put_elim}
use deadhorse.Client.Pipe.Turns.{CanTurn, Reach-Steps, busy-CanTurn, one_if_same, turn, turns}
use deadhorse.Client.Pipe.Progress.{
  Awaits, StillAwaits, call-Awaits, drains, drains_in_turn, ends, goes, keeps,
  new_generation-Awaits, queued_at, reader-Awaits, rounds, sends, takes,
}
use deadhorse.Client.Pipe.Slots.{held}
use deadhorse.Client.Pipe.Steps.{
  Reach, Step, Steps, abort_call, abort_reader, begin_dial, close_link, deliver_bad_line,
  deliver_line, dial_after_close, drain_in_call, drain_in_reader, end_dial, end_drain_in_call,
  end_drain_in_reader, fail_dial, fail_send, find_closed, find_conn, find_dial, find_nothing,
  find_stale, get_token, give_up, here, leave_dial, leave_queue, next, read_error, receive,
  receive_line, see_dial_end, send, take_pending,
}

-- The call has its answer.
abbrev IsAnswered : Link → ℕ → Type 0
IsAnswered s c = s.inbox c ≢ []

-- It has, or it still waits after the step.
abbrev Nearer : {s t : Link} → ℕ → ℕ → ℕ → Step s t → Type 0
Nearer {s} {t} g c d st = IsAnswered t c ⊎ StillAwaits c d (turn g st) (t.gens g)

append-ne-nil : (ds : List Delivery) (d : Delivery) → ds ++ d ∷ [] ≢ []
append-ne-nil [] d e = cons-ne-nil d [] e
append-ne-nil (x ∷ ds) d e = cons-ne-nil x (ds ++ d ∷ []) e

deliver-IsAnswered :
    (s : Link) (x c : ℕ) (d : Delivery) → IsAnswered s c → IsAnswered (deliver x d s) c
deliver-IsAnswered s x c d answered =
    put_elim (λ inbox. inbox ≢ []) x c (s.inbox x ++ d ∷ []) s.inbox
      (λ _. append-ne-nil (s.inbox x) d) (λ _. answered)

delivered-IsAnswered : (s : Link) (x c : ℕ) (d : Delivery) → x ≡ c → IsAnswered (deliver x d s) c
delivered-IsAnswered s x c d e =
    put_elim (λ inbox. inbox ≢ []) x c (s.inbox x ++ d ∷ []) s.inbox
      (λ _. append-ne-nil (s.inbox x) d) (λ ne. absurd (ne e))

clear_conn-IsAnswered : (s : Link) (h c : ℕ) → IsAnswered s c → IsAnswered (clear_conn h s) c
clear_conn-IsAnswered s h c answered = elim (Bool-cases (is_current h s)) [
  | inl e ↦ rw e answered
  | inr e ↦ rw e answered
]

-- An answer stays.
Step-IsAnswered : {s t : Link} (c : ℕ) → Step s t → IsAnswered s c → IsAnswered t c
Step-IsAnswered {s} c (abort_call i g at) a = clear_conn-IsAnswered s g c a
Step-IsAnswered {s} c (drain_in_call i g x rest at e) a =
    deliver-IsAnswered (put_gen g (drain_call rest (s.gens g)) s) x c (failed_with g) a
Step-IsAnswered {s} c (deliver_line g x e) a =
    deliver-IsAnswered (put_gen g (reader_at reading (s.gens g)) s) x c
      (line_of g (length (s.gens g).answered - 1)) a
Step-IsAnswered {s} c (deliver_bad_line g x e) a =
    deliver-IsAnswered (put_gen g (reader_at aborting (s.gens g)) s) x c (failed_with g) a
Step-IsAnswered {s} c (abort_reader g e) a =
    clear_conn-IsAnswered (put_gen g (reader_at reader_draining (s.gens g)) s) g c a
Step-IsAnswered {s} c (drain_in_reader g x rest e f) a =
    deliver-IsAnswered (put_gen g (drain_call rest (s.gens g)) s) x c (failed_with g) a
Step-IsAnswered c (find_closed i at h) a = a
Step-IsAnswered c (find_conn i g at h e) a = a
Step-IsAnswered c (find_dial i d at h e f) a = a
Step-IsAnswered c (begin_dial i at h e f) a = a
Step-IsAnswered c (see_dial_end i d at h) a = a
Step-IsAnswered c (leave_dial i d at) a = a
Step-IsAnswered c (fail_dial i d at) a = a
Step-IsAnswered c (dial_after_close i d at h) a = a
Step-IsAnswered c (end_dial i d at h) a = a
Step-IsAnswered c (get_token i g at e) a = a
Step-IsAnswered c (leave_queue i g at) a = a
Step-IsAnswered c (find_stale i g at e) a = a
Step-IsAnswered c (send i g at e) a = a
Step-IsAnswered c (fail_send i g at e) a = a
Step-IsAnswered c (end_drain_in_call i g at e) a = a
Step-IsAnswered c (receive i at h) a = a
Step-IsAnswered c (give_up i at) a = a
Step-IsAnswered c (receive_line g e) a = a
Step-IsAnswered c (read_error g e) a = a
Step-IsAnswered c (take_pending g x rest e f) a = a
Step-IsAnswered c (find_nothing g e f) a = a
Step-IsAnswered c (end_drain_in_reader g e f) a = a
Step-IsAnswered c (close_link) a = a

-- A call is delivered to: either it is the one, or the other calls are nearer to their answers.
delivers-Nearer :
    (s : Link) (g x c d turn : ℕ) (what : Delivery)
    → (x ≢ c → StillAwaits c d turn (s.gens g))
    → IsAnswered (deliver x what s) c ⊎ StillAwaits c d turn (s.gens g)
delivers-Nearer s g x c d turn what other = elim (Bool-cases (x == c)) [
  | inl same ↦ inl (delivered-IsAnswered s x c what ((==_iff x c).0 same))
  | inr apart ↦ inr (other (λ e. let same = (==_iff x c).1 e in cc))
]

-- Every step of any goroutine answers the call, or leaves it waiting, nearer to its answer if the
-- reader of its generation took a turn.
Step-Nearer :
    {s t : Link} (g c d : ℕ) → Known s → (st : Step s t) → Awaits c d (s.gens g) → Nearer g c d st
Step-Nearer g c d k (find_closed i at h) a = inr (d, a, omega arith)
Step-Nearer g c d k (find_conn i h at q e) a = inr (d, a, omega arith)
Step-Nearer g c d k (find_dial i j at h e f) a = inr (d, a, omega arith)
Step-Nearer g c d k (begin_dial i at h e f) a = inr (d, a, omega arith)
Step-Nearer g c d k (see_dial_end i j at h) a = inr (d, a, omega arith)
Step-Nearer g c d k (leave_dial i j at) a = inr (d, a, omega arith)
Step-Nearer g c d k (fail_dial i j at) a = inr (d, a, omega arith)
Step-Nearer g c d k (dial_after_close i j at h) a = inr (d, a, omega arith)
Step-Nearer g c d k (leave_queue i h at) a = inr (d, a, omega arith)
Step-Nearer g c d k (end_drain_in_call i h at e) a = inr (d, a, omega arith)
Step-Nearer g c d k (receive i at h) a = inr (d, a, omega arith)
Step-Nearer g c d k (give_up i at) a = inr (d, a, omega arith)
Step-Nearer g c d k (close_link) a = inr (d, a, omega arith)
Step-Nearer {s} g c d k (end_dial i j at h) a = inr (
    call-Awaits s g s.next_gen c d (reader_at reading new_generation)
      (λ b. absurd (new_generation-Awaits c d (rw (k.fresh s.next_gen (omega arith)) at b))) a)
Step-Nearer {s} g c d k (get_token i h at e) a = inr (
    call-Awaits s g h c d (acquire (s.gens h)) (keeps c d (s.gens h) (acquire (s.gens h)) refl refl)
      a)
Step-Nearer {s} g c d k (find_stale i h at e) a = inr (
    call-Awaits s g h c d (release (s.gens h)) (keeps c d (s.gens h) (release (s.gens h)) refl refl)
      a)
Step-Nearer {s} g c d k (send i h at e) a = inr (
    call-Awaits s g h c d (write_done i (enqueue i (s.gens h)))
      (sends c d i (s.gens h) (write_done i (enqueue i (s.gens h))) refl refl) a)
Step-Nearer {s} g c d k (fail_send i h at e) a = inr (
    call-Awaits s g h c d (not_written (enqueue i (s.gens h)))
      (sends c d i (s.gens h) (not_written (enqueue i (s.gens h))) refl refl) a)
Step-Nearer {s} g c d k (abort_call i h at) a = inr (rw (gens-clear_conn s h) (d, a, omega arith))
Step-Nearer {s} g c d k (drain_in_call i h x rest at e) a =
    delivers-Nearer (put_gen h (drain_call rest (s.gens h)) s) g x c d 0 (failed_with h) (λ other.
      call-Awaits s g h c d (drain_call rest (s.gens h)) (drains c d x rest (s.gens h) other e) a)
Step-Nearer {s} g c d k (receive_line h e) a = inr (
    reader-Awaits s g h c d (reader_at got_line (s.gens h))
      (goes c d reading got_line (s.gens h) e (λ q. cc) (λ n. omega arith)) a)
Step-Nearer {s} g c d k (read_error h e) a = inr (
    reader-Awaits s g h c d (reader_at aborting (s.gens h))
      (goes c d reading aborting (s.gens h) e (λ q. cc) (λ n. omega arith)) a)
Step-Nearer {s} g c d k (take_pending h x rest e f) a =
    inr (reader-Awaits s g h c d (take_call x rest (s.gens h)) (takes c d x rest (s.gens h) e f) a)
Step-Nearer {s} g c d k (find_nothing h e f) a = inr (
    reader-Awaits s g h c d (reader_at aborting (s.gens h))
      (goes c d got_line aborting (s.gens h) e (λ q. cc) (λ n. omega arith)) a)
Step-Nearer {s} g c d k (deliver_line h x e) a =
    delivers-Nearer (put_gen h (reader_at reading (s.gens h)) s) g x c d (one_if_same h g)
      (line_of h (length (s.gens h).answered - 1))
      (λ other.
        reader-Awaits s g h c d (reader_at reading (s.gens h))
          (goes c d (decoding x) reading (s.gens h) e (λ q. other cc) (λ n. omega arith)) a)
Step-Nearer {s} g c d k (deliver_bad_line h x e) a =
    delivers-Nearer (put_gen h (reader_at aborting (s.gens h)) s) g x c d (one_if_same h g)
      (failed_with h)
      (λ other.
        reader-Awaits s g h c d (reader_at aborting (s.gens h))
          (goes c d (decoding x) aborting (s.gens h) e (λ q. other cc) (λ n. omega arith)) a)
Step-Nearer {s} g c d k (abort_reader h e) a = inr (
    rw (gens-clear_conn (put_gen h (reader_at reader_draining (s.gens h)) s) h) (
      reader-Awaits s g h c d (reader_at reader_draining (s.gens h))
        (goes c d aborting reader_draining (s.gens h) e (λ q. cc) (λ n. omega arith)) a))
Step-Nearer {s} g c d k (drain_in_reader h x rest e f) a =
    delivers-Nearer (put_gen h (drain_call rest (s.gens h)) s) g x c d (one_if_same h g)
      (failed_with h)
      (λ other.
        reader-Awaits s g h c d (drain_call rest (s.gens h))
          (drains_in_turn c d x rest (s.gens h) e other f) a)
Step-Nearer {s} g c d k (end_drain_in_reader h e f) a =
    inr (reader-Awaits s g h c d (reader_at stopped (s.gens h)) (ends c d (s.gens h) e f) a)

Steps-Nearer :
    {n : ℕ} {s t : Link} (g c d : ℕ)
    → Reach n s
    → (steps : Steps s t) → Awaits c d (s.gens g)
    → IsAnswered t c ⊎ StillAwaits c d (turns g steps) (t.gens g)
Steps-Nearer g c d r here a = inr (d, a, omega arith)
Steps-Nearer g c d r (next steps st) a = elim (Steps-Nearer g c d r steps a) [
  | inl answered ↦ inl (Step-IsAnswered c st answered)
  | inr (d', a', le) ↦ elim (Step-Nearer g c d' (Reach-Known (Reach-Steps r steps)) st a') [
    | inl answered ↦ inl answered
    | inr (d'', a'', le') ↦ inr (d'', a'', omega arith)
  ]
]

pub rounds_le : (k : ℕ) (ph : ReaderPhase) → rounds k ph ≤ 3 * k + 5
rounds_le k not_started = omega arith
rounds_le k reading = omega arith
rounds_le k got_line = omega arith
rounds_le k (decoding x) = omega arith
rounds_le k aborting = omega arith
rounds_le k reader_draining = omega arith
rounds_le k stopped = omega arith

-- A call that waits has a reader that runs.
waits-CanTurn : {n : ℕ} {t : Link} (g c d : ℕ) → Reach n t → Awaits c d (t.gens g) → CanTurn t g
waits-CanTurn {t} g c d r a = elim a.where_it_is [
  | inl (held, _) ↦ busy-CanTurn t g (ap is_idle held)
  | inr (k, at, _) ↦ elim (Bool-cases (is_idle (t.gens g).reader)) [
    | inl idle ↦ absurd (none_there k (rw ((Reach-Attended r g).0 idle) at at))
    | inr busy ↦ busy-CanTurn t g busy
  ]
]
  where
    none_there : (k : ℕ) → get_elem? [] k ≢ some c
    none_there k e = cc

-- However the goroutines interleave from a reachable state in which the request of a call is the
-- k-th pending one of its connection: in every later state, also when more calls were sent and when
-- the connection was aborted or closed, the call was answered, with a response line or an error,
-- or the reader of the connection took fewer than `3 * k + 6` turns and can take another.
pub answered_soon :
    {n : ℕ} {s t : Link} (g c k : ℕ)
    → Reach n s
    → get_elem? (s.gens g).pending k ≡ some c
    → (steps : Steps s t) → (t.inbox c ≢ []) ⊎ ((turns g steps < 3 * k + 6) × CanTurn t g)
answered_soon {s} g c k r at steps =
    elim (Steps-Nearer g c (3 * k + 5) r steps
      (queued_at c (3 * k + 5) k (s.gens g) at (rounds_le k (s.gens g).reader))) [
        | inl answered ↦ inl answered
        | inr (d, a, le) ↦ inr (omega arith, waits-CanTurn g c d (Reach-Steps r steps) a)
      ]
