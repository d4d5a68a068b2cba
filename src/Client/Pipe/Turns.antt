-- ===== src/Client/Pipe/Turns.antt =====
-- The turns of a reader among the steps of all the goroutines.
use deadhorse.Common.{
  ==_iff, Bool-cases, List, [], arith, false, if◌then◌else◌, inl, inr, refl, ℕ, ◌+◌, ◌==◌, ◌∷◌, ◌≡◌,
  ◌≢◌, ◌≤◌,
}
use deadhorse.Client.Pipe.{
  Link, ReaderPhase, aborting, decoding, got_line, not_started, reader_draining, reading, stopped,
}
use deadhorse.Client.Pipe.Readers.{is_idle}
use deadhorse.Client.Pipe.Steps.{
  Reach, Step, Steps, abort_reader, deliver_bad_line, deliver_line, drain_in_reader,
  end_drain_in_reader, find_nothing, here, later, next, read_error, receive_line, take_pending,
}

abbrev pub one_if_same : ℕ → ℕ → ℕ
one_if_same h g = if h == g then 1 else 0

-- 1 for a step that the reader of `g` takes.
abbrev pub turn : {s t : Link} → ℕ → Step s t → ℕ
turn g (receive_line h _) = one_if_same h g
turn g (read_error h _) = one_if_same h g
turn g (take_pending h _ _ _ _) = one_if_same h g
turn g (find_nothing h _ _) = one_if_same h g
turn g (deliver_line h _ _) = one_if_same h g
turn g (deliver_bad_line h _ _) = one_if_same h g
turn g (abort_reader h _) = one_if_same h g
turn g (drain_in_reader h _ _ _ _) = one_if_same h g
turn g (end_drain_in_reader h _ _) = one_if_same h g
turn g _ = 0

abbrev pub turns : {s t : Link} → ℕ → Steps s t → ℕ
turns g here = 0
turns g (next steps st) = turns g steps + turn g st

pub one_if_same_self : (g : ℕ) → one_if_same g g ≡ 1
one_if_same_self g = ground arith

pub one_if_same_apart : (h g : ℕ) → h ≢ g → one_if_same h g ≡ 0
one_if_same_apart h g ne = elim (Bool-cases (h == g)) [
  | inl e ↦ absurd (ne ((==_iff h g).0 e))
  | inr e ↦ rw e refl
]

pub one_if_same_le : (h g : ℕ) → one_if_same h g ≤ 1
one_if_same_le h g = ground arith

-- The reader of `g` can take its turn.
abbrev pub CanTurn : Link → ℕ → Type 0
CanTurn s g = (t : Link) × (st : Step s t) × (turn g st ≡ 1)

-- A reader that runs can always take a turn: none of its steps waits for another goroutine.
pub busy-CanTurn : (s : Link) (g : ℕ) → is_idle (s.gens g).reader ≡ false → CanTurn s g
busy-CanTurn s g busy = by_phase (s.gens g).reader refl busy
  where
    by_phase : (ph : ReaderPhase) → (s.gens g).reader ≡ ph → is_idle ph ≡ false → CanTurn s g
    by_phase not_started e h = cc
    by_phase reading e h = (_, read_error g e, one_if_same_self g)
    by_phase got_line e h = by_pending (s.gens g).pending refl
      where
        by_pending : (xs : List ℕ) → (s.gens g).pending ≡ xs → CanTurn s g
        by_pending [] f = (_, find_nothing g e f, one_if_same_self g)
        by_pending (x ∷ rest) f = (_, take_pending g x rest e f, one_if_same_self g)
    by_phase (decoding x) e h = (_, deliver_line g x e, one_if_same_self g)
    by_phase aborting e h = (_, abort_reader g e, one_if_same_self g)
    by_phase reader_draining e h = by_pending (s.gens g).pending refl
      where
        by_pending : (xs : List ℕ) → (s.gens g).pending ≡ xs → CanTurn s g
        by_pending [] f = (_, end_drain_in_reader g e f, one_if_same_self g)
        by_pending (x ∷ rest) f = (_, drain_in_reader g x rest e f, one_if_same_self g)
    by_phase stopped e h = cc

pub Reach-Steps : {n : ℕ} {s t : Link} → Reach n s → Steps s t → Reach n t
Reach-Steps r here = r
Reach-Steps r (next steps st) = later (Reach-Steps r steps) st
