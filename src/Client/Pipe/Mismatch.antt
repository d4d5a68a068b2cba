-- ===== src/Client/Pipe/Mismatch.antt =====
-- A drain that a failed write begins while the reader holds a line.
use deadhorse.Common.{
  List, [], ap, arith, get_elem?, get_elem?-concat, length, length-append, refl, some, sym, ℕ, ◌++◌,
  ◌-◌, ◌∙◌, ◌∷◌, ◌≡◌, ◌≢◌,
}
use deadhorse.Client.Pipe.{
  Link, caller_draining, deliver, drain_call, failed_with, got_line, line_of, put_gen, submitted,
  take_call,
}
use deadhorse.Client.Pipe.Known.{put_self}
use deadhorse.Client.Pipe.Order.{Reach-Ordered}
use deadhorse.Client.Pipe.Steps.{
  IsAt, Reach, Steps, deliver_line, drain_in_call, here, next, take_pending,
}
use deadhorse.Client.Pipe.Deliveries.{pending-distinct}

-- The reader gives the line that it holds to the oldest pending call.
matches_line :
    {s : Link} (u : Link) (g y : ℕ) (rest : List ℕ)
    → (u.gens g).reader ≡ got_line
    → (u.gens g).pending ≡ y ∷ rest
    → Steps s u
    → (t : Link) × Steps s t
      × ((i : ℕ) × (get_elem? (t.inbox y) i ≡ some (line_of g (length (u.gens g).answered))))
      × ((t.gens g).sent ≡ (u.gens g).sent)
      × (t.calls ≡ u.calls)
matches_line u g y rest e f steps =
    let taken = put_gen g (take_call y rest (u.gens g)) u in
    (
      _,
      next (next steps (take_pending g y rest e f))
          (deliver_line g y (rw (put_self g (take_call y rest (u.gens g)) u.gens) refl)),
      (
        length (u.inbox y),
        rw (put_self g (take_call y rest (u.gens g)) u.gens, put_self y _ u.inbox, last)
            (get_elem?-concat (u.inbox y) (line_of g (length (u.gens g).answered))),
      ),
      rw (put_self g _ taken.gens, put_self g (take_call y rest (u.gens g)) u.gens) refl,
      refl,
    )
  where
    last : length ((u.gens g).answered ++ y ∷ []) - 1 ≡ length (u.gens g).answered
    last = omega (arith, length-append (u.gens g).answered (y ∷ []))

-- An element that is not the last one is there without the last one.
before_last :
    (pre sent : List ℕ) (x y : ℕ) (rest : List ℕ) (c : ℕ)
    → pre ++ x ∷ y ∷ rest ≡ sent ++ c ∷ []
    → get_elem? sent (length pre) ≡ some x
before_last [] [] x y rest c e = absurd (omega (arith, ap length e))
before_last [] (z ∷ sent) x y rest c e = cc
before_last (z ∷ pre) [] x y rest c e =
    absurd (omega (arith, ap length e, length-append pre (x ∷ y ∷ rest)))
before_last (z ∷ pre) (w ∷ sent) x y rest c e = before_last pre sent x y rest c cc

-- In every reachable state in which the reader of a connection holds a line, no call of it was
-- drained so far, the only write on it that failed is that of the call put into `pending` last, this
-- call drains it, and a second call behind the oldest pending one waits for its result: the line is
-- the one for the request of the oldest pending call, which was written in full; and the steps that
-- drain this call and then match the line lead to a state in which the second call, which still
-- waits, has been given it.
pub line_misdelivered :
    {n : ℕ} {s : Link} (g c x y : ℕ) (rest : List ℕ)
    → Reach n s
    → (s.gens g).drained ≡ 0
    → (s.gens g).queued ≡ (s.gens g).sent ++ c ∷ []
    → (s.gens g).reader ≡ got_line
    → IsAt s c (caller_draining g)
    → (s.gens g).pending ≡ x ∷ y ∷ rest
    → IsAt s y submitted
    → (t : Link) × Steps s t
      × ((i : ℕ) × (get_elem? (t.inbox y) i ≡ some (line_of g (length (s.gens g).answered))))
      × (get_elem? (t.gens g).sent (length (s.gens g).answered) ≡ some x)
      × (x ≢ y)
      × IsAt t y submitted
line_misdelivered {s} g c x y rest r undrained last_failed e at f waits =
    let u = deliver x (failed_with g) (put_gen g (drain_call (y ∷ rest) (s.gens g)) s) in
    let gen : (u.gens g) ≡ drain_call (y ∷ rest) (s.gens g) =
      put_self g (drain_call (y ∷ rest) (s.gens g)) s.gens in
    let (t, steps, got, sent, calls) =
      matches_line u g y rest (rw gen e) (rw gen refl)
        (next here (drain_in_call c g x (y ∷ rest) at f)) in
    (
      t,
      steps,
      rw gen at got,
      rw (sent, gen) was_sent,
      pending-distinct g x y rest r f,
      rw calls waits,
    )
  where
    was_sent : get_elem? (s.gens g).sent (length (s.gens g).answered) ≡ some x
    was_sent = before_last (s.gens g).answered (s.gens g).sent x y rest c (
        ap (λ xs. (s.gens g).answered ++ xs) (sym f)
        ∙ (Reach-Ordered r g).0 undrained
        ∙ last_failed)
