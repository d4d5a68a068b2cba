-- ===== src/Client/Pipe/Deliveries.antt =====
-- What a call finds in its result channel.
use deadhorse.Common.{
  List, [], arith, inl, inr, length, lt_or_le, refl, suc, zero, ℕ, ◌<◌, ◌∷◌, ◌≡◌, ◌≢◌, ◌≤◌, ◌⊎◌,
}
use deadhorse.Client.Pipe.{Delivery, Generation, Link, decoding, submitted}
use deadhorse.Client.Pipe.Steps.{IsAt, Reach}
use deadhorse.Client.Pipe.Known.{Reach-Known}
use deadhorse.Client.Pipe.Copies.{sum_waiting, sum_waiting-le, waiting}
use deadhorse.Client.Pipe.Placed.{Reach-Placed}

-- Some generation holds a call that waits.
sum_waiting-found :
    (c : ℕ) (gens : ℕ → Generation) (n : ℕ)
    → 0 < sum_waiting c gens n
    → (g : ℕ) × (g < n) × (0 < waiting c (gens g))
sum_waiting-found c gens zero h = absurd (omega arith)
sum_waiting-found c gens (suc n) h = elim (lt_or_le 0 (waiting c (gens n))) [
  | inl here_it_is ↦ (n, omega arith, here_it_is)
  | inr absent ↦
      let (g, lt, found) = sum_waiting-found c gens n (omega arith) in (g, omega arith, found)
]

empty_inbox : (ds : List Delivery) → length ds ≡ 0 → ds ≡ []
empty_inbox [] h = refl
empty_inbox (d ∷ ds) h = absurd (omega arith)

waiting-known : {n : ℕ} {s : Link} (g c : ℕ) → Reach n s → 0 < waiting c (s.gens g) → g < s.next_gen
waiting-known {s} g c r some_waiting = elim (lt_or_le g s.next_gen) [
  | inl lt ↦ lt
  | inr le ↦ absurd (let gone = rw ((Reach-Known r).fresh g le) at some_waiting in omega arith)
]

-- However the calls, the readers and the aborts interleave: the result channel of a call, which has
-- room for one, never has more; a call that is pending, or that a reader holds, finds it empty, so
-- delivering to the call never waits; and a call that waits for its result, after its request was
-- sent, has it, or is pending on a connection or held by the reader of one.
pub delivers_once :
    {n : ℕ} {s : Link}
    → Reach n s
    → ((c : ℕ) → length (s.inbox c) ≤ 1)
      × ((g c : ℕ) (rest : List ℕ) → (s.gens g).pending ≡ c ∷ rest → s.inbox c ≡ [])
      × ((g c : ℕ) → (s.gens g).reader ≡ decoding c → s.inbox c ≡ [])
      × ((c : ℕ)
          → IsAt s c submitted
          → (length (s.inbox c) ≡ 1) ⊎ ((g : ℕ) × (g < s.next_gen) × (0 < waiting c (s.gens g))))
delivers_once {s} r =
    let p = Reach-Placed r in
    (
      (λ c. omega (arith, p.most c)),
      (λ g c rest e. holds g c (rw e (ground arith))),
      (λ g c e. holds g c (rw e (ground arith))),
      (λ c at. elim (lt_or_le 0 (sum_waiting c s.gens s.next_gen)) [
        | inl found ↦ inr (sum_waiting-found c s.gens s.next_gen found)
        | inr nowhere ↦ inl (omega (arith, (p.placed c submitted at).1 refl))
      ]),
    )
  where
    holds : (g c : ℕ) → 0 < waiting c (s.gens g) → s.inbox c ≡ []
    holds g c some_waiting = empty_inbox (s.inbox c) (
        omega (
          arith,
          (Reach-Placed r).most c,
          sum_waiting-le c s.gens g s.next_gen (waiting-known g c r some_waiting),
        ))

-- No call is pending twice.
pub pending-distinct :
    {n : ℕ} {s : Link} (g x y : ℕ) (rest : List ℕ)
    → Reach n s
    → (s.gens g).pending ≡ x ∷ y ∷ rest
    → x ≢ y
pending-distinct {s} g x y rest r e same = absurd (omega (arith, few, twice))
  where
    twice : 1 < waiting x (s.gens g)
    twice = rw (e, ← same) (ground arith)

    few : waiting x (s.gens g) ≤ 1
    few = omega (
      arith,
      (Reach-Placed r).most x,
      sum_waiting-le x s.gens g s.next_gen (waiting-known g x r (omega (arith, twice))),
    )
