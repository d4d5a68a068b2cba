-- ===== src/Client/Pipe/Copies.antt =====
-- How many copies of a call there are in the generations and in its result channel.
use deadhorse.Common.{
  Bool-cases, List, [], ap, arith, if◌then◌else◌, inl, inr, length, length-append, lt_or_le, refl,
  suc, zero, ℕ, ◌++◌, ◌+◌, ◌<◌, ◌==◌, ◌∷◌, ◌≡◌, ◌≢◌, ◌≤◌,
}
use deadhorse.Client.Pipe.{
  Delivery, Generation, Link, ReaderPhase, clear_conn, decoding, deliver, install, is_current,
  new_generation, put, put_gen, reader_at, reading,
}
use deadhorse.Client.Pipe.Known.{put_elim}

abbrev pub copies : ℕ → List ℕ → ℕ
copies c [] = 0
copies c (x ∷ xs) = (if x == c then 1 else 0) + copies c xs

abbrev pub in_hand : ℕ → ReaderPhase → ℕ
in_hand c (decoding x) = if x == c then 1 else 0
in_hand c _ = 0

-- The copies of a call in a generation, and in the first `n` generations.
abbrev pub waiting : ℕ → Generation → ℕ
waiting c gen = copies c gen.pending + in_hand c gen.reader

abbrev pub sum_waiting : ℕ → (ℕ → Generation) → ℕ → ℕ
sum_waiting c gens zero = 0
sum_waiting c gens (suc n) = waiting c (gens n) + sum_waiting c gens n

abbrev pub places : Link → ℕ → ℕ
places s c = sum_waiting c s.gens s.next_gen + length (s.inbox c)

pub copies-append : (c : ℕ) (xs ys : List ℕ) → copies c (xs ++ ys) ≡ copies c xs + copies c ys
copies-append c [] ys = omega arith
copies-append c (x ∷ xs) ys = omega (arith, copies-append c xs ys)

pub sum_waiting-beyond :
    (c : ℕ) (gens : ℕ → Generation) (h n : ℕ) (gen : Generation)
    → n ≤ h
    → sum_waiting c (put h gen gens) n ≡ sum_waiting c gens n
sum_waiting-beyond c gens h zero gen le = refl
sum_waiting-beyond c gens h (suc n) gen le = rw (sum_waiting-beyond c gens h n gen (omega arith)) (
    put_elim (λ x. waiting c x + sum_waiting c gens n ≡ waiting c (gens n) + sum_waiting c gens n) h
      n gen gens (λ same. absurd (omega arith)) (λ _. refl))

-- One generation changes.
pub sum_waiting-put :
    (c : ℕ) (gens : ℕ → Generation) (h n : ℕ) (gen : Generation)
    → h < n
    → sum_waiting c (put h gen gens) n + waiting c (gens h) ≡ sum_waiting c gens n + waiting c gen
sum_waiting-put c gens h zero gen lt = absurd (omega arith)
sum_waiting-put c gens h (suc n) gen lt =
    put_elim
      (λ x.
        waiting c x + sum_waiting c (put h gen gens) n + waiting c (gens h)
        ≡ waiting c (gens n) + sum_waiting c gens n + waiting c gen)
      h n gen gens
      (λ same. rw (← same) (omega (arith, sum_waiting-beyond c gens h h gen (omega arith))))
      (λ apart. omega (arith, sum_waiting-put c gens h n gen (omega arith)))

-- What a generation holds does not change.
pub put_gen-places :
    (s : Link) (h : ℕ) (gen : Generation)
    → h < s.next_gen
    → ((c : ℕ) → waiting c gen ≡ waiting c (s.gens h))
    → (c : ℕ) → places (put_gen h gen s) c ≡ places s c
put_gen-places s h gen lt same c =
    omega (arith, sum_waiting-put c s.gens h s.next_gen gen lt, same c)

-- A generation takes a call in, or gives it to its inbox.
pub sends-places :
    (s : Link) (h x : ℕ) (gen : Generation)
    → h < s.next_gen
    → gen.pending ≡ (s.gens h).pending ++ x ∷ []
    → gen.reader ≡ (s.gens h).reader
    → (c : ℕ) → places (put_gen h gen s) c ≡ places s c + (if x == c then 1 else 0)
sends-places s h x gen lt e f c = omega (
  arith,
  sum_waiting-put c s.gens h s.next_gen gen lt,
  ap (copies c) e,
  ap (in_hand c) f,
  copies-append c (s.gens h).pending (x ∷ []),
)

pub delivers-places :
    (s : Link) (h x : ℕ) (d : Delivery) (gen : Generation)
    → h < s.next_gen
    → ((c : ℕ) → waiting c gen + (if x == c then 1 else 0) ≡ waiting c (s.gens h))
    → (c : ℕ) → places (deliver x d (put_gen h gen s)) c ≡ places s c
delivers-places s h x d gen lt same c =
    put_elim (λ inbox. sum_waiting c (put h gen s.gens) s.next_gen + length inbox ≡ places s c) x c
      (s.inbox x ++ d ∷ []) s.inbox
      (λ is_x. rw (← is_x) (
        omega (
          arith,
          sum_waiting-put x s.gens h s.next_gen gen lt,
          length-append (s.inbox x) (d ∷ []),
          given is_x,
        )))
      (λ other. omega (arith, sum_waiting-put c s.gens h s.next_gen gen lt, kept other))
  where
    given : x ≡ c → waiting x gen + 1 ≡ waiting x (s.gens h)
    given e = ground (arith, same x)

    kept : x ≢ c → waiting c gen ≡ waiting c (s.gens h)
    kept ne = ground (arith, same c)

pub install-places : (s : Link) (x c : ℕ) → places (install x s) c ≡ places s c
install-places s x c =
    put_elim
      (λ gen.
        waiting c gen
          + sum_waiting c (put s.next_gen (reader_at reading new_generation) s.gens) s.next_gen
          + length (s.inbox c)
        ≡ places s c)
      s.next_gen s.next_gen (reader_at reading new_generation) s.gens
      (λ _. omega (
        arith,
        sum_waiting-beyond c s.gens s.next_gen s.next_gen (reader_at reading new_generation)
            (omega arith),
      ))
      (λ ne. absurd (ne refl))

pub clear_conn-places : (s : Link) (h c : ℕ) → places (clear_conn h s) c ≡ places s c
clear_conn-places s h c = elim (Bool-cases (is_current h s)) [
  | inl e ↦ rw e refl
  | inr e ↦ rw e refl
]

pub clear_conn-calls : (s : Link) (h : ℕ) → (clear_conn h s).calls ≡ s.calls
clear_conn-calls s h = elim (Bool-cases (is_current h s)) [ inl e ↦ rw e refl | inr e ↦ rw e refl ]

pub sum_waiting-le :
    (c : ℕ) (gens : ℕ → Generation) (g n : ℕ) → g < n → waiting c (gens g) ≤ sum_waiting c gens n
sum_waiting-le c gens g zero lt = absurd (omega arith)
sum_waiting-le c gens g (suc n) lt = elim (lt_or_le g n) [
  | inl before ↦ omega (arith, sum_waiting-le c gens g n before)
  | inr last ↦ let same : g ≡ n = omega arith in rw same (omega arith)
]
