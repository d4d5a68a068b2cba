-- ===== src/Client/Pipe/Progress.antt =====
-- How long a call waits for the reader.
use deadhorse.Common.{
  List, [], ap, arith, get_elem?, get_elem?-append, inl, inr, refl, some, suc, sym, zero, ℕ, ◌*◌,
  ◌++◌, ◌+◌, ◌<◌, ◌∙◌, ◌∷◌, ◌≡◌, ◌≢◌, ◌≤◌, ◌⊎◌,
}
use deadhorse.Client.Pipe.{
  Generation, Link, ReaderPhase, aborting, decoding, drain_call, got_line, new_generation,
  not_started, put_gen, reader_at, reader_draining, reading, stopped, take_call,
}
use deadhorse.Client.Pipe.Known.{put_elim}
use deadhorse.Client.Pipe.Turns.{one_if_same, one_if_same_apart, one_if_same_le, turn}

-- The turns that a reader in this phase has before it is past `k` pending calls.
abbrev pub rounds : ℕ → ReaderPhase → ℕ
rounds k not_started = 0
rounds k reading = 3 * k + 4
rounds k got_line = 3 * k + 3
rounds k (decoding _) = 3 * k + 5
rounds k aborting = 3 * k + 2
rounds k reader_draining = 3 * k + 1
rounds k stopped = 0

-- The call is with the reader, or pending, and the reader has at most `d` turns before it is answered.
pub record Awaits (c d : ℕ) (gen : Generation) : Type 0 where
  pub where_it_is :
      ((gen.reader ≡ decoding c) × (0 < d))
      ⊎ ((k : ℕ) × (get_elem? gen.pending k ≡ some c) × (rounds k gen.reader ≤ d))

-- It still waits after a step that is `turn` turns of the reader.
abbrev pub StillAwaits : ℕ → ℕ → ℕ → Generation → Type 0
StillAwaits c d turn gen = (d' : ℕ) × Awaits c d' gen × (d' + turn ≤ d)

pub rounds-suc : (k : ℕ) (ph : ReaderPhase) → rounds k ph ≤ rounds (suc k) ph
rounds-suc k not_started = omega arith
rounds-suc k reading = omega arith
rounds-suc k got_line = omega arith
rounds-suc k (decoding x) = omega arith
rounds-suc k aborting = omega arith
rounds-suc k reader_draining = omega arith
rounds-suc k stopped = omega arith

held_by_reader : (c d : ℕ) (gen : Generation) → gen.reader ≡ decoding c → 0 < d → Awaits c d gen
held_by_reader c d gen e lt = record { where_it_is = inl (e, lt) }

pub queued_at :
    (c d k : ℕ) (gen : Generation)
    → get_elem? gen.pending k ≡ some c
    → rounds k gen.reader ≤ d
    → Awaits c d gen
queued_at c d k gen e le = record { where_it_is = inr (k, e, le) }

-- A step that changes one generation.
put_gen-Awaits :
    (s : Link) (g h c d turn other : ℕ) (gen : Generation)
    → (Awaits c d (s.gens h) → StillAwaits c d turn gen)
    → (h ≢ g → other ≡ 0)
    → other ≤ turn
    → Awaits c d (s.gens g)
    → StillAwaits c d other ((put_gen h gen s).gens g)
put_gen-Awaits s g h c d turn other gen keep apart most a =
    put_elim (StillAwaits c d other) h g gen s.gens
      (λ same. let (d', a', le) = keep (rw (← same) at a) in (d', a', omega arith))
      (λ ne. (d, a, omega (arith, apart ne)))

pub reader-Awaits :
    (s : Link) (g h c d : ℕ) (gen : Generation)
    → (Awaits c d (s.gens h) → StillAwaits c d 1 gen)
    → Awaits c d (s.gens g)
    → StillAwaits c d (one_if_same h g) ((put_gen h gen s).gens g)
reader-Awaits s g h c d gen keep a =
    put_gen-Awaits s g h c d 1 (one_if_same h g) gen keep (one_if_same_apart h g)
      (one_if_same_le h g) a

pub call-Awaits :
    (s : Link) (g h c d : ℕ) (gen : Generation)
    → (Awaits c d (s.gens h) → StillAwaits c d 0 gen)
    → Awaits c d (s.gens g)
    → StillAwaits c d 0 ((put_gen h gen s).gens g)
call-Awaits s g h c d gen keep a = put_gen-Awaits s g h c d 0 0 gen keep (λ _. refl) (omega arith) a

-- The reader goes on to a phase that is nearer to the call.
pub goes :
    (c d : ℕ) (ph ph' : ReaderPhase) (gen : Generation)
    → gen.reader ≡ ph
    → ph ≢ decoding c
    → ((k : ℕ) → rounds k ph' < rounds k ph)
    → Awaits c d gen
    → StillAwaits c d 1 (reader_at ph' gen)
goes c d ph ph' gen e other nearer a = elim a.where_it_is [
  | inl (held, _) ↦ absurd (other (sym e ∙ held))
  | inr (k, at, le) ↦
      let le' : rounds k ph ≤ d = rw e at le in
      (
        rounds k ph',
        queued_at c (rounds k ph') k (reader_at ph' gen) at (omega arith),
        omega (arith, nearer k),
      )
]

-- The reader takes a call.
pub takes :
    (c d x : ℕ) (rest : List ℕ) (gen : Generation)
    → gen.reader ≡ got_line
    → gen.pending ≡ x ∷ rest
    → Awaits c d gen
    → StillAwaits c d 1 (take_call x rest gen)
takes c d x rest gen e f a = elim a.where_it_is [
  | inl (held, _) ↦ cc
  | inr (k, at, le) ↦ by_place k (rw f at at) (rw e at le)
]
  where
    by_place :
        (k : ℕ)
        → get_elem? (x ∷ rest) k ≡ some c
        → rounds k got_line ≤ d
        → StillAwaits c d 1 (take_call x rest gen)
    by_place zero at le =
        let same : x ≡ c = cc in
        (1, held_by_reader c 1 (take_call x rest gen) (ap decoding same) (omega arith), omega arith)
    by_place (suc k) at le =
        (3 * k + 5, queued_at c (3 * k + 5) k (take_call x rest gen) at (omega arith), omega arith)

-- Another call is drained.
pub drains :
    (c d x : ℕ) (rest : List ℕ) (gen : Generation)
    → x ≢ c
    → gen.pending ≡ x ∷ rest
    → Awaits c d gen
    → StillAwaits c d 0 (drain_call rest gen)
drains c d x rest gen other f a = elim a.where_it_is [
  | inl (held, lt) ↦ (d, held_by_reader c d (drain_call rest gen) held lt, omega arith)
  | inr (k, at, le) ↦ by_place k (rw f at at) le
]
  where
    by_place :
        (k : ℕ)
        → get_elem? (x ∷ rest) k ≡ some c
        → rounds k gen.reader ≤ d
        → StillAwaits c d 0 (drain_call rest gen)
    by_place zero at le = absurd (other cc)
    by_place (suc k) at le = (
      d,
      queued_at c d k (drain_call rest gen) at (omega (arith, rounds-suc k gen.reader)),
      omega arith,
    )

-- The reader drains another call.
pub drains_in_turn :
    (c d x : ℕ) (rest : List ℕ) (gen : Generation)
    → gen.reader ≡ reader_draining
    → x ≢ c
    → gen.pending ≡ x ∷ rest
    → Awaits c d gen
    → StillAwaits c d 1 (drain_call rest gen)
drains_in_turn c d x rest gen e other f a = elim a.where_it_is [
  | inl (held, lt) ↦ cc
  | inr (k, at, le) ↦ by_place k (rw f at at) (rw e at le)
]
  where
    by_place :
        (k : ℕ)
        → get_elem? (x ∷ rest) k ≡ some c
        → rounds k reader_draining ≤ d
        → StillAwaits c d 1 (drain_call rest gen)
    by_place zero at le = absurd (other cc)
    by_place (suc k) at le = (
      3 * k + 1,
      queued_at c (3 * k + 1) k (drain_call rest gen) at (rw e (omega arith)),
      omega arith,
    )

-- A call is sent behind it.
pub sends :
    (c d x : ℕ) (gen gen' : Generation)
    → gen'.pending ≡ gen.pending ++ x ∷ []
    → gen'.reader ≡ gen.reader
    → Awaits c d gen
    → StillAwaits c d 0 gen'
sends c d x gen gen' e f a = elim a.where_it_is [
  | inl (held, lt) ↦ (d, held_by_reader c d gen' (f ∙ held) lt, omega arith)
  | inr (k, at, le) ↦ (
    d,
    queued_at c d k gen' (rw e (get_elem?-append gen.pending (x ∷ []) k c at)) (rw f le),
    omega arith,
  )
]

-- Nothing but the tokens changes.
pub keeps :
    (c d : ℕ) (gen gen' : Generation)
    → gen'.pending ≡ gen.pending
    → gen'.reader ≡ gen.reader
    → Awaits c d gen
    → StillAwaits c d 0 gen'
keeps c d gen gen' e f a = elim a.where_it_is [
  | inl (held, lt) ↦ (d, held_by_reader c d gen' (f ∙ held) lt, omega arith)
  | inr (k, at, le) ↦ (d, queued_at c d k gen' (rw e at) (rw f le), omega arith)
]

pub new_generation-Awaits : (c d : ℕ) → ¬ Awaits c d new_generation
new_generation-Awaits c d a = elim a.where_it_is [ inl (held, lt) ↦ cc | inr (k, at, le) ↦ cc ]

-- The reader ends, with nothing pending.
pub ends :
    (c d : ℕ) (gen : Generation)
    → gen.reader ≡ reader_draining
    → gen.pending ≡ []
    → Awaits c d gen
    → StillAwaits c d 1 (reader_at stopped gen)
ends c d gen e f a = elim a.where_it_is [ inl (held, lt) ↦ cc | inr (k, at, le) ↦ cc ]
