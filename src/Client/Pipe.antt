-- ===== src/Client/Pipe.antt =====
-- client/conn.go: the state that concurrent calls share on the connection of a shard, and what the
-- code does to it in one go.
pub mod Steps
pub mod Known
pub mod Slots
pub mod Dials
pub mod Order
pub mod Answers
pub mod Copies
pub mod Placed
pub mod Deliveries
pub mod Turns
pub mod Readers
pub mod Progress
pub mod Liveness
pub mod Ends
mod Examples
pub mod Mismatch
use deadhorse.Common.{
  Bool, List, Option, [], false, if◌then◌else◌, none, replicate, set, some, suc, ℕ, ◌++◌, ◌+◌, ◌-◌,
  ◌==◌, ◌∷◌,
}

-- `maxInFlight`.
abbrev pub max_in_flight : ℕ
max_in_flight = 256

-- Where a call stands in `submit` and `ensureConn`, with the generation or the dial it is about.
pub data Phase : Type 0 where
  connecting : Phase
  joined_dial : ℕ → Phase
  dialing_now : ℕ → Phase
  connected : ℕ → Phase
  admitted : ℕ → Phase
  write_failed : ℕ → Phase
  caller_draining : ℕ → Phase
  submitted : Phase
  returned : Phase

-- Where the reader goroutine of a generation stands in `readLoop`.
pub data ReaderPhase : Type 0 where
  not_started : ReaderPhase
  reading : ReaderPhase
  got_line : ReaderPhase
  decoding : ℕ → ReaderPhase
  aborting : ReaderPhase
  reader_draining : ReaderPhase
  stopped : ReaderPhase

-- A `generation`: the calls in `pending`, and the tokens in `sem`; its reader; and what happened on
-- it so far: the calls that were put into `pending`, in order; those of them whose requests were
-- written in full, in the order on the wire, and the number of writes that failed; the calls that
-- the response lines were matched with, in order; and the number of calls that were drained.
pub record Generation : Type 0 where
  pub pending : List ℕ
  pub sem : ℕ
  pub reader : ReaderPhase
  pub queued : List ℕ
  pub sent : List ℕ
  pub failed_writes : ℕ
  pub answered : List ℕ
  pub drained : ℕ

abbrev pub new_generation : Generation
new_generation = record {
  pending = [];
  sem = max_in_flight;
  reader = not_started;
  queued = [];
  sent = [];
  failed_writes = 0;
  answered = [];
  drained = 0;
}

-- What a call finds in its `resultCh`.
pub data Delivery : Type 0 where
  line_of : (g number : ℕ) → Delivery
  failed_with : (g : ℕ) → Delivery

-- The connection of a shard: `gens` has every generation by its number, those from `next_gen` on are
-- not there yet; `conn` and `gen` are the number of the current one; `dialing` is the number of the
-- dial under way, and the dials below `next_dial` have begun.
pub record Link : Type 0 where
  pub closed : Bool
  pub current : Option ℕ
  pub next_gen : ℕ
  pub gens : ℕ → Generation
  pub dialing : Option ℕ
  pub next_dial : ℕ
  pub calls : List Phase
  pub inbox : ℕ → List Delivery

unfoldable pub put {ℓ} : {A : Type ℓ} → ℕ → A → (ℕ → A) → ℕ → A
put i a f j = if i == j then a else f j

-- No connection, and some number of calls.
abbrev pub new_link : ℕ → Link
new_link n = record {
  closed = false;
  current = none;
  next_gen = 0;
  gens = λ _. new_generation;
  dialing = none;
  next_dial = 0;
  calls = replicate n connecting;
  inbox = λ _. [];
}

abbrev pub go_to : ℕ → Phase → Link → Link
go_to c ph s = record s { calls = set s.calls c ph }

abbrev pub put_gen : ℕ → Generation → Link → Link
put_gen g gen s = record s { gens = put g gen s.gens }

abbrev pub deliver : ℕ → Delivery → Link → Link
deliver c d s = record s { inbox = put c (s.inbox c ++ d ∷ []) s.inbox }

-- `release`, and what takes a token.
abbrev pub release : Generation → Generation
release gen = record gen { sem = gen.sem + 1 }

abbrev pub acquire : Generation → Generation
acquire gen = record gen { sem = gen.sem - 1 }

-- `gen.pending <- call`, and what comes of the write behind it.
abbrev pub enqueue : ℕ → Generation → Generation
enqueue c gen = record gen { pending = gen.pending ++ c ∷ []; queued = gen.queued ++ c ∷ [] }

abbrev pub write_done : ℕ → Generation → Generation
write_done c gen = record gen { sent = gen.sent ++ c ∷ [] }

abbrev pub not_written : Generation → Generation
not_written gen = record gen { failed_writes = gen.failed_writes + 1 }

abbrev pub reader_at : ReaderPhase → Generation → Generation
reader_at ph gen = record gen { reader = ph }

-- The reader takes the oldest pending call for the line that it holds.
abbrev pub take_call : ℕ → List ℕ → Generation → Generation
take_call c rest gen = record (release gen) {
  pending = rest;
  reader = decoding c;
  answered = gen.answered ++ c ∷ [];
}

-- One round of `drainPending`.
abbrev pub drain_call : List ℕ → Generation → Generation
drain_call rest gen = record (release gen) { pending = rest; drained = gen.drained + 1 }

-- `c.conn == conn`, for the connection of a generation.
abbrev pub is_current : ℕ → Link → Bool
is_current g s = elim s.current [ some h ↦ h == g | none ↦ false ]

-- The section of `abort` under `mu`.
abbrev pub clear_conn : ℕ → Link → Link
clear_conn g s = if is_current g s then record s { current = none } else s

-- The end of a dial that brought a connection: a new generation, with its reader.
abbrev pub install : ℕ → Link → Link
install c s = record s {
  current = some s.next_gen;
  next_gen = suc s.next_gen;
  gens = put s.next_gen (reader_at reading new_generation) s.gens;
  dialing = none;
  calls = set s.calls c (connected s.next_gen);
}
