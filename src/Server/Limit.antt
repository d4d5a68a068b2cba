-- ===== src/Server/Limit.antt =====
-- What callers are granted on one key over the life of a store: Throttle calls of
-- server/throttling.go, with any entries, and the rotations of server/store.go between them.
pub mod Conforms
pub mod Retention
use deadhorse.Common.{Bool, List, [], if◌then◌else◌, none, not, ℕ, ◌&&◌, ◌+◌, ◌∷◌}
use deadhorse.Common.Int.{magnitude}
use deadhorse.Common.Assoc.{Str, str_eq}
use deadhorse.Types.{RequestEntry, ResponseEntry, effective_cost}
use deadhorse.Server.Store.{Store, collect}
use deadhorse.Server.Throttling.{throttle}
use deadhorse.Server.Throttling.Transaction.{any_throttled}

-- A call at an instant, and a tick of the GC timer at an instant.
pub data StoreEvent : Type 0 where
  called : ℕ → List RequestEntry → StoreEvent
  collected : ℕ → StoreEvent

-- The entry consumes from the key's bucket.
abbrev pub consumes : Str → RequestEntry → Bool
consumes k e = not e.peek && str_eq e.key k

abbrev pub cost_of : RequestEntry → ℕ
cost_of e = magnitude (effective_cost e.cost)

-- The units of the key that a call asks for.
pub asked_units : Str → List RequestEntry → ℕ
asked_units k [] = 0
asked_units k (e ∷ es) = (if consumes k e then cost_of e else 0) + asked_units k es

-- The units of the key that callers may use: all that a call asks for, unless one of the results that
-- it gets for the entries that are no peek is throttled.
abbrev pub granted : Str → List RequestEntry → List ResponseEntry → ℕ
granted k es results = if any_throttled es results then 0 else asked_units k es

-- The store after the events, and the units granted over them.
pub run_store : Str → List StoreEvent → Store → Store × ℕ
run_store k [] st = (st, 0)
run_store k (called now es ∷ events) st =
    let (st', results, _) = throttle none now es st in
    let (last, total) = run_store k events st' in (last, granted k es results + total)
run_store k (collected t ∷ events) st = run_store k events (collect st)
