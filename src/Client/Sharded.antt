-- ===== src/Client/Sharded.antt =====
-- client/client.go and client/simple.go: the client over a static list of shards, and the client of a
-- single server. What the network does for the connection of an address is the argument `network`.
pub mod Routing
pub mod Sequence
use deadhorse.Common.{
  Bool, List, Option, [], false, get_or, if◌then◌else◌, length, map, none, set, some, true, ℕ, ◌%◌,
  ◌==◌, ◌∷◌,
}
use deadhorse.Common.Int.{pos, ℤ}
use deadhorse.Common.Assoc.{Str}
use deadhorse.Types.{Failure, RequestEntry, ResponseEntry, conn_closed}
use deadhorse.Fnv1a.{hash}
use deadhorse.Client.Breaker.{Breaker, new_circuit_breaker}
use deadhorse.Client.Conn.{Clock, Ended, not_submitted, throttle}

-- A `shardConn`, as far as it outlasts a call: its address, its breaker, and whether it is closed.
pub record Shard : Type 0 where
  pub addr : Str
  pub breaker : Breaker
  pub is_closed : Bool

pub record ShardedClient : Type 0 where
  pub shards : List Shard
  pub timeout : ℤ
  pub fail_open : Bool
  pub breaker_failure_threshold : ℤ
  pub breaker_open_duration : ℤ

-- 10ms, and 5 and 1s in breaker.go.
abbrev pub default_timeout : ℤ
default_timeout = pos 10000000

abbrev pub default_breaker_failure_threshold : ℤ
default_breaker_failure_threshold = pos 5

abbrev pub default_breaker_open_duration : ℤ
default_breaker_open_duration = pos 1000000000

abbrev pub ClientOption : Type 0
ClientOption = ShardedClient → ShardedClient

abbrev pub with_timeout : ℤ → ClientOption
with_timeout d c = record c { timeout = d }

abbrev pub with_fail_closed : ClientOption
with_fail_closed c = record c { fail_open = false }

abbrev pub with_breaker : ℤ → ℤ → ClientOption
with_breaker threshold duration c = record c {
  breaker_failure_threshold = threshold;
  breaker_open_duration = duration;
}

-- The loop that applies the options.
unfoldable pub apply_options : List ClientOption → ShardedClient → ShardedClient
apply_options [] c = c
apply_options (opt ∷ opts) c = apply_options opts (opt c)

abbrev pub new_shard : ℤ → ℤ → Str → Shard
new_shard threshold duration addr = record {
  addr = addr;
  breaker = new_circuit_breaker threshold duration;
  is_closed = false;
}

-- `none` is the panic on an empty list.
unfoldable pub new_sharded_client : List Str → List ClientOption → Option ShardedClient
new_sharded_client [] opts = none
new_sharded_client (addr ∷ addrs) opts =
    let c = apply_options opts (record {
      shards = [];
      timeout = default_timeout;
      fail_open = true;
      breaker_failure_threshold = default_breaker_failure_threshold;
      breaker_open_duration = default_breaker_open_duration;
    }) in
    some (record c {
      shards = map (new_shard c.breaker_failure_threshold c.breaker_open_duration) (addr ∷ addrs);
    })

unfoldable pub shard_for : ShardedClient → Str → ℕ
shard_for c key = if length c.shards == 1 then 0 else hash key % length c.shards

-- `ensureConn` refuses a closed connection before it looks at anything else.
abbrev pub answer_of : Bool → (List RequestEntry → Bool × Ended) → List RequestEntry → Bool × Ended
answer_of is_closed network valid =
    if is_closed then ((network valid).0, not_submitted conn_closed) else network valid

abbrev pub throttle_shard :
    Clock
    → Bool
    → (Str → List RequestEntry → Bool × Ended)
    → List RequestEntry
    → Shard
    → Shard × List ResponseEntry × List Failure
throttle_shard clock fail_open network entries s =
    let (breaker, results, errs) =
      throttle clock fail_open (answer_of s.is_closed (network s.addr)) entries s.breaker in
    (record s { breaker = breaker }, results, errs)

-- `Throttle`: the client, the results and the errors. The index is in range.
pub throttle_sharded :
    Clock
    → (Str → List RequestEntry → Bool × Ended)
    → Str
    → List RequestEntry
    → ShardedClient
    → ShardedClient × List ResponseEntry × List Failure
throttle_sharded clock network shard_key entries c =
    let shard = shard_for c shard_key in
    let (s, results, errs) =
      throttle_shard clock c.fail_open network entries
        (get_or c.shards shard (new_shard (pos 0) (pos 0) [])) in
    (record c { shards = set c.shards shard s }, results, errs)

abbrev pub close_shard : Shard → Shard
close_shard s = record s { is_closed = true }

pub close_all : ShardedClient → ShardedClient
close_all c = record c { shards = map close_shard c.shards }

-- client/simple.go: one shard, and no shard key.
unfoldable pub new_client : Str → List ClientOption → Option ShardedClient
new_client addr opts = new_sharded_client (addr ∷ []) opts

unfoldable pub throttle_single :
    Clock
    → (Str → List RequestEntry → Bool × Ended)
    → List RequestEntry
    → ShardedClient
    → ShardedClient × List ResponseEntry × List Failure
throttle_single clock network entries c = throttle_sharded clock network [] entries c
