-- ===== src/Client/Sharded/Routing.antt =====
-- Which shard a call goes to, what a client is built from, and what Close leaves.
use deadhorse.Common.{
  Bool, Bool-cases, List, Option, [], arith, get_or, get_or-set_self, if◌then◌else◌, inl, inr,
  length, length-map, map, none, not, refl, some, suc, zero, ℕ, ◌<◌, ◌==◌, ◌∷◌, ◌≡◌,
}
use deadhorse.Common.Int.{pos}
use deadhorse.Common.Assoc.{Str}
use deadhorse.Types.{RequestEntry, circuit_open, conn_closed}
use deadhorse.Fnv1a.{hash-mod-lt}
use deadhorse.Client.Breaker.{allow}
use deadhorse.Client.Conn.{Clock, Ended, not_submitted}
use deadhorse.Client.Conn.Results.{refused_all, throttle_unanswered}
use deadhorse.Client.Sharded.{
  ClientOption, Shard, ShardedClient, close_all, close_shard, new_shard, new_sharded_client,
  shard_for, throttle_shard, throttle_sharded, throttle_single,
}

abbrev pub no_shard : Shard
no_shard = new_shard (pos 0) (pos 0) []

abbrev pub shard_at : ShardedClient → ℕ → Shard
shard_at c i = get_or c.shards i no_shard

pub shard_for-lt :
    (c : ShardedClient) (key : Str) → 0 < length c.shards → shard_for c key < length c.shards
unfolding shard_for
shard_for-lt c key h = elim (Bool-cases (length c.shards == 1)) [
  | inl e ↦ rw e (omega arith)
  | inr e ↦ rw e (hash-mod-lt key (length c.shards) h)
]

shard_for-length :
    (c d : ShardedClient) (key : Str)
    → length d.shards ≡ length c.shards
    → shard_for d key ≡ shard_for c key
unfolding shard_for
shard_for-length c d key e = rw e

shard_for-lone : (c : ShardedClient) (key : Str) → length c.shards ≡ 1 → shard_for c key ≡ 0
unfolding shard_for
shard_for-lone c key h = rw h

-- With a single shard every call goes to it, whatever the shard key; in particular each call of the
-- client of a single server.
pub throttle_single-lone :
    (clock : Clock) (network : Str → List RequestEntry → Bool × Ended) (key : Str)
    (es : List RequestEntry) (c : ShardedClient)
    → length c.shards ≡ 1
    → (throttle_single clock network es c ≡ throttle_sharded clock network key es c)
      × (shard_at (throttle_single clock network es c).0 0
          ≡ (throttle_shard clock c.fail_open network es (shard_at c 0)).0)
unfolding throttle_single throttle_sharded
throttle_single-lone clock network key es c h =
    rw (shard_for-lone c key h, shard_for-lone c [] h)
      (refl, get_or-set_self c.shards 0 _ no_shard (omega arith))

get_or-map :
    (ss : List Shard) (i : ℕ)
    → i < length ss
    → get_or (map close_shard ss) i no_shard ≡ close_shard (get_or ss i no_shard)
get_or-map [] i h = absurd (omega arith)
get_or-map (s ∷ ss) zero h = refl
get_or-map (s ∷ ss) (suc i) h = get_or-map ss i (omega arith)

-- After `Close` no call reaches the network: whatever it would answer, each entry's result is the
-- error of the closed connection or of the open breaker, throttled exactly if the client fails
-- closed, or the refusal of an invalid key.
pub throttle_sharded_closed :
    (clock : Clock) (network : Str → List RequestEntry → Bool × Ended) (key : Str)
    (es : List RequestEntry) (c : ShardedClient)
    → 0 < length c.shards
    → (throttle_sharded clock network key es (close_all c)).1
      ≡ refused_all
          (not c.fail_open)
          (if (allow clock.asked (shard_at c (shard_for c key)).breaker).1
            then conn_closed
            else circuit_open)
          es
unfolding throttle_sharded close_all
throttle_sharded_closed clock network key es c h =
    rw
      (
        shard_for-length c (record c { shards = map close_shard c.shards }) key
            (length-map c.shards close_shard),
        get_or-map c.shards (shard_for c key) (shard_for-lt c key h),
      )
      (throttle_unanswered clock c.fail_open _ (shard_at c (shard_for c key)).breaker es _
        (not_submitted conn_closed) conn_closed refl refl)

-- What a client is built from: one shard for each address, open, and with a new breaker.
abbrev pub Built : List Str → Option ShardedClient → Type 0
Built addrs none = length addrs ≡ 0
Built addrs (some c) =
    (0 < length c.shards)
    × (c.shards ≡ map (new_shard c.breaker_failure_threshold c.breaker_open_duration) addrs)

-- `NewShardedClient` fails on the empty list alone; otherwise it has one shard for each address, in
-- order, each open, with a closed breaker of its own that has the threshold and the duration that
-- the options, in their order, leave in the client.
pub new_sharded_client-Built :
    (addrs : List Str) (opts : List ClientOption) → Built addrs (new_sharded_client addrs opts)
unfolding new_sharded_client
new_sharded_client-Built [] opts = refl
new_sharded_client-Built (addr ∷ addrs) opts = (omega arith, refl)
