-- ===== src/Client/Sharded/Sequence.antt =====
-- A sequence of calls of a sharded client, and what each shard sees of it.
use native.Mathlib.Nat.{mod-lt}
use deadhorse.Common.{
  Bool, Bool-cases, List, [], ap, arith, get_or-set_ne, get_or-set_self, if◌then◌else◌, inl, inr,
  length, length-set, refl, set, ℕ, ◌%◌, ◌<◌, ◌==◌, ◌∙◌, ◌∷◌, ◌≡◌, ◌≢◌,
}
use deadhorse.Common.Assoc.{Str}
use deadhorse.Types.{Failure, RequestEntry, ResponseEntry}
use deadhorse.Fnv1a.{hash}
use deadhorse.Client.Conn.{Clock, Ended}
use deadhorse.Client.Sharded.{Shard, ShardedClient, shard_for, throttle_shard, throttle_sharded}
use deadhorse.Client.Sharded.Routing.{no_shard, shard_at}

-- A call of `Throttle`, with the clock and the network as they are then.
pub record ShardedCall : Type 0 where
  pub clock : Clock
  pub network : Str → List RequestEntry → Bool × Ended
  pub shard_key : Str
  pub entries : List RequestEntry

-- The results and the errors of a call.
abbrev pub Answer : Type 0
Answer = List ResponseEntry × List Failure

unfoldable pub run_sharded : List ShardedCall → ShardedClient → ShardedClient × List Answer
run_sharded [] c = (c, [])
run_sharded (call ∷ calls) c =
    let (served, results, errs) =
      throttle_sharded call.clock call.network call.shard_key call.entries c in
    let (c', answers) = run_sharded calls served in (c', (results, errs) ∷ answers)

-- A shard alone with its calls.
unfoldable pub run_shard : Bool → List ShardedCall → Shard → Shard × List Answer
run_shard fail_open [] s = (s, [])
run_shard fail_open (call ∷ calls) s =
    let (served, results, errs) = throttle_shard call.clock fail_open call.network call.entries s in
    let (s', answers) = run_shard fail_open calls served in (s', (results, errs) ∷ answers)

-- The hash of the shard key, modulo `n`, is `i`.
abbrev pub is_of : (n i : ℕ) → ShardedCall → Bool
is_of n i call = hash call.shard_key % n == i

abbrev pub calls_of : (n i : ℕ) → List ShardedCall → List ShardedCall
calls_of n i [] = []
calls_of n i (call ∷ calls) =
    if is_of n i call then call ∷ calls_of n i calls else calls_of n i calls

-- The answers at the places of those calls.
abbrev pub answers_of : (n i : ℕ) → List ShardedCall → List Answer → List Answer
answers_of n i (call ∷ calls) (x ∷ xs) =
    if is_of n i call then x ∷ answers_of n i calls xs else answers_of n i calls xs
answers_of n i _ _ = []

shard_for-hash :
    (c : ShardedClient) (key : Str) (n : ℕ)
    → length c.shards ≡ n
    → 0 < n
    → shard_for c key ≡ hash key % n
unfolding shard_for
shard_for-hash c key n e h = elim (Bool-cases (n == 1)) [
  | inl one ↦
      let same : n ≡ 1 = ground arith in let rest = mod-lt (hash key) h in rw (e, one) (omega arith)
  | inr more ↦ rw (e, more) refl
]

-- Over every sequence of calls of a client with `n` shards, at any times and whatever the network
-- does, the shard `i` ends, and answers, as if it alone had been given, in their order, the calls
-- whose shard key has a hash that is `i` modulo `n`: these calls, and no others, go to it.
pub run_sharded-run_shard :
    (calls : List ShardedCall) (c : ShardedClient) (n i : ℕ)
    → length c.shards ≡ n
    → i < n
    → (let (c', answers) = run_sharded calls c in
        let (s', own) = run_shard c.fail_open (calls_of n i calls) (shard_at c i) in
        (shard_at c' i ≡ s') × (answers_of n i calls answers ≡ own))
unfolding run_sharded run_shard throttle_sharded
run_sharded-run_shard [] c n i e h = (refl, refl)
run_sharded-run_shard (call ∷ calls) c n i e h =
    let at = shard_for c call.shard_key in
    let s = (throttle_shard call.clock c.fail_open call.network call.entries (shard_at c at)).0 in
    let c' = record c { shards = set c.shards at s } in
    let routed : at ≡ hash call.shard_key % n = shard_for-hash c call.shard_key n e (omega arith) in
    let later = run_sharded-run_shard calls c' n i (length-set c.shards at s ∙ e) h in
    elim (Bool-cases (is_of n i call)) [
      | inl mine ↦
          let here : at ≡ i = ground (arith, routed) in
          let r = throttle_shard call.clock c.fail_open call.network call.entries (shard_at c i) in
          let kept = get_or-set_self c.shards i r.0 no_shard (omega (arith, e)) in
          let (last, others) = rw (here, kept) at later in
          rw (here, mine) (last, ap (◌∷◌ (r.1, r.2)) others)
      | inr not_mine ↦
          let apart : at ≢ i = ground (arith, routed) in
          let kept = get_or-set_ne c.shards at i s no_shard apart in rw not_mine (rw kept at later)
    ]
