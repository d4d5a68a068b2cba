-- ===== src/Server/Store.antt =====
-- server/store.go: the striped map from keys to buckets, in two generations. A `*bucketState` is an
-- address in `heap`, which holds the TAT of each bucket: a bucket that was handed out stays there
-- when the maps drop it. The `mu` fields guard these steps against one another and hold no data.
pub mod Lookup
pub mod Tats
pub mod Generations
pub mod Collection
use deadhorse.Common.{
  Bool, List, [], false, get_or, if◌then◌else◌, length, map, none, replicate, set, some, true, ℕ,
  ◌%◌, ◌++◌, ◌+◌, ◌∷◌,
}
use deadhorse.Common.Int.{is_nonpos, magnitude, ℤ}
use deadhorse.Common.Assoc.{Dict, Str, delete, insert, lookup}
use deadhorse.Fnv1a.{hash}

pub record Stripe : Type 0 where
  pub hot : Dict ℕ
  pub cold : Dict ℕ

abbrev pub new_stripe : Stripe
new_stripe = record { hot = []; cold = [] }

pub record Store : Type 0 where
  pub heap : List ℕ
  pub stripes : List Stripe
  pub done : Bool

abbrev pub default_stripes : ℕ
default_stripes = 256

unfoldable pub new_store : ℤ → Store
new_store num_stripes = record {
  heap = [];
  stripes =
      replicate (if is_nonpos num_stripes then default_stripes else magnitude num_stripes)
        new_stripe;
  done = false;
}

-- `stripe.getOrCreate`: the heap, the stripe and the bucket's address.
unfoldable pub get_or_create : Str → List ℕ → Stripe → List ℕ × Stripe × ℕ
get_or_create key heap s = elim (lookup key s.hot) [
  | some b ↦ (heap, s, b)
  | none ↦ elim (lookup key s.cold) [
    | some b ↦ (heap, record { hot = insert key b s.hot; cold = delete key s.cold }, b)
    | none ↦ (heap ++ 0 ∷ [], record s { hot = insert key (length heap) s.hot }, length heap)
  ]
]

unfoldable pub rotate : Stripe → Stripe
rotate s = record { hot = []; cold = s.hot }

pub size : Stripe → ℕ
size s = length s.hot + length s.cold

unfoldable pub sizes : Stripe → ℕ × ℕ
sizes s = (length s.hot, length s.cold)

unfoldable pub stripe_index : Store → Str → ℕ
stripe_index st key = hash key % length st.stripes

unfoldable pub stripe_for : Store → Str → Stripe
stripe_for st key = get_or st.stripes (stripe_index st key) new_stripe

-- `st.stripeFor(key).getOrCreate(key)`, with the stripe written back.
unfoldable pub touch : Str → Store → Store × ℕ
touch key st =
    let (heap, s, b) = get_or_create key st.heap (stripe_for st key) in
    (record st { heap = heap; stripes = set st.stripes (stripe_index st key) s }, b)

-- One tick of the GC timer: every stripe is rotated.
unfoldable pub collect : Store → Store
unfolding rotate
collect st = record st { stripes = map rotate st.stripes }

-- `close`, at most once by `closeOnce`: `done` is closed and stays closed.
unfoldable pub close : Store → Store
close st = record st { done = true }

pub total_size : List Stripe → ℕ
unfolding size
total_size [] = 0
total_size (s ∷ ss) = size s + total_size ss

pub key_count_estimate : Store → ℕ
unfolding total_size
key_count_estimate st = total_size st.stripes

unfoldable pub add_sizes : List Stripe → ℕ × ℕ → ℕ × ℕ
unfolding sizes
add_sizes [] (hot, cold) = (hot, cold)
add_sizes (s ∷ ss) (hot, cold) = let (h, c) = sizes s in add_sizes ss (hot + h, cold + c)

unfoldable pub key_counts : Store → ℕ × ℕ
unfolding add_sizes
key_counts st = add_sizes st.stripes (0, 0)

-- What the GC goroutine receives: a tick of either timer, or the end of `done`.
pub data GcEvent : Type 0 where
  gc_tick : GcEvent
  metrics_tick : GcEvent
  done_closed : GcEvent

-- The loop of `gcLoop` over what it receives, with the key counts that it publishes.
unfoldable pub gc_events : List GcEvent → Store → Store × List (ℕ × ℕ)
unfolding collect key_counts
gc_events [] st = (st, [])
gc_events (gc_tick ∷ es) st =
    let (last, counts) = gc_events es (collect st) in (last, key_counts (collect st) ∷ counts)
gc_events (metrics_tick ∷ es) st =
    let (last, counts) = gc_events es st in (last, key_counts st ∷ counts)
gc_events (done_closed ∷ es) st = (st, [])

unfoldable pub gc_loop : List GcEvent → Store → Store × List (ℕ × ℕ)
unfolding gc_events
gc_loop es st = let (last, counts) = gc_events es st in (last, key_counts st ∷ counts)

-- `b.tat` and `b.tat = tat`.
abbrev pub read_tat : Store → ℕ → ℕ
read_tat st b = get_or st.heap b 0

abbrev pub write_tat : ℕ → ℕ → Store → Store
write_tat b tat st = record st { heap = set st.heap b tat }
