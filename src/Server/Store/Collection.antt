-- ===== src/Server/Store/Collection.antt =====
-- server/store.go: a new store, and what the garbage collection leaves of a store.
use deadhorse.Common.{
  List, Option-cases, [], arith, get_or, if◌then◌else◌, inl, inr, length, length-map,
  length-replicate, none, refl, replicate, some, suc, sym, zero, ℕ, ◌++◌, ◌+◌, ◌<◌, ◌∙◌, ◌∷◌, ◌≡◌,
  ◌≤◌,
}
use deadhorse.Common.Int.{is_nonpos, magnitude, ℤ}
use deadhorse.Common.Assoc.{Str, lookup}
use deadhorse.Server.Store.{
  GcEvent, Store, Stripe, add_sizes, collect, default_stripes, done_closed, gc_events, gc_loop,
  gc_tick, key_count_estimate, key_counts, metrics_tick, new_store, new_stripe, size, sizes,
  stripe_for, stripe_index, total_size,
}
use deadhorse.Server.Store.Lookup.{find, find-collect, find_hot, stripe_find}
use deadhorse.Server.Store.Tats.{IsValid, tat_of, tat_of-found, tat_of-missing}

get_or-replicate : (n i : ℕ) (s : Stripe) → get_or (replicate n s) i s ≡ s
get_or-replicate zero i s = refl
get_or-replicate (suc n) zero s = refl
get_or-replicate (suc n) (suc i) s = get_or-replicate n i s

find-new_store : (n : ℤ) (k : Str) → find k (new_store n) ≡ none
unfolding find stripe_find stripe_for stripe_index new_store lookup
find-new_store n k =
    rw (get_or-replicate (if is_nonpos n then default_stripes else magnitude n) _ new_stripe)

new_store-has_stripe : (n : ℤ) → 0 < length (new_store n).stripes
unfolding new_store
new_store-has_stripe n =
    rw (length-replicate (if is_nonpos n then default_stripes else magnitude n) new_stripe)
      (ground arith)

-- A new store is valid whatever the number of stripes asked for, zero and negative included, and
-- every key starts with the TAT zero, an empty bucket.
pub new_store-IsValid : (n : ℤ) → IsValid (new_store n) × ((k : Str) → tat_of (new_store n) k ≡ 0)
new_store-IsValid n = (
  record {
    has_stripe = new_store-has_stripe n;
    in_heap = λ k b e. let missing = find-new_store n k in cc;
    one_owner = λ j k b e f. let missing = find-new_store n k in cc;
  },
  λ k. tat_of-missing (new_store n) k (find-new_store n k),
)

find-find_hot : (k : Str) (st : Store) (b : ℕ) → find_hot k st ≡ some b → find k st ≡ some b
unfolding find find_hot stripe_find
find-find_hot k st b e = ground arith

-- What a rotation keeps: the bucket of a key in the hot generation.
find-collect_hot :
    (k : Str) (st : Store) (b : ℕ) → find k (collect st) ≡ some b → find k st ≡ some b
find-collect_hot k st b e = find-find_hot k st b (sym (find-collect k st) ∙ e)

-- A rotation keeps the store valid, and each key keeps its TAT or is forgotten: it is kept exactly
-- if its bucket was in the hot generation.
pub collect-IsValid :
    (st : Store)
    → IsValid st
    → IsValid (collect st)
      × ((k : Str)
          → tat_of (collect st) k ≡ elim (find_hot k st) [ some b ↦ tat_of st k | none ↦ 0 ])
collect-IsValid st v = (
  record {
    has_stripe = (unfold collect in rw length-map v.has_stripe);
    in_heap = λ k b e. (unfold collect in v.in_heap k b (find-collect_hot k st b e));
    one_owner =
        λ j k b e f. v.one_owner j k b (find-collect_hot j st b e) (find-collect_hot k st b f);
  },
  λ k. elim (Option-cases (find_hot k st)) [
    | inl gone ↦ rw gone (tat_of-missing (collect st) k (find-collect k st ∙ gone))
    | inr (b, kept) ↦ rw kept (
        tat_of-found (collect st) k b (find-collect k st ∙ kept)
        ∙ (unfold collect in sym (tat_of-found st k b (find-find_hot k st b kept))))
  ],
)

add_sizes-total :
    (ss : List Stripe) (hot cold : ℕ)
    → (add_sizes ss (hot, cold)).0 + (add_sizes ss (hot, cold)).1 ≡ hot + cold + total_size ss
unfolding add_sizes total_size sizes size
add_sizes-total [] hot cold = omega arith
add_sizes-total (s ∷ ss) hot cold =
    omega (arith, add_sizes-total ss (hot + length s.hot) (cold + length s.cold))

-- The two generation gauges add up to the key count that STATS reports, in every store.
pub key_counts-total : (st : Store) → (key_counts st).0 + (key_counts st).1 ≡ key_count_estimate st
unfolding key_counts key_count_estimate
key_counts-total st = omega (arith, add_sizes-total st.stripes 0 0)

gc_events_done :
    (es rest : List GcEvent) (st : Store)
    → gc_events (es ++ done_closed ∷ rest) st ≡ gc_events es st
unfolding gc_events
gc_events_done [] rest st = refl
gc_events_done (gc_tick ∷ es) rest st = rw (gc_events_done es rest (collect st))
gc_events_done (metrics_tick ∷ es) rest st = rw (gc_events_done es rest st)
gc_events_done (done_closed ∷ es) rest st = refl

pub rotations : List GcEvent → ℕ
rotations [] = 0
rotations (gc_tick ∷ es) = suc (rotations es)
rotations (metrics_tick ∷ es) = rotations es
rotations (done_closed ∷ es) = 0

pub collect_times : ℕ → Store → Store
collect_times zero st = st
collect_times (suc n) st = collect_times n (collect st)

gc_events-collect_times :
    (es : List GcEvent) (st : Store) → (gc_events es st).0 ≡ collect_times (rotations es) st
unfolding gc_events rotations collect_times
gc_events-collect_times [] st = refl
gc_events-collect_times (gc_tick ∷ es) st = gc_events-collect_times es (collect st)
gc_events-collect_times (metrics_tick ∷ es) st = gc_events-collect_times es st
gc_events-collect_times (done_closed ∷ es) st = refl

-- Once `done` is closed the loop does nothing more, whatever ticks would follow: the store is
-- rotated once for each GC tick before that, and no more counts are published.
pub gc_loop-done :
    (es rest : List GcEvent) (st : Store)
    → (gc_loop (es ++ done_closed ∷ rest) st ≡ gc_loop es st)
      × ((gc_loop es st).0 ≡ collect_times (rotations es) st)
unfolding gc_loop
gc_loop-done es rest st = (rw (gc_events_done es rest st), gc_events-collect_times es st)

pub tat_of-collect_le : (st : Store) (k : Str) → IsValid st → tat_of (collect st) k ≤ tat_of st k
tat_of-collect_le st k v = elim (Option-cases (find_hot k st)) [
  | inl gone ↦ rw ((collect-IsValid st v).1 k, gone) (omega arith)
  | inr (b, kept) ↦ rw ((collect-IsValid st v).1 k, kept) (omega arith)
]
