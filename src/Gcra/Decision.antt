-- ===== src/Gcra/Decision.antt =====
-- The decision of `gcra_check` against exact arithmetic.
use native.Mathlib.Nat.{div-one, mul-one}
use deadhorse.Common.{
  ==_iff, Bool-cases, ap, arith, false, if◌then◌else◌, inl, inr, leb, leb→le, lt→leb, max, none,
  not, refl, some, true, ℕ, ◌&&◌, ◌*◌, ◌+◌, ◌-◌, ◌/◌, ◌<◌, ◌==◌, ◌>>=◌, ◌||◌, ◌∙◌, ◌≡◌, ◌≤◌,
}
use deadhorse.Common.Int.{
  add64, max_int64, max_zero, max_zero-sub64, max_zero-sub64-add64, negsuc, pos, sub64, ℤ,
}
use deadhorse.Gcra.{
  Verdict, check_counts, debt_units, debts, decide, gcra_check, refuse, remaining_units,
}
use deadhorse.Gcra.Arith.{ceil_quotient, ceil_quotient-le, ceil_quotient-one, fit}
use deadhorse.Gcra.Exact.{
  add_non_neg-exact, ceil_div-exact, mul_div_ceil-exact, mul_div_floor-exact, mul_non_neg-exact,
}

-- What the bucket is worth in nanoseconds, rounded down, and what a request adds, rounded up.
abbrev pub bucket_ns : (capacity units p : ℕ) → ℕ
bucket_ns capacity units p = capacity * p / units

abbrev pub request_ns : (cost units p : ℕ) → ℕ
request_ns cost units p = ceil_quotient (cost * p) units

pub debts-exact :
    (capacity units p cost : ℕ)
    → 0 < units
    → debts capacity units p cost ≡ (
        fit (bucket_ns capacity units p) >>= λ d.
        fit (request_ns cost units p) >>= λ c. some (d, c))
unfolding debts
debts-exact capacity units p cost h = elim (Bool-cases (units == 1)) [
  | inl e ↦ rw (
    (==_iff units 1).0 e,
    mul_non_neg-exact,
    mul_non_neg-exact,
    div-one,
    ceil_quotient-one (cost * p),
  )
  | inr e ↦ rw (e, mul_div_floor-exact capacity p units h, mul_div_ceil-exact cost p units h)
]

clamped_units :
    (capacity d : ℕ)
    → capacity ≤ max_int64
    → max_zero (
        sub64
          (pos capacity)
          (elim (fit d) [ some q ↦ pos q | none ↦ add64 (pos capacity) (pos 1) ]))
      ≡ pos (capacity - d)
clamped_units capacity d h = elim (Bool-cases (leb d max_int64)) [
  | inl e ↦ rw e (max_zero-sub64 capacity d h (leb→le d max_int64 e))
  | inr e ↦ rw e (max_zero-sub64-add64 capacity h ∙ ap pos (ground arith))
]

pub remaining_units-exact :
    (capacity units p level : ℕ)
    → 0 < units
    → 0 < p
    → capacity ≤ max_int64
    → level ≤ max_int64
    → remaining_units capacity units p level ≡ pos (capacity - ceil_quotient (level * units) p)
unfolding remaining_units debt_units
remaining_units-exact capacity units p level hu hp hc hl = elim (Bool-cases (units == 1)) [
  | inl e ↦
      rw (e, (==_iff units 1).0 e, ceil_div-exact level p hp, mul-one level)
        (max_zero-sub64 capacity (ceil_quotient level p) hc
          (omega (arith, ceil_quotient-le level p hp)))
  | inr e ↦
      rw (e, mul_div_ceil-exact level units p hp)
        (clamped_units capacity (ceil_quotient (level * units) p) hc)
]

-- The headroom that a check reports: the capacity less the debt of the bucket, rounded up.
abbrev pub headroom : (tat now capacity units p : ℕ) → ℕ
headroom tat now capacity units p = capacity - ceil_quotient ((max tat now - now) * units) p

-- The last part of the check, given the two debts.
abbrev exact_decision : (tat now capacity cost bucket request : ℕ) → ℤ → Verdict
exact_decision tat now capacity cost bucket request room =
    let candidate = max tat now + request in
    if not (leb cost capacity && leb candidate max_int64)
    then refuse room (pos 0) tat
    else if leb candidate (now + bucket)
    then record {
      throttled = false;
      remaining = room;
      retry_after = pos 0;
      admitted_tat = candidate;
    }
    else refuse room (pos (candidate - (now + bucket))) tat

-- The check in exact arithmetic: no operation of it is bounded.
abbrev pub exact_check : (tat now capacity units p cost : ℕ) → Verdict
exact_check tat now capacity units p cost =
    let bucket = bucket_ns capacity units p in
    let request = request_ns cost units p in
    if not (leb bucket max_int64 && leb request max_int64)
    then refuse (pos 0) (pos 0) tat
    else exact_decision tat now capacity cost bucket request
        (pos (headroom tat now capacity units p))

decide-exact :
    (tat now capacity cost bucket request : ℕ) (room : ℤ)
    → request ≤ max_int64
    → decide tat now (max tat now) capacity cost bucket request room
      ≡ exact_decision tat now capacity cost bucket request room
unfolding decide
decide-exact tat now capacity cost bucket request room h =
    rw (add_non_neg-exact (max tat now) request h) (ground arith)

check_counts-exact :
    (tat now capacity units p cost : ℕ)
    → 0 < units
    → 0 < p
    → capacity ≤ max_int64
    → tat ≤ max_int64
    → now ≤ max_int64
    → check_counts tat now capacity units p cost ≡ exact_check tat now capacity units p cost
unfolding check_counts
check_counts-exact tat now capacity units p cost hu hp hc ht hn =
    rw (debts-exact capacity units p cost hu, check_counts)
      (elim (Bool-cases (leb (bucket_ns capacity units p) max_int64)) [
        | inr e ↦ rw e
        | inl e ↦ elim (Bool-cases (leb (request_ns cost units p) max_int64)) [
          | inr e' ↦ rw (e, e')
          | inl e' ↦
              rw
                (
                  e,
                  e',
                  remaining_units-exact capacity units p (max tat now - now) hu hp hc (omega arith),
                )
                (decide-exact tat now capacity cost _ _ _ (leb→le _ max_int64 e'))
        ]
      ])

-- For every limit with a positive rate and every cost, the check with its 64-bit guards, its fast
-- path and its 128-bit intermediates decides as exact arithmetic does, on all five branches:
-- an unusable limit, a cost above the capacity, a sum out of range, admitted, and retry later.
pub gcra_check-exact :
    (tat now capacity units p cost : ℕ)
    → 0 < units
    → 0 < p
    → capacity ≤ max_int64
    → tat ≤ max_int64
    → now ≤ max_int64
    → gcra_check tat now (pos capacity) (pos units) (pos p) (pos cost)
      ≡ exact_check tat now capacity units p cost
unfolding gcra_check
gcra_check-exact tat now capacity units p cost hu hp hc ht hn =
    rw (lt→leb p 0 hp, lt→leb units 0 hu)
      (check_counts-exact tat now capacity units p cost hu hp hc ht hn)

exact_decision-remaining :
    (tat now capacity cost bucket request : ℕ) (room : ℤ)
    → (exact_decision tat now capacity cost bucket request room).remaining ≡ room
exact_decision-remaining tat now capacity cost bucket request room = ground arith

exact_check-remaining :
    (tat now capacity units p cost : ℕ)
    → (r : ℕ) × ((exact_check tat now capacity units p cost).remaining ≡ pos r) × (r ≤ capacity)
exact_check-remaining tat now capacity units p cost =
    elim (Bool-cases
      (leb (bucket_ns capacity units p) max_int64 && leb (request_ns cost units p) max_int64)) [
        | inr e ↦ (0, rw e, omega arith)
        | inl e ↦ (
          headroom tat now capacity units p,
          rw e (exact_decision-remaining tat now capacity cost _ _ _),
          omega arith,
        )
      ]

-- Whatever the limit, its rate and cost negative or zero included, the reported headroom lies
-- between zero and the capacity.
pub gcra_check-remaining_bounds :
    (tat now capacity : ℕ) (units period cost : ℤ)
    → capacity ≤ max_int64
    → tat ≤ max_int64
    → now ≤ max_int64
    → (r : ℕ) × ((gcra_check tat now (pos capacity) units period cost).remaining ≡ pos r)
      × (r ≤ capacity)
unfolding gcra_check
gcra_check-remaining_bounds tat now capacity (negsuc u) (negsuc n) c hc ht hn =
    (0, refl, omega arith)
gcra_check-remaining_bounds tat now capacity (negsuc u) (pos p) c hc ht hn =
    (0, ground arith, omega arith)
gcra_check-remaining_bounds tat now capacity (pos u) (negsuc n) c hc ht hn = (0, refl, omega arith)
gcra_check-remaining_bounds tat now capacity (pos u) (pos p) (negsuc c) hc ht hn =
    (0, ground arith, omega arith)
gcra_check-remaining_bounds tat now capacity (pos u) (pos p) (pos c) hc ht hn =
    elim (Bool-cases (leb p 0 || leb u 0)) [
      | inl e ↦ (0, ground arith, omega arith)
      | inr e ↦
          rw (gcra_check-exact tat now capacity u p c (ground arith) (ground arith) hc ht hn)
            (exact_check-remaining tat now capacity u p c)
    ]

-- What it takes for a check to admit in exact arithmetic, and what it then keeps.
pub exact_check-admits :
    (tat now capacity units p cost : ℕ)
    → (exact_check tat now capacity units p cost).throttled ≡ false
    → ((exact_check tat now capacity units p cost).admitted_tat
        ≡ max tat now + request_ns cost units p)
      × (max tat now + request_ns cost units p ≤ now + bucket_ns capacity units p)
      × (max tat now + request_ns cost units p ≤ max_int64)
exact_check-admits tat now capacity units p cost h = ground arith

-- A check that throttles hands the old TAT back, whatever its arguments.
pub gcra_check-tat :
    (tat now : ℕ) (capacity units period cost : ℤ)
    → (gcra_check tat now capacity units period cost).throttled ≡ true
    → (gcra_check tat now capacity units period cost).admitted_tat ≡ tat
unfolding gcra_check
gcra_check-tat tat now capacity units period cost h = ground arith
