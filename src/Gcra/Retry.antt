-- ===== src/Gcra/Retry.antt =====
-- What `retryAfter` promises, and where the two roundings of the rate break the promise.
use deadhorse.Common.{
  ap, arith, ltb, max, true, ℕ, ◌%◌, ◌*◌, ◌+◌, ◌-◌, ◌/◌, ◌<◌, ◌∙◌, ◌≡◌, ◌≢◌, ◌≤◌,
}
use deadhorse.Common.Int.{max_int64, pos}
use deadhorse.Gcra.{Verdict, gcra_check, refuse}
use deadhorse.Gcra.Decision.{bucket_ns, exact_check, gcra_check-exact, headroom, request_ns}
use deadhorse.Gcra.Arith.{ceil_quotient, ceil_quotient-eq}

-- A check at an instant, for a limit and a cost that are not negative.
abbrev pub check_at : (tat capacity units p cost : ℕ) → ℕ → Verdict
check_at tat capacity units p cost now =
    gcra_check tat now (pos capacity) (pos units) (pos p) (pos cost)

-- In exact arithmetic: from a refusal with a retry time on, the request is refused before that time
-- has passed and admitted from then on.
exact_retry :
    (tat now capacity units p cost r d : ℕ)
    → (exact_check tat now capacity units p cost).retry_after ≡ pos r
    → 0 < r
    → request_ns cost units p ≤ bucket_ns capacity units p
    → now + d + request_ns cost units p ≤ max_int64
    → (exact_check tat (now + d) capacity units p cost).throttled ≡ ltb d r
exact_retry tat now capacity units p cost r d e h fits range = ground arith

-- For a request that adds no more than the bucket holds, a positive retry time is exact: the same
-- request against the same TAT is throttled at each instant before it has passed, and admitted at
-- each instant from then on, as long as the clock is in range.
pub retry_after-exact :
    (tat now capacity units p cost r d : ℕ)
    → 0 < units
    → 0 < p
    → capacity ≤ max_int64
    → tat ≤ max_int64
    → (check_at tat capacity units p cost now).retry_after ≡ pos r
    → 0 < r
    → request_ns cost units p ≤ bucket_ns capacity units p
    → now + d + request_ns cost units p ≤ max_int64
    → (check_at tat capacity units p cost (now + d)).throttled ≡ ltb d r
retry_after-exact tat now capacity units p cost r d hu hp hc ht e h fits range =
    rw (gcra_check-exact tat (now + d) capacity units p cost hu hp hc ht (omega arith)) (
      exact_retry tat now capacity units p cost r d
        (rw (gcra_check-exact tat now capacity units p cost hu hp hc ht (omega arith)) at e) h fits
        range)

exact_starved :
    (tat now capacity units p cost : ℕ)
    → cost ≤ capacity
    → bucket_ns capacity units p < request_ns cost units p
    → max tat now + request_ns cost units p ≤ max_int64
    → exact_check tat now capacity units p cost
      ≡ refuse
          (pos (headroom tat now capacity units p))
          (pos (max tat now + request_ns cost units p - (now + bucket_ns capacity units p)))
          tat
exact_starved tat now capacity units p cost hc lt range = ground arith

rounded_apart : (n units : ℕ) → 0 < units → n % units ≢ 0 → n / units < ceil_quotient n units
rounded_apart n units hu h = rw (ceil_quotient-eq n units hu) (ground arith)

-- Where `units` does not divide `capacity * period`, a request for exactly the capacity is throttled
-- at every instant and from every TAT, a fresh bucket included, and each time a positive retry time
-- is reported, as long as the sums are in range.
pub gcra_check_whole_bucket :
    (tat now capacity units p : ℕ)
    → 0 < units
    → 0 < p
    → capacity ≤ max_int64
    → (capacity * p) % units ≢ 0
    → max tat now + request_ns capacity units p ≤ max_int64
    → ((check_at tat capacity units p capacity now).throttled ≡ true)
      × (r : ℕ) × ((check_at tat capacity units p capacity now).retry_after ≡ pos r)
      × (0 < r)
gcra_check_whole_bucket tat now capacity units p hu hp hc h range =
    let apart = rounded_apart (capacity * p) units hu h in
    let exact =
      gcra_check-exact tat now capacity units p capacity hu hp hc (omega arith) (omega arith)
      ∙ exact_starved tat now capacity units p capacity (omega arith) apart range in
    (ap (λ v. v.throttled) exact, _, ap (λ v. v.retry_after) exact, omega arith)
