-- ===== src/Gcra/Window.antt =====
-- The limit that a bucket enforces: what any sequence of requests can consume in a window.
use native.Mathlib.Nat.{zero-add}
use deadhorse.Common.{
  Bool-cases, List, [], ap, arith, false, if◌then◌else◌, inl, inr, max, refl, sym, ℕ, ◌*◌, ◌+◌, ◌-◌,
  ◌<◌, ◌∙◌, ◌∷◌, ◌≡◌, ◌≤◌, ◌⊎◌,
}
use deadhorse.Common.Int.{max_int64, pos}
use deadhorse.Gcra.{Verdict, gcra_check}
use deadhorse.Gcra.Arith.{mul-ceil_quotient_bounds, mul-div_bounds}
use deadhorse.Gcra.Decision.{
  bucket_ns, exact_check-admits, gcra_check-exact, gcra_check-tat, request_ns,
}

-- One bucket serves requests, each at an instant and with a cost, and keeps the TAT of each request
-- that is admitted. The result is the last TAT and the total cost admitted.
pub serve : (capacity units p : ℕ) → ℕ → List (ℕ × ℕ) → ℕ × ℕ
serve capacity units p tat [] = (tat, 0)
serve capacity units p tat ((now, cost) ∷ rest) =
    let v = gcra_check tat now (pos capacity) (pos units) (pos p) (pos cost) in
    let (last, total) = serve capacity units p v.admitted_tat rest in
    (last, (if v.throttled then 0 else cost) + total)

-- Every request falls into the window.
abbrev pub Within : (from until : ℕ) → List (ℕ × ℕ) → Type 0
Within from until [] = Unit
Within from until ((now, cost) ∷ rest) = (from ≤ now) × (now ≤ until) × Within from until rest

scaled_le : (u a b : ℕ) → a ≤ b → u * a ≤ u * b
scaled_le u a b h = grind arith

scaled_add : (u a b : ℕ) → u * (a + b) ≡ u * a + u * b
scaled_add u a b = omega arith

module _ (capacity units p : ℕ) (hu : 0 < units) (hp : 0 < p) (hc : capacity ≤ max_int64) where
  abbrev check : (tat now cost : ℕ) → Verdict
  check tat now cost = gcra_check tat now (pos capacity) (pos units) (pos p) (pos cost)

  -- What an admitted request leaves: the debt pays for the cost, and does not pass the bucket.
  pub admitted_debt :
      (tat now cost : ℕ)
      → tat ≤ max_int64
      → now ≤ max_int64
      → (check tat now cost).throttled ≡ false
      → (cost * p + units * max tat now ≤ units * (check tat now cost).admitted_tat)
        × (units * (check tat now cost).admitted_tat ≤ units * now + capacity * p)
        × (now ≤ (check tat now cost).admitted_tat)
        × ((check tat now cost).admitted_tat ≤ max_int64)
  admitted_debt tat now cost ht hn h =
      let exact = gcra_check-exact tat now capacity units p cost hu hp hc ht hn in
      let (kept, fits, range) =
        exact_check-admits tat now capacity units p cost (sym (ap (λ v. v.throttled) exact) ∙ h) in
      let (paid, _) = mul-ceil_quotient_bounds (cost * p) units hu in
      let (bounded, _) = mul-div_bounds (capacity * p) units hu in
      rw (exact, kept)
        (
          rw (scaled_add units (max tat now) (request_ns cost units p)) (omega arith),
          (let scaled = scaled_le units _ _ fits in
              omega (arith, scaled_add units now (bucket_ns capacity units p))),
          omega arith,
          range,
        )

  pub Spent : (from until tat total : ℕ) → Type 0
  Spent from until tat total =
      (total ≡ 0) ⊎ (total * p + units * max tat from ≤ units * until + capacity * p)

  -- One admitted request in front of requests that keep within their budget.
  pub spend :
      (from until now tat next cost total : ℕ)
      → from ≤ now
      → now ≤ until
      → now ≤ next
      → cost * p + units * max tat now ≤ units * next
      → units * next ≤ units * now + capacity * p
      → Spent from until next total
      → Spent from until tat (cost + total)
  unfolding Spent
  spend from until now tat next cost total lo hi fresh paid bounded (inl none_left) = inr (
      omega (
        arith,
        scaled_le units (max tat from) (max tat now) (omega arith),
        scaled_le units now until hi,
        ap (λ (t : ℕ). t * p) none_left,
      ))
  spend from until now tat next cost total lo hi fresh paid bounded (inr later) =
      let first : max next from ≡ next = omega arith in
      inr (
        omega
          (arith, scaled_le units (max tat from) (max tat now) (omega arith), rw first at later))

  -- Nothing is spent at the end of the window.
  pub Spent-nil : (from until tat : ℕ) → Spent from until tat 0
  unfolding Spent
  Spent-nil from until tat = inl refl

  -- A window that starts later leaves no more to spend, and neither does a later TAT; and before the
  -- window starts a TAT does not count.
  pub Spent-later :
      (from later until tat tat' total : ℕ)
      → max tat from ≤ max tat' later
      → Spent later until tat' total
      → Spent from until tat total
  unfolding Spent
  Spent-later from later until tat tat' total h (inl nothing) = inl nothing
  Spent-later from later until tat tat' total h (inr s) =
      inr (omega (arith, scaled_le units (max tat from) (max tat' later) h))

  serve-Spent :
      (from until tat : ℕ) (rs : List (ℕ × ℕ))
      → tat ≤ max_int64
      → until ≤ max_int64
      → Within from until rs
      → Spent from until tat (serve capacity units p tat rs).1
  unfolding serve
  serve-Spent from until tat [] ht hn w = unfold Spent in inl refl
  serve-Spent from until tat ((now, cost) ∷ rest) ht hn (lo, hi, w) =
      elim (Bool-cases (check tat now cost).throttled) [
        | inl e ↦
            rw (e, gcra_check-tat tat now (pos capacity) (pos units) (pos p) (pos cost) e, zero-add)
              (serve-Spent from until tat rest ht hn w)
        | inr e ↦
            let (paid, bounded, fresh, range) = admitted_debt tat now cost ht (omega arith) e in
            rw e (
              spend from until now tat (check tat now cost).admitted_tat cost _ lo hi fresh paid
                bounded (serve-Spent from until (check tat now cost).admitted_tat rest range hn w))
      ]

  pub conclude :
      (from until tat total : ℕ)
      → from ≤ until
      → Spent from until tat total
      → total * p ≤ capacity * p + units * (until - from)
  unfolding Spent
  conclude from until tat total h (inl nothing) = rw nothing (omega arith)
  conclude from until tat total h (inr s) =
      let split : until ≡ from + (until - from) = omega arith in
      omega (
        arith,
        scaled_le units from (max tat from) (omega arith),
        ap (λ (t : ℕ). units * t) split,
        scaled_add units from (until - from),
      )

  -- The limit is enforced: from any TAT, and whatever requests come in a window, in any order and of
  -- any cost, the units admitted are no more than a full bucket and what drains in the window.
  pub serve-conforms :
      (from until tat : ℕ) (rs : List (ℕ × ℕ))
      → from ≤ until
      → tat ≤ max_int64
      → until ≤ max_int64
      → Within from until rs
      → (serve capacity units p tat rs).1 * p ≤ capacity * p + units * (until - from)
  serve-conforms from until tat rs h ht hn w =
      conclude from until tat (serve capacity units p tat rs).1 h
        (serve-Spent from until tat rs ht hn w)
