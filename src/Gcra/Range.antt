-- ===== src/Gcra/Range.antt =====
-- What a check reports and keeps stays in the range of an int64.
use deadhorse.Common.{Bool-cases, arith, inl, inr, leb, ℕ, ◌||◌, ◌≤◌}
use deadhorse.Common.Int.{max_int64, negsuc, pos, ℤ}
use deadhorse.Gcra.{gcra_check}
use deadhorse.Gcra.Decision.{exact_check, gcra_check-exact}

-- A number in the range of an int64, as the code holds it.
abbrev pub IsCount : ℤ → Type 0
IsCount (pos n) = n ≤ max_int64
IsCount (negsuc n) = ⊥

exact_check-range :
    (tat now capacity units p cost : ℕ)
    → capacity ≤ max_int64
    → tat ≤ max_int64
    → ((exact_check tat now capacity units p cost).admitted_tat ≤ max_int64)
      × IsCount (exact_check tat now capacity units p cost).remaining
      × IsCount (exact_check tat now capacity units p cost).retry_after
exact_check-range tat now capacity units p cost hc ht = ground arith

-- For every rate and cost, negative and zero included, the TAT that a check keeps, the headroom and
-- the retry time that it reports are in the range of an int64 and not negative.
pub gcra_check-range :
    (tat now : ℕ) (capacity units period cost : ℤ)
    → IsCount capacity
    → tat ≤ max_int64
    → now ≤ max_int64
    → ((gcra_check tat now capacity units period cost).admitted_tat ≤ max_int64)
      × IsCount (gcra_check tat now capacity units period cost).remaining
      × IsCount (gcra_check tat now capacity units period cost).retry_after
unfolding gcra_check
gcra_check-range tat now (negsuc c) units period cost hc ht hn = elim hc [ ]
gcra_check-range tat now (pos c) (negsuc u) (negsuc p) k hc ht hn = (ht, omega arith, omega arith)
gcra_check-range tat now (pos c) (negsuc u) (pos p) k hc ht hn = ground arith
gcra_check-range tat now (pos c) (pos u) (negsuc p) k hc ht hn = (ht, omega arith, omega arith)
gcra_check-range tat now (pos c) (pos u) (pos p) (negsuc k) hc ht hn = ground arith
gcra_check-range tat now (pos c) (pos u) (pos p) (pos k) hc ht hn =
    elim (Bool-cases (leb p 0 || leb u 0)) [
      | inl e ↦ rw e (ht, omega arith, omega arith)
      | inr e ↦
          rw (gcra_check-exact tat now c u p k (ground arith) (ground arith) hc ht hn)
            (exact_check-range tat now c u p k hc ht)
    ]
