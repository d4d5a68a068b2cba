-- ===== src/Tools/Loadtest/Totals.antt =====
-- The totals of a run.
use native.Mathlib.Nat.{zero-add}
use deadhorse.Common.{
  List, [], ap, append-nil, append_assoc, arith, length, length-append, refl, sym, ℕ, ◌++◌, ◌+◌,
  ◌∙◌, ◌∷◌, ◌≡◌,
}
use deadhorse.Tools.Loadtest.{
  Report, Sample, Stats, build_report, completed, final_report, new_stats, one_if, record_sample,
  run_samples, snapshot, ticked,
}

module _ (sort : List ℕ → List ℕ) (place : ℕ → ℕ → ℕ) where
  -- What completed, in order, and how many of them were throttled, or failed.
  abbrev pub durations : List (Sample sort place) → List ℕ
  durations [] = []
  durations (completed d _ _ ∷ samples) = d ∷ durations samples
  durations (ticked _ ∷ samples) = durations samples

  abbrev pub throttled_of : List (Sample sort place) → ℕ
  throttled_of [] = 0
  throttled_of (completed _ throttled _ ∷ samples) = one_if throttled + throttled_of samples
  throttled_of (ticked _ ∷ samples) = throttled_of samples

  abbrev pub errors_of : List (Sample sort place) → ℕ
  errors_of [] = 0
  errors_of (completed _ _ errored ∷ samples) = one_if errored + errors_of samples
  errors_of (ticked _ ∷ samples) = errors_of samples

  abbrev pub sum_counts : List Report → ℕ
  sum_counts [] = 0
  sum_counts (r ∷ rs) = r.count + sum_counts rs

  run_samples-sums :
      (samples : List (Sample sort place)) (s : Stats)
      → (let r = run_samples sort place samples s in
          (r.0.all_latencies ++ r.0.interval_latencies
            ≡ (s.all_latencies ++ s.interval_latencies) ++ durations samples)
          × (r.0.all_throttled + r.0.interval_throttled
              ≡ s.all_throttled + s.interval_throttled + throttled_of samples)
          × (r.0.all_errors + r.0.interval_errors
              ≡ s.all_errors + s.interval_errors + errors_of samples)
          × (sum_counts r.1 + length r.0.interval_latencies
              ≡ length s.interval_latencies + length (durations samples)))
  unfolding run_samples record_sample snapshot build_report
  run_samples-sums [] s = (
    sym (append-nil (s.all_latencies ++ s.interval_latencies)),
    omega arith,
    omega arith,
    omega arith,
  )
  run_samples-sums (completed d throttled errored ∷ samples) s =
      let (all, t, e, n) = run_samples-sums samples (record_sample d throttled errored s) in
      (
        all
            ∙ ap (λ xs. xs ++ durations samples)
                (sym (append_assoc s.all_latencies s.interval_latencies (d ∷ [])))
            ∙ append_assoc (s.all_latencies ++ s.interval_latencies) (d ∷ []) (durations samples),
        omega arith,
        omega arith,
        omega (arith, length-append s.interval_latencies (d ∷ [])),
      )
  run_samples-sums (ticked elapsed ∷ samples) s =
      let (all, t, e, n) = run_samples-sums samples (snapshot sort place elapsed s).0 in
      (
        all
            ∙ ap (λ xs. xs ++ durations samples)
                (append-nil (s.all_latencies ++ s.interval_latencies)),
        omega arith,
        omega arith,
        omega arith,
      )

  -- Whatever order requests complete and report ticks come in, and whatever the sorting and the
  -- percentiles are: the final report of a run counts every request that completed once, and every
  -- throttled and every failed one, and is built from the durations of all of them in the order in
  -- which they completed; and the counts of the periodic reports and the requests after the last
  -- of them add up to its count.
  pub final_report-totals :
      (samples : List (Sample sort place)) (elapsed : ℕ)
      → (let r = run_samples sort place samples new_stats in
          let total = final_report sort place elapsed r.0 in
          (total.1
            ≡ build_report sort place
                (durations samples)
                (throttled_of samples)
                (errors_of samples)
                elapsed)
          × (total.1.count ≡ length (durations samples))
          × (sum_counts r.1 + length r.0.interval_latencies ≡ total.1.count))
  unfolding final_report build_report
  final_report-totals samples elapsed =
      let (all, t, e, n) = run_samples-sums samples new_stats in
      (
        rw (all, t, e) (simp (zero-add (throttled_of samples), zero-add (errors_of samples)) refl),
        ap length all,
        omega (arith, ap length all),
      )
