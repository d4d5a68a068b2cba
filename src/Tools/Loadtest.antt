-- ===== src/Tools/Loadtest.antt =====
-- tools/loadtest/stats.go: the samples of all workers, and the reports on them. A duration is a number
-- of nanoseconds. `sort` is sort.Slice on a copy of the samples, and `place p m` the place of a
-- percentile among the places up to `m`, which the code computes in floating point.
pub mod Totals
use deadhorse.Common.{Bool, List, [], get_or, if◌then◌else◌, length, ltb, ℕ, ◌++◌, ◌+◌, ◌-◌, ◌∷◌}

pub record Stats : Type 0 where
  pub interval_latencies : List ℕ
  pub interval_throttled : ℕ
  pub interval_errors : ℕ
  pub all_latencies : List ℕ
  pub all_throttled : ℕ
  pub all_errors : ℕ

abbrev pub new_stats : Stats
new_stats = record {
  interval_latencies = [];
  interval_throttled = 0;
  interval_errors = 0;
  all_latencies = [];
  all_throttled = 0;
  all_errors = 0;
}

pub record Report : Type 0 where
  pub count : ℕ
  pub throttled : ℕ
  pub errors : ℕ
  pub elapsed : ℕ
  pub p50 : ℕ
  pub p90 : ℕ
  pub p99 : ℕ
  pub pmax : ℕ

abbrev pub one_if : Bool → ℕ
one_if b = if b then 1 else 0

-- `record`.
unfoldable pub record_sample : ℕ → Bool → Bool → Stats → Stats
record_sample d throttled errored s = record s {
  interval_latencies = s.interval_latencies ++ d ∷ [];
  interval_throttled = s.interval_throttled + one_if throttled;
  interval_errors = s.interval_errors + one_if errored;
}

module _ (sort : List ℕ → List ℕ) (place : ℕ → ℕ → ℕ) where
  -- `percentile`, of some samples.
  unfoldable pub percentile : List ℕ → ℕ → ℕ
  percentile sorted p = get_or sorted (place p (length sorted - 1)) 0

  -- `buildReport`; the percentiles of no samples are 0.
  unfoldable pub build_report : List ℕ → ℕ → ℕ → ℕ → Report
  build_report latencies throttled errors elapsed =
      let sorted = sort latencies in
      let some_there = ltb 0 (length sorted) in
      record {
        count = length latencies;
        throttled = throttled;
        errors = errors;
        elapsed = elapsed;
        p50 = if some_there then percentile sorted 50 else 0;
        p90 = if some_there then percentile sorted 90 else 0;
        p99 = if some_there then percentile sorted 99 else 0;
        pmax = if some_there then get_or sorted (length sorted - 1) 0 else 0;
      }

  unfoldable pub snapshot : ℕ → Stats → Stats × Report
  snapshot elapsed s = (
    record {
      interval_latencies = [];
      interval_throttled = 0;
      interval_errors = 0;
      all_latencies = s.all_latencies ++ s.interval_latencies;
      all_throttled = s.all_throttled + s.interval_throttled;
      all_errors = s.all_errors + s.interval_errors;
    },
    build_report s.interval_latencies s.interval_throttled s.interval_errors elapsed,
  )

  -- `final` keeps the interval's counts of throttled and failed requests.
  unfoldable pub final_report : ℕ → Stats → Stats × Report
  final_report elapsed s =
      let latencies = s.all_latencies ++ s.interval_latencies in
      let throttled = s.all_throttled + s.interval_throttled in
      let errors = s.all_errors + s.interval_errors in
      (
        record s {
          interval_latencies = [];
          all_latencies = latencies;
          all_throttled = throttled;
          all_errors = errors;
        },
        build_report latencies throttled errors elapsed,
      )

  -- A request that completes, and a tick of the report timer.
  pub data Sample : Type 0 where
    completed : ℕ → (throttled errored : Bool) → Sample
    ticked : ℕ → Sample

  -- The loop of `main` with the workers: the samples come in some order.
  unfoldable pub run_samples : List Sample → Stats → Stats × List Report
  run_samples [] s = (s, [])
  run_samples (completed d throttled errored ∷ samples) s =
      run_samples samples (record_sample d throttled errored s)
  run_samples (ticked elapsed ∷ samples) s =
      let (s', report) = snapshot elapsed s in
      let (last, reports) = run_samples samples s' in (last, report ∷ reports)
