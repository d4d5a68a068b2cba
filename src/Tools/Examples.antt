-- ===== src/Tools/Examples.antt =====
-- tools/keyspace and tools/loadtest on concrete inputs.
use deadhorse.Common.{
  List, Option, [], arith, false, length, none, refl, some, suc, true, ℕ, ◌*◌, ◌+◌, ◌/◌, ◌∷◌, ◌≡◌,
}
use deadhorse.Common.Int.{add64, pos}
use deadhorse.Types.{Failure, RequestEntry, ResponseEntry}
use deadhorse.Server.Text.Dispatch.{serve_line}
use deadhorse.Tools.Keyspace.{fetch_key_count, stats_line, sweep, sweep_from}
use deadhorse.Tools.Keyspace.Count.{fetch_key_count-serve_line}
use deadhorse.Tools.Loadtest.{
  Sample, build_report, completed, final_report, new_stats, run_samples, ticked,
}
use deadhorse.Tools.Loadtest.Totals.{
  durations, errors_of, final_report-totals, sum_counts, throttled_of,
}

-- Ten keys for three workers: the second one asks for the keys 1, 4 and 7.
run_sweep : sweep 1 3 10 ≡ pos 1 ∷ pos 4 ∷ pos 7 ∷ []
unfolding sweep_from add64
run_sweep = refl

abbrev counter : List RequestEntry → ℕ → ℕ × List ResponseEntry × Option Failure
counter es n = (suc n, [], none)

fetch_key_count-serve_line_example :
    (fetch_key_count (λ buf. (serve_line counter (pos 60) (pos 12) 100 buf 4).1) ≡ some (pos 12))
    × ((serve_line counter (pos 60) (pos 12) 100 stats_line 4).0 ≡ 4)
    × ((serve_line counter (pos 60) (pos 12) 100 stats_line 4).2 ≡ false)
fetch_key_count-serve_line_example =
    fetch_key_count-serve_line counter (pos 60) (pos 12) 100 4 (omega arith) (omega arith)
      (omega arith)

abbrev unsorted : List ℕ → List ℕ
unsorted xs = xs

abbrev half : ℕ → ℕ → ℕ
half p m = p * m / 100

abbrev a_run : List (Sample unsorted half)
a_run = completed 5 false false ∷ completed 7 true false ∷ ticked 100 ∷ completed 6 false true ∷ []

final_report-totals_example :
    (let r = run_samples unsorted half a_run new_stats in
      let total = final_report unsorted half 200 r.0 in
      (total.1
        ≡ build_report unsorted half
            (durations unsorted half a_run)
            (throttled_of unsorted half a_run)
            (errors_of unsorted half a_run)
            200)
      × (total.1.count ≡ length (durations unsorted half a_run))
      × (sum_counts unsorted half r.1 + length r.0.interval_latencies ≡ total.1.count))
final_report-totals_example = final_report-totals unsorted half a_run 200
