-- ===== src/Tests/Htmls.antt =====
-- The report of one run of two workers, with numbers in place of `float64`.
use schedbench.Base.{ℕ, ◌≡◌, refl, [], ◌∷◌, ◌++◌, none, some, codes, get_elem?, replicate, show_nat}
use schedbench.Base.Outcome.{returns}
use schedbench.Bench.{BenchmarkRun}
use schedbench.Summary.{zero_set, zero_worker}
use schedbench.Summary.Loops.{process}
use schedbench.Html.{Format, Point, RunRaw, point_json}
use schedbench.Html.Rows.{row_start, value_cell, null_cell, row_end, point_json-row}
use schedbench.Html.Collect.{add_runs, add_run}
use schedbench.Html.Tags.{IsTputChart, IsUtilChart, add_runs-charts}
use schedbench.Tests.Summaries.{numbers, in_order, run_of, raw}

abbrev pub format : Format ℕ ℕ
format = record { show_float = show_nat; marshal = λ options. (none, codes "{}") }

abbrev point : Point ℕ
point = record { x = 5; y = 7 }

point_json-row_example :
    point_json numbers format point 1 3
    ≡ row_start numbers format point
        ∷ (replicate 1 null_cell ++ value_cell numbers format point ∷ replicate 1 null_cell)
      ++ row_end numbers format point ∷ []
point_json-row_example = point_json-row numbers format point 1 3

-- A run whose summary has been made, with one set of one worker.
abbrev summed : BenchmarkRun ℕ
summed = record (run_of raw) {
  results = record {
    raw = raw;
    summary = some (
        record (zero_set numbers) {
          workers = some (record (zero_worker numbers) { raw = raw } ∷ []);
        }
        ∷ []);
  };
}

reported :
    add_runs numbers in_order 0 (summed ∷ []) []
    ≡ returns (none, add_run numbers [] summed, summed ∷ [])
unfolding add_runs process
reported = refl

add_runs-charts_example :
    (t u : RunRaw ℕ) × (get_elem? (add_run numbers [] summed) 0 ≡ some t)
    × (get_elem? (add_run numbers [] summed) 1 ≡ some u)
    × IsTputChart numbers 0 summed t
    × IsUtilChart numbers 1 summed u
add_runs-charts_example = add_runs-charts numbers in_order (summed ∷ []) reported 0 summed refl
