-- ===== src/Tests/Summaries.antt =====
-- The theorems on `Process` at the reports of two workers, with numbers in place of `float64`.
use schedbench.Base.{
  ℕ, ◌+◌, ◌-◌, ◌*◌, ◌/◌, ◌≡◌, refl, List, ◌∷◌, [], none, some, true, ltb, ◌==◌, arith, codes,
}
use schedbench.Base.Int.{pos, pos_part, ◌-int◌}
use schedbench.Base.Outcome.{returns, panics}
use schedbench.Bench.{
  WorkerReport, WorkerSetSummary, BenchmarkRun, zero_worker_config, zero_run_config, zero_report,
}
use schedbench.Summary.{
  Float, Table, bad_id, throughput, utilization, zero_min_max, zero_set, zero_worker,
}
use schedbench.Summary.Loops.{process, with_summary}
use schedbench.Summary.Views.{id_of, worker_at}
use schedbench.Summary.Reads.{AllOfRun}
use schedbench.Summary.Whole.{own, VisitsOnce, worker_of, process-worker_of}
use schedbench.Summary.Totals.{process-totals}
use schedbench.Report.{Line, run_report}
use schedbench.Report.Rows.{run_report-processed}
use schedbench.Summary.Errors.{process_again, process_edge}
use schedbench.Summary.Ranges.{IsOrdered, Within, IsIn, update_all, update_all-range}

abbrev pub numbers : Float ℕ
numbers = record {
  zero = 0;
  of_int = pos_part;
  add = λ a b. a + b;
  sub = λ a b. a - b;
  mul = λ a b. a * b;
  div = λ a b. a / b;
  sqrt = λ a. a;
  lt = ltb;
  eq = λ a b. a == b;
}

numbers-IsOrdered : IsOrdered numbers
numbers-IsOrdered = ground arith

abbrev said : ℕ → ℕ → ℕ → ℕ → WorkerReport
said set id now kops = record zero_report { id = id_of set id; now = pos now; kops = pos kops }

abbrev pub raw : List WorkerReport
raw = said 0 0 5 10 ∷ said 0 1 6 3 ∷ said 0 0 9 30 ∷ []

abbrev pub run_of : List WorkerReport → BenchmarkRun ℕ
run_of raw = record {
  label = codes "P001 2 credit";
  worker_sets =
      record { params = record { args = none }; config = zero_worker_config; count = pos 2 } ∷ [];
  worker_config = zero_worker_config;
  run_config = zero_run_config;
  runtime_seconds = pos 10;
  completed = true;
  results = record { raw = raw; summary = none };
}

-- The map's entries in the order in which they came.
abbrev pub in_order : Table → Table
in_order t = t

in_order-VisitsOnce : VisitsOnce in_order
in_order-VisitsOnce t u = (u, λ id. refl)

of_run : AllOfRun (run_of raw).worker_sets raw
of_run = (
  (0, 0, refl, (omega arith, omega arith)),
  ((0, 1, refl, (omega arith, omega arith)), ((0, 0, refl, (omega arith, omega arith)), tt)),
)

process-worker_of_example :
    (summary : List (WorkerSetSummary ℕ)) × (process numbers in_order (run_of raw)
      ≡ returns (none, with_summary numbers (run_of raw) summary))
    × ((k l : ℕ) → worker_at numbers summary k l ≡ worker_of numbers (own (id_of k l) raw))
process-worker_of_example =
    process-worker_of numbers in_order (run_of raw) in_order-VisitsOnce refl of_run

-- The run with its summary.
summed_up :
    (summary : List (WorkerSetSummary ℕ)) × (process numbers in_order (run_of raw)
      ≡ returns (none, with_summary numbers (run_of raw) summary))
summed_up =
    let all = process-worker_of numbers in_order (run_of raw) in_order-VisitsOnce refl of_run in
    (all.0, all.1)

run_report-processed_example :
    (lines : List (Line ℕ)) × (run_report numbers
        (pos 2)
        (with_summary numbers (run_of raw) summed_up.0)
      ≡ returns (none, lines))
run_report-processed_example =
    run_report-processed numbers in_order (run_of raw)
      (with_summary numbers (run_of raw) summed_up.0) (pos 2) refl summed_up.1

process-totals_example :
    (summary : List (WorkerSetSummary ℕ)) × (process numbers in_order (run_of raw)
      ≡ returns (none, with_summary numbers (run_of raw) summary))
    × ((worker_at numbers summary 0 0).raw ≡ said 0 0 5 10 ∷ said 0 0 9 30 ∷ [])
    × ((worker_at numbers summary 0 0).total_tput ≡ pos 30)
    × ((worker_at numbers summary 0 0).total_time ≡ pos 9 -int pos 5)
    × ((worker_at numbers summary 0 0).total_cputime ≡ pos 0 -int pos 0)
    × ((worker_at numbers summary 0 0).avg_tput
        ≡ throughput numbers (pos 5) (pos 0) (pos 9) (pos 30))
    × ((worker_at numbers summary 0 0).avg_util
        ≡ utilization numbers (pos 5) (pos 0) (pos 9) (pos 0))
process-totals_example =
    process-totals numbers in_order (run_of raw) 0 0 (said 0 0 5 10) (said 0 0 9 30 ∷ [])
      in_order-VisitsOnce refl of_run refl refl

-- A run with a report of a worker that it does not have.
abbrev strange : BenchmarkRun ℕ
strange = run_of (said 0 7 5 10 ∷ [])

abbrev strange' : BenchmarkRun ℕ
strange' = with_summary numbers strange (
    record (zero_set numbers) { workers = some (zero_worker numbers ∷ zero_worker numbers ∷ []) }
    ∷ [])

strange_fails : process numbers in_order strange ≡ returns (some (bad_id (pos 7) 2), strange')
unfolding process
strange_fails = refl

process_again_example : process numbers in_order strange' ≡ returns (none, strange')
process_again_example =
    process_again numbers in_order strange strange' (bad_id (pos 7) 2) strange_fails

process_edge_example : process numbers in_order (run_of (said 1 0 5 10 ∷ [])) ≡ panics
process_edge_example =
    process_edge numbers in_order (run_of (said 1 0 5 10 ∷ [])) (said 1 0 5 10) [] refl refl 1 refl
      (omega arith)

update_all-range_example :
    let mm = update_all numbers (4 ∷ 2 ∷ 9 ∷ []) (zero_min_max numbers) in
    Within numbers mm (4 ∷ 2 ∷ 9 ∷ [])
    × IsIn numbers mm.min (4 ∷ 2 ∷ 9 ∷ [])
    × IsIn numbers mm.max (4 ∷ 2 ∷ 9 ∷ [])
update_all-range_example =
    update_all-range numbers numbers-IsOrdered 4 (2 ∷ 9 ∷ []) (refl, (refl, (refl, tt)))
