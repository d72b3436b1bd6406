-- ===== src/Report.antt =====
-- `BenchmarkRun.TextReport` and `BenchmarkPlan.TextReport` of controller/benchmark.go. A line that is
-- printed is a value of `Line`, which holds what it shows: the widths of the columns are left out.
pub mod Rows
use schedbench.Base.{
  ℕ, suc, List, [], ◌∷◌, ◌++◌, Option, none, some, not, if◌then◌else◌, Text, codes,
}
use schedbench.Base.Int.{ℤ, pos, ltb_ℤ, ◌-int◌}
use schedbench.Base.Outcome.{Outcome, returns, panics, ◌>>=◌, index_ℕ, elems}
use schedbench.Bench.{
  WorkerReport, WorkerSet, WorkerSummary, WorkerSetSummary, BenchmarkRun, zero_report,
}
use schedbench.Summary.{Float, Table, ProcessError, sec}
use schedbench.Summary.Loops.{process}

-- The times of a report with what has passed since the one before it.
pub record Passed (F : Type 0) : Type 0 where
  pub time : F
  pub dtime : F
  pub cputime : ℤ
  pub dcputime : ℤ
  pub kops : ℤ
  pub dkops : ℤ
  pub max_delta : ℤ

pub data Line (F : Type 0) : Type 0 where
  run_title : Text → Line F
  set_params : ℕ → Text → Line F
  set_titles worker_titles blank : Line F
  set_row : ℕ → WorkerSetSummary F → Line F
  worker_row : ℕ → ℕ → WorkerSummary F → Line F
  report_row : Passed F → Line F
  not_run not_processed : ℕ → Text → Line F

pub data ReportError : Type 0 where
  not_yet_processed : ReportError
  cannot_process : ProcessError → ReportError

module _ {F : Type 0} (fl : Float F) where
  -- The loop over `ws.Params.Args`, which puts a blank before each.
  unfoldable pub joined : List Text → Text → Text
  joined [] params = params
  joined (s ∷ args) params = joined args (params ++ codes " " ++ s)

  unfoldable pub param_lines : ℕ → List WorkerSet → List (Line F)
  unfolding joined
  param_lines set [] = []
  param_lines set (ws ∷ sets) =
      set_params set (joined (elems ws.params.args) []) ∷ param_lines (suc set) sets

  -- The loop over the sets of the run, which indexes the summary.
  unfoldable pub set_lines :
      ℕ → List WorkerSet → List (WorkerSetSummary F) → Outcome (List (Line F))
  set_lines set [] summary = returns []
  set_lines set (w ∷ sets) summary = index_ℕ summary set >>= λ ws.
      set_lines (suc set) sets summary >>= λ rest. returns (set_row set ws ∷ rest)

  unfoldable pub report_line : WorkerReport → WorkerReport → Line F
  report_line le e =
      let later = ltb_ℤ le.now e.now in
      report_row (record {
        time = fl.div (fl.of_int e.now) (sec fl);
        dtime = if later then fl.div (fl.of_int (e.now -int le.now)) (sec fl) else fl.zero;
        cputime = e.cputime;
        dcputime = if later then e.cputime -int le.cputime else pos 0;
        kops = e.kops;
        dkops = if later then e.kops -int le.kops else pos 0;
        max_delta = e.max_delta;
      })

  unfoldable pub report_lines : WorkerReport → List WorkerReport → List (Line F)
  unfolding report_line
  report_lines le [] = []
  report_lines le (e ∷ raw) = report_line le e ∷ report_lines e raw

  -- The workers of a set, each with its reports from level 2 on.
  unfoldable pub worker_lines : ℤ → ℕ → ℕ → List (WorkerSummary F) → List (Line F)
  unfolding report_lines
  worker_lines level set id [] = []
  worker_lines level set id (s ∷ workers) =
      worker_row set id s ∷ (if ltb_ℤ (pos 1) level then report_lines zero_report s.raw else [])
      ++ worker_lines level set (suc id) workers

  unfoldable pub all_worker_lines : ℤ → ℕ → List (WorkerSetSummary F) → List (Line F)
  unfolding worker_lines
  all_worker_lines level set [] = []
  all_worker_lines level set (ws ∷ summary) =
      worker_lines level set 0 (elems ws.workers) ++ all_worker_lines level (suc set) summary

  -- `func (run *BenchmarkRun) TextReport(level int)`
  unfoldable pub run_report : ℤ → BenchmarkRun F → Outcome (Option ReportError × List (Line F))
  unfolding param_lines set_lines all_worker_lines
  run_report level run = elim run.results.summary [
    | none ↦ returns (some not_yet_processed, [])
    | some summary ↦ set_lines 0 run.worker_sets summary >>= λ sets. returns (
      none,
      run_title run.label ∷ param_lines 0 run.worker_sets
          ++ set_titles ∷ sets
          ++ (if ltb_ℤ (pos 0) level then worker_titles ∷ all_worker_lines level 0 summary else [])
          ++ blank ∷ [],
    )
  ]

  abbrev pub not_run_line : ℕ → BenchmarkRun F → List (Line F)
  not_run_line i r = if not r.completed then not_run i r.label ∷ [] else []

  -- `func (plan *BenchmarkPlan) TextReport(level int)`, from run `i` on: the error, the lines, and the
  -- runs as `Process` leaves them.
  unfoldable pub plan_report :
      (Table → Table)
      → ℤ
      → ℕ
      → List (BenchmarkRun F)
      → Outcome (Option ReportError × List (Line F) × List (BenchmarkRun F))
  unfolding process run_report
  plan_report visit level i [] = returns (none, [], [])
  plan_report visit level i (r ∷ runs) = elim (process fl visit r) [
    | panics ↦ panics
    | returns (some e, r') ↦
        returns
          (some (cannot_process e), not_run_line i r ++ not_processed i r'.label ∷ [], r' ∷ runs)
    | returns (none, r') ↦ elim (run_report level r') [
      | panics ↦ panics
      | returns (some e, out) ↦ returns (some e, not_run_line i r ++ out, r' ∷ runs)
      | returns (none, out) ↦ plan_report visit level (suc i) runs >>= λ (err, rest, runs').
          returns (err, not_run_line i r ++ out ++ rest, r' ∷ runs')
    ]
  ]
