-- ===== src/Summary/Totals.antt =====
-- The reference summary of a worker, by its first and its last report.
use schedbench.Base.{
  ℕ, ◌≡◌, refl, sym, ◌∙◌, ap, false, List, [], ◌∷◌, ◌++◌, Option, none, some, arith,
}
use schedbench.Base.Int.{pos, eqb_ℤ, ◌-int◌}
use schedbench.Base.Outcome.{returns}
use mathlib.Core.List.{append-nil, append_assoc}
use schedbench.Bench.{WorkerReport, WorkerSummary, WorkerSetSummary, BenchmarkRun}
use schedbench.Summary.{
  Float, Data, Table, add_report, next_data, throughput, utilization, zero_worker, zero_data,
}
use schedbench.Summary.Loops.{close_worker, process, with_summary}
use schedbench.Summary.Views.{id_of, worker_at}
use schedbench.Summary.Reads.{AllOfRun, View, step_view}
use schedbench.Summary.Closes.{closed}
use schedbench.Summary.Whole.{own, VisitsOnce, fold_view, worker_of, process-worker_of}

abbrev pub last_of : WorkerReport → List WorkerReport → WorkerReport
last_of e [] = e
last_of e (e' ∷ es) = last_of e' es

-- The entry of the map after reports that began at `first`.
abbrev data_of : WorkerReport → WorkerReport → Data
data_of first last = record {
  start_time = first.now;
  start_cputime = first.cputime;
  last_time = last.now;
  last_kops = last.kops;
  last_cputime = last.cputime;
}

module _ {F : Type 0} (fl : Float F) where
  fold_view_raw : (es : List WorkerReport) (v : View fl) → (fold_view fl es v).0.raw ≡ v.0.raw ++ es
  unfolding add_report
  fold_view_raw [] (w, d) = sym (append-nil w.raw)
  fold_view_raw (e ∷ es) (w, d) =
      fold_view_raw es (step_view fl e (w, d))
      ∙ ap (λ r. r ++ es) (ground arith)
      ∙ append_assoc w.raw (e ∷ []) es

  fold_view_data :
      (first e : WorkerReport) (es : List WorkerReport) (w : WorkerSummary F)
      → eqb_ℤ first.now (pos 0) ≡ false
      → (fold_view fl es (w, some (data_of first e))).1 ≡ some (data_of first (last_of e es))
  unfolding next_data
  fold_view_data first e [] w begun = refl
  fold_view_data first e (e' ∷ es) w begun =
      ap (λ (d : Data). (fold_view fl es (add_report fl (data_of first e) e' w, some d)).1)
        (rw begun refl)
      ∙ fold_view_data first e' es (add_report fl (data_of first e) e' w) begun

  closed_raw : (w : WorkerSummary F) (d : Option Data) → (closed fl w d).raw ≡ w.raw
  unfolding close_worker
  closed_raw w none = refl
  closed_raw w (some d) = refl

  worker_of_raw : (reports : List WorkerReport) → (worker_of fl reports).raw ≡ reports
  worker_of_raw reports =
      let v : View fl = fold_view fl reports (zero_worker fl, none) in
      closed_raw v.0 v.1 ∙ fold_view_raw reports (zero_worker fl, none)

  worker_of_close :
      (first : WorkerReport) (rest : List WorkerReport)
      → eqb_ℤ first.now (pos 0) ≡ false
      → (w : WorkerSummary F) × (worker_of fl (first ∷ rest)
          ≡ close_worker fl (data_of first (last_of first rest)) w)
  unfolding next_data
  worker_of_close first rest begun =
      let w1 : WorkerSummary F = add_report fl zero_data first (zero_worker fl) in
      let v : View fl = fold_view fl rest (w1, some (data_of first first)) in
      (v.0, ap (closed fl v.0) (fold_view_data first first rest w1 begun))

  -- For a run that has no summary yet, where all reports are of workers that the run has, and the
  -- first of a worker does not come at time 0, `Process` gives that worker all its reports in order, the operations of its last one as
  -- the total, the times between its first and its last, and the throughput and the utilization over
  -- them.
  pub process-totals :
      (visit : Table → Table) (run : BenchmarkRun F) (k l : ℕ) (first : WorkerReport)
      (rest : List WorkerReport)
      → VisitsOnce visit
      → run.results.summary ≡ none
      → AllOfRun run.worker_sets run.results.raw
      → own (id_of k l) run.results.raw ≡ first ∷ rest
      → eqb_ℤ first.now (pos 0) ≡ false
      → let last = last_of first rest in
        (summary : List (WorkerSetSummary F)) × (process fl visit run
          ≡ returns (none, with_summary fl run summary))
        × ((worker_at fl summary k l).raw ≡ first ∷ rest)
        × ((worker_at fl summary k l).total_tput ≡ last.kops)
        × ((worker_at fl summary k l).total_time ≡ last.now -int first.now)
        × ((worker_at fl summary k l).total_cputime ≡ last.cputime -int first.cputime)
        × ((worker_at fl summary k l).avg_tput ≡ throughput fl first.now (pos 0) last.now last.kops)
        × ((worker_at fl summary k l).avg_util
            ≡ utilization fl first.now first.cputime last.now last.cputime)
  unfolding close_worker
  process-totals visit run k l first rest once fresh from mine begun =
      let (summary, runs, workers) = process-worker_of fl visit run once fresh from in
      let (w, closes) = worker_of_close first rest begun in
      let same : worker_at fl summary k l ≡ worker_of fl (first ∷ rest) =
        workers k l ∙ ap (worker_of fl) mine in
      let all = same ∙ closes in
      (
        summary,
        runs,
        ap (λ (w : WorkerSummary F). w.raw) same ∙ worker_of_raw (first ∷ rest),
        ap (λ (w : WorkerSummary F). w.total_tput) all,
        ap (λ (w : WorkerSummary F). w.total_time) all,
        ap (λ (w : WorkerSummary F). w.total_cputime) all,
        ap (λ (w : WorkerSummary F). w.avg_tput) all,
        ap (λ (w : WorkerSummary F). w.avg_util) all,
      )
