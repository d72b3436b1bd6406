-- ===== src/Html/Collect.antt =====
-- `AddRun` and `HTMLReport` of controller/htmlreport.go: the charts of a plan's runs, and the report of
-- all of them. The messages on a run that has not been run or cannot be processed are left out.
use schedbench.Base.{
  ℕ, suc, List, [], ◌∷◌, ◌++◌, Option, none, some, if◌then◌else◌, length, Text, codes, show_nat,
}
use schedbench.Base.Int.{pos, ltb_ℤ}
use schedbench.Base.Outcome.{Outcome, returns, panics, ◌>>=◌, elems}
use schedbench.Bench.{WorkerReport, zero_report, WorkerSummary, WorkerSetSummary, BenchmarkRun}
use schedbench.Summary.{Float, Table, ProcessError, throughput, utilization, sec}
use schedbench.Summary.Loops.{process}
use schedbench.Html.{Format, Point, RunRaw, Chunk, output}

-- The errors of `HTMLReport`.
pub data ReportError (E : Type 0) : Type 0 where
  not_processed : ℕ → ProcessError → ReportError E
  not_marshalled : E → ReportError E

-- The points of throughput and those of utilization.
abbrev pub Both : Type 0 → Type 0
Both A = A × A

module _ {F : Type 0} (fl : Float F) where
  -- The loop over a worker's reports; `le` is the one before.
  unfoldable pub worker_points :
      List WorkerReport → WorkerReport → Both (List (Point F)) → Both (List (Point F))
  unfolding throughput utilization
  worker_points [] le both = both
  worker_points (e ∷ raw) le both =
      let time : F = fl.div (fl.of_int e.now) (sec fl) in
      let tput : F = throughput fl e.now e.kops le.now le.kops in
      let util : F = utilization fl e.now e.cputime le.now le.cputime in
      let next : Both (List (Point F)) = (
        both.0 ++ record { x = time; y = tput } ∷ [],
        both.1 ++ record { x = time; y = util } ∷ [],
      ) in
      worker_points raw e (if ltb_ℤ (pos 0) e.kops then next else both)

  unfoldable pub set_points : List (WorkerSummary F) → Both (List (Point F)) → Both (List (Point F))
  unfolding worker_points
  set_points [] both = both
  set_points (s ∷ workers) both = set_points workers (worker_points s.raw zero_report both)

  -- The loop over the sets: one series for each.
  unfoldable pub all_points :
      List (WorkerSetSummary F) → Both (List (List (Point F))) → Both (List (List (Point F)))
  unfolding set_points
  all_points [] both = both
  all_points (ws ∷ summary) both =
      let (tput, util) = set_points (elems ws.workers) ([], []) in
      all_points summary (both.0 ++ tput ∷ [], both.1 ++ util ∷ [])

  abbrev pub tag_of : ℕ → Text
  tag_of n = codes "raw" ++ show_nat n

  -- `func (rpt *HTMLReport) AddRun(run *BenchmarkRun)`, which has no error.
  unfoldable pub add_run : List (RunRaw F) → BenchmarkRun F → List (RunRaw F)
  unfolding all_points show_nat
  add_run raw run =
      let (tput, util) = all_points (elems run.results.summary) ([], []) in
      let raw1 : List (RunRaw F) =
        raw
        ++ record {
          tag = tag_of (length raw);
          title = codes "Run " ++ run.label ++ codes " Individual Throughput";
          h_title = codes "Time (s)";
          v_title = codes "Throughput (kOps)";
          points = tput;
        }
          ∷ [] in
      raw1
      ++ record {
        tag = tag_of (length raw1);
        title = codes "Run " ++ run.label ++ codes " Individual Utilization";
        h_title = codes "Time (s)";
        v_title = codes "Utilization";
        points = util;
      }
        ∷ []

  -- The loop of `HTMLReport` over the runs, with the number of the first: the error, the charts, and
  -- the runs as `Process` leaves them.
  unfoldable pub add_runs :
      (Table → Table)
      → ℕ
      → List (BenchmarkRun F)
      → List (RunRaw F)
      → Outcome (Option (ℕ × ProcessError) × List (RunRaw F) × List (BenchmarkRun F))
  unfolding process add_run
  add_runs visit i [] raw = returns (none, raw, [])
  add_runs visit i (r ∷ runs) raw = elim (process fl visit r) [
    | panics ↦ panics
    | returns (some e, r') ↦ returns (some (i, e), raw, r' ∷ runs)
    | returns (none, r') ↦ add_runs visit (suc i) runs (add_run raw r') >>= λ (err, raw', runs').
        returns (err, raw', r' ∷ runs')
  ]

module _ {F E : Type 0} (fl : Float F) (fm : Format F E) (visit : Table → Table) where
  -- `func (plan *BenchmarkPlan) HTMLReport()`: the error, what is output, and the runs.
  unfoldable pub html_report :
      List (BenchmarkRun F) → Outcome (Option (ReportError E) × List Chunk × List (BenchmarkRun F))
  unfolding add_runs output
  html_report runs = add_runs fl visit 0 runs [] >>= λ (err, raw, runs'). elim err [
    | some (i, e) ↦ returns (some (not_processed i e), [], runs')
    | none ↦
        let (err', out) = output fl fm raw in
        elim err' [
          | some e ↦ returns (some (not_marshalled e), out, runs')
          | none ↦ returns (none, out, runs')
        ]
  ]
