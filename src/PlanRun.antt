-- ===== src/PlanRun.antt =====
-- `BenchmarkPlan.Run` of controller/run.go: every run of the plan that is not completed is prepared
-- and run, and the plan is saved after every run that is completed. The printing is left out.
-- `received i` is what the loop of run `i` receives, and `after i` is what its workers do to the
-- machine.
pub mod Saved
pub mod Whole
pub mod Kept
use schedbench.Base.{ℕ, List, [], ◌∷◌, ◌++◌, Option, none, some, Bool, not, if◌then◌else◌, length}
use schedbench.Base.Int.{ℤ, pos, eqb_ℤ}
use schedbench.Base.Outcome.{Outcome, returns, panics, ◌>>=◌}
use schedbench.Bench.{
  WorkerParams, WorkerConfig, BenchmarkRun, BenchmarkPlan, propagate_worker, propagate_run,
}
use schedbench.Xl.{Libxl, Host, Error}
use schedbench.Xl.Context.{open_context}
use schedbench.Prep.{prep}
use schedbench.Run.{Event, Loop, RunError, Status, finished, left_early, waiting}
use schedbench.Configure.{ConfigError}
use schedbench.Workers.{AnyWorker, WorkerError}
use schedbench.Session.{RunStatus, bad_config, bad_workers, served, run_benchmark}
use schedbench.Store.{Files, Json, SaveError, save}
use schedbench.Cpu.{CpuInfo, CpuError, get_cpu_hz}

-- The errors of `BenchmarkRun.Run`.
pub data RunFailure : Type 0 where
  config_failure : ConfigError → RunFailure
  worker_failure : WorkerError → RunFailure
  loop_failure : RunError → RunFailure

-- Whether `BenchmarkRun.Run` is back, with its error, or its loop waits for more events.
pub data RunEnd : Type 0 where
  back : Option RunFailure → RunEnd
  not_back : RunEnd

abbrev loop_error : Option RunError → Option RunFailure
loop_error none = none
loop_error (some e) = some (loop_failure e)

unfoldable pub run_end : RunStatus → RunEnd
run_end (bad_config e) = back (some (config_failure e))
run_end (bad_workers e) = back (some (worker_failure e))
run_end (served (finished s)) = back (loop_error s.err)
run_end (served (left_early s)) = back (loop_error s.err)
run_end (served (waiting s)) = not_back

-- How `BenchmarkPlan.Run` ends: with no error, with the error of run `i` or of the `Save` after it, or
-- it is still in the loop of run `i`.
pub data PlanEnd (E : Type 0) : Type 0 where
  cannot_know_cpu : CpuError E → PlanEnd E
  cannot_open : Error → PlanEnd E
  run_failed : ℕ → RunFailure → PlanEnd E
  save_failed : ℕ → SaveError E → PlanEnd E
  in_run : ℕ → PlanEnd E
  all_done : PlanEnd E

-- Everything that `Run` works on: the plan, the global `Ctx` with the machine, and the files.
pub record Bench (F : Type 0) (L : Libxl) (S : Files) : Type 0 where
  pub plan : BenchmarkPlan F
  pub host : Host L
  pub files : Files.World S

abbrev pub with_runs : {F : Type 0} → BenchmarkPlan F → List (BenchmarkRun F) → BenchmarkPlan F
with_runs plan runs = record plan { runs = some runs }

module _ {F : Type 0} (L : Libxl) (S : Files) (J : Json F S.Err)
    (init : WorkerParams → WorkerConfig → AnyWorker → AnyWorker) (received : ℕ → List Event)
    (after : ℕ → Host L → Host L) where
  -- `r.WorkerConfig.PropagateFrom(plan.WorkerConfig)` and the same for `RunConfig`.
  unfoldable pub with_plan : BenchmarkPlan F → BenchmarkRun F → BenchmarkRun F
  unfolding propagate_worker propagate_run
  with_plan plan r = record r {
    worker_config = propagate_worker plan.worker_config r.worker_config;
    run_config = propagate_run plan.run_config r.run_config;
  }

  -- The branch of `! r.Completed`: a run that is not ready is skipped.
  unfoldable pub run_one :
      ℕ → BenchmarkPlan F → ℕ → BenchmarkRun F → Host L → Outcome (RunEnd × BenchmarkRun F × Host L)
  unfolding with_plan run_end
  run_one khz plan i r0 h0 =
      let r : BenchmarkRun F = with_plan plan r0 in
      prep L r.run_config h0 >>= λ (prepared, h).
      if prepared.ready
      then (run_benchmark L khz init (received i) r h >>= λ (status, r').
          returns (run_end status, r', after i h))
      else returns (back none, r, h)

  -- A run that is completed is passed over.
  unfoldable pub pass_run :
      ℕ → BenchmarkPlan F → ℕ → BenchmarkRun F → Host L → Outcome (RunEnd × BenchmarkRun F × Host L)
  unfolding run_one
  pass_run khz plan i r h =
      if not r.completed then run_one khz plan i r h else returns (back none, r, h)

  -- `if r.Completed { err = plan.Save() ... }`
  unfoldable pub save_completed :
      BenchmarkRun F → BenchmarkPlan F → S.World → Option (SaveError S.Err) × S.World
  save_completed r plan w = if r.completed then save S J plan w else (none, w)

  -- `for i := range plan.Runs`, with the runs that have been passed and those to come.
  unfoldable pub run_all :
      ℕ
      → BenchmarkPlan F
      → List (BenchmarkRun F)
      → List (BenchmarkRun F)
      → Host L
      → S.World
      → Outcome (PlanEnd S.Err × Bench F L S)
  unfolding pass_run save_completed
  run_all khz plan passed [] h w =
      returns (all_done, record { plan = with_runs plan passed; host = h; files = w })
  run_all khz plan passed (r0 ∷ runs) h0 w = elim (pass_run khz plan (length passed) r0 h0) [
    | panics ↦ panics
    | returns (not_back, r, h) ↦ returns (
      in_run (length passed),
      record { plan = with_runs plan (passed ++ r ∷ runs); host = h; files = w },
    )
    | returns (back (some e), r, h) ↦ returns (
      run_failed (length passed) e,
      record { plan = with_runs plan (passed ++ r ∷ runs); host = h; files = w },
    )
    | returns (back none, r, h) ↦
        let plan' : BenchmarkPlan F = with_runs plan (passed ++ r ∷ runs) in
        let (err, w') = save_completed r plan' w in
        elim err [
          | some e ↦
              returns (save_failed (length passed) e, record { plan = plan'; host = h; files = w' })
          | none ↦ run_all khz plan (passed ++ r ∷ []) runs h w'
        ]
  ]

  -- `if plan.WorkerType == WorkerXen { err = Ctx.Open() ... }`
  unfoldable pub open_for : BenchmarkPlan F → Host L → Outcome (Option Error × Host L)
  unfolding open_context
  open_for plan h = if eqb_ℤ plan.worker_type (pos 1) then open_context L h else returns (none, h)

  -- The loop over `plan.Runs`, which may be nil.
  unfoldable pub run_runs : ℕ → Bench F L S → Outcome (PlanEnd S.Err × Bench F L S)
  unfolding run_all
  run_runs khz b = elim b.plan.runs [
    | none ↦ returns (all_done, b)
    | some runs ↦ run_all khz b.plan [] runs b.host b.files
  ]

  -- From `Ctx.Open` on.
  unfoldable pub run_opened : ℕ → Bench F L S → Outcome (PlanEnd S.Err × Bench F L S)
  unfolding open_for run_runs
  run_opened khz b = open_for b.plan b.host >>= λ (err, h). elim err [
    | some e ↦ returns (cannot_open e, record b { host = h })
    | none ↦ run_runs khz (record b { host = h })
  ]

  -- `CpukHZ` is `khz0` before, and the first result after.
  unfoldable pub run_plan :
      CpuInfo F S.Err → ℕ → Bench F L S → Outcome (ℕ × PlanEnd S.Err × Bench F L S)
  unfolding run_opened
  run_plan cpu khz0 b =
      let (err, khz) = get_cpu_hz cpu khz0 in
      elim err [
        | some e ↦ returns (khz, cannot_know_cpu e, b)
        | none ↦ run_opened khz b >>= λ (end, b'). returns (khz, end, b')
      ]
