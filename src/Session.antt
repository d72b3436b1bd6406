-- ===== src/Session.antt =====
-- `BenchmarkRun.Run` of controller/run.go as a whole: the settings, the workers, and the loop on the
-- events that it receives. The workers are of the type Xen, whatever the plan says.
pub mod Whole
use schedbench.Base.{ℕ, List, none, some}
use schedbench.Base.Int.{pos}
use schedbench.Base.Outcome.{Outcome, returns, panics, ◌>>=◌}
use schedbench.Bench.{WorkerParams, WorkerConfig, BenchmarkRun}
use schedbench.Xl.{Libxl, Host}
use schedbench.Run.{Event, Loop, Status, WorkerList, state, start, loop}
use schedbench.Configure.{ConfigError, configure}
use schedbench.Workers.{AnyWorker, WorkerError, new_worker_list}

-- How `Run` stands: an error before the loop, or the loop's status.
pub data RunStatus : Type 0 where
  bad_config : ConfigError → RunStatus
  bad_workers : WorkerError → RunStatus
  served : Status AnyWorker → RunStatus

-- The loop's variables, which hold the run's results.
abbrev pub entered : {F : Type 0} → BenchmarkRun F → WorkerList AnyWorker → Loop AnyWorker
entered run wl = record (start wl) { raw = run.results.raw; completed = run.completed }

abbrev pub with_results : {F : Type 0} → BenchmarkRun F → Loop AnyWorker → BenchmarkRun F
with_results run s = record run {
  completed = s.completed;
  results = record run.results { raw = s.raw };
}

module _ {F : Type 0} (L : Libxl) (khz : ℕ)
    (init : WorkerParams → WorkerConfig → AnyWorker → AnyWorker) where
  -- From `NewWorkerList` on.
  unfoldable pub serve : List Event → BenchmarkRun F → Outcome (RunStatus × BenchmarkRun F)
  unfolding start
  serve es run = elim (new_worker_list init (pos 1) run.worker_sets) [
    | panics ↦ panics
    | returns (some e, wl) ↦ returns (bad_workers e, run)
    | returns (none, wl) ↦ loop run.runtime_seconds es (entered run wl) >>= λ n.
        returns (served n, with_results run (state n))
  ]

  unfoldable pub run_benchmark :
      List Event → BenchmarkRun F → Host L → Outcome (RunStatus × BenchmarkRun F)
  unfolding serve
  run_benchmark es run h = elim (configure L khz run h) [
    | panics ↦ panics
    | returns (some e, run') ↦ returns (bad_config e, run')
    | returns (none, run') ↦ serve es run'
  ]
