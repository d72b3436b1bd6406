-- ===== src/Run.antt =====
-- The event loop of `BenchmarkRun.Run` in controller/run.go, with the worker list that it serves.
-- The channels and timers are an explicit sequence of events: what `select` receives, in order.
-- `W` is a value of the interface `Worker`. The printing is left out.
pub mod Stopped
pub mod Ends
pub mod Results
pub mod Done
use schedbench.Base.{
  ℕ, zero, suc, ◌-◌, Bool, true, false, not, List, [], ◌∷◌, ◌++◌, Option, none, some, map,
  if◌then◌else◌, ◌==◌, length,
}
use schedbench.Base.Int.{ℤ, pos, eqb_ℤ}
use schedbench.Base.Outcome.{Outcome, returns, panics, ◌>>=◌}
use schedbench.Bench.{WorkerId, WorkerReport, id_eq}

pub record WorkerState (W : Type 0) : Type 0 where
  pub w : W
  pub last_report : WorkerReport

-- `WorkerList`: a map from ids to states.
abbrev pub WorkerList : Type 0 → Type 0
WorkerList W = List (WorkerId × WorkerState W)

-- `Workers[id]`, `none` for nil.
unfoldable pub find_worker : {W : Type 0} → WorkerId → WorkerList W → Option (WorkerState W)
find_worker id [] = none
find_worker id ((j, ws) ∷ workers) = if id_eq j id then some ws else find_worker id workers

-- `Workers[id].LastReport = r`
unfoldable pub set_last_report :
    {W : Type 0} → WorkerId → WorkerReport → WorkerList W → WorkerList W
set_last_report id r [] = []
set_last_report id r ((j, ws) ∷ workers) =
    if id_eq j id
    then (j, record ws { last_report = r }) ∷ workers
    else (j, ws) ∷ set_last_report id r workers

pub data Event : Type 0 where
  report : WorkerReport → Event
  done : WorkerId → Event
  timeout interrupt : Event

pub data RunError : Type 0 where
  exited_early : WorkerId → RunError
  interrupted : RunError

-- The variables of the loop, with the run's results, and the workers that `Shutdown` and `DumpLog`
-- were called on.
pub record Loop (W : Type 0) : Type 0 where
  pub workers : WorkerList W
  pub left : ℕ  -- i
  pub stopped : Bool
  pub raw : List WorkerReport
  pub completed : Bool
  pub err : Option RunError
  pub shut : List WorkerId
  pub dumped : List WorkerId

-- Where one round of the loop leads: on, or out of `Run`.
pub data Next (W : Type 0) : Type 0 where
  go_on leave : Loop W → Next W

-- How the loop stands after some events: `Run` has returned, by the loop's condition or by a second
-- interrupt, or the loop waits for more.
pub data Status (W : Type 0) : Type 0 where
  finished left_early waiting : Loop W → Status W

abbrev pub state : {W : Type 0} → Status W → Loop W
state (finished s) = s
state (left_early s) = s
state (waiting s) = s

abbrev pub ids : {W : Type 0} → WorkerList W → List WorkerId
ids [] = []
ids ((id, ws) ∷ workers) = id ∷ ids workers

module _ {W : Type 0} where
  -- `Report(Workers[r.Id], r)`, which panics on nil.
  unfoldable pub report_to : WorkerReport → WorkerList W → Outcome (WorkerList W)
  unfolding find_worker set_last_report
  report_to r workers = elim (find_worker r.id workers) [
    | none ↦ panics
    | some ws ↦ returns (set_last_report r.id r workers)
  ]

  -- `Workers.Stop(); stopped = true`
  unfoldable pub stop : Loop W → Loop W
  stop s = record s { shut = s.shut ++ ids s.workers; stopped = true }

  -- `Workers[did].w.DumpLog(os.Stdout)`, which panics on nil.
  unfoldable pub dump_log : WorkerId → Loop W → Outcome (Loop W)
  unfolding find_worker
  dump_log did s = elim (find_worker did s.workers) [
    | none ↦ panics
    | some ws ↦ returns (record s { dumped = s.dumped ++ did ∷ [] })
  ]

  -- One `case` of the `select`.
  unfoldable pub step : ℤ → Event → Loop W → Outcome (Next W)
  unfolding report_to stop dump_log
  step runtime (report r) s =
      if not s.stopped
      then (report_to r s.workers >>= λ workers.
          returns (go_on (record s { raw = s.raw ++ r ∷ []; workers = workers })))
      else returns (go_on s)
  step runtime (done did) s =
      if not s.stopped
      then (dump_log did (record (stop s) { err = some (exited_early did) }) >>= λ t.
          returns (go_on (record t { left = t.left - 1 })))
      else returns (go_on (record s { left = s.left - 1 }))
  step runtime timeout s =
      returns (go_on (if not s.stopped then record (stop s) { completed = true } else s))
  step runtime interrupt s =
      if not s.stopped
      then returns (
          go_on (record (stop s) {
            completed = if eqb_ℤ runtime (pos 0) then true else s.completed;
            err = some interrupted;
          }))
      else returns (leave s)

  -- `for i > 0 { select { ... } }`
  unfoldable pub loop : ℤ → List Event → Loop W → Outcome (Status W)
  loop runtime [] s = returns (if s.left == 0 then finished s else waiting s)
  loop runtime (e ∷ es) s = elim (s.left == 0) [
    | true ↦ returns (finished s)
    | false ↦ elim (step runtime e s) [
      | panics ↦ panics
      | returns (leave t) ↦ returns (left_early t)
      | returns (go_on t) ↦ loop runtime es t
    ]
  ]

-- The loop's variables when it is entered with the workers started.
unfoldable pub start : {W : Type 0} → WorkerList W → Loop W
start workers = record {
  workers = workers;
  left = length workers;
  stopped = false;
  raw = [];
  completed = false;
  err = none;
  shut = [];
  dumped = [];
}
