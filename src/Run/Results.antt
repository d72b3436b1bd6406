-- ===== src/Run/Results.antt =====
-- What a run collects and concludes: everything is decided by the events up to the first that stops it.
use schedbench.Base.{
  ◌-◌, ◌≡◌, refl, ◌∙◌, Bool, true, false, ◌||◌, List, [], ◌∷◌, ◌++◌, Option, none, some, arith,
  if◌then◌else◌, ◌==◌, Bool-cases, inl, inr,
}
use mathlib.Core.List.{append-nil, append_assoc}
use schedbench.Base.Int.{ℤ, pos, eqb_ℤ}
use schedbench.Base.Outcome.{returns}
use schedbench.Bench.{WorkerId, WorkerReport, id_eq}
use schedbench.Run.{
  Event, report, done, timeout, interrupt, Loop, go_on, Status, finished, waiting, state, step,
  loop, find_worker, set_last_report, report_to, dump_log, stop, ids, WorkerState, RunError,
  exited_early, interrupted, WorkerList,
}
use schedbench.Run.Stopped.{loop-IsSettled, loop-go_on}

abbrev pub has_id : WorkerId → List WorkerId → Bool
has_id id [] = false
has_id id (j ∷ js) = id_eq j id || has_id id js

-- Every event is from a worker of the list.
abbrev pub AllFrom : List WorkerId → List Event → Type 0
AllFrom js [] = Unit {0}
AllFrom js (report r ∷ es) = (has_id r.id js ≡ true) × AllFrom js es
AllFrom js (done did ∷ es) = (has_id did js ≡ true) × AllFrom js es
AllFrom js (timeout ∷ es) = AllFrom js es
AllFrom js (interrupt ∷ es) = AllFrom js es

-- The reports before the first event that stops the run, and that event.
abbrev pub collected : List Event → List WorkerReport
collected [] = []
collected (report r ∷ es) = r ∷ collected es
collected (done did ∷ es) = []
collected (timeout ∷ es) = []
collected (interrupt ∷ es) = []

pub data Cause : Type 0 where
  nothing time_up signal : Cause
  exited : WorkerId → Cause

abbrev pub cause : List Event → Cause
cause [] = nothing
cause (report r ∷ es) = cause es
cause (done did ∷ es) = exited did
cause (timeout ∷ es) = time_up
cause (interrupt ∷ es) = signal

-- The run is completed by its timeout, and by an interrupt if it has no time limit.
abbrev pub completes : ℤ → Cause → Bool
completes runtime nothing = false
completes runtime time_up = true
completes runtime signal = eqb_ℤ runtime (pos 0)
completes runtime (exited did) = false

abbrev pub error_of : Cause → Option RunError
error_of nothing = none
error_of time_up = none
error_of signal = some interrupted
error_of (exited did) = some (exited_early did)

-- Every worker is shut down once, unless nothing has stopped the run.
abbrev pub shut_by : List WorkerId → Cause → List WorkerId
shut_by js nothing = []
shut_by js time_up = js
shut_by js signal = js
shut_by js (exited did) = js

abbrev pub dumped_by : Cause → List WorkerId
dumped_by nothing = []
dumped_by time_up = []
dumped_by signal = []
dumped_by (exited did) = did ∷ []

module _ {W : Type 0} where
  pub find_worker-has_id :
      (id : WorkerId) (workers : WorkerList W)
      → has_id id (ids workers) ≡ true
      → (ws : WorkerState W) × (find_worker id workers ≡ some ws)
  unfolding find_worker
  find_worker-has_id id [] h = cc
  find_worker-has_id id ((j, ws) ∷ workers) h = elim (Bool-cases (id_eq j id)) [
    | inl here ↦ (ws, rw here refl)
    | inr later ↦ rw later (find_worker-has_id id workers (ground arith))
  ]

  pub ids-set_last_report :
      (id : WorkerId) (r : WorkerReport) (workers : WorkerList W)
      → ids (set_last_report id r workers) ≡ ids workers
  unfolding set_last_report
  ids-set_last_report id r [] = refl
  ids-set_last_report id r ((j, ws) ∷ workers) = ground (arith, ids-set_last_report id r workers)

  -- The results that a loop still running ends with, by the events to come.
  pub record Concludes (runtime : ℤ) (es : List Event) (s t : Loop W) : Type 0 where
    pub raw : t.raw ≡ s.raw ++ collected es
    pub completed : t.completed ≡ (s.completed || completes runtime (cause es))
    pub err : t.err ≡ error_of (cause es)
    pub shut : t.shut ≡ shut_by (ids s.workers) (cause es)
    pub dumped : t.dumped ≡ dumped_by (cause es)

  -- A loop that has stopped nothing yet and waits for at least one worker.
  pub record IsRunning (s : Loop W) : Type 0 where
    pub going : s.stopped ≡ false
    pub some_left : (s.left == 0) ≡ false
    pub no_error : s.err ≡ none
    pub none_shut : s.shut ≡ []
    pub none_dumped : s.dumped ≡ []

  -- A stopping event ends the collection; `t` is where it leads, and `u` where the loop ends.
  module _ (runtime : ℤ) (es : List Event) (s : Loop W) (run : IsRunning s) where
    abbrev Result : List Event → Type 0
    Result es = (r : Status W) × (loop runtime es s ≡ returns r) × Concludes runtime es s (state r)

    conclude_done :
        (did : WorkerId) (ws : WorkerState W)
        → find_worker did s.workers ≡ some ws
        → Result (done did ∷ es)
    unfolding step stop dump_log
    conclude_done did ws found =
        let t : Loop W = record s {
          shut = s.shut ++ ids s.workers;
          stopped = true;
          err = some (exited_early did);
          dumped = s.dumped ++ did ∷ [];
          left = s.left - 1;
        } in
        let round : step runtime (done did) s ≡ returns (go_on t) = ground arith in
        let (r, ends, settled) = loop-IsSettled runtime es t refl in
        (
          r,
          loop-go_on runtime (done did) es s t run.some_left round ∙ ends,
          ground (arith, append-nil s.raw),
        )

    conclude_timeout : Result (timeout ∷ es)
    unfolding step stop
    conclude_timeout =
        let t : Loop W = record s {
          shut = s.shut ++ ids s.workers;
          stopped = true;
          completed = true;
        } in
        let round : step runtime timeout s ≡ returns (go_on t) = ground arith in
        let (r, ends, settled) = loop-IsSettled runtime es t refl in
        (
          r,
          loop-go_on runtime timeout es s t run.some_left round ∙ ends,
          ground (arith, append-nil s.raw),
        )

    conclude_interrupt : Result (interrupt ∷ es)
    unfolding step stop
    conclude_interrupt =
        let t : Loop W = record s {
          shut = s.shut ++ ids s.workers;
          stopped = true;
          completed = if eqb_ℤ runtime (pos 0) then true else s.completed;
          err = some interrupted;
        } in
        let round : step runtime interrupt s ≡ returns (go_on t) = ground arith in
        let (r, ends, settled) = loop-IsSettled runtime es t refl in
        (
          r,
          loop-go_on runtime interrupt es s t run.some_left round ∙ ends,
          ground (arith, append-nil s.raw),
        )

  module _ (runtime : ℤ) where
    conclude_report :
        (r : WorkerReport) (es : List Event) (s : Loop W) (ws : WorkerState W)
        → IsRunning s
        → find_worker r.id s.workers ≡ some ws
        → ((t : Loop W)
            → IsRunning t
            → ids t.workers ≡ ids s.workers
            → t.raw ≡ s.raw ++ r ∷ []
            → t.completed ≡ s.completed
            → (n : Status W) × (loop runtime es t ≡ returns n) × Concludes runtime es t (state n))
        → (n : Status W) × (loop runtime (report r ∷ es) s ≡ returns n)
          × Concludes runtime (report r ∷ es) s (state n)
    unfolding step report_to
    conclude_report r es s ws run found rest =
        let t : Loop W = record s {
          raw = s.raw ++ r ∷ [];
          workers = set_last_report r.id r s.workers;
        } in
        let round : step runtime (report r) s ≡ returns (go_on t) = ground arith in
        let same : ids t.workers ≡ ids s.workers = ids-set_last_report r.id r s.workers in
        let (n, ends, c) = rest t (ground arith) same refl refl in
        (
          n,
          loop-go_on runtime (report r) es s t run.some_left round ∙ ends,
          ground (arith, append_assoc s.raw (r ∷ []) (collected es)),
        )

    -- With events from known workers alone the loop never panics, and what it ends with is decided by
    -- the events up to the first that stops it: the reports before that one are the results, and the
    -- event decides on completion, the error and the workers that are shut down.
    pub loop-Concludes :
        (es : List Event) (s : Loop W)
        → IsRunning s
        → AllFrom (ids s.workers) es
        → (n : Status W) × (loop runtime es s ≡ returns n) × Concludes runtime es s (state n)
    unfolding loop
    loop-Concludes [] s run from =
        (if s.left == 0 then finished s else waiting s, refl, ground (arith, append-nil s.raw))
    loop-Concludes (report r ∷ es) s run from =
        let (ws, found) = find_worker-has_id r.id s.workers from.0 in
        conclude_report r es s ws run found
          (λ t going same raw completed. loop-Concludes es t going (rw same (from.1)))
    loop-Concludes (done did ∷ es) s run from =
        let (ws, found) = find_worker-has_id did s.workers from.0 in
        conclude_done runtime es s run did ws found
    loop-Concludes (timeout ∷ es) s run from = conclude_timeout runtime es s run
    loop-Concludes (interrupt ∷ es) s run from = conclude_interrupt runtime es s run
