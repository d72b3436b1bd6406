-- ===== src/Session/Whole.antt =====
-- A run from its settings to the end of its workers.
use schedbench.Base.{ℕ, suc, ◌≡◌, refl, sym, ap, List, ◌∷◌, [], none, some, length, if◌then◌else◌}
use schedbench.Base.Int.{pos}
use schedbench.Base.Outcome.{returns}
use schedbench.Bench.{WorkerParams, WorkerConfig, BenchmarkRun}
use schedbench.Xl.{Libxl, Host}
use schedbench.Run.{Event, Loop, WorkerList, ids, state, start, finished, waiting}
use schedbench.Run.Results.{AllFrom}
use schedbench.Run.Ends.{IsUninterrupted}
use schedbench.Run.Done.{all_done, SendsDoneOnce, loop-all_done}
use schedbench.Configure.{configure}
use schedbench.Workers.{AnyWorker, new_worker}
use schedbench.Workers.Ids.{all_ids, new_worker_list-ids}
use schedbench.Workers.Distinct.{all_ids-HasOnce}
use schedbench.Session.{RunStatus, served, entered, with_results, serve, run_benchmark}

length-ids : {W : Type 0} (wl : WorkerList W) → length (ids wl) ≡ length wl
length-ids [] = refl
length-ids ((id, ws) ∷ wl) = ap suc (length-ids wl)

xen_known : (w : AnyWorker) × (new_worker (pos 1) ≡ some w)
unfolding new_worker
xen_known = (_, refl)

module _ {F : Type 0} (L : Libxl) (khz : ℕ)
    (init : WorkerParams → WorkerConfig → AnyWorker → AnyWorker) where
  -- How a run stands after some events, with `u` for the loop's variables.
  abbrev pub run_stands_at :
      List Event → BenchmarkRun F → Loop AnyWorker → RunStatus × BenchmarkRun F
  run_stands_at es run u =
      let n = if all_done (all_ids 0 run.worker_sets) es then finished u else waiting u in
      (served n, with_results run (state n))

  serve-stands_at :
      (es : List Event) (run : BenchmarkRun F)
      → IsUninterrupted es
      → AllFrom (all_ids 0 run.worker_sets) es
      → SendsDoneOnce es
      → (u : Loop AnyWorker) × (serve L khz init es run ≡ returns (run_stands_at es run u))
  unfolding serve start
  serve-stands_at es run calm from single =
      let (w, known) = xen_known in
      let (wl, made, named) = new_worker_list-ids init (pos 1) w known run.worker_sets in
      let (u, ends) =
        loop-all_done run.runtime_seconds es (entered run wl) (sym (length-ids wl))
          (rw named (all_ids-HasOnce 0 run.worker_sets)) calm (rw named from) single in
      (u, rw (made, serve) (rw (ends, named) refl))

  -- With the settings made, no interrupt and events from the workers of its sets alone, none of which
  -- sends `done` twice, `BenchmarkRun.Run` never panics, is over exactly when each of its workers has
  -- sent `done`, and waits until then.
  pub run_benchmark-stands_at :
      (es : List Event) (run run' : BenchmarkRun F) (h : Host L)
      → configure L khz run h ≡ returns (none, run')
      → IsUninterrupted es
      → AllFrom (all_ids 0 run'.worker_sets) es
      → SendsDoneOnce es
      → (u : Loop AnyWorker) × (run_benchmark L khz init es run h
          ≡ returns (run_stands_at es run' u))
  unfolding run_benchmark
  run_benchmark-stands_at es run run' h ready calm from single =
      let (u, ends) = serve-stands_at es run' calm from single in
      (u, rw (ready, run_benchmark) ends)
