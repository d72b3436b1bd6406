-- ===== src/Configure.antt =====
-- The first loop of `BenchmarkRun.Run` in controller/run.go: each worker set gets its pool, the cpu's
-- frequency and, with NUMA placement off, its soft affinity. The sets of a run that has been loaded
-- from a file share no arguments. The printing is left out.
pub mod Settings
use schedbench.Base.{
  ℕ, not, List, [], ◌∷◌, Option, none, some, true, false, if◌then◌else◌, Text, is_empty,
}
use schedbench.Base.Outcome.{Outcome, returns, panics, ◌>>=◌}
use schedbench.Bitmap.{to_string}
use schedbench.Bench.{WorkerConfig, WorkerSet, RunConfig, BenchmarkRun, propagate_worker, set_khz}
use schedbench.Xl.{Libxl, Host}
use schedbench.Prep.{get_cpumap}

pub data ConfigError : Type 0 where
  soft_affinity_is_set : ConfigError

-- `conf.PropagateFrom(run.WorkerConfig)`, and the run's pool where there is still none.
unfoldable pub with_pool : WorkerConfig → RunConfig → WorkerConfig → WorkerConfig
unfolding propagate_worker
with_pool g c conf =
    let own : WorkerConfig = propagate_worker g conf in
    if is_empty own.pool then record own { pool = c.pool } else own

module _ (L : Libxl) (khz : ℕ) where
  -- The branch of `*run.RunConfig.NumaDisable`.
  unfoldable pub disable_numa :
      RunConfig → WorkerSet → Host L → Outcome (Option ConfigError × WorkerSet)
  disable_numa c ws h =
      if not (is_empty ws.config.soft_affinity)
      then returns (some soft_affinity_is_set, ws)
      else (get_cpumap L c h >>= λ cpus. to_string cpus >>= λ s.
          returns (none, record ws { config = record ws.config { soft_affinity = s } }))

  -- One round of the loop. A nil `NumaDisable` is dereferenced, which panics.
  unfoldable pub configure_set :
      WorkerConfig → RunConfig → Host L → WorkerSet → Outcome (Option ConfigError × WorkerSet)
  unfolding with_pool disable_numa set_khz
  configure_set g c h ws =
      let conf : WorkerConfig = with_pool g c ws.config in
      set_khz khz ws.params >>= λ params.
      let ready : WorkerSet = record ws { params = params; config = conf } in
      elim c.numa_disable [
        | none ↦ panics
        | some true ↦ disable_numa c ready h
        | some false ↦ returns (none, ready)
      ]

  -- `for wsi := range run.WorkerSets`, which an error leaves.
  unfoldable pub configure_sets :
      WorkerConfig
      → RunConfig
      → Host L
      → List WorkerSet
      → Outcome (Option ConfigError × List WorkerSet)
  unfolding configure_set
  configure_sets g c h [] = returns (none, [])
  configure_sets g c h (ws ∷ sets) = elim (configure_set g c h ws) [
    | panics ↦ panics
    | returns (some e, ws') ↦ returns (some e, ws' ∷ sets)
    | returns (none, ws') ↦ configure_sets g c h sets >>= λ (err, sets'). returns (err, ws' ∷ sets')
  ]

  -- The loop on the run itself.
  unfoldable pub configure :
      {F : Type 0} → BenchmarkRun F → Host L → Outcome (Option ConfigError × BenchmarkRun F)
  unfolding configure_sets
  configure run h =
      configure_sets run.worker_config run.run_config h run.worker_sets >>= λ (err, sets).
      returns (err, record run { worker_sets = sets })
