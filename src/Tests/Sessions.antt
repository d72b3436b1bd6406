-- ===== src/Tests/Sessions.antt =====
-- A whole run of two workers, on the machine of two pools.
use schedbench.Base.{◌≡◌, refl, ℕ, List, ◌∷◌, [], none, some, codes, false}
use schedbench.Base.Int.{pos}
use schedbench.Base.Outcome.{returns}
use schedbench.Bench.{
  WorkerParams, WorkerConfig, BenchmarkRun, zero_worker_config, zero_run_config, zero_report,
}
use schedbench.Bench.{set_khz}
use schedbench.Run.{Event, report, done, timeout, Loop, finished}
use schedbench.Configure.{configure, configure_sets, configure_set, with_pool}
use schedbench.Workers.{AnyWorker}
use schedbench.Workers.Ids.{id_of}
use schedbench.Session.{served, with_results, run_benchmark}
use schedbench.Session.Whole.{run_benchmark-stands_at}
use schedbench.Tests.Machine.{machine, host}

abbrev run_of : List (List ℕ) → BenchmarkRun ℕ
run_of args = record {
  label = codes "P001 2 credit";
  worker_sets =
      record { params = record { args = some args }; config = zero_worker_config; count = pos 2 }
      ∷ [];
  worker_config = record zero_worker_config { pool = codes "schedbench" };
  run_config = record zero_run_config { numa_disable = some false };
  runtime_seconds = pos 10;
  completed = false;
  results = record { raw = []; summary = none };
}

abbrev pub planned : BenchmarkRun ℕ
planned = run_of (codes "burnwait" ∷ codes "70" ∷ [])

abbrev pub ready : BenchmarkRun ℕ
ready = record (run_of (codes "burnwait" ∷ [])) {
  worker_sets =
      record {
        params = record {
          args = some (codes "kHZ" ∷ codes "2600000" ∷ codes "burnwait" ∷ codes "70" ∷ []);
        };
        config = record { pool = codes "schedbench"; soft_affinity = [] };
        count = pos 2;
      }
      ∷ [];
}

planned_ready : configure machine 2600000 planned host ≡ returns (none, ready)
unfolding configure configure_sets configure_set with_pool set_khz
planned_ready = refl

abbrev pub received : List Event
received =
    report (record zero_report { id = id_of 0 1; now = pos 5 })
    ∷ timeout
    ∷ done (id_of 0 1)
    ∷ done (id_of 0 0)
    ∷ []

abbrev pub init : WorkerParams → WorkerConfig → AnyWorker → AnyWorker
init p c w = w

run_benchmark-stands_at_example :
    (u : Loop AnyWorker) × (run_benchmark machine 2600000 init received planned host
      ≡ returns (served (finished u), with_results ready u))
run_benchmark-stands_at_example =
    run_benchmark-stands_at machine 2600000 init received planned ready host planned_ready tt
      (refl, (refl, (refl, tt))) (refl, (refl, tt))
