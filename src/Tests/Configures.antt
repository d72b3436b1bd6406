-- ===== src/Tests/Configures.antt =====
-- The theorems on the worker sets and the worker list of a run, on the machine of two pools.
use schedbench.Base.{◌≡◌, refl, ℕ, List, ◌∷◌, [], none, some, codes, true, false, inr, show_nat}
use schedbench.Base.Int.{pos}
use schedbench.Base.Outcome.{returns, panics}
use schedbench.Bitmap.Members.{has}
use schedbench.Bitmap.Runs.{Run, in_runs, render}
use schedbench.Bench.{
  WorkerParams, WorkerConfig, WorkerSet, RunConfig, zero_worker_config, zero_run_config, set_khz,
}
use schedbench.Run.{WorkerList, ids}
use schedbench.Xl.{CpupoolInfo}
use schedbench.Xl.Cpupool.{cpupool_find_by_name}
use schedbench.Configure.{configure_set, configure_sets}
use schedbench.Configure.Settings.{configure_set_numa_off}
use schedbench.Workers.{AnyWorker, new_worker, new_worker_list}
use schedbench.Workers.Ids.{id_of, new_worker_list-ids}
use schedbench.Tests.Machine.{machine, host}

abbrev burn : WorkerParams
burn = record { args = some (codes "burnwait" ∷ codes "70" ∷ codes "200000" ∷ []) }

abbrev pair : WorkerSet
pair = record { params = burn; config = zero_worker_config; count = pos 2 }

abbrev numa_off : RunConfig
numa_off = record zero_run_config { pool = codes "schedbench"; numa_disable = some true }

abbrev pool_of_8_9 : CpupoolInfo
pool_of_8_9 = record {
  poolid = 1;
  pool_name = codes "schedbench";
  scheduler = pos 6;
  domain_count = pos 0;
  cpumap = record { bitmap = some (0 ∷ 3 ∷ []) };
}

pool_found : cpupool_find_by_name machine (codes "schedbench") host ≡ some pool_of_8_9
unfolding cpupool_find_by_name
pool_found = refl

configure_set_numa_off_example :
    (rs : List Run) × (configure_set machine 2600000 zero_worker_config numa_off host pair
      ≡ returns (
        none,
        record {
          params = record {
            args = some (
                codes "kHZ"
                ∷ codes "2600000"
                ∷ codes "burnwait"
                ∷ codes "70"
                ∷ codes "200000"
                ∷ []);
          };
          config = record { pool = codes "schedbench"; soft_affinity = render rs };
          count = pos 2;
        },
      ))
    × ((n : ℕ) → in_runs n rs ≡ has pool_of_8_9.cpumap n)
unfolding show_nat
configure_set_numa_off_example =
    configure_set_numa_off machine 2600000 zero_worker_config numa_off host pair
      (codes "burnwait" ∷ codes "70" ∷ codes "200000" ∷ []) pool_of_8_9 refl refl refl refl
      (inr (refl, pool_found))

-- A nil `NumaDisable` panics.
numa_unset :
    configure_sets machine 2600000 zero_worker_config zero_run_config host (pair ∷ []) ≡ panics
unfolding configure_sets configure_set set_khz
numa_unset = refl

abbrev init : WorkerParams → WorkerConfig → AnyWorker → AnyWorker
init p c w = w

abbrev fresh : AnyWorker
fresh = AnyWorker.xen (record {
  id = id_of 0 0;
  vmname = [];
  domid = pos 0;
  console = none;
  json_started = false;
  log = [];
})

xen_known : new_worker (pos 1) ≡ some fresh
unfolding new_worker
xen_known = refl

new_worker_list-ids_example :
    (wl : WorkerList AnyWorker) × (new_worker_list init
        (pos 1)
        (pair ∷ record pair { count = pos 1 } ∷ [])
      ≡ returns (none, wl))
    × (ids wl ≡ id_of 0 0 ∷ id_of 0 1 ∷ id_of 1 0 ∷ [])
new_worker_list-ids_example =
    new_worker_list-ids init (pos 1) fresh xen_known (pair ∷ record pair { count = pos 1 } ∷ [])
