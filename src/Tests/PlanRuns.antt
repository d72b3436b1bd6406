-- ===== src/Tests/PlanRuns.antt =====
-- A plan of two runs, of which the first was completed earlier, on the machine of two pools and the
-- file system in memory.
use schedbench.Base.{
  ◌⊎◌, ℕ, ◌*◌, ◌<◌, ◌≡◌, ◌≢◌, refl, [], ◌∷◌, none, some, true, false, codes, text_eq, if◌then◌else◌,
  get_elem?, arith,
}
use schedbench.Base.Int.{pos}
use schedbench.Base.Outcome.{returns, elems}
use schedbench.Bench.{BenchmarkRun, BenchmarkPlan, zero_plan, set_khz, zero_report}
use schedbench.Xl.Cpupool.{cpupool_info}
use schedbench.Prep.{prep, requested, prep_pool_0, target_pool, sched_matches, cpus_match}
use schedbench.Run.{find_worker, loop, step}
use schedbench.Configure.{configure, configure_sets, configure_set, with_pool}
use schedbench.Workers.{new_worker_list, add_worker}
use schedbench.Workers.Ids.{id_of}
use schedbench.Session.{run_benchmark}
use schedbench.Store.{Json, save, write_plan}
use schedbench.Store.Safe.{content}
use schedbench.Cpu.{CpuInfo, IsFrequency, get_cpu_hz, get_cpu_hz-IsFrequency}
use schedbench.PlanRun.{all_done, Bench, run_plan}
use schedbench.PlanRun.Whole.{run_plan-saved}
use schedbench.PlanRun.Kept.{run_plan-keeps}
use schedbench.Tests.Machine.{machine, host}
use schedbench.Tests.Disk.{Disk, disk, put, disk-IsLawful}
use schedbench.Tests.Sessions.{planned, ready, received, init}

abbrev pub cpuinfo : CpuInfo ℕ ℕ
cpuinfo = record {
  open_error = none;
  lines = codes "processor : 0" ∷ codes "cpu MHz : 2600" ∷ codes "cpu MHz : 1200" ∷ [];
  find_submatch = λ s.
      if text_eq s (codes "cpu MHz : 2600")
      then some (codes "2600")
      else if text_eq s (codes "cpu MHz : 1200")
      then some (codes "1200")
      else none;
  parse_float = λ s. (none, if text_eq s (codes "2600") then 2600 else 1200);
  to_khz = λ mhz. mhz * 1000;
}

abbrev json : Json ℕ ℕ
json = record {
  marshal = λ plan. (none, codes "{}");
  unmarshal = λ b plan. (none, record plan { runs = some [] });
}

abbrev first : BenchmarkRun ℕ
first = record planned { completed = true }

abbrev plan : BenchmarkPlan ℕ
plan = record zero_plan {
  filename = codes "a.bench";
  worker_type = pos 1;
  runs = some (first ∷ planned ∷ []);
}

abbrev files : Disk
files = put (codes "a.bench") (some (codes "old")) (λ x. none)

abbrev bench : Bench ℕ machine (disk false)
bench = record { plan = plan; host = host; files = files }

abbrev second : BenchmarkRun ℕ
second = record ready {
  completed = true;
  results = record {
    raw = record zero_report { id = id_of 0 1; now = pos 5 } ∷ [];
    summary = none;
  };
}

abbrev bench' : Bench ℕ machine (disk false)
bench' = record {
  plan = record plan { runs = some (first ∷ second ∷ []) };
  host = host;
  files =
      (save (disk false) json (record plan { runs = some (first ∷ second ∷ []) })
        (save (disk false) json plan files).1).1;
}

ran :
    run_plan machine (disk false) json init (λ i. received) (λ i h. h) cpuinfo 0 bench
    ≡ returns (2600000, all_done, bench')
unfolding run_plan get_cpu_hz configure configure_sets configure_set with_pool set_khz save
    write_plan prep run_benchmark requested cpus_match target_pool cpupool_info prep_pool_0
    sched_matches new_worker_list add_worker find_worker loop step
ran = refl

run_plan-saved_example :
    (held : BenchmarkPlan ℕ) × (content (disk false) (codes "a.bench") bench'.files
      ≡ some (codes "{}"))
    × ((j : ℕ) (r' : BenchmarkRun ℕ)
        → j < 2
        → get_elem? (first ∷ second ∷ []) j ≡ some r'
        → r'.completed ≡ true
        → get_elem? (elems held.runs) j ≡ some r')
run_plan-saved_example =
    run_plan-saved machine (disk false) json init (λ i. received) (λ i h. h) (disk-IsLawful false)
      cpuinfo 0 bench ran refl 1 second (omega arith) refl refl

run_plan-keeps_example :
    (◌≡◌ {A = ℕ} 2 2)
    × ((j : ℕ) (r : BenchmarkRun ℕ)
        → get_elem? (first ∷ planned ∷ []) j ≡ some r
        → r.completed ≡ true
        → get_elem? (first ∷ second ∷ []) j ≡ some r)
run_plan-keeps_example =
    run_plan-keeps machine (disk false) json init (λ i. received) (λ i h. h) cpuinfo 0 bench ran

known : (get_cpu_hz cpuinfo 0).0 ≡ none
unfolding get_cpu_hz
known = refl

get_cpu_hz-IsFrequency_example :
    let khz = (get_cpu_hz cpuinfo 0).1 in
    (khz ≢ 0)
    × (get_cpu_hz cpuinfo khz ≡ (none, khz))
    × ((0 ≡ khz) ⊎ IsFrequency cpuinfo cpuinfo.lines khz)
get_cpu_hz-IsFrequency_example = get_cpu_hz-IsFrequency cpuinfo 0 known
