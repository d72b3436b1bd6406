-- ===== src/Bench.antt =====
-- controller/benchmark.go: the data of a benchmark, and the propagation of its settings. `F` is the
-- type `float64`. A slice or a pointer that the program compares with nil is an `Option`.
pub mod Config
pub mod Ids
use schedbench.Base.{
  ℕ, suc, ◌+◌, Bool, true, false, ◌&&◌, List, [], ◌∷◌, ◌++◌, Option, none, some, if◌then◌else◌,
  Text, text_eq, codes, is_empty, is_none, show_nat,
}
use schedbench.Base.Int.{ℤ, pos, eqb_ℤ, show_int}
use schedbench.Base.Outcome.{Outcome, returns, panics}

pub record WorkerId : Type 0 where
  pub set : ℤ
  pub id : ℤ

abbrev pub id_eq : WorkerId → WorkerId → Bool
id_eq a b = eqb_ℤ a.set b.set && eqb_ℤ a.id b.id

-- `func (wid WorkerId) String()`
unfoldable pub id_string : WorkerId → Text
unfolding show_int
id_string wid = show_int wid.set ++ codes ":" ++ show_int wid.id

pub record WorkerReport : Type 0 where
  pub id : WorkerId
  pub now : ℤ
  pub kops : ℤ
  pub max_delta : ℤ
  pub cputime : ℤ

abbrev pub zero_report : WorkerReport
zero_report = record {
  id = record { set = pos 0; id = pos 0 };
  now = pos 0;
  kops = pos 0;
  max_delta = pos 0;
  cputime = pos 0;
}

pub record WorkerParams : Type 0 where
  pub args : Option (List Text)

-- `l.Args[1] = kHZ`, which panics if there is no second argument.
abbrev replace_second : Text → List Text → Outcome WorkerParams
replace_second khz [] = panics
replace_second khz (a ∷ []) = panics
replace_second khz (a ∷ b ∷ args) = returns (record { args = some (a ∷ khz ∷ args) })

-- The body of `SetkHZ`, on the arguments of a slice: `Args[0]` panics if there are none.
unfoldable pub set_khz_args : ℕ → List Text → Outcome WorkerParams
unfolding show_nat
set_khz_args khz [] = panics
set_khz_args khz (a ∷ args) =
    if text_eq a (codes "kHZ")
    then replace_second (show_nat khz) (a ∷ args)
    else returns (record { args = some (codes "kHZ" ∷ show_nat khz ∷ a ∷ args) })

unfoldable pub set_khz : ℕ → WorkerParams → Outcome WorkerParams
unfolding set_khz_args
set_khz khz l = elim l.args [ none ↦ panics | some args ↦ set_khz_args khz args ]

pub record WorkerConfig : Type 0 where
  pub pool : Text
  pub soft_affinity : Text

-- `func (l *WorkerConfig) PropagateFrom(g WorkerConfig)`
unfoldable pub propagate_worker : WorkerConfig → WorkerConfig → WorkerConfig
propagate_worker g l = if is_empty l.pool then record l { pool = g.pool } else l

pub record WorkerSet : Type 0 where
  pub params : WorkerParams
  pub config : WorkerConfig
  pub count : ℤ

pub record RunConfig : Type 0 where
  pub scheduler : Text
  pub pool : Text
  pub cpus : Option (List ℤ)
  pub numa_disable : Option Bool

-- `func (l *RunConfig) PropagateFrom(g RunConfig)`, its four tests in order.
unfoldable pub propagate_run : RunConfig → RunConfig → RunConfig
propagate_run g l0 =
    let l1 : RunConfig = if is_empty l0.pool then record l0 { pool = g.pool } else l0 in
    let l2 : RunConfig =
      if is_empty l1.scheduler then record l1 { scheduler = g.scheduler } else l1 in
    let l3 : RunConfig = if is_none l2.cpus then record l2 { cpus = g.cpus } else l2 in
    if is_none l3.numa_disable then record l3 { numa_disable = g.numa_disable } else l3

pub record MinMax (F : Type 0) : Type 0 where
  pub min : F
  pub max : F

pub record WorkerSummary (F : Type 0) : Type 0 where
  pub raw : List WorkerReport
  pub min_max_tput : MinMax F
  pub min_max_util : MinMax F
  pub total_tput : ℤ
  pub total_time : ℤ
  pub total_cputime : ℤ
  pub avg_tput : F
  pub avg_util : F

pub record WorkerSetSummary (F : Type 0) : Type 0 where
  pub workers : Option (List (WorkerSummary F))
  pub total_tput : F
  pub avg_avg_tput : F
  pub min_max_tput : MinMax F
  pub min_max_avg_tput : MinMax F
  pub avg_std_dev_tput : F
  pub total_util : F
  pub min_max_util : MinMax F
  pub min_max_avg_util : MinMax F
  pub avg_avg_util : F
  pub avg_std_dev_util : F

pub record BenchmarkRunData (F : Type 0) : Type 0 where
  pub raw : List WorkerReport
  pub summary : Option (List (WorkerSetSummary F))

pub record BenchmarkRun (F : Type 0) : Type 0 where
  pub label : Text
  pub worker_sets : List WorkerSet
  pub worker_config : WorkerConfig
  pub run_config : RunConfig
  pub runtime_seconds : ℤ
  pub completed : Bool
  pub results : BenchmarkRunData F

-- `WorkerPresets`: a map from names to parameters.
abbrev pub Presets : Type 0
Presets = List (Text × WorkerParams)

pub record PlanSimpleMatrix : Type 0 where
  pub schedulers : Option (List Text)
  pub workers : List Text
  pub count : List ℤ
  pub numa_disable : List Bool

pub record PlanInput : Type 0 where
  pub worker_presets : Presets
  pub simple_matrix : Option PlanSimpleMatrix

pub record BenchmarkPlan (F : Type 0) : Type 0 where
  pub input : Option PlanInput
  pub filename : Text
  pub worker_type : ℤ
  pub worker_config : WorkerConfig
  pub run_config : RunConfig
  pub runs : Option (List (BenchmarkRun F))

abbrev pub zero_worker_config : WorkerConfig
zero_worker_config = record { pool = []; soft_affinity = [] }

abbrev pub zero_run_config : RunConfig
zero_run_config = record { scheduler = []; pool = []; cpus = none; numa_disable = none }

abbrev pub zero_plan : {F : Type 0} → BenchmarkPlan F
zero_plan = record {
  input = none;
  filename = [];
  worker_type = pos 0;
  worker_config = zero_worker_config;
  run_config = zero_run_config;
  runs = none;
}
