-- ===== src/Plan.antt =====
-- controller/plan.go: a plan's input expanded into its runs. The printing of the labels is left out.
pub mod Cross
pub mod Expand
pub mod Bases
pub mod Mixes
use schedbench.Base.{
  ℕ, Bool, true, false, not, List, [], ◌∷◌, ◌++◌, Option, none, some, if◌then◌else◌, is_none,
  length, ltb, Text, text_eq, is_empty, codes, map,
}
use schedbench.Base.Int.{ℤ, pos, show_int}
use schedbench.Bench.{
  WorkerParams, WorkerSet, RunConfig, BenchmarkRun, BenchmarkPlan, Presets, PlanInput,
  PlanSimpleMatrix, zero_worker_config, zero_run_config,
}

-- The table that the program starts with.
unfoldable pub worker_presets : Presets
worker_presets =
    (codes "P001", record { args = some (codes "burnwait" ∷ codes "70" ∷ codes "200000" ∷ []) })
    ∷ []

pub data PlanError : Type 0 where
  runs_non_empty input_nil simple_matrix_nil : PlanError
  invalid_preset : Text → PlanError

-- `WorkerPresets[wn]`, which for a missing name has nil arguments.
unfoldable pub lookup_preset : Text → Presets → WorkerParams
lookup_preset wn [] = record { args = none }
lookup_preset wn ((k, wp) ∷ m) = if text_eq k wn then wp else lookup_preset wn m

-- `WorkerPresets[k] = wp`
unfoldable pub insert_preset : Text → WorkerParams → Presets → Presets
insert_preset k wp [] = (k, wp) ∷ []
insert_preset k wp ((j, old) ∷ m) =
    if text_eq j k then (k, wp) ∷ m else (j, old) ∷ insert_preset k wp m

-- `for k := range plan.Input.WorkerPresets { WorkerPresets[k] = ... }`
unfoldable pub merge_presets : Presets → Presets → Presets
unfolding insert_preset
merge_presets [] m = m
merge_presets ((k, wp) ∷ new) m = merge_presets new (insert_preset k wp m)

abbrev pub worker_set : WorkerParams → ℤ → WorkerSet
worker_set wp c = record { params = wp; config = zero_worker_config; count = c }

-- The label and the worker sets of the run with `c` of each worker.
unfoldable pub mix_label : ℤ → List Text → Text → Text
unfolding show_int
mix_label c [] label = label
mix_label c (wn ∷ workers) label =
    mix_label c workers
      ((if is_empty label then label else label ++ codes " + ") ++ wn ++ codes " " ++ show_int c)

unfoldable pub mix_sets : Presets → ℤ → List Text → List WorkerSet
unfolding lookup_preset
mix_sets m c [] = []
mix_sets m c (wn ∷ workers) = worker_set (lookup_preset wn m) c ∷ mix_sets m c workers

-- A slice built by `append` from nil is nil until the first element.
abbrev pub appended {ℓ} : {A : Type ℓ} → List A → Option (List A)
appended [] = none
appended (x ∷ xs) = some (x ∷ xs)

abbrev pub schedulers_or_default : Option (List Text) → List Text
schedulers_or_default none = [] ∷ []
schedulers_or_default (some schedulers) = schedulers

module _ {F : Type 0} where
  abbrev pub empty_run : Text → List WorkerSet → BenchmarkRun F
  empty_run label sets = record {
    label = label;
    worker_sets = sets;
    worker_config = zero_worker_config;
    run_config = zero_run_config;
    runtime_seconds = pos 10;
    completed = false;
    results = record { raw = []; summary = none };
  }

  -- One baseline run for each worker, or the name of a worker that has no preset.
  unfoldable pub baselines : Presets → List Text → Option Text × List (BenchmarkRun F)
  unfolding lookup_preset
  baselines m [] = (none, [])
  baselines m (wn ∷ workers) =
      let wp = lookup_preset wn m in
      let (bad, rest) = baselines m workers in
      if is_none wp.args
      then (some wn, [])
      else (bad, empty_run (wn ++ codes " baseline") (worker_set wp (pos 1) ∷ []) ∷ rest)

  unfoldable pub mixes : Presets → List Text → List ℤ → List (BenchmarkRun F)
  unfolding mix_label mix_sets
  mixes m workers [] = []
  mixes m workers (c ∷ count) =
      empty_run (mix_label c workers []) (mix_sets m c workers) ∷ mixes m workers count

  unfoldable pub with_scheduler : BenchmarkRun F → Text → BenchmarkRun F
  with_scheduler base s = record base {
    run_config = record base.run_config { scheduler = s };
    label = base.label ++ codes " " ++ s;
  }

  unfoldable pub with_numa : BenchmarkRun F → Bool → BenchmarkRun F
  with_numa base d = record base {
    run_config = record base.run_config { numa_disable = some d };
    label = base.label ++ (if d then codes " NumaOff" else codes " NumaOn ");
  }

  -- `for base in a { for v in axis { b = append(b, variant(base, v)) } }`
  unfoldable pub cross {ℓ} :
      {V : Type ℓ}
      → (BenchmarkRun F → V → BenchmarkRun F)
      → List V
      → List (BenchmarkRun F)
      → List (BenchmarkRun F)
  cross variant axis [] = []
  cross variant axis (base ∷ a) = map (variant base) axis ++ cross variant axis a

  -- The cross is left out where the axis is empty.
  unfoldable pub cross_if {ℓ} :
      {V : Type ℓ}
      → (BenchmarkRun F → V → BenchmarkRun F)
      → List V
      → List (BenchmarkRun F)
      → List (BenchmarkRun F)
  unfolding cross
  cross_if variant axis a = if ltb 0 (length axis) then cross variant axis a else a

  -- The runs of a matrix, or the name of a worker that has no preset.
  unfoldable pub expand_matrix : Presets → PlanSimpleMatrix → Option Text × List (BenchmarkRun F)
  expand_matrix m matrix =
      let (bad, single) = baselines m matrix.workers in
      let a = single ++ mixes m matrix.workers matrix.count in
      let b = cross_if with_scheduler (schedulers_or_default matrix.schedulers) a in
      (bad, cross_if with_numa matrix.numa_disable b)

  unfoldable pub clear_runs : BenchmarkPlan F → BenchmarkPlan F
  clear_runs plan = record plan { runs = none }

  -- The error, the plan and the table of presets after the call.
  unfoldable pub expand_input :
      BenchmarkPlan F → Presets → Option PlanError × BenchmarkPlan F × Presets
  expand_input plan m = elim plan.runs [
    | some runs ↦ (some runs_non_empty, plan, m)
    | none ↦ elim plan.input [
      | none ↦ (some input_nil, plan, m)
      | some input ↦ elim input.simple_matrix [
        | none ↦ (some simple_matrix_nil, plan, m)
        | some matrix ↦
            let merged = merge_presets input.worker_presets m in
            let (bad, runs) = expand_matrix merged matrix in
            elim bad [
              | some wn ↦ (some (invalid_preset wn), plan, merged)
              | none ↦ (none, record plan { runs = appended runs }, merged)
            ]
      ]
    ]
  ]
