-- ===== src/Tests/Plans.antt =====
-- The theorems on plans and settings at a plan like scripts/sample.bench.
use schedbench.Base.{
  ℕ, ◌≡◌, refl, ◌∷◌, [], ◌++◌, some, none, true, false, Text, codes, get_elem?, length,
}
use schedbench.Base.Int.{pos, show_int}
use schedbench.Base.Outcome.{elems}
use schedbench.Bench.{
  WorkerParams, BenchmarkPlan, Presets, PlanInput, PlanSimpleMatrix, zero_worker_config,
  zero_run_config,
}
use schedbench.Plan.{
  expand_input, worker_presets, lookup_preset, merge_presets, insert_preset, worker_set,
}
use schedbench.Plan.Mixes.{sets_of}
use schedbench.Plan.Expand.{
  IsExpandable, length-expand_input, expand_input_baseline, expand_input_mix, empty_run_for,
}

abbrev burn : Text → WorkerParams
burn percent = record { args = some (codes "burnwait" ∷ percent ∷ codes "200000" ∷ []) }

abbrev matrix : PlanSimpleMatrix
matrix = record {
  schedulers = some (codes "credit" ∷ codes "credit2" ∷ []);
  workers = codes "A" ∷ codes "P001" ∷ [];
  count = pos 1 ∷ pos 2 ∷ pos 4 ∷ [];
  numa_disable = true ∷ false ∷ [];
}

abbrev own_presets : Presets
own_presets = (codes "A", burn (codes "10")) ∷ []

abbrev input : PlanInput
input = record { worker_presets = own_presets; simple_matrix = some matrix }

abbrev pub plan : BenchmarkPlan ℕ
plan = record {
  input = some input;
  filename = codes "test.bench";
  worker_type = pos 1;
  worker_config = zero_worker_config;
  run_config = record zero_run_config {
    pool = codes "schedbench";
    cpus = some (pos 12 ∷ pos 13 ∷ []);
  };
  runs = none;
}

plan-IsExpandable : IsExpandable plan worker_presets input matrix
unfolding merge_presets insert_preset worker_presets lookup_preset
plan-IsExpandable = record { fresh = refl; given = refl; simple = refl; known = (refl, (refl, tt)) }

length-expand_input_example :
    ((expand_input plan worker_presets).0 ≡ none)
    × (length (elems (expand_input plan worker_presets).1.runs) ≡ 20)
length-expand_input_example = length-expand_input plan worker_presets input matrix plan-IsExpandable

-- The eighth run is worker P001 alone under credit2 with NUMA placement.
expand_input_baseline_example :
    get_elem? (elems (expand_input plan worker_presets).1.runs) 7
    ≡ some (
        empty_run_for (codes "P001" ++ codes " baseline") (codes "credit2") false (
          worker_set
            (lookup_preset (codes "P001") (merge_presets own_presets worker_presets))
            (pos 1)
          ∷ []))
expand_input_baseline_example =
    expand_input_baseline plan worker_presets input matrix plan-IsExpandable 1 1 1 refl refl refl

expand_input_mix_example :
    get_elem? (elems (expand_input plan worker_presets).1.runs) 12
    ≡ some (
        empty_run_for
          (codes "A 2 + P001 2")
          (codes "credit")
          true
          (sets_of (merge_presets own_presets worker_presets) (pos 2) matrix.workers))
unfolding show_int
expand_input_mix_example =
    expand_input_mix plan worker_presets input matrix plan-IsExpandable 1 0 0 refl refl refl
