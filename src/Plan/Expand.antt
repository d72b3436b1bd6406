-- ===== src/Plan/Expand.antt =====
-- `ExpandInput` as a whole: when it succeeds, and which run it puts where.
use schedbench.Base.{
  ℕ, ◌+◌, ◌*◌, ◌≡◌, refl, ap₂, ◌∙◌, Bool, false, List, [], ◌∷◌, ◌++◌, none, some, arith,
  if◌then◌else◌, ltb, length, length-append, get_elem?, Text, codes,
}
use schedbench.Base.Int.{ℤ, pos}
use schedbench.Base.Outcome.{elems}
use schedbench.Bench.{
  WorkerSet, zero_worker_config, BenchmarkRun, BenchmarkPlan, Presets, PlanInput, PlanSimpleMatrix,
}
use schedbench.Plan.{
  baselines, mixes, cross, cross_if, expand_matrix, expand_input, with_scheduler, with_numa,
  schedulers_or_default, lookup_preset, merge_presets, appended, empty_run, worker_set,
}
use schedbench.Plan.Cross.{
  get_elem?-append_left, get_elem?-append_right, length-cross_if, get_elem?-cross,
}
use schedbench.Plan.Mixes.{parts_label, sets_of, mix_label-parts, mix_sets-map}
use schedbench.Plan.Bases.{
  AllKnown, length-mixes, length-baselines, baselines-AllKnown, get_elem?-baselines,
  get_elem?-mixes,
}

-- How often an axis repeats the runs before it: an empty one is left out.
abbrev pub times {ℓ} : {V : Type ℓ} → List V → ℕ
times axis = if ltb 0 (length axis) then length axis else 1

elems-appended {ℓ} : {A : Type ℓ} (xs : List A) → elems (appended xs) ≡ xs
elems-appended [] = refl
elems-appended (x ∷ xs) = refl

cross_if-cross {ℓ} :
    {F : Type 0} {V : Type ℓ} (variant : BenchmarkRun F → V → BenchmarkRun F) (axis : List V)
    (a : List (BenchmarkRun F)) (j : ℕ) {v : V}
    → get_elem? axis j ≡ some v
    → cross_if variant axis a ≡ cross variant axis a
unfolding cross_if
cross_if-cross variant [] a j h = cc
cross_if-cross variant (v ∷ axis) a j h = ground arith

module _ (F : Type 0) (m : Presets) (matrix : PlanSimpleMatrix) where
  abbrev bases : List (BenchmarkRun F)
  bases = (baselines {F = F} m matrix.workers).1 ++ mixes m matrix.workers matrix.count

  abbrev axis : List Text
  axis = schedulers_or_default matrix.schedulers

  length-expand_matrix :
      AllKnown m matrix.workers
      → length (expand_matrix {F = F} m matrix).1
        ≡ (length matrix.workers + length matrix.count) * times axis * times matrix.numa_disable
  unfolding expand_matrix
  length-expand_matrix known =
      let crossed : List (BenchmarkRun F) = cross_if with_scheduler axis bases in
      let all : (baselines {F = F} m matrix.workers).0 ≡ none =
        baselines-AllKnown F m matrix.workers known in
      rw
        (
          length-cross_if with_numa matrix.numa_disable crossed,
          length-cross_if with_scheduler axis bases,
          length-append (baselines {F = F} m matrix.workers).1
              (mixes m matrix.workers matrix.count),
          length-baselines F m matrix.workers all,
          length-mixes F m matrix.workers matrix.count,
        )
        refl

  get_elem?-expand_matrix :
      (b s d : ℕ) {base : BenchmarkRun F} {scheduler : Text} {disable : Bool}
      → get_elem? bases b ≡ some base
      → get_elem? axis s ≡ some scheduler
      → get_elem? matrix.numa_disable d ≡ some disable
      → get_elem?
          (expand_matrix {F = F} m matrix).1
          ((b * length axis + s) * length matrix.numa_disable + d)
        ≡ some (with_numa (with_scheduler base scheduler) disable)
  unfolding expand_matrix
  get_elem?-expand_matrix b s d hb hs hd =
      rw
        (
          cross_if-cross with_numa matrix.numa_disable (cross_if with_scheduler axis bases) d hd,
          cross_if-cross with_scheduler axis bases s hs,
        )
        (get_elem?-cross with_numa matrix.numa_disable (cross with_scheduler axis bases)
          (b * length axis + s) d (get_elem?-cross with_scheduler axis bases b s hb hs) hd)

-- A planned run: its label ends in the scheduler and the NUMA setting, which its settings hold too.
abbrev pub empty_run_for : {F : Type 0} → Text → Text → Bool → List WorkerSet → BenchmarkRun F
empty_run_for label scheduler disable sets = record {
  label =
      label ++ codes " " ++ scheduler ++ (if disable then codes " NumaOff" else codes " NumaOn ");
  worker_sets = sets;
  worker_config = zero_worker_config;
  run_config = record {
    scheduler = scheduler;
    pool = [];
    cpus = none;
    numa_disable = some disable;
  };
  runtime_seconds = pos 10;
  completed = false;
  results = record { raw = []; summary = none };
}

-- A plan with no runs yet, a matrix, and a preset for every worker of it.
pub record IsExpandable {F : Type 0} (plan : BenchmarkPlan F) (m : Presets) (input : PlanInput)
    (matrix : PlanSimpleMatrix) : Type 0 where
  pub fresh : plan.runs ≡ none
  pub given : plan.input ≡ some input
  pub simple : input.simple_matrix ≡ some matrix
  pub known : AllKnown (merge_presets input.worker_presets m) matrix.workers

module _ {F : Type 0} (plan : BenchmarkPlan F) (m : Presets) (input : PlanInput)
    (matrix : PlanSimpleMatrix) (ready : IsExpandable plan m input matrix) where
  abbrev merged : Presets
  merged = merge_presets input.worker_presets m

  abbrev planned : List (BenchmarkRun F)
  planned = elems (expand_input plan m).1.runs

  expand_input_lem :
      expand_input plan m
      ≡ (none, record plan { runs = appended (expand_matrix merged matrix).1 }, merged)
  unfolding expand_input expand_matrix
  expand_input_lem =
      let all : (baselines {F = F} merged matrix.workers).0 ≡ none =
        baselines-AllKnown F merged matrix.workers ready.known in
      ground arith

  planned_lem : planned ≡ (expand_matrix merged matrix).1
  planned_lem = rw expand_input_lem (elems-appended (expand_matrix merged matrix).1)

  -- `ExpandInput` succeeds, and makes a baseline for each worker and a mix for each count, all
  -- repeated for each scheduler and each setting of NUMA, but for an axis that is empty.
  pub length-expand_input :
      ((expand_input plan m).0 ≡ none)
      × (length planned
          ≡ (length matrix.workers + length matrix.count)
            * times (schedulers_or_default matrix.schedulers)
            * times matrix.numa_disable)
  length-expand_input =
      (rw expand_input_lem refl, rw planned_lem (length-expand_matrix F merged matrix ready.known))

  -- The baseline of worker `w` under scheduler `s` and NUMA setting `d`: one worker with the preset's
  -- arguments, and a label, a scheduler and a setting that say so.
  pub expand_input_baseline :
      (w s d : ℕ) {wn scheduler : Text} {disable : Bool}
      → get_elem? matrix.workers w ≡ some wn
      → get_elem? (schedulers_or_default matrix.schedulers) s ≡ some scheduler
      → get_elem? matrix.numa_disable d ≡ some disable
      → get_elem? planned (
          (w * length (schedulers_or_default matrix.schedulers) + s) * length matrix.numa_disable
          + d)
        ≡ some (
            empty_run_for
              (wn ++ codes " baseline")
              scheduler
              disable
              (worker_set (lookup_preset wn merged) (pos 1) ∷ []))
  unfolding with_numa with_scheduler
  expand_input_baseline w s d hw hs hd = rw planned_lem (
      get_elem?-expand_matrix F merged matrix w s d
        (get_elem?-append_left (baselines {F = F} merged matrix.workers).1
          (mixes merged matrix.workers matrix.count) w
          (get_elem?-baselines F merged matrix.workers w ready.known hw))
        hs hd)

  -- The mix for count `c` under scheduler `s` and NUMA setting `d`: that many of each worker, in the
  -- order of the workers, and a label that names each with the count, then the scheduler and the setting.
  pub expand_input_mix :
      (c s d : ℕ) {count : ℤ} {scheduler : Text} {disable : Bool}
      → get_elem? matrix.count c ≡ some count
      → get_elem? (schedulers_or_default matrix.schedulers) s ≡ some scheduler
      → get_elem? matrix.numa_disable d ≡ some disable
      → get_elem? planned (
          ((length matrix.workers + c) * length (schedulers_or_default matrix.schedulers) + s)
            * length matrix.numa_disable
          + d)
        ≡ some (
            empty_run_for
              (parts_label count matrix.workers)
              scheduler
              disable
              (sets_of merged count matrix.workers))
  unfolding with_numa with_scheduler
  expand_input_mix c s d {count} hc hs hd =
      let single : List (BenchmarkRun F) = (baselines {F = F} merged matrix.workers).1 in
      let long : length single ≡ length matrix.workers =
        length-baselines F merged matrix.workers
          (baselines-AllKnown F merged matrix.workers ready.known) in
      let here : get_elem? (single ++ mixes merged matrix.workers matrix.count) (length single + c)
          ≡ some
              (empty_run (parts_label count matrix.workers) (sets_of merged count matrix.workers)) =
        get_elem?-append_right single (mixes merged matrix.workers matrix.count) c
        ∙ get_elem?-mixes F merged matrix.workers matrix.count c hc
        ∙ ap₂ (λ label sets. some (empty_run label sets)) (mix_label-parts count matrix.workers)
            (mix_sets-map merged count matrix.workers) in
      rw planned_lem (
        get_elem?-expand_matrix F merged matrix (length matrix.workers + c) s d (rw long at here) hs
          hd)
