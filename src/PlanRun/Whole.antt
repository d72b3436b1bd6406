-- ===== src/PlanRun/Whole.antt =====
-- `BenchmarkPlan.Run` as a whole: no result that it has is missing in the plan's file.
use schedbench.Base.{
  subst, ap, sym, Option, Text, ℕ, ◌<◌, ◌≡◌, refl, List, [], some, none, true, length, get_elem?,
  arith, Option-cases, inl, inr,
}
use schedbench.Base.Outcome.{Outcome, returns, panics, ◌>>=◌, elems}
use schedbench.Bench.{WorkerParams, WorkerConfig, BenchmarkRun, BenchmarkPlan}
use schedbench.Xl.{Libxl, Host, Error}
use schedbench.Run.{Event}
use schedbench.Workers.{AnyWorker}
use schedbench.Store.{Files, Json}
use schedbench.Store.Safe.{content, IsLawful}
use schedbench.Cpu.{CpuInfo, get_cpu_hz}
use schedbench.PlanRun.{PlanEnd, all_done, Bench, run_all, open_for, run_runs, run_opened, run_plan}
use schedbench.PlanRun.Saved.{
  count_passed, saves_fine, EndsSaved, EndsSaved-below, EndsWell, IsSaved, run_all-EndsWell,
}

module _ {F : Type 0} (L : Libxl) (S : Files) (J : Json F S.Err)
    (init : WorkerParams → WorkerConfig → AnyWorker → AnyWorker) (received : ℕ → List Event)
    (after : ℕ → Host L → Host L) where
  module _ (lawful : IsLawful S) (khz : ℕ) where
    abbrev Well : BenchmarkPlan F → Outcome (PlanEnd S.Err × Bench F L S) → Type 0
    Well = EndsWell L S J init received after lawful khz

    nothing_passed : (name : Text) (w : S.World) → IsSaved S J name [] w
    nothing_passed name w j r h c = absurd (ground (arith, h))

    run_runs-Well : (b : Bench F L S) → Well b.plan (run_runs L S J init received after khz b)
    unfolding run_runs
    run_runs-Well b = by_runs b.plan.runs refl
      where
        by_runs :
            (runs : Option (List (BenchmarkRun F)))
            → b.plan.runs ≡ runs
            → Well b.plan (elim runs as (λ _. Outcome (PlanEnd S.Err × Bench F L S)) [
              | none ↦ returns (all_done, b)
              | some runs ↦ run_all L S J init received after khz b.plan [] runs b.host b.files
            ])
        by_runs none nil = λ fine. (
          [],
          [],
          ap elems nil,
          ap (λ o. length (elems o)) (sym nil),
          nothing_passed b.plan.filename b.files,
        )
        by_runs (some runs) there =
            run_all-EndsWell L S J init received after lawful khz b.plan [] runs b.host b.files
              (nothing_passed b.plan.filename b.files)

    run_opened-Well : (b : Bench F L S) → Well b.plan (run_opened L S J init received after khz b)
    unfolding run_opened
    run_opened-Well b = by_open (open_for L S J init received after b.plan b.host) refl
      where
        by_open :
            (o : Outcome (Option Error × Host L))
            → open_for L S J init received after b.plan b.host ≡ o
            → Well b.plan (run_opened L S J init received after khz b)
        by_open panics e = rw (e, run_opened) tt
        by_open (returns (some f, h)) e =
            rw (e, run_opened)
              (λ fine. ([], elems b.plan.runs, refl, refl, nothing_passed b.plan.filename b.files))
        by_open (returns (none, h)) e = rw (e, run_opened) (run_runs-Well (record b { host = h }))

  module _ (lawful : IsLawful S) (cpu : CpuInfo F S.Err) (khz : ℕ) (b : Bench F L S) where
    abbrev PlanWell : Outcome (ℕ × PlanEnd S.Err × Bench F L S) → Type 0
    PlanWell panics = Unit {0}
    PlanWell (returns (khz', end, b')) =
        saves_fine end ≡ true → EndsSaved S J b.plan.filename end (elems b'.plan.runs) b'.files

    with_khz-PlanWell :
        (khz' : ℕ) (o : Outcome (PlanEnd S.Err × Bench F L S))
        → Well lawful khz' b.plan o
        → PlanWell
            (◌>>=◌ {B = ℕ × PlanEnd S.Err × Bench F L S} o (λ (end, b'). returns (khz', end, b')))
    with_khz-PlanWell khz' panics well = tt
    with_khz-PlanWell khz' (returns (end, b')) well = well

    run_plan-PlanWell : PlanWell (run_plan L S J init received after cpu khz b)
    unfolding run_plan
    run_plan-PlanWell = elim (Option-cases (get_cpu_hz cpu khz).0) [
      | inr (e, unknown) ↦
          rw (unknown, run_plan)
            (λ fine. (
              [],
              elems b.plan.runs,
              refl,
              refl,
              nothing_passed lawful khz b.plan.filename b.files,
            ))
      | inl known ↦
          let khz' = (get_cpu_hz cpu khz).1 in
          rw (known, run_plan)
            (with_khz-PlanWell khz' (run_opened L S J init received after khz' b)
              (run_opened-Well lawful khz' b))
    ]

    -- Each completed run that `Run` has passed is in the plan's file as it is in the end, together with
    -- every other and as `json.Marshal` wrote them. `Run` may have handled all runs, have stopped with the error of
    -- a run, or be in the loop of a run. It is so where no `Save` has reported an error, and the calls
    -- on files do what they say.
    pub run_plan-saved :
        {khz' : ℕ} {end : PlanEnd S.Err} {b' : Bench F L S}
        → run_plan L S J init received after cpu khz b ≡ returns (khz', end, b')
        → saves_fine end ≡ true
        → (i : ℕ) (r : BenchmarkRun F) → i < count_passed end (length (elems b'.plan.runs))
        → get_elem? (elems b'.plan.runs) i ≡ some r
        → r.completed ≡ true
        → (held : BenchmarkPlan F) × (content S b.plan.filename b'.files ≡ some (J.marshal held).1)
          × ((j : ℕ) (r' : BenchmarkRun F)
              → j < count_passed end (length (elems b'.plan.runs))
              → get_elem? (elems b'.plan.runs) j ≡ some r'
              → r'.completed ≡ true
              → get_elem? (elems held.runs) j ≡ some r')
    run_plan-saved {khz'} {end} {b'} ends fine =
        let well : PlanWell (returns (khz', end, b')) = subst PlanWell ends run_plan-PlanWell in
        EndsSaved-below S J b.plan.filename end (elems b'.plan.runs) b'.files (well fine)
