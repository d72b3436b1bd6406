-- ===== src/PlanRun/Kept.antt =====
-- What `BenchmarkPlan.Run` does not do: no run is added or taken away, and a run that is completed is
-- not run again.
use schedbench.Base.{
  ℕ, zero, suc, ◌≡◌, refl, sym, ◌∙◌, ap, subst, List, [], ◌∷◌, ◌++◌, Option, none, some, true, not,
  if◌then◌else◌, Option-cases, inl, inr, length, get_elem?, append_nil, append_snoc, arith,
}
use schedbench.Base.Outcome.{Outcome, returns, panics, ◌>>=◌, elems}
use schedbench.Bench.{WorkerParams, WorkerConfig, BenchmarkRun, BenchmarkPlan}
use schedbench.Xl.{Libxl, Host, Error}
use schedbench.Run.{Event}
use schedbench.Workers.{AnyWorker}
use schedbench.Store.{Files, Json}
use schedbench.Cpu.{CpuInfo, get_cpu_hz}
use schedbench.PlanRun.{
  RunEnd, back, not_back, PlanEnd, all_done, Bench, with_runs, pass_run, run_one, save_completed,
  run_all, open_for, run_runs, run_opened, run_plan,
}

-- The runs before and after, one by one.
abbrev pub AreKept : {F : Type 0} → List (BenchmarkRun F) → List (BenchmarkRun F) → Type 0
AreKept [] [] = Unit {0}
AreKept [] (r' ∷ runs') = ⊥
AreKept (r ∷ runs) [] = ⊥
AreKept (r ∷ runs) (r' ∷ runs') = (r.completed ≡ true → r' ≡ r) × AreKept runs runs'

AreKept-refl : {F : Type 0} (runs : List (BenchmarkRun F)) → AreKept runs runs
AreKept-refl [] = tt
AreKept-refl (r ∷ runs) = (λ c. refl, AreKept-refl runs)

length-AreKept :
    {F : Type 0} (runs runs' : List (BenchmarkRun F))
    → AreKept runs runs'
    → length runs' ≡ length runs
length-AreKept [] [] k = refl
length-AreKept [] (r' ∷ runs') k = absurd k
length-AreKept (r ∷ runs) [] k = absurd k
length-AreKept (r ∷ runs) (r' ∷ runs') (same, k) = ap suc (length-AreKept runs runs' k)

get_elem?-AreKept :
    {F : Type 0} (runs runs' : List (BenchmarkRun F)) (j : ℕ) (r : BenchmarkRun F)
    → AreKept runs runs'
    → get_elem? runs j ≡ some r
    → r.completed ≡ true
    → get_elem? runs' j ≡ some r
get_elem?-AreKept {F = F} [] runs' j r k h c = absurd (ground (arith, h))
get_elem?-AreKept {F = F} (r0 ∷ runs) [] j r k h c = absurd k
get_elem?-AreKept {F = F} (r0 ∷ runs) (r' ∷ runs') zero r (same, k) h c =
    let one : r0 ≡ r = ground (arith, h) in
    ap some (same (ap (λ (r : BenchmarkRun F). r.completed) one ∙ c) ∙ one)
get_elem?-AreKept {F = F} (r0 ∷ runs) (r' ∷ runs') (suc j) r (same, k) h c =
    get_elem?-AreKept runs runs' j r k h c

module _ {F : Type 0} (L : Libxl) (S : Files) (J : Json F S.Err)
    (init : WorkerParams → WorkerConfig → AnyWorker → AnyWorker) (received : ℕ → List Event)
    (after : ℕ → Host L → Host L) (khz : ℕ) where
  pass_run-completed :
      (plan : BenchmarkPlan F) (i : ℕ) (r : BenchmarkRun F) (h : Host L)
      → r.completed ≡ true
      → pass_run L S J init received after khz plan i r h ≡ returns (back none, r, h)
  unfolding pass_run
  pass_run-completed plan i r h c =
      ap
        (λ b.
          if not b
          then run_one L S J init received after khz plan i r h
          else returns (back none, r, h))
        c

  -- The runs that a loop over `runs`, after `passed`, leaves.
  abbrev Leaves :
      List (BenchmarkRun F) → List (BenchmarkRun F) → Outcome (PlanEnd S.Err × Bench F L S) → Type 0
  Leaves passed runs panics = Unit {0}
  Leaves passed runs (returns (end, b)) =
      (runs' : List (BenchmarkRun F)) × (elems b.plan.runs ≡ passed ++ runs') × AreKept runs runs'

  -- One run further.
  longer :
      (passed runs : List (BenchmarkRun F)) (r0 r : BenchmarkRun F)
      (o : Outcome (PlanEnd S.Err × Bench F L S))
      → (r0.completed ≡ true → r ≡ r0)
      → Leaves (passed ++ r ∷ []) runs o
      → Leaves passed (r0 ∷ runs) o
  longer passed runs r0 r panics same l = tt
  longer passed runs r0 r (returns (end, b)) same (runs', split, kept) =
      (r ∷ runs', split ∙ append_snoc passed r runs', (same, kept))

  run_all-Leaves :
      (plan : BenchmarkPlan F) (passed runs : List (BenchmarkRun F)) (h : Host L) (w : S.World)
      → Leaves passed runs (run_all L S J init received after khz plan passed runs h w)
  unfolding run_all
  run_all-Leaves plan passed [] h w = ([], sym (append_nil passed), tt)
  run_all-Leaves plan passed (r0 ∷ runs) h0 w =
      go (pass_run L S J init received after khz plan (length passed) r0 h0)
        (λ r. run_all-Leaves plan (passed ++ r ∷ []) runs) refl
    where
      same_run :
          (end : RunEnd) (r : BenchmarkRun F) (h : Host L)
          → pass_run L S J init received after khz plan (length passed) r0 h0 ≡ returns (end, r, h)
          → r0.completed ≡ true
          → r ≡ r0
      same_run end r h e c =
          let eq = sym e ∙ pass_run-completed plan (length passed) r0 h0 c in ground (arith, eq)

      go :
          (o : Outcome (RunEnd × BenchmarkRun F × Host L))
          → ((r : BenchmarkRun F) (h : Host L) (w : S.World)
              → Leaves
                  (passed ++ r ∷ [])
                  runs
                  (run_all L S J init received after khz plan (passed ++ r ∷ []) runs h w))
          → pass_run L S J init received after khz plan (length passed) r0 h0 ≡ o
          → Leaves passed
              (r0 ∷ runs)
              (run_all L S J init received after khz plan passed (r0 ∷ runs) h0 w)
      go panics again e = rw (e, run_all) tt
      go (returns (not_back, r, h)) again e =
          rw (e, run_all) (r ∷ runs, refl, (same_run not_back r h e, AreKept-refl runs))
      go (returns (back (some f), r, h)) again e =
          rw (e, run_all) (r ∷ runs, refl, (same_run (back (some f)) r h e, AreKept-refl runs))
      go (returns (back none, r, h)) again e =
          let same = same_run (back none) r h e in
          let kept =
            save_completed L S J init received after r (with_runs plan (passed ++ r ∷ runs)) w in
          rw (e, run_all)
            (elim (Option-cases kept.0) [
              | inr (f, failed) ↦ rw failed (r ∷ runs, refl, (same, AreKept-refl runs))
              | inl saved ↦ rw saved (
                  longer passed runs r0 r
                    (run_all L S J init received after khz plan (passed ++ r ∷ []) runs h kept.1)
                    same (again r h kept.1))
            ])

  run_runs-Leaves :
      (b : Bench F L S) → Leaves [] (elems b.plan.runs) (run_runs L S J init received after khz b)
  unfolding run_runs
  run_runs-Leaves b = by_runs b.plan.runs refl
    where
      by_runs :
          (runs : Option (List (BenchmarkRun F)))
          → b.plan.runs ≡ runs
          → Leaves [] (elems runs) (elim runs as (λ _. Outcome (PlanEnd S.Err × Bench F L S)) [
            | none ↦ returns (all_done, b)
            | some runs ↦ run_all L S J init received after khz b.plan [] runs b.host b.files
          ])
      by_runs none nil = ([], ap elems nil, tt)
      by_runs (some runs) there = run_all-Leaves b.plan [] runs b.host b.files

  run_opened-Leaves :
      (b : Bench F L S) → Leaves [] (elems b.plan.runs) (run_opened L S J init received after khz b)
  unfolding run_opened
  run_opened-Leaves b = by_open (open_for L S J init received after b.plan b.host) refl
    where
      by_open :
          (o : Outcome (Option Error × Host L))
          → open_for L S J init received after b.plan b.host ≡ o
          → Leaves [] (elems b.plan.runs) (run_opened L S J init received after khz b)
      by_open panics e = rw (e, run_opened) tt
      by_open (returns (some f, h)) e =
          rw (e, run_opened) (elems b.plan.runs, refl, AreKept-refl (elems b.plan.runs))
      by_open (returns (none, h)) e = rw (e, run_opened) (run_runs-Leaves (record b { host = h }))

module _ {F : Type 0} (L : Libxl) (S : Files) (J : Json F S.Err)
    (init : WorkerParams → WorkerConfig → AnyWorker → AnyWorker) (received : ℕ → List Event)
    (after : ℕ → Host L → Host L) (cpu : CpuInfo F S.Err) (khz : ℕ) (b : Bench F L S) where
  -- The runs that the whole of `Run` leaves.
  abbrev LeavesRuns : Outcome (ℕ × PlanEnd S.Err × Bench F L S) → Type 0
  LeavesRuns panics = Unit {0}
  LeavesRuns (returns (khz', end, b')) = AreKept (elems b.plan.runs) (elems b'.plan.runs)

  with_khz :
      (khz' : ℕ) (o : Outcome (PlanEnd S.Err × Bench F L S))
      → Leaves L S J init received after khz' [] (elems b.plan.runs) o
      → LeavesRuns
          (◌>>=◌ {B = ℕ × PlanEnd S.Err × Bench F L S} o (λ (end, b'). returns (khz', end, b')))
  with_khz khz' panics l = tt
  with_khz khz' (returns (end, b')) (runs', split, kept) =
      subst (AreKept (elems b.plan.runs)) (sym split) kept

  run_plan-LeavesRuns : LeavesRuns (run_plan L S J init received after cpu khz b)
  unfolding run_plan
  run_plan-LeavesRuns = elim (Option-cases (get_cpu_hz cpu khz).0) [
    | inr (e, unknown) ↦ rw (unknown, run_plan) (AreKept-refl (elems b.plan.runs))
    | inl known ↦
        let khz' = (get_cpu_hz cpu khz).1 in
        rw (known, run_plan)
          (with_khz khz' (run_opened L S J init received after khz' b)
            (run_opened-Leaves L S J init received after khz' b))
  ]

  -- However `Run` ends, unless it panics, the plan has as many runs as before, and a run that was
  -- completed is as it was: it has not been run again.
  pub run_plan-keeps :
      {khz' : ℕ} {end : PlanEnd S.Err} {b' : Bench F L S}
      → run_plan L S J init received after cpu khz b ≡ returns (khz', end, b')
      → (length (elems b'.plan.runs) ≡ length (elems b.plan.runs))
        × ((j : ℕ) (r : BenchmarkRun F)
            → get_elem? (elems b.plan.runs) j ≡ some r
            → r.completed ≡ true
            → get_elem? (elems b'.plan.runs) j ≡ some r)
  run_plan-keeps {khz'} {end} {b'} ends =
      let kept : LeavesRuns (returns (khz', end, b')) = subst LeavesRuns ends run_plan-LeavesRuns in
      let before = elems b.plan.runs in
      let runs' = elems b'.plan.runs in
      (length-AreKept before runs' kept, λ j r h c. get_elem?-AreKept before runs' j r kept h c)
