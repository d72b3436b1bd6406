-- ===== src/PlanRun/Saved.antt =====
-- What is in the plan's file when `BenchmarkPlan.Run` ends.
use schedbench.Base.{
  ℕ, ◌<◌, ◌≡◌, refl, sym, ◌∙◌, ap, subst, List, [], ◌∷◌, ◌++◌, Option, none, some, Bool, true,
  false, Bool-cases, Option-cases, inl, inr, length, get_elem?, append_nil, append_snoc,
  get_elem?-append, get_elem?-snoc, get_elem?-lt, arith, Text, if◌then◌else◌,
}
use schedbench.Base.Outcome.{Outcome, returns, panics, elems}
use schedbench.Bench.{WorkerParams, WorkerConfig, BenchmarkRun, BenchmarkPlan}
use schedbench.Xl.{Libxl, Host}
use schedbench.Run.{Event}
use schedbench.Workers.{AnyWorker}
use schedbench.Store.{Files, Json, SaveError, save}
use schedbench.Store.Safe.{content, IsLawful, save-content}
use schedbench.PlanRun.{
  RunEnd, back, not_back, PlanEnd, cannot_know_cpu, cannot_open, run_failed, save_failed, in_run,
  all_done, Bench, with_runs, pass_run, save_completed, run_all,
}

-- How many runs the loop has passed without an error, of those that the plan has.
abbrev pub count_passed : {E : Type 0} → PlanEnd E → ℕ → ℕ
count_passed (cannot_know_cpu e) n = 0
count_passed (cannot_open e) n = 0
count_passed (run_failed i e) n = i
count_passed (save_failed i e) n = i
count_passed (in_run i) n = i
count_passed all_done n = n

-- No `Save` has reported an error.
abbrev pub saves_fine : {E : Type 0} → PlanEnd E → Bool
saves_fine (cannot_know_cpu e) = true
saves_fine (cannot_open e) = true
saves_fine (run_failed i e) = true
saves_fine (save_failed i e) = false
saves_fine (in_run i) = true
saves_fine all_done = true

module _ {F : Type 0} (S : Files) (J : Json F S.Err) (name : Text) where
  -- Every completed run of `passed` is in `held` as it is.
  abbrev pub Agrees : List (BenchmarkRun F) → List (BenchmarkRun F) → Type 0
  Agrees passed held =
      (j : ℕ) (r : BenchmarkRun F)
      → get_elem? passed j ≡ some r
      → r.completed ≡ true
      → get_elem? held j ≡ some r

  -- The file holds a plan, as `json.Marshal` writes it, with every completed run of `passed`.
  abbrev pub IsOnFile : List (BenchmarkRun F) → S.World → Type 0
  IsOnFile passed w =
      (held : BenchmarkPlan F) × (content S name w ≡ some (J.marshal held).1)
      × Agrees passed (elems held.runs)

  -- It is so as soon as one of them is completed.
  abbrev pub IsSaved : List (BenchmarkRun F) → S.World → Type 0
  IsSaved passed w =
      (j : ℕ) (r : BenchmarkRun F)
      → get_elem? passed j ≡ some r
      → r.completed ≡ true
      → IsOnFile passed w

  snoc-Agrees :
      (passed held : List (BenchmarkRun F)) (y : BenchmarkRun F)
      → y.completed ≡ false
      → Agrees passed held
      → Agrees (passed ++ y ∷ []) held
  snoc-Agrees passed held y unfinished agrees j r h c = elim (get_elem?-snoc passed y j h) [
    | inl old ↦ agrees j r old c
    | inr new ↦ absurd (ground (arith, ap (λ (r : BenchmarkRun F). r.completed) new, c, unfinished))
  ]

  snoc-IsSaved :
      (passed : List (BenchmarkRun F)) (y : BenchmarkRun F) (w : S.World)
      → y.completed ≡ false
      → IsSaved passed w
      → IsSaved (passed ++ y ∷ []) w
  snoc-IsSaved passed y w unfinished saved j r h c = elim (get_elem?-snoc passed y j h) [
    | inl old ↦
        let (held, there, agrees) = saved j r old c in
        (held, there, snoc-Agrees passed (elems held.runs) y unfinished agrees)
    | inr new ↦ absurd (ground (arith, ap (λ (r : BenchmarkRun F). r.completed) new, c, unfinished))
  ]

  -- After a `Save` with no error.
  save-IsSaved :
      IsLawful S
      → (plan : BenchmarkPlan F) (passed runs : List (BenchmarkRun F)) (y : BenchmarkRun F)
        (w : S.World)
      → plan.filename ≡ name
      → (save S J (with_runs plan (passed ++ y ∷ runs)) w).0 ≡ none
      → IsSaved (passed ++ y ∷ []) (save S J (with_runs plan (passed ++ y ∷ runs)) w).1
  save-IsSaved lawful plan passed runs y w named ok j r h c =
      let plan' : BenchmarkPlan F = with_runs plan (passed ++ y ∷ runs) in
      (
        plan',
        ap (λ n. content S n (save S J plan' w).1) (sym named) ∙ save-content S J lawful plan' w ok,
        λ j r h c.
            ap (λ l. get_elem? l j) (sym (append_snoc passed y runs))
            ∙ get_elem?-append (passed ++ y ∷ []) runs j (get_elem?-lt (passed ++ y ∷ []) j h)
            ∙ h,
      )

  -- How the loop ends: the runs that it has passed are those before `i`, and what is completed of
  -- them is saved.
  abbrev pub EndsSaved : PlanEnd S.Err → List (BenchmarkRun F) → S.World → Type 0
  EndsSaved end runs w =
      (passed rest : List (BenchmarkRun F)) × (runs ≡ passed ++ rest)
      × (length passed ≡ count_passed end (length runs))
      × IsSaved passed w

  -- So each completed run that has been passed is in the file.
  pub EndsSaved-below :
      (end : PlanEnd S.Err) (runs : List (BenchmarkRun F)) (w : S.World)
      → EndsSaved end runs w
      → (i : ℕ) (r : BenchmarkRun F) → i < count_passed end (length runs)
      → get_elem? runs i ≡ some r
      → r.completed ≡ true
      → (held : BenchmarkPlan F) × (content S name w ≡ some (J.marshal held).1)
        × ((j : ℕ) (r' : BenchmarkRun F)
            → j < count_passed end (length runs)
            → get_elem? runs j ≡ some r'
            → r'.completed ≡ true
            → get_elem? (elems held.runs) j ≡ some r')
  EndsSaved-below end runs w (passed, rest, same, long, saved) i r below h c =
      let at : (j : ℕ)
          → j < count_passed end (length runs)
          → get_elem? passed j ≡ get_elem? runs j =
        λ j below.
          sym (get_elem?-append passed rest j (omega (arith, below, long)))
          ∙ ap (λ l. get_elem? l j) (sym same) in
      let (held, there, agrees) = saved i r (at i below ∙ h) c in
      (held, there, λ j r' below h c. agrees j r' (at j below ∙ h) c)

module _ {F : Type 0} (L : Libxl) (S : Files) (J : Json F S.Err)
    (init : WorkerParams → WorkerConfig → AnyWorker → AnyWorker) (received : ℕ → List Event)
    (after : ℕ → Host L → Host L) (lawful : IsLawful S) (khz : ℕ) (plan : BenchmarkPlan F) where
  abbrev run_rest :
      List (BenchmarkRun F)
      → List (BenchmarkRun F)
      → Host L
      → S.World
      → Outcome (PlanEnd S.Err × Bench F L S)
  run_rest = run_all L S J init received after khz plan

  abbrev keep :
      BenchmarkRun F
      → List (BenchmarkRun F)
      → List (BenchmarkRun F)
      → S.World
      → Option (SaveError S.Err) × S.World
  keep r passed runs =
      save_completed L S J init received after r (with_runs plan (passed ++ r ∷ runs))

  keep-IsSaved :
      (passed runs : List (BenchmarkRun F)) (r : BenchmarkRun F) (w : S.World)
      → IsSaved S J plan.filename passed w
      → (keep r passed runs w).0 ≡ none
      → IsSaved S J plan.filename (passed ++ r ∷ []) (keep r passed runs w).1
  unfolding save_completed
  keep-IsSaved passed runs r w saved ok =
      let plan' : BenchmarkPlan F = with_runs plan (passed ++ r ∷ runs) in
      let choose : Bool → Option (SaveError S.Err) × S.World =
        λ b. if b then save S J plan' w else (none, w) in
      elim (Bool-cases r.completed) [
        | inl finished ↦
            let same : keep r passed runs w ≡ save S J plan' w = ap choose finished in
            subst (λ out. IsSaved S J plan.filename (passed ++ r ∷ []) out.1) (sym same)
              (save-IsSaved S J plan.filename lawful plan passed runs r w refl
                (ap (λ out. out.0) (sym same) ∙ ok))
        | inr unfinished ↦
            let same : keep r passed runs w ≡ (none, w) = ap choose unfinished in
            subst (λ out. IsSaved S J plan.filename (passed ++ r ∷ []) out.1) (sym same)
              (snoc-IsSaved S J plan.filename passed r w unfinished saved)
      ]

  -- `EndsSaved` where the loop returns and no `Save` has failed.
  abbrev pub EndsWell : Outcome (PlanEnd S.Err × Bench F L S) → Type 0
  EndsWell panics = Unit {0}
  EndsWell (returns (end, b)) =
      saves_fine end ≡ true → EndsSaved S J plan.filename end (elems b.plan.runs) b.files

  pub run_all-EndsWell :
      (passed runs : List (BenchmarkRun F)) (h : Host L) (w : S.World)
      → IsSaved S J plan.filename passed w
      → EndsWell (run_rest passed runs h w)
  unfolding run_all save_completed
  run_all-EndsWell passed [] h w saved = λ fine. (passed, [], sym (append_nil passed), refl, saved)
  run_all-EndsWell passed (r0 ∷ runs) h0 w saved =
      go (pass_run L S J init received after khz plan (length passed) r0 h0)
        (λ r. run_all-EndsWell (passed ++ r ∷ []) runs) refl
    where
      stopped :
          (r : BenchmarkRun F) (end : PlanEnd S.Err)
          → count_passed end (length (passed ++ r ∷ runs)) ≡ length passed
          → EndsSaved S J plan.filename end (passed ++ r ∷ runs) w
      stopped r end i = (passed, r ∷ runs, refl, sym i, saved)

      go :
          (o : Outcome (RunEnd × BenchmarkRun F × Host L))
          → ((r : BenchmarkRun F) (h : Host L) (w : S.World)
              → IsSaved S J plan.filename (passed ++ r ∷ []) w
              → EndsWell (run_rest (passed ++ r ∷ []) runs h w))
          → pass_run L S J init received after khz plan (length passed) r0 h0 ≡ o
          → EndsWell (run_rest passed (r0 ∷ runs) h0 w)
      go panics again e = rw (e, run_all) tt
      go (returns (not_back, r, h)) again e =
          rw (e, run_all) (λ fine. stopped r (in_run (length passed)) refl)
      go (returns (back (some f), r, h)) again e =
          rw (e, run_all) (λ fine. stopped r (run_failed (length passed) f) refl)
      go (returns (back none, r, h)) again e =
          rw (e, run_all)
            (elim (Option-cases (keep r passed runs w).0) [
              | inr (f, failed) ↦ rw failed (λ fine. absurd (ground (arith, fine)))
              | inl kept ↦
                  rw kept
                    (again r h (keep r passed runs w).1 (keep-IsSaved passed runs r w saved kept))
            ])
