-- ===== src/Store/Safe.antt =====
-- What `Save` leaves on the disk, and what `LoadBenchmark` reads of it.
use schedbench.Base.{
  ◌≡◌, ◌≢◌, refl, sym, ◌∙◌, ◌++◌, suc, ◌∷◌, [], not, false, Option, none, some, Option-cases,
  Bool-cases, inl, inr, if◌then◌else◌, Text, is_empty, codes, ap, arith, length, length-append,
}
use schedbench.Bench.{BenchmarkPlan}
use schedbench.Store.{Files, Json, failed, backup_of, save, write_plan}

-- What a file holds: `none` where it cannot be read.
abbrev pub content : (S : Files) → Text → Files.World S → Option Text
content S name w = let (err, b) = S.read_file name w in elim err [ some e ↦ none | none ↦ some b ]

-- What the calls on files do, as `os` documents them.
pub record IsLawful (S : Files) : Type 0 where
  pub rename_fails :
      (a b : Text) (w : S.World) {e : S.Err} → (S.rename a b w).0 ≡ some e → (S.rename a b w).1 ≡ w
  pub rename_moves :
      (a b : Text) (w : S.World)
      → (S.rename a b w).0 ≡ none
      → content S b (S.rename a b w).1 ≡ content S a w
  pub write_done :
      (a bs : Text) (w : S.World)
      → (S.write_file a bs w).0 ≡ none
      → content S a (S.write_file a bs w).1 ≡ some bs
  pub write_other :
      (a bs c : Text) (w : S.World) → c ≢ a → content S c (S.write_file a bs w).1 ≡ content S c w
  pub remove_other :
      (a c : Text) (w : S.World) → c ≢ a → content S c (S.remove a w).1 ≡ content S c w

pub backup_differs : (filename : Text) → filename ≢ backup_of filename
backup_differs filename e =
    let long : length filename ≡ suc (length (filename ++ codes ".tmp")) = ap length e in
    omega (arith, long, length-append filename (codes ".tmp"))

module _ {F : Type 0} (S : Files) (J : Json F S.Err) (lawful : IsLawful S) where
  -- The write went through.
  pub write_plan-written :
      (filename backup bs : Text) (w : S.World)
      → (S.write_file filename bs w).0 ≡ none
      → write_plan S J filename backup bs w ≡ (
        none,
        if not (is_empty backup)
            then (S.remove backup (S.write_file filename bs w).1).1
            else (S.write_file filename bs w).1,
      )
  unfolding write_plan
  write_plan-written filename backup bs w written = rw (written, write_plan) refl

  pub write_plan-failed :
      (filename backup bs : Text) (w : S.World) {e : S.Err}
      → (S.write_file filename bs w).0 ≡ some e
      → write_plan S J filename backup bs w ≡ (
        some (failed e),
        if not (is_empty backup)
            then (S.rename backup filename (S.write_file filename bs w).1).1
            else (S.write_file filename bs w).1,
      )
  unfolding write_plan
  write_plan-failed filename backup bs w failure = rw (failure, write_plan) refl

  cleaned-content :
      (filename backup bs : Text) (w : S.World)
      → filename ≢ backup
      → (S.write_file filename bs w).0 ≡ none
      → content S filename (
          if not (is_empty backup)
          then (S.remove backup (S.write_file filename bs w).1).1
          else (S.write_file filename bs w).1)
        ≡ some bs
  cleaned-content filename [] bs w differs written = lawful.write_done filename bs w written
  cleaned-content filename (c ∷ backup) bs w differs written =
      lawful.remove_other (c ∷ backup) filename (S.write_file filename bs w).1 differs
      ∙ lawful.write_done filename bs w written

  write_plan-content :
      (filename backup bs : Text) (w : S.World)
      → filename ≢ backup
      → (write_plan S J filename backup bs w).0 ≡ none
      → content S filename (write_plan S J filename backup bs w).1 ≡ some bs
  write_plan-content filename backup bs w differs ok =
      elim (Option-cases (S.write_file filename bs w).0) [
        | inl written ↦
            ap (λ out. content S filename out.1) (write_plan-written filename backup bs w written)
            ∙ cleaned-content filename backup bs w differs written
        | inr (e, failure) ↦
            let out = write_plan-failed filename backup bs w failure in
            absurd (ground (arith, ok, out))
      ]

  -- The three ways of `Save` after the plan has its bytes.
  pub save-backed_up :
      (plan : BenchmarkPlan F) (w : S.World)
      → is_empty plan.filename ≡ false
      → (J.marshal plan).0 ≡ none
      → (S.rename plan.filename (backup_of plan.filename) w).0 ≡ none
      → save S J plan w
        ≡ write_plan S J plan.filename
            (backup_of plan.filename)
            (J.marshal plan).1
            (S.rename plan.filename (backup_of plan.filename) w).1
  unfolding save
  save-backed_up plan w named marshalled renamed = rw (named, marshalled, renamed) refl

  pub save-no_backup :
      (plan : BenchmarkPlan F) (w : S.World) {e : S.Err}
      → is_empty plan.filename ≡ false
      → (J.marshal plan).0 ≡ none
      → (S.rename plan.filename (backup_of plan.filename) w).0 ≡ some e
      → save S J plan w ≡ (
          if S.is_not_exist e
          then write_plan S J plan.filename []
              (J.marshal plan).1
              (S.rename plan.filename (backup_of plan.filename) w).1
          else (some (failed e), (S.rename plan.filename (backup_of plan.filename) w).1))
  unfolding save
  save-no_backup plan w named marshalled refused = rw (named, marshalled, refused) refl

  save_begun :
      (plan : BenchmarkPlan F) (w : S.World)
      → (save S J plan w).0 ≡ none
      → (is_empty plan.filename ≡ false) × ((J.marshal plan).0 ≡ none)
  unfolding save
  save_begun plan w ok = ground arith

  -- After a `Save` that reports no error, the file holds the plan as `json.Marshal` wrote it, where
  -- the calls on files do what they say.
  pub save-content :
      (plan : BenchmarkPlan F) (w : S.World)
      → (save S J plan w).0 ≡ none
      → content S plan.filename (save S J plan w).1 ≡ some (J.marshal plan).1
  save-content plan w ok =
      let (named, marshalled) = save_begun plan w ok in
      let w1 : S.World = (S.rename plan.filename (backup_of plan.filename) w).1 in
      elim (Option-cases (S.rename plan.filename (backup_of plan.filename) w).0) [
        | inl renamed ↦
            let same = save-backed_up plan w named marshalled renamed in
            ap (λ out. content S plan.filename out.1) same
            ∙ write_plan-content plan.filename (backup_of plan.filename) (J.marshal plan).1 w1
                (backup_differs plan.filename) (sym (ap (λ out. out.0) same) ∙ ok)
        | inr (e, refused) ↦
            let same = save-no_backup plan w named marshalled refused in
            elim (Bool-cases (S.is_not_exist e)) [
              | inl missing ↦
                  let run : save S J plan w
                      ≡ write_plan S J plan.filename [] (J.marshal plan).1 w1 =
                    rw missing at same in
                  ap (λ out. content S plan.filename out.1) run
                  ∙ write_plan-content plan.filename [] (J.marshal plan).1 w1
                      (λ empty. absurd (ground (arith, named, empty)))
                      (sym (ap (λ out. out.0) run) ∙ ok)
              | inr other ↦ absurd (ground (arith, same, ok, other))
            ]
      ]
