-- ===== src/Store/Keeps.antt =====
-- What an unsuccessful `Save` leaves, and what is read after a successful one.
use schedbench.Base.{
  ◌≡◌, refl, sym, ◌∙◌, true, false, Option, none, some, Option-cases, Bool-cases, inl, inr, ◌⊎◌,
  Text, is_empty, ap, arith,
}
use schedbench.Bench.{BenchmarkPlan, zero_plan}
use schedbench.Store.{Files, Json, SaveError, failed, backup_of, save, load_benchmark}
use schedbench.Store.Safe.{
  content, IsLawful, backup_differs, write_plan-written, write_plan-failed, save-backed_up,
  save-no_backup, save-content,
}

content-read_file :
    (S : Files) (name b : Text) (w : Files.World S)
    → content S name w ≡ some b
    → Files.read_file S name w ≡ (none, b)
content-read_file S name b w h = elim (Option-cases (S.read_file name w).0) [
  | inl read ↦ ground (arith, h, read)
  | inr (e, failure) ↦ absurd (ground (arith, h, failure))
]

module _ {F : Type 0} (S : Files) (J : Json F S.Err) (lawful : IsLawful S) (plan : BenchmarkPlan F)
    (w : S.World) where
  -- After a `Save` that reports no error, `LoadBenchmark` of the file gives the plan back, where the
  -- calls on files do what they say and `json.Unmarshal` reads the plan from what was written.
  pub save-load :
      (save S J plan w).0 ≡ none
      → J.unmarshal (J.marshal plan).1 (record zero_plan { filename = plan.filename })
        ≡ (none, plan)
      → load_benchmark S J plan.filename (save S J plan w).1 ≡ (plan, none)
  unfolding load_benchmark
  save-load ok again =
      let start : BenchmarkPlan F = record zero_plan { filename = plan.filename } in
      let read =
        content-read_file S plan.filename (J.marshal plan).1 (save S J plan w).1
          (save-content S J lawful plan w ok) in
      let finish : Option S.Err × Text → BenchmarkPlan F × Option S.Err = λ out. elim out.0 [
        | some e ↦ (start, some e)
        | none ↦ ((J.unmarshal out.1 start).1, (J.unmarshal out.1 start).0)
      ] in
      ap finish read ∙ ap (λ out. (out.1, out.0)) again

  abbrev backup : Text
  backup = backup_of plan.filename

  -- The old file is where it was, or under the name of the backup.
  abbrev pub IsKept : S.World → Type 0
  IsKept w' =
      (content S plan.filename w' ≡ content S plan.filename w)
      ⊎ (content S backup w' ≡ content S plan.filename w)

  restored :
      (w2 : S.World)
      → content S backup w2 ≡ content S plan.filename w
      → IsKept (S.rename backup plan.filename w2).1
  restored w2 held = elim (Option-cases (S.rename backup plan.filename w2).0) [
    | inl moved ↦ inl (lawful.rename_moves backup plan.filename w2 moved ∙ held)
    | inr (e, refused) ↦
        inr (ap (content S backup) (lawful.rename_fails backup plan.filename w2 refused) ∙ held)
  ]

  -- An error before the plan has its bytes.
  nothing_done :
      (is_empty plan.filename ≡ true) ⊎ ((e : S.Err) × ((J.marshal plan).0 ≡ some e))
      → (save S J plan w).1 ≡ w
  unfolding save
  nothing_done (inl nameless) = rw nameless refl
  nothing_done (inr (e, refused)) = elim (Bool-cases (is_empty plan.filename)) [
    | inl nameless ↦ rw nameless refl
    | inr named ↦ rw (named, refused) refl
  ]

  written_IsKept :
      {e : SaveError S.Err}
      → (save S J plan w).0 ≡ some e
      → is_empty plan.filename ≡ false
      → (J.marshal plan).0 ≡ none
      → (S.rename plan.filename backup w).0 ≡ none
      → IsKept (save S J plan w).1
  written_IsKept bad named marshalled renamed =
      let bs : Text = (J.marshal plan).1 in
      let w1 : S.World = (S.rename plan.filename backup w).1 in
      let w2 : S.World = (S.write_file plan.filename bs w1).1 in
      let same = save-backed_up S J lawful plan w named marshalled renamed in
      elim (Option-cases (S.write_file plan.filename bs w1).0) [
        | inl written ↦
            let fine = write_plan-written S J lawful plan.filename backup bs w1 written in
            absurd (ground (arith, bad, same, fine))
        | inr (e, failure) ↦
            let undone = write_plan-failed S J lawful plan.filename backup bs w1 failure in
            let held : content S backup w2 ≡ content S plan.filename w =
              lawful.write_other plan.filename bs backup w1
                (λ e. backup_differs plan.filename (sym e))
              ∙ lawful.rename_moves plan.filename backup w renamed in
            let out : S.World = (S.rename backup plan.filename w2).1 in
            let end : (save S J plan w).1 ≡ out = ap (λ out. out.1) (same ∙ undone) in
            rw end (restored w2 held)
      ]

  -- A `Save` that reports an error loses nothing: the file holds what it held, or the backup does.
  -- It is so where the calls on files do what they say, and the first renaming did not fail with an
  -- error that `IsNotExist` takes for a missing file.
  pub save-IsKept :
      {e : SaveError S.Err}
      → (save S J plan w).0 ≡ some e
      → ((x : S.Err) → (S.rename plan.filename backup w).0 ≡ some x → S.is_not_exist x ≡ false)
      → IsKept (save S J plan w).1
  save-IsKept bad present = elim (Bool-cases (is_empty plan.filename)) [
    | inl nameless ↦ inl (ap (content S plan.filename) (nothing_done (inl nameless)))
    | inr named ↦ elim (Option-cases (J.marshal plan).0) [
      | inr refused ↦ inl (ap (content S plan.filename) (nothing_done (inr refused)))
      | inl marshalled ↦ elim (Option-cases (S.rename plan.filename backup w).0) [
        | inl renamed ↦ written_IsKept bad named marshalled renamed
        | inr (e, refused) ↦
            let same = save-no_backup S J lawful plan w named marshalled refused in
            let stopped : save S J plan w ≡ (some (failed e), (S.rename plan.filename backup w).1) =
              rw (present e refused) at same in
            inl (
              ap (λ out. content S plan.filename out.1) stopped
              ∙ ap (content S plan.filename) (lawful.rename_fails plan.filename backup w refused))
      ]
    ]
  ]
