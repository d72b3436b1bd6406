-- ===== src/Command/Plans.antt =====
-- What the word `plan` does, from the file that it loads to the file that it saves.
use schedbench.Base.{◌≡◌, refl, sym, ◌∙◌, ap, none, some, Option-cases, inl, inr, Text, arith}
use schedbench.Bench.{BenchmarkPlan, Presets, zero_plan}
use schedbench.Xl.{Libxl}
use schedbench.Store.{Files, load_benchmark, save}
use schedbench.Store.Safe.{content, IsLawful, save-content}
use schedbench.Plan.{clear_runs, expand_input}
use schedbench.Command.{Main, Setting, loadfile, from_template, expand_and_save, plan_command}

expand_input-filename :
    {F : Type 0} (plan : BenchmarkPlan F) (m : Presets)
    → (expand_input plan m).1.filename ≡ plan.filename
unfolding expand_input
expand_input-filename plan m = ground arith

module _ {F : Type 0} (L : Libxl) (S : Files) (st : Setting F L S) (lawful : IsLawful S) where
  -- `json.Unmarshal` leaves the name alone, a field with a small letter.
  module _
      (keeps_name : (b : Text) (plan : BenchmarkPlan F)
        → (st.json.unmarshal b plan).1.filename ≡ plan.filename) where
    load_benchmark-filename :
        (name : Text) (w : S.World) → (load_benchmark S st.json name w).0.filename ≡ name
    unfolding load_benchmark
    load_benchmark-filename name w = elim (Option-cases (S.read_file name w).0) [
      | inl read ↦
          rw (read, load_benchmark)
            (keeps_name (S.read_file name w).1 (record zero_plan { filename = name }))
      | inr (e, bad) ↦ rw (bad, load_benchmark) refl
    ]

    from_template-filename :
        (s : Main L S) (plan : BenchmarkPlan F)
        → plan.filename ≡ loadfile L S st s
        → (from_template L S st s plan).filename ≡ s.filename
    unfolding from_template loadfile clear_runs
    from_template-filename s plan h = ground (arith, h)

    expand_and_save-saved :
        (plan : BenchmarkPlan F) (s : Main L S)
        → (expand_and_save L S st plan s).0 ≡ none
        → let expanded = expand_input plan s.presets in
          (expanded.0 ≡ none)
          × (content S plan.filename (expand_and_save L S st plan s).1.files
              ≡ some (st.json.marshal expanded.1).1)
          × ((expand_and_save L S st plan s).1.presets ≡ expanded.2)
    unfolding expand_and_save
    expand_and_save-saved plan s ok =
        let plan' = (expand_input plan s.presets).1 in
        elim (Option-cases (expand_input plan s.presets).0) [
          | inr (e, bad) ↦ absurd (ground (arith, ok, bad))
          | inl fine ↦ elim (Option-cases (save S st.json plan' s.files).0) [
            | inr (e, bad) ↦ absurd (ground (arith, ok, fine, bad))
            | inl saved ↦
                let same : (expand_and_save L S st plan s).1.files
                    ≡ (save S st.json plan' s.files).1 =
                  ground (arith, fine, saved) in
                (
                  fine,
                  rw (fine, expand_and_save)
                      (rw saved (
                        ap (λ n. content S n (save S st.json plan' s.files).1)
                          (sym (expand_input-filename plan s.presets))
                        ∙ save-content S st.json lawful plan' s.files saved)),
                  ground (arith, fine, saved),
                )
          ]
        ]

    -- Where `plan` does not exit, the plan that it has loaded, from the template if there is one, has
    -- been expanded, and its file, not the template's, holds the expanded plan as `json.Marshal`
    -- wrote it. It is so where the calls on files do what they say, and `json.Unmarshal` leaves a
    -- plan's name as it is.
    pub plan_command-saved :
        (s : Main L S)
        → (plan_command L S st s).0 ≡ none
        → (plan : BenchmarkPlan F) × (load_benchmark S st.json (loadfile L S st s) s.files
            ≡ (plan, none))
          × (let expanded = expand_input (from_template L S st s plan) s.presets in
              (expanded.0 ≡ none)
              × (content S s.filename (plan_command L S st s).1.files
                  ≡ some (st.json.marshal expanded.1).1)
              × ((plan_command L S st s).1.presets ≡ expanded.2))
    unfolding plan_command
    plan_command-saved s ok =
        let got = load_benchmark S st.json (loadfile L S st s) s.files in
        elim (Option-cases got.1) [
          | inr (e, bad) ↦ absurd (ground (arith, ok, bad))
          | inl loaded ↦
              let same : plan_command L S st s
                  ≡ expand_and_save L S st (from_template L S st s got.0) s =
                rw (loaded, plan_command) refl in
              let (fine, held, presets) =
                expand_and_save-saved (from_template L S st s got.0) s
                  (ap (λ out. out.0) (sym same) ∙ ok) in
              let named =
                from_template-filename s got.0
                  (load_benchmark-filename (loadfile L S st s) s.files) in
              (
                got.0,
                ap (λ e. (got.0, e)) loaded,
                (
                  fine,
                  ap (λ out. content S s.filename out.1.files) same
                      ∙ ap
                          (λ n.
                            content S n
                              (expand_and_save L S st (from_template L S st s got.0) s).1.files)
                          (sym named)
                      ∙ held,
                  ap (λ out. out.1.presets) same ∙ presets,
                ),
              )
        ]
