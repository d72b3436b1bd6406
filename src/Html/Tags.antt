-- ===== src/Html/Tags.antt =====
-- The charts of a report: their tags, their titles and their points.
use schedbench.Base.{
  ℕ, zero, suc, ◌+◌, ◌*◌, ◌≡◌, refl, sym, ◌∙◌, ap, ap₂, subst, Text, List, [], ◌∷◌, ◌++◌, Option,
  none, some, length, length-append, get_elem?, append_nil, arith, codes,
}
use schedbench.Base.Outcome.{Outcome, returns, panics, ◌>>=◌, elems}
use schedbench.Bench.{BenchmarkRun, WorkerReport}
use schedbench.Summary.{Float, Table, ProcessError}
use schedbench.Summary.Loops.{process}
use schedbench.Html.{RunRaw}
use schedbench.Html.Collect.{all_points, tag_of, add_run, add_runs}
use schedbench.Html.Series.{tput_of, util_of, all_series, all_points-series}

module _ {F : Type 0} (fl : Float F) where
  -- Chart `n` of a report shows a rate of a run: its tag says its number, its title names the run and
  -- the rate, and its points are the series of each set of the run's summary.
  abbrev pub IsChart :
      Text → Text → (WorkerReport × WorkerReport → F) → ℕ → BenchmarkRun F → RunRaw F → Type 0
  IsChart name axis rate n r d = d ≡ record {
    tag = tag_of fl n;
    title = codes "Run " ++ r.label ++ name;
    h_title = codes "Time (s)";
    v_title = axis;
    points = all_series fl rate (elems r.results.summary);
  }

  abbrev pub IsTputChart : ℕ → BenchmarkRun F → RunRaw F → Type 0
  IsTputChart = IsChart (codes " Individual Throughput") (codes "Throughput (kOps)") (tput_of fl)

  abbrev pub IsUtilChart : ℕ → BenchmarkRun F → RunRaw F → Type 0
  IsUtilChart = IsChart (codes " Individual Utilization") (codes "Utilization") (util_of fl)

  -- Two charts for each run, numbered from `n` on.
  abbrev pub AreCharts : ℕ → List (BenchmarkRun F) → List (RunRaw F) → Type 0
  AreCharts n [] [] = Unit {0}
  AreCharts n [] (d ∷ raw) = ⊥
  AreCharts n (r ∷ runs) [] = ⊥
  AreCharts n (r ∷ runs) (t ∷ []) = ⊥
  AreCharts n (r ∷ runs) (t ∷ u ∷ raw) =
      IsTputChart n r t × IsUtilChart (suc n) r u × AreCharts (suc (suc n)) runs raw

  snoc_long : {A : Type 0} (xs : List A) (x : A) → length (xs ++ x ∷ []) ≡ suc (length xs)
  snoc_long xs x = omega (arith, length-append xs (x ∷ []))

  append_two : {A : Type 0} (xs : List A) (x y : A) → (xs ++ x ∷ []) ++ y ∷ [] ≡ xs ++ x ∷ y ∷ []
  append_two [] x y = refl
  append_two (z ∷ xs) x y = ap (λ l. z ∷ l) (append_two xs x y)

  add_run-IsChart :
      (raw : List (RunRaw F)) (r : BenchmarkRun F)
      → (t u : RunRaw F) × (add_run fl raw r ≡ raw ++ t ∷ u ∷ [])
        × IsTputChart (length raw) r t
        × IsUtilChart (suc (length raw)) r u
  unfolding add_run
  add_run-IsChart raw r =
      let summary = elems r.results.summary in
      let both = all_points fl summary ([], []) in
      let (tput, util) = all_points-series fl summary ([], []) in
      let t : RunRaw F = record {
        tag = tag_of fl (length raw);
        title = codes "Run " ++ r.label ++ codes " Individual Throughput";
        h_title = codes "Time (s)";
        v_title = codes "Throughput (kOps)";
        points = both.0;
      } in
      let u : RunRaw F = record {
        tag = tag_of fl (length (raw ++ t ∷ []));
        title = codes "Run " ++ r.label ++ codes " Individual Utilization";
        h_title = codes "Time (s)";
        v_title = codes "Utilization";
        points = both.1;
      } in
      (
        t,
        u,
        append_two raw t u,
        ap (λ l. record t { points = l }) tput,
        ap₂ (λ n l. record u { tag = tag_of fl n; points = l }) (snoc_long raw t) util,
      )

  -- What a loop over runs leaves: charts after those of before, two for each run.
  abbrev Adds :
      List (RunRaw F)
      → Outcome (Option (ℕ × ProcessError) × List (RunRaw F) × List (BenchmarkRun F))
      → Type 0
  Adds raw panics = Unit {0}
  Adds raw (returns (some e, raw', runs')) = Unit {0}
  Adds raw (returns (none, raw', runs')) =
      (more : List (RunRaw F)) × (raw' ≡ raw ++ more) × AreCharts (length raw) runs' more

  abbrev Runs : Type 0
  Runs = Option (ℕ × ProcessError) × List (RunRaw F) × List (BenchmarkRun F)

  append_pair :
      {A : Type 0} (xs : List A) (x y : A) (ys : List A)
      → (xs ++ x ∷ y ∷ []) ++ ys ≡ xs ++ x ∷ y ∷ ys
  append_pair [] x y ys = refl
  append_pair (z ∷ xs) x y ys = ap (λ l. z ∷ l) (append_pair xs x y ys)

  longer :
      (raw : List (RunRaw F)) (r : BenchmarkRun F) (o : Outcome Runs)
      → Adds (add_run fl raw r) o
      → Adds raw (◌>>=◌ {B = Runs} o (λ (err, raw', runs'). returns (err, raw', r ∷ runs')))
  longer raw r panics adds = tt
  longer raw r (returns (some e, raw', runs')) adds = tt
  longer raw r (returns (none, raw', runs')) (more, split, charts) =
      let (t, u, added, first, second) = add_run-IsChart raw r in
      let long : length (add_run fl raw r) ≡ suc (suc (length raw)) =
        ap length added ∙ omega (arith, length-append raw (t ∷ u ∷ [])) in
      (
        t ∷ u ∷ more,
        split ∙ ap (λ l. l ++ more) added ∙ append_pair raw t u more,
        (first, second, subst (λ n. AreCharts n runs' more) long charts),
      )

  add_runs-Adds :
      (visit : Table → Table) (i : ℕ) (runs : List (BenchmarkRun F)) (raw : List (RunRaw F))
      → Adds raw (add_runs fl visit i runs raw)
  unfolding add_runs
  add_runs-Adds visit i [] raw = ([], sym (append_nil raw), tt)
  add_runs-Adds visit i (r ∷ runs) raw =
      go (process fl visit r) (λ r'. add_runs-Adds visit (suc i) runs (add_run fl raw r')) refl
    where
      go :
          (o : Outcome (Option ProcessError × BenchmarkRun F))
          → ((r' : BenchmarkRun F)
              → Adds (add_run fl raw r') (add_runs fl visit (suc i) runs (add_run fl raw r')))
          → process fl visit r ≡ o
          → Adds raw (add_runs fl visit i (r ∷ runs) raw)
      go panics again e = rw (e, add_runs) tt
      go (returns (some f, r')) again e = rw (e, add_runs) tt
      go (returns (none, r')) again e =
          rw (e, add_runs)
            (longer raw r' (add_runs fl visit (suc i) runs (add_run fl raw r')) (again r'))

  move-IsChart :
      (Shows : ℕ → BenchmarkRun F → RunRaw F → Type 0) {n m : ℕ} (r0 r : BenchmarkRun F)
      (d : RunRaw F)
      → n ≡ m
      → r0 ≡ r
      → Shows n r0 d
      → Shows m r d
  move-IsChart Shows {n} {m} r0 r d same one chart =
      subst (λ r. Shows m r d) one (subst (λ n. Shows n r0 d) same chart)

  get_elem?-AreCharts :
      (n : ℕ) (runs : List (BenchmarkRun F)) (raw : List (RunRaw F)) (k : ℕ) (r : BenchmarkRun F)
      → AreCharts n runs raw
      → get_elem? runs k ≡ some r
      → (t u : RunRaw F) × (get_elem? raw (2 * k) ≡ some t)
        × (get_elem? raw (suc (2 * k)) ≡ some u)
        × IsTputChart (n + 2 * k) r t
        × IsUtilChart (suc (n + 2 * k)) r u
  get_elem?-AreCharts n [] [] k r charts h = absurd (ground (arith, h))
  get_elem?-AreCharts n [] (d ∷ raw) k r charts h = absurd charts
  get_elem?-AreCharts n (r0 ∷ runs) [] k r charts h = absurd charts
  get_elem?-AreCharts n (r0 ∷ runs) (t ∷ []) k r charts h = absurd charts
  get_elem?-AreCharts n (r0 ∷ runs) (t ∷ u ∷ raw) zero r (first, second, charts) h =
      let one : r0 ≡ r = ground (arith, h) in
      (
        t,
        u,
        refl,
        refl,
        move-IsChart IsTputChart r0 r t (omega arith) one first,
        move-IsChart IsUtilChart r0 r u (omega arith) one second,
      )
  get_elem?-AreCharts n (r0 ∷ runs) (t ∷ u ∷ raw) (suc k) r (first, second, charts) h =
      let (t', u', ht, hu, ct, cu) = get_elem?-AreCharts (suc (suc n)) runs raw k r charts h in
      let two : 2 * suc k ≡ suc (suc (2 * k)) = omega arith in
      (
        t',
        u',
        ap (get_elem? (t ∷ u ∷ raw)) two ∙ ht,
        ap (get_elem? (u ∷ raw)) two ∙ hu,
        move-IsChart IsTputChart r r t' (omega arith) refl ct,
        move-IsChart IsUtilChart r r u' (omega arith) refl cu,
      )

  -- Where `Process` has no error for any run, the charts with the numbers `2 * k` and `2 * k + 1` of an
  -- HTML report are the throughput and the utilization of run `k`: their tags say their numbers, their
  -- titles name the run, and both have one series for each set of the run's summary. Its points are,
  -- worker by worker, one for each report with operations, at the report's time in seconds, with the
  -- rate since the report before it.
  pub add_runs-charts :
      (visit : Table → Table) (runs : List (BenchmarkRun F)) {raw : List (RunRaw F)}
      {runs' : List (BenchmarkRun F)}
      → add_runs fl visit 0 runs [] ≡ returns (none, raw, runs')
      → (k : ℕ) (r : BenchmarkRun F) → get_elem? runs' k ≡ some r
      → (t u : RunRaw F) × (get_elem? raw (2 * k) ≡ some t)
        × (get_elem? raw (suc (2 * k)) ≡ some u)
        × IsTputChart (2 * k) r t
        × IsUtilChart (suc (2 * k)) r u
  add_runs-charts visit runs {raw} {runs'} ends k r h =
      let (more, split, charts) = subst (Adds []) ends (add_runs-Adds visit 0 runs []) in
      let (t, u, ht, hu, ct, cu) = get_elem?-AreCharts 0 runs' more k r charts h in
      (
        t,
        u,
        ap (λ l. get_elem? l (2 * k)) split ∙ ht,
        ap (λ l. get_elem? l (suc (2 * k))) split ∙ hu,
        move-IsChart IsTputChart r r t (omega arith) refl ct,
        move-IsChart IsUtilChart r r u (omega arith) refl cu,
      )
