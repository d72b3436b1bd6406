-- ===== src/Report/Rows.antt =====
-- `TextReport` of a run after `Process`: the summary has a row for every set.
use schedbench.Base.{
  ◌++◌, ℕ, suc, ◌+◌, ◌≤◌, ◌≡◌, refl, ◌∙◌, ap, subst, List, [], ◌∷◌, map, Option, none, some, length,
  length-set, length-map, length-replicate, replicate, get_or, if◌then◌else◌, Bool, true, false,
  arith,
}
use schedbench.Base.Int.{ℤ, pos, pos_part, ltb_ℤ}
use schedbench.Base.Outcome.{Outcome, returns, panics, ◌>>=◌, index, index_ℕ-get_or, elems}
use schedbench.Bench.{WorkerReport, WorkerSet, WorkerSetSummary, BenchmarkRun}
use schedbench.Summary.{Float, Table, ProcessError, zero_set, Tally, make_workers}
use schedbench.Summary.Loops.{
  tally_worker, tally_report, tally_all, close_entry, close_all, average, deviation, finish_summary,
  process, with_summary,
}
use schedbench.Report.{
  Line, set_row, run_title, set_titles, worker_titles, blank, param_lines, all_worker_lines,
  set_lines, run_report,
}

module _ {F : Type 0} (fl : Float F) where
  abbrev Step : Type 0
  Step = Option ProcessError × Tally fl

  -- The summaries that a step leaves are `n`.
  abbrev AsMany : ℕ → Outcome Step → Type 0
  AsMany n panics = Unit {0}
  AsMany n (returns (e, s)) = length s.summary ≡ n

  abbrev AsManySets : ℕ → Outcome (List (WorkerSetSummary F)) → Type 0
  AsManySets n panics = Unit {0}
  AsManySets n (returns summary) = length summary ≡ n

  bind-AsMany :
      {A : Type 0} (n : ℕ) (o : Outcome A) (k : A → Outcome Step)
      → ((a : A) → AsMany n (k a))
      → AsMany n (o >>= k)
  bind-AsMany n panics k each = tt
  bind-AsMany n (returns a) k each = each a

  bind-AsManySets :
      {A : Type 0} (n : ℕ) (o : Outcome A) (k : A → Outcome (List (WorkerSetSummary F)))
      → ((a : A) → AsManySets n (k a))
      → AsManySets n (o >>= k)
  bind-AsManySets n panics k each = tt
  bind-AsManySets n (returns a) k each = each a

  if-AsMany :
      (n : ℕ) (b : Bool) (x y : Outcome Step)
      → AsMany n x
      → AsMany n y
      → AsMany n (if b then x else y)
  if-AsMany n true x y hx hy = hx
  if-AsMany n false x y hx hy = hy

  tally_report-AsMany :
      (sets : List WorkerSet) (e : WorkerReport) (s : Tally fl)
      → AsMany (length s.summary) (tally_report fl sets e s)
  unfolding tally_report tally_worker
  tally_report-AsMany sets e s =
      let n = length s.summary in
      if-AsMany n (ltb_ℤ (pos n) e.id.set) _ _ refl (
        bind-AsMany n (index s.summary e.id.set) _ (λ ws.
          bind-AsMany n (make_workers fl sets e.id.set ws) _ (λ workers.
            if-AsMany n (ltb_ℤ (pos (length workers)) e.id.id) _ _
              (length-set s.summary (pos_part e.id.set) _)
              (bind-AsMany n (index workers e.id.id) _
                (λ w. length-set s.summary (pos_part e.id.set) _)))))

  tally_all-AsMany :
      (sets : List WorkerSet) (raw : List WorkerReport) (s : Tally fl)
      → AsMany (length s.summary) (tally_all fl sets raw s)
  unfolding tally_all
  tally_all-AsMany sets [] s = refl
  tally_all-AsMany sets (e ∷ raw) s =
      go (tally_report fl sets e s) (tally_report-AsMany sets e s) (tally_all-AsMany sets raw) refl
    where
      go :
          (o : Outcome Step)
          → AsMany (length s.summary) o
          → ((s : Tally fl) → AsMany (length s.summary) (tally_all fl sets raw s))
          → tally_report fl sets e s ≡ o
          → AsMany (length s.summary) (tally_all fl sets (e ∷ raw) s)
      go panics many again h = rw (h, tally_all) tt
      go (returns (some f, s')) many again h = rw (h, tally_all) many
      go (returns (none, s')) many again h =
          rw (h, tally_all) (subst (λ n. AsMany n (tally_all fl sets raw s')) many (again s'))

  close_all-AsManySets :
      (t : Table) (summary : List (WorkerSetSummary F))
      → AsManySets (length summary) (close_all fl t summary)
  unfolding close_all close_entry
  close_all-AsManySets [] summary = refl
  close_all-AsManySets ((id, d) ∷ t) summary =
      let n = length summary in
      go (close_entry fl id d summary)
        (bind-AsManySets n (index summary id.set) _ (λ ws.
          bind-AsManySets n (index (elems ws.workers) id.id) _
            (λ w. length-set summary (pos_part id.set) _)))
        (close_all-AsManySets t)
    where
      go :
          (o : Outcome (List (WorkerSetSummary F)))
          → AsManySets (length summary) o
          → ((summary : List (WorkerSetSummary F))
              → AsManySets (length summary) (close_all fl t summary))
          → AsManySets (length summary) (o >>= close_all fl t)
      go panics many again = tt
      go (returns s') many again = subst (λ n. AsManySets n (close_all fl t s')) many (again s')

  finish_summary-AsManySets :
      (visit : Table → Table) (s : Tally fl)
      → AsManySets (length s.summary) (finish_summary fl visit s)
  unfolding finish_summary
  finish_summary-AsManySets visit s =
      go (close_all fl (visit s.table) s.summary) (close_all-AsManySets (visit s.table) s.summary)
    where
      go :
          (o : Outcome (List (WorkerSetSummary F)))
          → AsManySets (length s.summary) o
          → AsManySets
              (length s.summary)
              (o >>= λ summary. returns (map (deviation fl) (map (average fl) summary)))
      go panics many = tt
      go (returns summary) many =
          length-map (deviation fl) (map (average fl) summary)
          ∙ length-map (average fl) summary
          ∙ many

  -- A run that `Process` has handled has a summary of each of its sets.
  abbrev HasRows : BenchmarkRun F → Outcome (Option ProcessError × BenchmarkRun F) → Type 0
  HasRows run panics = Unit {0}
  HasRows run (returns (some e, r)) = Unit {0}
  HasRows run (returns (none, r)) =
      (summary : List (WorkerSetSummary F)) × (r.results.summary ≡ some summary)
      × (length summary ≡ length run.worker_sets)
      × (r.worker_sets ≡ run.worker_sets)

  process-HasRows :
      (visit : Table → Table) (run : BenchmarkRun F)
      → run.results.summary ≡ none
      → HasRows run (process fl visit run)
  unfolding process
  process-HasRows visit run fresh =
      rw (fresh, process)
        (go (tally_all fl run.worker_sets run.results.raw start)
          (tally_all-AsMany run.worker_sets run.results.raw start))
    where
      start : Tally fl
      start = record { summary = replicate (length run.worker_sets) (zero_set fl); table = [] }

      finished :
          (o : Outcome (List (WorkerSetSummary F)))
          → AsManySets (length run.worker_sets) o
          → HasRows run (
              ◌>>=◌ {B = Option ProcessError × BenchmarkRun F} o
                (λ summary. returns (none, with_summary fl run summary)))
      finished panics many = tt
      finished (returns summary) many = (summary, refl, many, refl)

      from : Step → Outcome (Option ProcessError × BenchmarkRun F)
      from (err, s) = elim err [
        | some e ↦ returns (some e, with_summary fl run s.summary)
        | none ↦
            finish_summary fl visit s >>= λ summary. returns (none, with_summary fl run summary)
      ]

      go : (o : Outcome Step) → AsMany (length start.summary) o → HasRows run (o >>= from)
      go panics many = tt
      go (returns (some e, s)) many = tt
      go (returns (none, s)) many = finished (finish_summary fl visit s) (
          subst (λ n. AsManySets n (finish_summary fl visit s))
            (many ∙ length-replicate (length run.worker_sets) (zero_set fl))
            (finish_summary-AsManySets visit s))

  set_lines-returns :
      (i : ℕ) (sets : List WorkerSet) (summary : List (WorkerSetSummary F))
      → i + length sets ≤ length summary
      → (lines : List (Line F)) × (set_lines fl i sets summary ≡ returns lines)
  unfolding set_lines
  set_lines-returns i [] summary h = ([], refl)
  set_lines-returns i (w ∷ sets) summary h =
      let (lines, rest) = set_lines-returns (suc i) sets summary (omega (arith, h)) in
      let here = index_ℕ-get_or summary i (zero_set fl) (omega (arith, h)) in
      (set_row i (get_or summary i (zero_set fl)) ∷ lines, rw (here, rest, set_lines) refl)

  -- After a `Process` of a run that had no summary before it, with no error, `TextReport` of the run has no error either and does not
  -- panic, at every level.
  pub run_report-processed :
      (visit : Table → Table) (run run' : BenchmarkRun F) (level : ℤ)
      → run.results.summary ≡ none
      → process fl visit run ≡ returns (none, run')
      → (lines : List (Line F)) × (run_report fl level run' ≡ returns (none, lines))
  unfolding run_report
  run_report-processed visit run run' level fresh done =
      let (summary, there, long, same) =
        subst (HasRows run) done (process-HasRows visit run fresh) in
      let (lines, rows) =
        set_lines-returns 0 run'.worker_sets summary (omega (arith, long, ap length same)) in
      (
        run_title run'.label ∷ param_lines fl 0 run'.worker_sets
            ++ set_titles ∷ lines
            ++ (if ltb_ℤ (pos 0) level
                then worker_titles ∷ all_worker_lines fl level 0 summary
                else [])
            ++ blank ∷ [],
        rw (there, rows, run_report) refl,
      )
