-- ===== src/Summary/Whole.antt =====
-- `Process` against a reference that sums up each worker from its own reports alone.
use schedbench.Base.{
  ℕ, ◌≡◌, refl, sym, ◌∙◌, ap, Bool, true, false, List, [], ◌∷◌, none, length, replicate, get_or,
  map, if◌then◌else◌, arith,
}
use schedbench.Base.Outcome.{returns, elems}
use schedbench.Bench.{
  WorkerId, WorkerReport, WorkerSet, WorkerSummary, WorkerSetSummary, BenchmarkRun, id_eq,
}
use schedbench.Summary.{Float, Table, find_data, Tally, zero_worker, zero_set}
use schedbench.Summary.Loops.{tally_all, average, deviation, finish_summary, process, with_summary}
use schedbench.Summary.Table.{HasUniqueIds}
use schedbench.Summary.Views.{id_of, worker_at, start_IsShaped, get_or-replicate}
use schedbench.Summary.Reads.{
  AllOfRun, View, view, step_view, IsTallied, tally_report-returns, after, after-IsTallied,
  view-after,
}
use schedbench.Summary.Closes.{closed, close_all-closes, worker_at-averages}

-- The reports of one worker, in order.
abbrev pub own : WorkerId → List WorkerReport → List WorkerReport
own id [] = []
own id (e ∷ raw) = if id_eq e.id id then e ∷ own id raw else own id raw

-- `range` visits each entry of a map once.
abbrev pub VisitsOnce : (Table → Table) → Type 0
VisitsOnce visit =
    (t : Table)
    → HasUniqueIds t
    → HasUniqueIds (visit t) × ((id : WorkerId) → find_data id (visit t) ≡ find_data id t)

module _ {F : Type 0} (fl : Float F) where
  abbrev pub fold_view : List WorkerReport → View fl → View fl
  fold_view [] v = v
  fold_view (e ∷ es) v = fold_view es (step_view fl e v)

  -- A worker's summary from its own reports.
  abbrev pub worker_of : List WorkerReport → WorkerSummary F
  worker_of reports = let (w, d) = fold_view reports (zero_worker fl, none) in closed fl w d

  tally_all-views :
      (sets : List WorkerSet) (raw : List WorkerReport) (s : Tally fl)
      → IsTallied fl sets s
      → AllOfRun sets raw
      → (s' : Tally fl) × (tally_all fl sets raw s ≡ returns (none, s'))
        × IsTallied fl sets s'
        × ((k l : ℕ) → view fl s' k l ≡ fold_view (own (id_of k l) raw) (view fl s k l))
  unfolding tally_all
  tally_all-views sets [] s ok from = (s, refl, ok, λ k l. refl)
  tally_all-views sets (e ∷ raw) s ok ((i, j, named, there), from) =
      let next = after fl sets e s i j named there ok in
      let (last, rest, done, views) =
        tally_all-views sets raw next (after-IsTallied fl sets e s i j named there ok) from in
      (
        last,
        rw (tally_report-returns fl sets e s i j named there ok, tally_all) rest,
        done,
        λ k l.
            views k l
            ∙ ap (fold_view (own (id_of k l) raw)) (view-after fl sets e s i j named there ok k l)
            ∙ fold_if (id_eq e.id (id_of k l)) e (own (id_of k l) raw) (view fl s k l),
      )
    where
      fold_if :
          (b : Bool) (e : WorkerReport) (es : List WorkerReport) (v : View fl)
          → fold_view es (if b then step_view fl e v else v)
            ≡ fold_view (if b then e ∷ es else es) v
      fold_if true e es v = refl
      fold_if false e es v = refl

  module _ (visit : Table → Table) where
    abbrev pub start_tally : List WorkerSet → Tally fl
    start_tally sets = record { summary = replicate (length sets) (zero_set fl); table = [] }

    start_IsTallied : (sets : List WorkerSet) → IsTallied fl sets (start_tally sets)
    unfolding find_data
    start_IsTallied sets = record {
      shaped = start_IsShaped fl sets;
      unique = tt;
      rooms = λ id d h. absurd (ground (arith, h));
    }

    start_view :
        (sets : List WorkerSet) (k l : ℕ) → view fl (start_tally sets) k l ≡ (zero_worker fl, none)
    unfolding find_data
    start_view sets k l =
        ap (λ (ws : WorkerSetSummary F). (get_or (elems ws.workers) l (zero_worker fl), none))
          (get_or-replicate (length sets) k (zero_set fl))

    finish-closes :
        (sets : List WorkerSet) (s : Tally fl)
        → VisitsOnce visit
        → IsTallied fl sets s
        → (summary : List (WorkerSetSummary F)) × (finish_summary fl visit s ≡ returns summary)
          × ((k l : ℕ)
              → worker_at fl summary k l
                ≡ closed fl (worker_at fl s.summary k l) (find_data (id_of k l) s.table))
    unfolding finish_summary
    finish-closes sets s once ok =
        let (unique, same) = once s.table ok.unique in
        let (closed', run, workers) =
          close_all-closes fl (visit s.table) s.summary unique
            (λ id d h. ok.rooms id d (sym (same id) ∙ h)) in
        (
          map (deviation fl) (map (average fl) closed'),
          rw (run, finish_summary) refl,
          λ k l.
              worker_at-averages fl closed' k l
              ∙ workers k l
              ∙ ap (closed fl (worker_at fl s.summary k l)) (same (id_of k l)),
        )

    -- For a run that has no summary yet, where all reports are of workers that the run has, `Process`
    -- never panics and ends without an error. The summary of each worker is the one of its own reports, in their order: neither the
    -- other workers' reports nor the order in which the map is visited plays a part.
    pub process-worker_of :
        (run : BenchmarkRun F)
        → VisitsOnce visit
        → run.results.summary ≡ none
        → AllOfRun run.worker_sets run.results.raw
        → (summary : List (WorkerSetSummary F)) × (process fl visit run
            ≡ returns (none, with_summary fl run summary))
          × ((k l : ℕ) → worker_at fl summary k l ≡ worker_of (own (id_of k l) run.results.raw))
    unfolding process
    process-worker_of run once fresh from =
        let (s, reads, ok, views) =
          tally_all-views run.worker_sets run.results.raw (start_tally run.worker_sets)
            (start_IsTallied run.worker_sets) from in
        let (summary, finishes, workers) = finish-closes run.worker_sets s once ok in
        (
          summary,
          rw (fresh, process) (rw (reads, finishes) refl),
          λ k l.
              workers k l
              ∙ ap (λ (v : View fl). closed fl v.0 v.1)
                  (views k l
                    ∙ ap (fold_view (own (id_of k l) run.results.raw))
                        (start_view run.worker_sets k l)),
        )
