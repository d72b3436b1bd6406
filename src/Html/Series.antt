-- ===== src/Html/Series.antt =====
-- The points of a chart, described by the reports of a run's workers.
use schedbench.Base.{
  ◌≡◌, sym, ◌∙◌, ap, true, false, List, [], ◌∷◌, ◌++◌, map, append_nil, if◌then◌else◌, Bool,
}
use mathlib.Core.List.{append_assoc}
use schedbench.Base.Int.{pos, ltb_ℤ}
use schedbench.Base.Outcome.{elems}
use schedbench.Bench.{WorkerReport, zero_report, WorkerSummary, WorkerSetSummary}
use schedbench.Summary.{Float, throughput, utilization, sec}
use schedbench.Html.{Point}
use schedbench.Html.Collect.{Both, worker_points, set_points, all_points}

-- Each report with the one before it, and before the first one `le`.
abbrev pub consecutive : WorkerReport → List WorkerReport → List (WorkerReport × WorkerReport)
consecutive le [] = []
consecutive le (e ∷ raw) = (le, e) ∷ consecutive e raw

-- Those whose second report has operations.
abbrev pub measured : List (WorkerReport × WorkerReport) → List (WorkerReport × WorkerReport)
measured [] = []
measured ((le, e) ∷ pairs) =
    let rest = measured pairs in if ltb_ℤ (pos 0) e.kops then (le, e) ∷ rest else rest

module _ {F : Type 0} (fl : Float F) where
  abbrev pub tput_of : WorkerReport × WorkerReport → F
  tput_of (le, e) = throughput fl e.now e.kops le.now le.kops

  abbrev pub util_of : WorkerReport × WorkerReport → F
  util_of (le, e) = utilization fl e.now e.cputime le.now le.cputime

  module _ (rate : WorkerReport × WorkerReport → F) where
    -- A point at the time of the second report, in seconds.
    abbrev pub point_of : WorkerReport × WorkerReport → Point F
    point_of pair = record { x = fl.div (fl.of_int pair.1.now) (sec fl); y = rate pair }

    abbrev pub worker_series : WorkerReport → List WorkerReport → List (Point F)
    worker_series le raw = map point_of (measured (consecutive le raw))

    -- The points of all workers of a set, one worker after the other.
    abbrev pub set_series : List (WorkerSummary F) → List (Point F)
    set_series [] = []
    set_series (s ∷ workers) = worker_series zero_report s.raw ++ set_series workers

    -- One series for each set.
    abbrev pub all_series : List (WorkerSetSummary F) → List (List (Point F))
    all_series [] = []
    all_series (ws ∷ summary) = set_series (elems ws.workers) ∷ all_series summary

  -- The loop over a worker's reports has added the points of the two series.
  abbrev AddsSeries : List WorkerReport → WorkerReport → Both (List (Point F)) → Type 0
  AddsSeries raw le both =
      ((worker_points fl raw le both).0 ≡ both.0 ++ worker_series tput_of le raw)
      × ((worker_points fl raw le both).1 ≡ both.1 ++ worker_series util_of le raw)

  worker_points-series :
      (raw : List WorkerReport) (le : WorkerReport) (both : Both (List (Point F)))
      → AddsSeries raw le both
  unfolding worker_points
  worker_points-series [] le both = (sym (append_nil both.0), sym (append_nil both.1))
  worker_points-series (e ∷ raw) le both =
      split (ltb_ℤ (pos 0) e.kops) (λ both'. worker_points-series raw e both')
    where
      t : List (Point F)
      t = point_of tput_of (le, e) ∷ []

      u : List (Point F)
      u = point_of util_of (le, e) ∷ []

      next : Both (List (Point F))
      next = (both.0 ++ t, both.1 ++ u)

      rest : List (WorkerReport × WorkerReport)
      rest = measured (consecutive e raw)

      split :
          (b : Bool)
          → ((both' : Both (List (Point F))) → AddsSeries raw e both')
          → ((worker_points fl raw e (if b then next else both)).0
              ≡ both.0 ++ map (point_of tput_of) (if b then (le, e) ∷ rest else rest))
            × ((worker_points fl raw e (if b then next else both)).1
                ≡ both.1 ++ map (point_of util_of) (if b then (le, e) ∷ rest else rest))
      split true again =
          let (tput, util) = again next in
          (
            tput ∙ append_assoc both.0 t (worker_series tput_of e raw),
            util ∙ append_assoc both.1 u (worker_series util_of e raw),
          )
      split false again = again both

  set_points-series :
      (workers : List (WorkerSummary F)) (both : Both (List (Point F)))
      → ((set_points fl workers both).0 ≡ both.0 ++ set_series tput_of workers)
        × ((set_points fl workers both).1 ≡ both.1 ++ set_series util_of workers)
  unfolding set_points
  set_points-series [] both = (sym (append_nil both.0), sym (append_nil both.1))
  set_points-series (s ∷ workers) both =
      let (tput, util) = worker_points-series s.raw zero_report both in
      let (tput', util') = set_points-series workers (worker_points fl s.raw zero_report both) in
      (
        tput'
            ∙ ap (λ l. l ++ set_series tput_of workers) tput
            ∙ append_assoc both.0 (worker_series tput_of zero_report s.raw)
                (set_series tput_of workers),
        util'
            ∙ ap (λ l. l ++ set_series util_of workers) util
            ∙ append_assoc both.1 (worker_series util_of zero_report s.raw)
                (set_series util_of workers),
      )

  -- The loop over the sets makes the series of each set, for both charts.
  pub all_points-series :
      (summary : List (WorkerSetSummary F)) (both : Both (List (List (Point F))))
      → ((all_points fl summary both).0 ≡ both.0 ++ all_series tput_of summary)
        × ((all_points fl summary both).1 ≡ both.1 ++ all_series util_of summary)
  unfolding all_points
  all_points-series [] both = (sym (append_nil both.0), sym (append_nil both.1))
  all_points-series (ws ∷ summary) both =
      let made = set_points fl (elems ws.workers) ([], []) in
      let (t, u) = set_points-series (elems ws.workers) ([], []) in
      let (tput, util) = all_points-series summary (both.0 ++ made.0 ∷ [], both.1 ++ made.1 ∷ []) in
      (
        tput
            ∙ append_assoc both.0 (made.0 ∷ []) (all_series tput_of summary)
            ∙ ap (λ l. both.0 ++ l ∷ all_series tput_of summary) t,
        util
            ∙ append_assoc both.1 (made.1 ∷ []) (all_series util_of summary)
            ∙ ap (λ l. both.1 ++ l ∷ all_series util_of summary) u,
      )
