-- ===== src/Summary/Errors.antt =====
-- The edges of the checks that `Process` makes, and what an error leaves.
use schedbench.Base.{
  ◌≤◌, ◌==◌, if◌then◌else◌, Bool-cases, ℕ, ◌+◌, ◌≡◌, ◌≢◌, ◌<◌, refl, sym, ◌∙◌, ap, false, List, ◌∷◌,
  Option, none, some, length, length-replicate, Option-cases, inl, inr, arith, ltb, is_none,
}
use schedbench.Base.Int.{pos}
use schedbench.Base.Outcome.{
  Outcome, Outcome-cases, returns, panics, ◌>>=◌, index_ℕ, index_ℕ-panics,
}
use schedbench.Bench.{WorkerReport, BenchmarkRun}
use schedbench.Summary.{Float, Table, ProcessError, bad_set, zero_set, Tally}
use schedbench.Summary.Loops.{tally_report, tally_all, finish_summary, process, with_summary}
use schedbench.Summary.Whole.{start_tally}

module _ {F : Type 0} (fl : Float F) (visit : Table → Table) where
  -- `Process` on a run with no summary, by what the loop over the reports gives.
  fresh_error :
      (run : BenchmarkRun F) {err : ProcessError} {s : Tally fl}
      → run.results.summary ≡ none
      → tally_all fl run.worker_sets run.results.raw (start_tally fl visit run.worker_sets)
        ≡ returns (some err, s)
      → process fl visit run ≡ returns (some err, with_summary fl run s.summary)
  unfolding process
  fresh_error run fresh reads = rw (fresh, process) (rw reads refl)

  fresh_panics :
      (run : BenchmarkRun F)
      → run.results.summary ≡ none
      → tally_all fl run.worker_sets run.results.raw (start_tally fl visit run.worker_sets) ≡ panics
      → process fl visit run ≡ panics
  unfolding process
  fresh_panics run fresh reads = rw (fresh, process) (rw reads refl)

  fresh_read :
      (run : BenchmarkRun F) {s : Tally fl}
      → run.results.summary ≡ none
      → tally_all fl run.worker_sets run.results.raw (start_tally fl visit run.worker_sets)
        ≡ returns (none, s)
      → process fl visit run
        ≡ (finish_summary fl visit s >>= λ summary. returns (none, with_summary fl run summary))
  unfolding process
  fresh_read run fresh reads = rw (fresh, process) (rw reads refl)

  no_error_after :
      {A : Type 0} (o : Outcome A) (f : A → BenchmarkRun F) {e : ProcessError} {b : BenchmarkRun F}
      → ◌>>=◌ {B = Option ProcessError × BenchmarkRun F} o (λ a. returns (none, f a))
        ≢ returns (some e, b)
  no_error_after panics f h = cc
  no_error_after (returns a) f h = absurd (ground (arith, h))

  leaves_summary :
      (run run' : BenchmarkRun F) (e : ProcessError)
      → run.results.summary ≡ none
      → process fl visit run ≡ returns (some e, run')
      → is_none run'.results.summary ≡ false
  leaves_summary run run' e fresh h =
      elim (Outcome-cases
        (tally_all fl run.worker_sets run.results.raw (start_tally fl visit run.worker_sets))) [
          | inl bad ↦ absurd (ground (arith, fresh_panics run fresh bad, h))
          | inr ((some err, s), reads) ↦ ground (arith, fresh_error run fresh reads, h)
          | inr ((none, s), reads) ↦ absurd (
              no_error_after (finish_summary fl visit s) (with_summary fl run)
                (sym (fresh_read run fresh reads) ∙ h))
        ]

  has_summary :
      (run : BenchmarkRun F)
      → is_none run.results.summary ≡ false
      → process fl visit run ≡ returns (none, run)
  unfolding process
  has_summary run h = ground (arith, h)

  -- After an error `Process` has left a summary behind, so that a second call ends without an error
  -- and changes nothing: the unfinished summary is taken for the run's.
  pub process_again :
      (run run' : BenchmarkRun F) (e : ProcessError)
      → process fl visit run ≡ returns (some e, run')
      → process fl visit run' ≡ returns (none, run')
  process_again run run' e h = elim (Option-cases run.results.summary) [
    | inl fresh ↦ has_summary run' (leaves_summary run run' e fresh h)
    | inr (summary, there) ↦
        let kept = has_summary run (ap is_none there) in absurd (ground (arith, kept, h))
  ]

  module _ (run : BenchmarkRun F) (e : WorkerReport) (rest : List WorkerReport)
      (fresh : run.results.summary ≡ none) (raw : run.results.raw ≡ e ∷ rest) where
    abbrev start : Tally fl
    start = start_tally fl visit run.worker_sets

    reads_first :
        (o : Outcome (Option ProcessError × Tally fl))
        → tally_report fl run.worker_sets e start ≡ o
        → tally_all fl run.worker_sets run.results.raw start
          ≡ (elim o as (λ _. Outcome (Option ProcessError × Tally fl)) [
            | panics ↦ panics
            | returns (some err, s') ↦ returns (some err, s')
            | returns (none, s') ↦ tally_all fl run.worker_sets rest s'
          ])
    unfolding tally_all
    reads_first o h = rw raw (rw (h, tally_all) refl)

    beyond :
        (i : ℕ)
        → e.id.set ≡ pos i
        → length run.worker_sets < i
        → tally_report fl run.worker_sets e start
          ≡ returns (some (bad_set (pos i) (length run.worker_sets)), start)
    unfolding tally_report
    beyond i named far =
        ground (arith, named, far, length-replicate (length run.worker_sets) (zero_set fl))

    edge :
        (i : ℕ)
        → e.id.set ≡ pos i
        → i ≡ length run.worker_sets
        → tally_report fl run.worker_sets e start ≡ panics
    unfolding tally_report
    edge i named here =
        let long = length-replicate (length run.worker_sets) (zero_set fl) in
        let past : index_ℕ start.summary i ≡ panics =
          index_ℕ-panics start.summary i (omega (arith, long, here)) in
        let passes : ltb (length start.summary + 0) (i + 0) ≡ false = ground (arith, long, here) in
        rw (named, passes, past, tally_report) refl

    -- In a run that has no summary yet, a first report of the set that is one past the last passes the
    -- check, and the index after it panics. One of a set further on ends with the error, and with a new summary of every set.
    pub process_edge :
        (i : ℕ)
        → e.id.set ≡ pos i
        → length run.worker_sets ≤ i
        → process fl visit run ≡ (
            if i == length run.worker_sets
            then panics
            else returns (
              some (bad_set (pos i) (length run.worker_sets)),
              with_summary fl run start.summary,
            ))
    process_edge i named past = elim (Bool-cases (i == length run.worker_sets)) [
      | inl here ↦
          rw here
            (fresh_panics run fresh (reads_first panics (edge i named (ground (arith, here)))))
      | inr off ↦
          let first = beyond i named (ground (arith, past, off)) in
          rw off (
            fresh_error run fresh (
              reads_first (returns (some (bad_set (pos i) (length run.worker_sets)), start)) first))
    ]
