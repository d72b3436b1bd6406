-- ===== src/Summary/Loops.antt =====
-- The four loops of `BenchmarkRun.Process`, and their composition.
use schedbench.Base.{List, [], ◌∷◌, map, Option, none, some, if◌then◌else◌, length, set, replicate}
use schedbench.Base.Int.{pos, pos_part, ltb_ℤ, ◌-int◌}
use schedbench.Base.Outcome.{Outcome, returns, panics, ◌>>=◌, index, elems}
use schedbench.Bench.{
  WorkerId, WorkerReport, WorkerSet, WorkerSummary, WorkerSetSummary, BenchmarkRun,
}
use schedbench.Summary.{
  Float, Data, Table, find_data, put_data, ProcessError, bad_set, bad_id, throughput, utilization,
  update, zero_set, Tally, make_workers, add_report, add_rates, next_data, data_or_new,
}

module _ {F : Type 0} (fl : Float F) where
  -- What a report does once its set and its worker are found.
  unfoldable pub tally_worker :
      WorkerReport
      → WorkerSetSummary F
      → List (WorkerSummary F)
      → WorkerSummary F
      → Tally fl
      → Tally fl
  unfolding find_data put_data add_report add_rates next_data
  tally_worker e ws workers w s =
      let d = data_or_new fl (find_data e.id s.table) in
      let ws' = record (add_rates fl d e ws) {
        workers = some (set workers (pos_part e.id.id) (add_report fl d e w));
      } in
      record {
        summary = set s.summary (pos_part e.id.set) ws';
        table = put_data e.id (next_data fl e d) s.table;
      }

  -- One round of the loop over `Results.Raw`.
  unfoldable pub tally_report :
      List WorkerSet → WorkerReport → Tally fl → Outcome (Option ProcessError × Tally fl)
  unfolding make_workers tally_worker
  tally_report sets e s =
      if ltb_ℤ (pos (length s.summary)) e.id.set
      then returns (some (bad_set e.id.set (length s.summary)), s)
      else (index s.summary e.id.set >>= λ ws. make_workers fl sets e.id.set ws >>= λ workers.
          if ltb_ℤ (pos (length workers)) e.id.id
          then returns (
            some (bad_id e.id.id (length workers)),
            record s {
              summary = set s.summary (pos_part e.id.set) (record ws { workers = some workers });
            },
          )
          else (index workers e.id.id >>= λ w. returns (none, tally_worker e ws workers w s)))

  unfoldable pub tally_all :
      List WorkerSet → List WorkerReport → Tally fl → Outcome (Option ProcessError × Tally fl)
  unfolding tally_report
  tally_all sets [] s = returns (none, s)
  tally_all sets (e ∷ raw) s = elim (tally_report sets e s) [
    | panics ↦ panics
    | returns (some err, s') ↦ returns (some err, s')
    | returns (none, s') ↦ tally_all sets raw s'
  ]

  -- The totals of a worker, from the map's entry.
  unfoldable pub close_worker : Data → WorkerSummary F → WorkerSummary F
  close_worker d w = record w {
    total_tput = d.last_kops;
    total_time = d.last_time -int d.start_time;
    total_cputime = d.last_cputime -int d.start_cputime;
    avg_tput = throughput fl d.start_time (pos 0) d.last_time d.last_kops;
    avg_util = utilization fl d.start_time d.start_cputime d.last_time d.last_cputime;
  }

  -- One round of the loop over the map.
  unfoldable pub close_entry :
      WorkerId → Data → List (WorkerSetSummary F) → Outcome (List (WorkerSetSummary F))
  unfolding close_worker
  close_entry id d summary = index summary id.set >>= λ ws. index (elems ws.workers) id.id >>= λ w.
      let w' = close_worker d w in
      returns (
        set summary (pos_part id.set) (record ws {
          workers = some (set (elems ws.workers) (pos_part id.id) w');
          min_max_avg_tput = update fl w'.avg_tput ws.min_max_avg_tput;
          min_max_avg_util = update fl w'.avg_util ws.min_max_avg_util;
        }))

  unfoldable pub close_all : Table → List (WorkerSetSummary F) → Outcome (List (WorkerSetSummary F))
  unfolding close_entry
  close_all [] summary = returns summary
  close_all ((id, d) ∷ t) summary = close_entry id d summary >>= close_all t

  unfoldable pub sum_by : (WorkerSummary F → F) → List (WorkerSummary F) → F → F
  sum_by f [] total = total
  sum_by f (w ∷ workers) total = sum_by f workers (fl.add total (f w))

  -- The average of averages of a set.
  unfoldable pub average : WorkerSetSummary F → WorkerSetSummary F
  unfolding sum_by
  average ws =
      let workers = elems ws.workers in
      let tput = sum_by (λ w. w.avg_tput) workers fl.zero in
      let util = sum_by (λ w. w.avg_util) workers fl.zero in
      let count = fl.of_int (pos (length workers)) in
      record ws {
        total_tput = tput;
        total_util = util;
        avg_avg_tput = fl.div tput count;
        avg_avg_util = fl.div util count;
      }

  abbrev pub square : F → F
  square x = fl.mul x x

  unfoldable pub deviation : WorkerSetSummary F → WorkerSetSummary F
  unfolding sum_by
  deviation ws =
      let workers = elems ws.workers in
      let count = fl.of_int (pos (length workers)) in
      let tput = sum_by (λ w. square (fl.sub w.avg_tput ws.avg_avg_tput)) workers fl.zero in
      let util = sum_by (λ w. square (fl.sub w.avg_util ws.avg_avg_util)) workers fl.zero in
      record ws {
        avg_std_dev_tput = fl.sqrt (fl.div tput count);
        avg_std_dev_util = fl.sqrt (fl.div util count);
      }

  abbrev pub with_summary : BenchmarkRun F → List (WorkerSetSummary F) → BenchmarkRun F
  with_summary run summary = record run { results = record run.results { summary = some summary } }

  -- The loops after the reports have been read.
  unfoldable pub finish_summary : (Table → Table) → Tally fl → Outcome (List (WorkerSetSummary F))
  unfolding close_all average deviation
  finish_summary visit s = close_all (visit s.table) s.summary >>= λ summary.
      returns (map deviation (map average summary))

  unfoldable pub process :
      (Table → Table) → BenchmarkRun F → Outcome (Option ProcessError × BenchmarkRun F)
  unfolding tally_all finish_summary
  process visit run = elim run.results.summary [
    | some summary ↦ returns (none, run)
    | none ↦
        let start : Tally fl = record {
          summary = replicate (length run.worker_sets) (zero_set fl);
          table = [];
        } in
        tally_all run.worker_sets run.results.raw start >>= λ (err, s). elim err [
          | some e ↦ returns (some e, with_summary run s.summary)
          | none ↦ finish_summary visit s >>= λ summary. returns (none, with_summary run summary)
        ]
  ]
