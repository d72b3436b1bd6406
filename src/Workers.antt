-- ===== src/Workers.antt =====
-- `NewWorkerList` of controller/run.go: the workers of a run. `init` is the `Init` of a worker, whose
-- error is not looked at.
pub mod Ids
pub mod Distinct
use schedbench.Base.{
  ℕ, zero, suc, ◌+◌, false, List, [], ◌∷◌, ◌++◌, Option, none, some, Text, ◌==◌, if◌then◌else◌,
}
use schedbench.Base.Int.{ℤ, pos, eqb_ℤ, pos_part}
use schedbench.Base.Outcome.{Outcome, returns, panics}
use schedbench.Bench.{WorkerId, WorkerParams, WorkerConfig, WorkerSet, zero_report}
use schedbench.Run.{WorkerState, WorkerList, find_worker}
use schedbench.Worker.{XenWorker, ProcessWorker, xen_set_id, process_set_id}

-- The implementations of the interface `Worker`.
pub data AnyWorker : Type 0 where
  process : ProcessWorker → AnyWorker
  xen : XenWorker → AnyWorker

pub data WorkerError : Type 0 where
  unknown_type : ℤ → WorkerError

abbrev zero_id : WorkerId
zero_id = record { set = pos 0; id = pos 0 }

-- The `switch` on the type, and the new worker's zero value.
unfoldable pub new_worker : ℤ → Option AnyWorker
new_worker worker_type =
    if eqb_ℤ worker_type (pos 0)
    then some (process (record { id = zero_id; json_started = false; log = [] }))
    else if eqb_ℤ worker_type (pos 1)
    then some (
        xen (record {
          id = zero_id;
          vmname = [];
          domid = pos 0;
          console = none;
          json_started = false;
          log = [];
        }))
    else none

unfoldable pub set_id : WorkerId → AnyWorker → AnyWorker
set_id i (process w) = process (process_set_id i w)
set_id i (xen w) = xen (xen_set_id i w)

module _ (init : WorkerParams → WorkerConfig → AnyWorker → AnyWorker) (worker_type : ℤ) where
  -- One round of the inner loop, for worker `i` of set `wsi`.
  unfoldable pub add_worker :
      ℕ → WorkerSet → ℕ → WorkerList AnyWorker → Outcome (Option WorkerError × WorkerList AnyWorker)
  unfolding new_worker set_id
  add_worker wsi ws i wl =
      let id : WorkerId = record { set = pos wsi; id = pos i } in
      elim (find_worker id wl) [
        | some old ↦ panics
        | none ↦ elim (new_worker worker_type) [
          | none ↦ returns (some (unknown_type worker_type), wl)
          | some w ↦ returns (
            none,
            wl
                ++ (
                  id,
                  record { w = init ws.params ws.config (set_id id w); last_report = zero_report },
                )
                  ∷ [],
          )
        ]
      ]

  -- `for i := 0; i < WorkerSets[wsi].Count; i = i+1`, with the rounds that are left.
  unfoldable pub add_workers :
      ℕ
      → WorkerSet
      → ℕ
      → ℕ
      → WorkerList AnyWorker
      → Outcome (Option WorkerError × WorkerList AnyWorker)
  add_workers wsi ws zero i wl = returns (none, wl)
  add_workers wsi ws (suc rounds) i wl = elim (add_worker wsi ws i wl) [
    | panics ↦ panics
    | returns (some e, wl') ↦ returns (some e, wl')
    | returns (none, wl') ↦ add_workers wsi ws rounds (suc i) wl'
  ]

  -- `for wsi := range WorkerSets`
  unfoldable pub add_sets :
      ℕ
      → List WorkerSet
      → WorkerList AnyWorker
      → Outcome (Option WorkerError × WorkerList AnyWorker)
  unfolding add_workers
  add_sets wsi [] wl = returns (none, wl)
  add_sets wsi (ws ∷ sets) wl = elim (add_workers wsi ws (pos_part ws.count) 0 wl) [
    | panics ↦ panics
    | returns (some e, wl') ↦ returns (some e, wl')
    | returns (none, wl') ↦ add_sets (suc wsi) sets wl'
  ]

  unfoldable pub new_worker_list :
      List WorkerSet → Outcome (Option WorkerError × WorkerList AnyWorker)
  unfolding add_sets
  new_worker_list sets = add_sets 0 sets []
