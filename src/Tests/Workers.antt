-- ===== src/Tests/Workers.antt =====
-- The theorems on what workers send, at a short output.
use schedbench.Base.{◌≡◌, refl, List, ◌∷◌, [], Text, codes, some, false}
use schedbench.Base.Int.{pos}
use schedbench.Base.Outcome.{returns}
use schedbench.Bench.{WorkerId, WorkerReport, zero_report}
use schedbench.Run.{Event, report, done}
use schedbench.Run.Results.{AllFrom}
use schedbench.Run.Ends.{count_done}
use schedbench.Xl.{Libxl, Host, unpause_failed}
use schedbench.Xl.Context.{is_open, domain_unpause, domain_info}
use schedbench.Worker.{XenWorker, ProcessWorker, xen_process}
use schedbench.Worker.Ends.{xen_process-Sends, xen_process_done}
use schedbench.Tests.Machine.{machine, host}

-- Every line is read as a report at time 7.
abbrev unmarshal : Text → WorkerReport
unmarshal s = record zero_report { now = pos 7 }

abbrev worker_2 : WorkerId
worker_2 = record { set = pos 1; id = pos 2 }

abbrev printed : List Text
printed = codes "hello" ∷ codes "START JSON" ∷ codes "{}" ∷ codes "{}" ∷ []

abbrev child : ProcessWorker
child = record { id = worker_2; json_started = false; log = [] }

abbrev sent_7 : Event
sent_7 = report (record zero_report { id = worker_2; now = pos 7 })

abbrev domain : XenWorker
domain = record {
  id = worker_2;
  vmname = codes "worker-1:2";
  domid = pos 4;
  console = some (codes "xl" ∷ codes "console" ∷ codes "worker-1:2" ∷ []);
  json_started = false;
  log = [];
}

abbrev console : List (Text × Host machine)
console = (codes "START JSON", host) ∷ (codes "{}", host) ∷ []

xen_process-Sends_example :
    (last : XenWorker) × (xen_process unmarshal machine console domain host
      ≡ returns (
        report (record zero_report { id = worker_2; now = pos 7; cputime = pos 0 })
            ∷ done worker_2
            ∷ [],
        last,
        host,
      ))
    × (last.log ≡ codes "START JSON" ∷ codes "{}" ∷ [])
unfolding is_open domain_unpause domain_info
xen_process-Sends_example =
    xen_process-Sends unmarshal machine console domain host host refl refl refl

-- A machine on which no domain can be unpaused.
abbrev stuck : Libxl
stuck = record machine { domain_unpause = λ ctx id w. (pos 3, w) }

abbrev stuck_host : Host stuck
stuck_host = record { ctx = some tt; world = [] }

xen_process_done_example :
    (sent : List Event) × (last : XenWorker) × (xen_process unmarshal stuck [] domain stuck_host
      ≡ returns (sent, last, stuck_host))
    × AllFrom (worker_2 ∷ []) sent
    × (count_done sent ≡ 0)
unfolding is_open domain_unpause
xen_process_done_example =
    xen_process_done unmarshal stuck [] domain stuck_host stuck_host refl
      (some (unpause_failed (pos 3))) refl
