-- ===== src/Worker.antt =====
-- `SetId` and `Process` of controller/xenworker.go and controller/processworker.go: what a worker
-- sends. The scanner's lines are a list, for a domain each with the host as it is when the line comes,
-- and `unmarshal` is what `json.Unmarshal` leaves in a new report. Printing is left out.
pub mod Setup
pub mod Sends
pub mod Ends
use schedbench.Base.{
  ℕ, ◌-◌, ◌%◌, ◌^◌, Bool, true, false, List, [], ◌∷◌, ◌++◌, Option, none, some, if◌then◌else◌,
  is_none, Text, text_eq, codes,
}
use schedbench.Base.Int.{ℤ, negsuc, to_word}
use schedbench.Base.Outcome.{Outcome, returns, panics, ◌>>=◌}
use schedbench.Bench.{WorkerId, WorkerReport, id_string}
use schedbench.Run.{Event, report, done}
use schedbench.Xl.{Libxl, Host, Error, Dominfo}
use schedbench.Xl.Context.{is_open, domain_info, domain_unpause}

pub record XenWorker : Type 0 where
  pub id : WorkerId
  pub vmname : Text
  pub domid : ℤ
  -- The console with the arguments of its command, `none` where it is nil. `consoleCmd` is set just
  -- before it, and only its `Wait` is called, once the lines of the console have ended.
  pub console : Option (List Text)
  pub json_started : Bool
  pub log : List Text

pub record ProcessWorker : Type 0 where
  pub id : WorkerId
  pub json_started : Bool
  pub log : List Text

-- `func (w *XenWorker) SetId(i WorkerId)`
unfoldable pub xen_set_id : WorkerId → XenWorker → XenWorker
unfolding id_string
xen_set_id i w = record w { id = i; vmname = codes "worker-" ++ id_string i; domid = negsuc 0 }

-- `func (w *ProcessWorker) SetId(i WorkerId)`
unfoldable pub process_set_id : WorkerId → ProcessWorker → ProcessWorker
process_set_id i w = record w { id = i }

-- `Domid(w.domid)`, a uint32.
abbrev pub domid_of : XenWorker → ℕ
domid_of w = to_word w.domid % 2 ^ 32

abbrev pub is_start : Text → Bool
is_start s = text_eq s (codes "START JSON")

module _ (unmarshal : Text → WorkerReport) where
  -- The body of the scanner's loop: the report that is sent, if any, and the worker after it.
  unfoldable pub process_line : Text → ProcessWorker → Option WorkerReport × ProcessWorker
  process_line s w =
      let logged = record w { log = w.log ++ s ∷ [] } in
      if w.json_started
      then (some (record (unmarshal s) { id = w.id }), logged)
      else if is_start s
      then (none, record logged { json_started = true })
      else (none, logged)

  -- `for scanner.Scan()`
  unfoldable pub process_lines : List Text → ProcessWorker → List Event × ProcessWorker
  unfolding process_line
  process_lines [] w = ([], w)
  process_lines (s ∷ lines) w =
      let (r, next) = process_line s w in
      let (sent, last) = process_lines lines next in
      (elim r [ none ↦ sent | some r ↦ report r ∷ sent ], last)

  -- `func (w *ProcessWorker) Process`: what it sends, in order, and the worker at its end.
  unfoldable pub process_process : List Text → ProcessWorker → List Event × ProcessWorker
  unfolding process_lines
  process_process lines w =
      let (sent, last) = process_lines lines w in (sent ++ done last.id ∷ [], last)

  module _ (L : Libxl) where
    -- The worker's report of a line, with the time that its domain has had.
    unfoldable pub xen_report : Text → Host L → XenWorker → WorkerReport
    unfolding domain_info
    xen_report s h w =
        let r : WorkerReport = record (unmarshal s) { id = w.id } in
        elim (domain_info L (domid_of w) h).1 [
          | none ↦ r
          | some di ↦ record r { cputime = di.cpu_time }
        ]

    unfoldable pub xen_line : Text → Host L → XenWorker → Option WorkerReport × XenWorker
    unfolding xen_report
    xen_line s h w =
        let logged = record w { log = w.log ++ s ∷ [] } in
        if w.json_started
        then (some (xen_report s h w), logged)
        else if is_start s
        then (none, record logged { json_started = true })
        else (none, logged)

    unfoldable pub xen_lines : List (Text × Host L) → XenWorker → List Event × XenWorker
    unfolding xen_line
    xen_lines [] w = ([], w)
    xen_lines ((s, h) ∷ lines) w =
        let (r, next) = xen_line s h w in
        let (sent, last) = xen_lines lines next in
        (elim r [ none ↦ sent | some r ↦ report r ∷ sent ], last)

    -- `func (w *XenWorker) Process`: what it sends, the worker at its end, and the host after the
    -- domain has been unpaused. The scanner of a nil console panics at its first `Scan`.
    unfoldable pub xen_process :
        List (Text × Host L) → XenWorker → Host L → Outcome (List Event × XenWorker × Host L)
    unfolding is_open domain_unpause xen_lines
    xen_process lines w h =
        if is_open L h
        then (domain_unpause L (domid_of w) h >>= λ (err, h'). elim err [
          | some e ↦ returns ([], w, h')
          | none ↦
              let (sent, last) = xen_lines lines w in
              if is_none w.console then panics else returns (sent ++ done last.id ∷ [], last, h')
        ])
        else panics
