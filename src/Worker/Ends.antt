-- ===== src/Worker/Ends.antt =====
-- How a domain's worker ends: whether it sends `done`, which the loop of a run counts.
use schedbench.Base.{
  ◌≡◌, refl, true, List, [], ◌∷◌, ◌++◌, map, Option, none, some, if◌then◌else◌, Text, is_none,
  arith, ◌&&◌, false, Bool-cases, inl, inr,
}
use schedbench.Base.Outcome.{returns, panics}
use schedbench.Bench.{WorkerReport}
use schedbench.Bench.Ids.{id_eq_refl}
use schedbench.Run.{Event, done}
use schedbench.Run.Results.{AllFrom}
use schedbench.Run.Ends.{count_done}
use schedbench.Xl.{Libxl, Host, Error, Dominfo}
use schedbench.Xl.Context.{is_open, domain_unpause, domain_info}
use schedbench.Worker.{XenWorker, xen_lines, xen_process, domid_of}
use schedbench.Worker.Sends.{json_lines, text_of, domain_report, with_cputime, xen_lines-XenHasSent}

with_cputime-id : (o : Option Dominfo) (r : WorkerReport) → (with_cputime o r).id ≡ r.id
with_cputime-id none r = refl
with_cputime-id (some di) r = refl

module _ (unmarshal : Text → WorkerReport) (L : Libxl) where
  -- The reports of lines, and `done`.
  abbrev reports_done : XenWorker → List (Text × Host L) → List Event
  reports_done w lines = map (domain_report unmarshal L w) lines ++ done w.id ∷ []

  count_done-reports_done :
      (w : XenWorker) (lines : List (Text × Host L)) → count_done (reports_done w lines) ≡ 1
  count_done-reports_done w [] = refl
  count_done-reports_done w ((s, h) ∷ lines) = count_done-reports_done w lines

  reports_done-AllFrom :
      (w : XenWorker) (lines : List (Text × Host L)) → AllFrom (w.id ∷ []) (reports_done w lines)
  reports_done-AllFrom w [] = (ground (arith, id_eq_refl w.id), tt)
  reports_done-AllFrom w ((s, h) ∷ lines) =
      let r : WorkerReport = record (unmarshal s) { id = w.id } in
      (
        ground (arith, with_cputime-id (domain_info L (domid_of w) h).1 r, id_eq_refl w.id),
        reports_done-AllFrom w lines,
      )

  module _ (lines : List (Text × Host L)) (w : XenWorker) (h h' : Host L)
      (opened : is_open L h ≡ true) where
    -- With the context open, its domain unpaused and a console that is not nil, a Xen worker sends one
    -- report for each line after the first `START JSON`, in order, with its own id and with the cpu
    -- time that `DomainInfo` gives for its domain, if it gives one, and then `done`. Every line is in
    -- its log.
    pub xen_process-Sends :
        domain_unpause L (domid_of w) h ≡ returns (none, h')
        → is_none w.console ≡ false
        → (last : XenWorker) × (xen_process unmarshal L lines w h
            ≡ returns (
              map (domain_report unmarshal L w) (json_lines text_of w.json_started lines)
                  ++ done w.id ∷ [],
              last,
              h',
            ))
          × (last.log ≡ w.log ++ map text_of lines)
    unfolding xen_process
    xen_process-Sends e attached =
        let (sent, logged, id) = xen_lines-XenHasSent unmarshal L lines w in
        ((xen_lines unmarshal L lines w).1, rw (opened, e) (rw (attached, sent, id) refl), logged)

    -- With the context open, and whatever libxl answers to the unpausing of its domain, the process of
    -- a Xen worker panics if the domain was unpaused and the console is nil. Else all that it sends is
    -- from itself, and it sends `done` once if its domain was unpaused, and not at all if not.
    pub xen_process_done :
        (e : Option Error)
        → domain_unpause L (domid_of w) h ≡ returns (e, h')
        → (sent : List Event) × (last : XenWorker) × (xen_process unmarshal L lines w h
            ≡ (if is_none e && is_none w.console then panics else returns (sent, last, h')))
          × AllFrom (w.id ∷ []) sent
          × (count_done sent ≡ (if is_none e then 1 else 0))
    unfolding xen_process
    xen_process_done none unpaused =
        let after : List (Text × Host L) = json_lines text_of w.json_started lines in
        (
          reports_done w after,
          (xen_lines unmarshal L lines w).1,
          elim (Bool-cases (is_none w.console)) [
            | inl lost ↦ rw (opened, unpaused) (rw lost refl)
            | inr attached ↦
                let (sent, logged, id) = xen_lines-XenHasSent unmarshal L lines w in
                rw (opened, unpaused) (rw (attached, sent, id) refl)
          ],
          reports_done-AllFrom w after,
          count_done-reports_done w after,
        )
    xen_process_done (some e) failed = ([], w, rw (opened, failed) refl, tt, refl)
