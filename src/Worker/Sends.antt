-- ===== src/Worker/Sends.antt =====
-- What a worker sends, described by the lines of its output.
use schedbench.Base.{
  ◌≡◌, refl, sym, Bool, true, false, List, [], ◌∷◌, ◌++◌, map, Text, arith, Bool-cases, Option,
  none, some, inl, inr,
}
use mathlib.Core.List.{append-nil, append_assoc}
use schedbench.Bench.{WorkerId, WorkerReport}
use schedbench.Run.{Event, report}
use schedbench.Xl.{Libxl, Host, Dominfo}
use schedbench.Xl.Context.{domain_info}
use schedbench.Worker.{
  XenWorker, ProcessWorker, is_start, xen_report, xen_line, xen_lines, domid_of,
}

-- The lines after the first `START JSON`, or all of them once it has been seen.
abbrev pub json_lines {ℓ} : {A : Type ℓ} → (A → Text) → Bool → List A → List A
json_lines text started [] = []
json_lines text true (l ∷ lines) = l ∷ json_lines text true lines
json_lines text false (l ∷ lines) = json_lines text (is_start (text l)) lines

abbrev pub text_of : {L : Libxl} → Text × Host L → Text
text_of (s, h) = s

-- The report with the time of a domain that libxl knows.
abbrev pub with_cputime : Option Dominfo → WorkerReport → WorkerReport
with_cputime none r = r
with_cputime (some di) r = record r { cputime = di.cpu_time }

module _ (unmarshal : Text → WorkerReport) where
  -- The report of a line that a process has printed.
  abbrev pub line_report : WorkerId → Text → Event
  line_report id s = report (record (unmarshal s) { id = id })

  -- What a process worker has done after some lines.
  abbrev HasSent : List Text → ProcessWorker → List Event × ProcessWorker → Type 0
  HasSent lines w out =
      (out.0 ≡ map (line_report w.id) (json_lines (λ s. s) w.json_started lines))
      × (out.1.log ≡ w.log ++ lines)
      × (out.1.id ≡ w.id)

  module _ (L : Libxl) where
    -- The report of a line that comes from a domain: what the line says, the worker's own id, and the
    -- time that the domain has had where libxl gives it.
    abbrev pub domain_report : XenWorker → Text × Host L → Event
    domain_report w (s, h) =
        report (with_cputime (domain_info L (domid_of w) h).1 (record (unmarshal s) { id = w.id }))

    xen_report_lem :
        (s : Text) (h : Host L) (w : XenWorker)
        → report (xen_report unmarshal L s h w) ≡ domain_report w (s, h)
    unfolding xen_report
    xen_report_lem s h w = ground arith

    abbrev pub XenHasSent : List (Text × Host L) → XenWorker → List Event × XenWorker → Type 0
    XenHasSent lines w out =
        (out.0 ≡ map (domain_report w) (json_lines text_of w.json_started lines))
        × (out.1.log ≡ w.log ++ map text_of lines)
        × (out.1.id ≡ w.id)

    same_reports :
        (w w' : XenWorker) (lines : List (Text × Host L))
        → w'.id ≡ w.id
        → w'.domid ≡ w.domid
        → map (domain_report w') lines ≡ map (domain_report w) lines
    same_reports w w' [] id domid = refl
    same_reports w w' ((s, h) ∷ lines) id domid =
        rw (id, domid, same_reports w w' lines id domid) refl

    pub xen_lines-XenHasSent :
        (lines : List (Text × Host L)) (w : XenWorker)
        → XenHasSent lines w (xen_lines unmarshal L lines w)
    unfolding xen_lines xen_line
    xen_lines-XenHasSent [] w = (refl, sym (append-nil w.log), refl)
    xen_lines-XenHasSent ((s, h) ∷ lines) w = elim (Bool-cases w.json_started) [
      | inl on ↦
          let next : XenWorker = record w { log = w.log ++ s ∷ [] } in
          let (sent, logged, id) = xen_lines-XenHasSent lines next in
          ground (
            arith,
            sent,
            logged,
            id,
            append_assoc w.log (s ∷ []) (map text_of lines),
            xen_report_lem s h w,
            same_reports w next (json_lines text_of true lines) refl refl,
          )
      | inr off ↦ elim (Bool-cases (is_start s)) [
        | inl token ↦
            let next : XenWorker = record w { log = w.log ++ s ∷ []; json_started = true } in
            let (sent, logged, id) = xen_lines-XenHasSent lines next in
            ground (
              arith,
              sent,
              logged,
              id,
              append_assoc w.log (s ∷ []) (map text_of lines),
              same_reports w next (json_lines text_of true lines) refl refl,
            )
        | inr other ↦
            let next : XenWorker = record w { log = w.log ++ s ∷ [] } in
            let (sent, logged, id) = xen_lines-XenHasSent lines next in
            ground (
              arith,
              sent,
              logged,
              id,
              append_assoc w.log (s ∷ []) (map text_of lines),
              same_reports w next (json_lines text_of false lines) refl refl,
            )
      ]
    ]
