-- ===== src/Run/Ends.antt =====
-- When the event loop ends: it counts the workers that have said `done`.
use schedbench.Base.{
  ℕ, suc, ◌-◌, ◌≡◌, refl, ◌∙◌, ap, true, false, not, List, [], ◌∷◌, ◌++◌, some, arith,
  if◌then◌else◌, ◌==◌, ltb, Bool-cases, inl, inr,
}
use schedbench.Base.Int.{ℤ}
use schedbench.Base.Outcome.{returns}
use schedbench.Bench.{WorkerId, WorkerReport}
use schedbench.Run.{
  Event, report, done, timeout, interrupt, Loop, go_on, Status, finished, waiting, step, loop,
  find_worker, set_last_report, report_to, dump_log, stop, ids, WorkerState, exited_early,
}
use schedbench.Run.Stopped.{loop-go_on, loop-over}
use schedbench.Run.Results.{AllFrom, find_worker-has_id, ids-set_last_report}

abbrev pub IsUninterrupted : List Event → Type 0
IsUninterrupted [] = Unit {0}
IsUninterrupted (report r ∷ es) = IsUninterrupted es
IsUninterrupted (done did ∷ es) = IsUninterrupted es
IsUninterrupted (timeout ∷ es) = IsUninterrupted es
IsUninterrupted (interrupt ∷ es) = ⊥

abbrev pub count_done : List Event → ℕ
count_done [] = 0
count_done (report r ∷ es) = count_done es
count_done (done did ∷ es) = suc (count_done es)
count_done (timeout ∷ es) = count_done es
count_done (interrupt ∷ es) = count_done es

module _ {W : Type 0} (runtime : ℤ) where
  -- Where a loop with this many workers left stands after this many of them are done.
  abbrev pub stands_at : ℕ → ℕ → Loop W → Status W
  stands_at left dones t = if ltb dones left then waiting t else finished t

  -- The loop goes on to `t` with the same workers.
  abbrev GoesOn : Event → Loop W → ℕ → Type 0
  GoesOn e s left =
      (t : Loop W) × (step runtime e s ≡ returns (go_on t))
      × (ids t.workers ≡ ids s.workers)
      × (t.left ≡ left)

  report-GoesOn :
      (r : WorkerReport) (s : Loop W) (ws : WorkerState W)
      → find_worker r.id s.workers ≡ some ws
      → GoesOn (report r) s s.left
  unfolding step report_to
  report-GoesOn r s ws found = (
    if not s.stopped
        then record s { raw = s.raw ++ r ∷ []; workers = set_last_report r.id r s.workers }
        else s,
    ground arith,
    ground (arith, ids-set_last_report r.id r s.workers),
    ground arith,
  )

  done-GoesOn :
      (did : WorkerId) (s : Loop W) (ws : WorkerState W)
      → find_worker did s.workers ≡ some ws
      → GoesOn (done did) s (s.left - 1)
  unfolding step stop dump_log
  done-GoesOn did s ws found = elim (Bool-cases s.stopped) [
    | inl halted ↦ (record s { left = s.left - 1 }, rw halted refl, refl, refl)
    | inr going ↦ (
      record s {
        shut = s.shut ++ ids s.workers;
        stopped = true;
        err = some (exited_early did);
        dumped = s.dumped ++ did ∷ [];
        left = s.left - 1;
      },
      ground arith,
      refl,
      refl,
    )
  ]

  timeout-GoesOn : (s : Loop W) → GoesOn timeout s s.left
  unfolding step stop
  timeout-GoesOn s = (
    if not s.stopped then record (stop s) { completed = true } else s,
    refl,
    ground arith,
    ground arith,
  )

  rest-of-loop :
      (e : Event) (es : List Event) (s : Loop W) (left : ℕ)
      → (s.left == 0) ≡ false
      → GoesOn e s left
      → ((t : Loop W)
          → ids t.workers ≡ ids s.workers
          → (u : Loop W) × (loop runtime es t ≡ returns (stands_at t.left (count_done es) u)))
      → (u : Loop W) × (loop runtime (e ∷ es) s ≡ returns (stands_at left (count_done es) u))
  rest-of-loop e es s left more (t, round, same, fewer) rest =
      let (u, ends) = rest t same in
      (
        u,
        loop-go_on runtime e es s t more round
            ∙ ends
            ∙ ap (λ k. returns (stands_at k (count_done es) u)) fewer,
      )

  fewer_left :
      (left dones : ℕ) (u : Loop W)
      → (left == 0) ≡ false
      → stands_at (left - 1) dones u ≡ stands_at left (suc dones) u
  fewer_left left dones u more = ground arith

  none_left :
      (left dones : ℕ) (u : Loop W) → (left == 0) ≡ true → finished u ≡ stands_at left dones u
  none_left left dones u over = ground arith

  first_event :
      (e : Event) (es : List Event) (s : Loop W)
      → (s.left == 0) ≡ false
      → IsUninterrupted (e ∷ es)
      → AllFrom (ids s.workers) (e ∷ es)
      → ((t : Loop W)
          → IsUninterrupted es
          → AllFrom (ids t.workers) es
          → (u : Loop W) × (loop runtime es t ≡ returns (stands_at t.left (count_done es) u)))
      → (u : Loop W) × (loop runtime (e ∷ es) s
          ≡ returns (stands_at s.left (count_done (e ∷ es)) u))
  first_event (report r) es s more calm from rest =
      let (ws, found) = find_worker-has_id r.id s.workers from.0 in
      rest-of-loop (report r) es s s.left more (report-GoesOn r s ws found)
        (λ t same. rest t calm (rw same (from.1)))
  first_event (done did) es s more calm from rest =
      let (ws, found) = find_worker-has_id did s.workers from.0 in
      let (u, ends) =
        rest-of-loop (done did) es s (s.left - 1) more (done-GoesOn did s ws found)
          (λ t same. rest t calm (rw same (from.1))) in
      (u, ends ∙ ap returns (fewer_left s.left (count_done es) u more))
  first_event timeout es s more calm from rest =
      rest-of-loop timeout es s s.left more (timeout-GoesOn s)
        (λ t same. rest t calm (rw same from))
  first_event interrupt es s more calm from rest = absurd calm

  -- With no interrupt, and events from known workers, `Run` is back from its loop once as many `done`s
  -- have come as workers are left: until then it waits, whatever else has happened, the timeout
  -- included.
  pub loop-stands_at :
      (es : List Event) (s : Loop W)
      → IsUninterrupted es
      → AllFrom (ids s.workers) es
      → (u : Loop W) × (loop runtime es s ≡ returns (stands_at s.left (count_done es) u))
  unfolding loop
  loop-stands_at [] s calm from = (s, ground arith)
  loop-stands_at (e ∷ es) s calm from = elim (Bool-cases (s.left == 0)) [
    | inl over ↦ (
      s,
      loop-over runtime e es s over ∙ ap returns (none_left s.left (count_done (e ∷ es)) s over),
    )
    | inr more ↦
        first_event e es s more calm from
          (λ (t : Loop W) calm' from'. loop-stands_at es t calm' from')
  ]
