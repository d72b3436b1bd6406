-- ===== src/Workers/Ids.antt =====
-- The ids of the workers of a run: one for each worker of each set.
use schedbench.Base.{
  ℕ, zero, suc, ◌≡◌, refl, sym, ◌∙◌, ap, Bool, true, false, ◌||◌, ◌&&◌, List, [], ◌∷◌, ◌++◌, Option,
  none, some, arith, ltb, ◌==◌,
}
use schedbench.Base.Int.{ℤ, pos, negsuc, pos_part}
use mathlib.Core.List.{append-nil, append_assoc}
use schedbench.Base.Outcome.{Outcome, returns}
use schedbench.Bench.{WorkerId, WorkerParams, WorkerConfig, WorkerSet, id_eq, zero_report}
use schedbench.Run.{WorkerState, WorkerList, find_worker, ids}
use schedbench.Workers.{
  AnyWorker, WorkerError, new_worker, set_id, add_worker, add_workers, add_sets, new_worker_list,
}

abbrev pub id_of : ℕ → ℕ → WorkerId
id_of wsi i = record { set = pos wsi; id = pos i }

-- The ids `wsi:i`, `wsi:(i + 1)` and so on.
abbrev pub ids_from : ℕ → ℕ → ℕ → List WorkerId
ids_from wsi i zero = []
ids_from wsi i (suc rounds) = id_of wsi i ∷ ids_from wsi (suc i) rounds

-- All ids of the sets, in the order of the loops.
abbrev pub all_ids : ℕ → List WorkerSet → List WorkerId
all_ids wsi [] = []
all_ids wsi (ws ∷ sets) = ids_from wsi 0 (pos_part ws.count) ++ all_ids (suc wsi) sets

abbrev before_at : ℕ → ℕ → ℤ → ℤ → Bool
before_at wsi i (pos s) (pos n) = ltb s wsi || ((s == wsi) && ltb n i)
before_at wsi i (pos s) (negsuc n) = false
before_at wsi i (negsuc s) n = false

-- An id that the loops have passed when they stand at `wsi:i`.
abbrev before : ℕ → ℕ → WorkerId → Bool
before wsi i j = before_at wsi i j.set j.id

abbrev AllBefore : ℕ → ℕ → List WorkerId → Type 0
AllBefore wsi i [] = Unit {0}
AllBefore wsi i (j ∷ js) = (before wsi i j ≡ true) × AllBefore wsi i js

before_at-new :
    (wsi i : ℕ) (s n : ℤ)
    → before_at wsi i s n ≡ true
    → id_eq (record { set = s; id = n }) (id_of wsi i) ≡ false
before_at-new wsi i (pos s) (pos n) h = ground arith
before_at-new wsi i (pos s) (negsuc n) h = cc
before_at-new wsi i (negsuc s) n h = cc

before_at-suc :
    (wsi i : ℕ) (s n : ℤ) → before_at wsi i s n ≡ true → before_at wsi (suc i) s n ≡ true
before_at-suc wsi i (pos s) (pos n) h = ground arith
before_at-suc wsi i (pos s) (negsuc n) h = cc
before_at-suc wsi i (negsuc s) n h = cc

before_at-next :
    (wsi i : ℕ) (s n : ℤ) → before_at wsi i s n ≡ true → before_at (suc wsi) 0 s n ≡ true
before_at-next wsi i (pos s) (pos n) h = ground arith
before_at-next wsi i (pos s) (negsuc n) h = cc
before_at-next wsi i (negsuc s) n h = cc

find_worker-new :
    {W : Type 0} (wsi i : ℕ) (wl : WorkerList W)
    → AllBefore wsi i (ids wl)
    → find_worker (id_of wsi i) wl ≡ none
unfolding find_worker
find_worker-new wsi i [] passed = refl
find_worker-new wsi i ((j, ws) ∷ wl) passed =
    rw (before_at-new wsi i j.set j.id (passed.0)) (find_worker-new wsi i wl (passed.1))

AllBefore-add :
    (wsi i : ℕ) (js : List WorkerId)
    → AllBefore wsi i js
    → AllBefore wsi (suc i) (js ++ id_of wsi i ∷ [])
AllBefore-add wsi i [] passed = (ground arith, tt)
AllBefore-add wsi i (j ∷ js) passed =
    (before_at-suc wsi i j.set j.id (passed.0), AllBefore-add wsi i js (passed.1))

AllBefore-next : (wsi i : ℕ) (js : List WorkerId) → AllBefore wsi i js → AllBefore (suc wsi) 0 js
AllBefore-next wsi i [] passed = tt
AllBefore-next wsi i (j ∷ js) passed =
    (before_at-next wsi i j.set j.id (passed.0), AllBefore-next wsi i js (passed.1))

ids-append :
    {W : Type 0} (wl : WorkerList W) (id : WorkerId) (ws : WorkerState W)
    → ids (wl ++ (id, ws) ∷ []) ≡ ids wl ++ id ∷ []
ids-append [] id ws = refl
ids-append ((j, old) ∷ wl) id ws = ap (◌∷◌ j) (ids-append wl id ws)

module _ (init : WorkerParams → WorkerConfig → AnyWorker → AnyWorker) (worker_type : ℤ)
    (w : AnyWorker) (known : new_worker worker_type ≡ some w) where
  -- The list after the loops, with the ids that they have added.
  abbrev HasAdded :
      List WorkerId
      → WorkerList AnyWorker
      → Outcome (Option WorkerError × WorkerList AnyWorker)
      → Type 0
  HasAdded new wl out =
      (wl' : WorkerList AnyWorker) × (out ≡ returns (none, wl')) × (ids wl' ≡ ids wl ++ new)

  add_worker-HasAdded :
      (wsi : ℕ) (ws : WorkerSet) (i : ℕ) (wl : WorkerList AnyWorker)
      → AllBefore wsi i (ids wl)
      → HasAdded (id_of wsi i ∷ []) wl (add_worker init worker_type wsi ws i wl)
  unfolding add_worker
  add_worker-HasAdded wsi ws i wl passed =
      let added : WorkerState AnyWorker = record {
        w = init ws.params ws.config (set_id (id_of wsi i) w);
        last_report = zero_report;
      } in
      (
        wl ++ (id_of wsi i, added) ∷ [],
        rw (find_worker-new wsi i wl passed, known, add_worker) refl,
        ids-append wl (id_of wsi i) added,
      )

  add_workers-HasAdded :
      (wsi : ℕ) (ws : WorkerSet) (rounds i : ℕ) (wl : WorkerList AnyWorker)
      → AllBefore wsi i (ids wl)
      → (wl' : WorkerList AnyWorker) × (add_workers init worker_type wsi ws rounds i wl
          ≡ returns (none, wl'))
        × (ids wl' ≡ ids wl ++ ids_from wsi i rounds)
        × AllBefore (suc wsi) 0 (ids wl')
  unfolding add_workers
  add_workers-HasAdded wsi ws zero i wl passed =
      (wl, refl, sym (append-nil (ids wl)), AllBefore-next wsi i (ids wl) passed)
  add_workers-HasAdded wsi ws (suc rounds) i wl passed =
      let (wl1, one, new) = add_worker-HasAdded wsi ws i wl passed in
      let (wl2, others, more, last) =
        add_workers-HasAdded wsi ws rounds (suc i) wl1
          (rw new (AllBefore-add wsi i (ids wl) passed)) in
      (
        wl2,
        rw (one, add_workers) others,
        more
            ∙ ap (λ js. js ++ ids_from wsi (suc i) rounds) new
            ∙ append_assoc (ids wl) (id_of wsi i ∷ []) (ids_from wsi (suc i) rounds),
        last,
      )

  add_sets-HasAdded :
      (wsi : ℕ) (sets : List WorkerSet) (wl : WorkerList AnyWorker)
      → AllBefore wsi 0 (ids wl)
      → HasAdded (all_ids wsi sets) wl (add_sets init worker_type wsi sets wl)
  unfolding add_sets
  add_sets-HasAdded wsi [] wl passed = (wl, refl, sym (append-nil (ids wl)))
  add_sets-HasAdded wsi (ws ∷ sets) wl passed =
      let here : List WorkerId = ids_from wsi 0 (pos_part ws.count) in
      let (wl1, one, new, next) = add_workers-HasAdded wsi ws (pos_part ws.count) 0 wl passed in
      let (wl2, others, more) = add_sets-HasAdded (suc wsi) sets wl1 next in
      (
        wl2,
        rw (one, add_sets) others,
        more
            ∙ ap (λ js. js ++ all_ids (suc wsi) sets) new
            ∙ append_assoc (ids wl) here (all_ids (suc wsi) sets),
      )

  -- For a known type of worker `NewWorkerList` returns a list with one worker for each number below
  -- the count of each set, and no other. The panic on a duplicate id does not happen.
  pub new_worker_list-ids :
      (sets : List WorkerSet)
      → (wl : WorkerList AnyWorker) × (new_worker_list init worker_type sets ≡ returns (none, wl))
        × (ids wl ≡ all_ids 0 sets)
  unfolding new_worker_list
  new_worker_list-ids sets = add_sets-HasAdded 0 sets [] tt
