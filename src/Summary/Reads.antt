-- ===== src/Summary/Reads.antt =====
-- The loop over the reports: each report changes its own worker alone.
use schedbench.Base.{
  ℕ, ◌+◌, ◌≡◌, ◌<◌, ◌≤◌, refl, sym, ◌∙◌, ap, ap₂, subst, Bool, true, false, ◌&&◌, List, [], ◌∷◌,
  Option, none, some, length, replicate, get_or, get_or-set_self, set, if◌then◌else◌, Option-cases,
  Bool-cases, inl, inr, arith, ◌==◌, ltb, length-set,
}
use schedbench.Base.Int.{ℤ, pos, negsuc, pos_part}
use schedbench.Base.Outcome.{Outcome, panics, returns, index_ℕ-get_or, index_ℕ, elems}
use schedbench.Bench.{WorkerId, WorkerReport, WorkerSet, WorkerSummary, WorkerSetSummary, id_eq}
use schedbench.Summary.{
  Float, Data, Table, find_data, put_data, Tally, make_workers, add_report, add_rates, next_data,
  data_or_new, zero_worker, zero_set,
}
use schedbench.Summary.Loops.{tally_worker, tally_report}
use schedbench.Bench.Ids.{id_eq→≡}
use schedbench.Summary.Table.{find-put, HasUniqueIds, put-HasUniqueIds}
use schedbench.Summary.Views.{
  id_of, count_at, HasWorker, zero_worker_set, set_at, workers_at, worker_at, IsShaped, made,
  length-made, get_or-made, le-length-made, worker_at-set, set-IsShaped, room-set,
}

-- A report of a worker that the run has.
abbrev pub IsOfRun : List WorkerSet → WorkerReport → Type 0
IsOfRun sets e = (i : ℕ) × (j : ℕ) × (e.id ≡ id_of i j) × HasWorker sets i j

abbrev pub AllOfRun : List WorkerSet → List WorkerReport → Type 0
AllOfRun sets [] = Unit {0}
AllOfRun sets (e ∷ raw) = IsOfRun sets e × AllOfRun sets raw

pub id_test : (i j k l : ℕ) → ((i == k) && (j == l)) ≡ id_eq (id_of i j) (id_of k l)
id_test i j k l = ground arith

pair_if {ℓ κ} :
    {A : Type ℓ} {B : Type κ} (t t' t'' : Bool) (a a' : A) (b b' : B)
    → t' ≡ t
    → t'' ≡ t
    → ◌≡◌ {A = A × B}
        ((if t' then a else a'), (if t'' then b else b'))
        (if t then (a, b) else (a', b'))
pair_if true t' t'' a a' b b' e f = rw (e, f) refl
pair_if false t' t'' a a' b b' e f = rw (e, f) refl

module _ {F : Type 0} (fl : Float F) where
  new_row :
      (c : ℤ) (j : ℕ)
      → j < pos_part c
      → (elim c as (λ _. Outcome (List (WorkerSummary F))) [
        | pos n ↦ returns (replicate n (zero_worker fl))
        | negsuc n ↦ panics
      ])
        ≡ returns (replicate (pos_part c) (zero_worker fl))
  new_row (pos n) j h = refl
  new_row (negsuc n) j h = absurd (omega arith)

  make_workers-made :
      (sets : List WorkerSet) (i j : ℕ) (ws : WorkerSetSummary F)
      → HasWorker sets i j
      → make_workers fl sets (pos i) ws ≡ returns (made fl (count_at sets i) ws.workers)
  unfolding make_workers
  make_workers-made sets i j ws (hi, hj) =
      let found = index_ℕ-get_or sets i zero_worker_set hi in
      elim (Option-cases ws.workers) [
        | inl nil ↦
            rw (nil, make_workers) (rw found (new_row (get_or sets i zero_worker_set).count j hj))
        | inr (workers, old) ↦ rw (old, make_workers) refl
      ]

  -- A worker's summary and its entry of the map.
  abbrev pub View : Type 0
  View = WorkerSummary F × Option Data

  abbrev pub view : Tally fl → ℕ → ℕ → View
  view s i j = (worker_at fl s.summary i j, find_data (id_of i j) s.table)

  -- What a report does to its own worker's view.
  abbrev pub step_view : WorkerReport → View → View
  step_view e (w, d) =
      (add_report fl (data_or_new fl d) e w, some (next_data fl e (data_or_new fl d)))

  -- The place of an entry of the map is there.
  abbrev pub HasRoom : List (WorkerSetSummary F) → WorkerId → Type 0
  HasRoom summary id =
      (i : ℕ) × (j : ℕ) × (id ≡ id_of i j)
      × (i < length summary)
      × (j < length (workers_at fl summary i))

  -- What holds between the rounds.
  pub record IsTallied (sets : List WorkerSet) (s : Tally fl) : Type 0 where
    pub shaped : IsShaped fl sets s.summary
    pub unique : HasUniqueIds s.table
    pub rooms : (id : WorkerId) (d : Data) → find_data id s.table ≡ some d → HasRoom s.summary id

  step_if :
      (t : Bool) (e : WorkerReport) (v v' : View)
      → (t ≡ true → v ≡ v')
      → (if t then step_view e v else v') ≡ (if t then step_view e v' else v')
  step_if true e v v' same = ap (step_view e) (same refl)
  step_if false e v v' same = refl

  module _ (sets : List WorkerSet) (e : WorkerReport) (s : Tally fl) (i j : ℕ)
      (own : e.id ≡ id_of i j) (there : HasWorker sets i j) (ok : IsTallied sets s) where
    abbrev pub ws : WorkerSetSummary F
    ws = set_at fl s.summary i

    abbrev pub row : List (WorkerSummary F)
    row = made fl (count_at sets i) ws.workers

    hi : i < length s.summary
    hi = rw (ok.shaped.0) (there.0)

    abbrev pub after : Tally fl
    after = tally_worker fl e ws row (worker_at fl s.summary i j) s

    indexed : index_ℕ s.summary i ≡ returns ws
    indexed = index_ℕ-get_or s.summary i (zero_set fl) hi

    long : length row ≡ count_at sets i
    long = length-made fl (count_at sets i) ws.workers (ok.shaped.1 i)

    found : index_ℕ row j ≡ returns (worker_at fl s.summary i j)
    found =
        index_ℕ-get_or row j (zero_worker fl) (rw long (there.1))
        ∙ ap returns (get_or-made fl (count_at sets i) ws.workers j)

    pub tally_report-returns : tally_report fl sets e s ≡ returns (none, after)
    unfolding tally_report
    tally_report-returns =
        let set_there : ltb (length s.summary + 0) (i + 0) ≡ false = ground (arith, hi) in
        let id_there : ltb (length row + 0) (j + 0) ≡ false = ground (arith, long, there.1) in
        rw (own, set_there, tally_report)
          (rw (indexed, make_workers-made sets i j ws there, id_there, found) refl)

    abbrev pub old : Data
    old = data_or_new fl (find_data (id_of i j) s.table)

    abbrev pub new_set : WorkerSetSummary F
    new_set = record (add_rates fl old e ws) {
      workers = some (set row j (add_report fl old e (worker_at fl s.summary i j)));
    }

    abbrev pub new_table : Table
    new_table = put_data (id_of i j) (next_data fl e old) s.table

    after_lem : after ≡ record { summary = set s.summary i new_set; table = new_table }
    unfolding tally_worker
    after_lem = rw (own, tally_worker) refl

    wide : length row ≡ length (set row j (add_report fl old e (worker_at fl s.summary i j)))
    wide = sym (length-set row j _)

    room : length (workers_at fl s.summary i) ≤ length (elems new_set.workers)
    room = omega (arith, wide, le-length-made fl (count_at sets i) ws.workers)

    keeps_room : (id : WorkerId) → HasRoom s.summary id → HasRoom (set s.summary i new_set) id
    keeps_room id (k, l, named, hk, hl) =
        let long' = length-set s.summary i new_set in
        let more = room-set fl s.summary i k new_set hi room in
        (k, l, named, omega (arith, long', hk), omega (arith, more, hl))

    new_room : HasRoom (set s.summary i new_set) (id_of i j)
    new_room =
        let slot : length (workers_at fl (set s.summary i new_set) i) ≡ count_at sets i =
          ap (λ (ws : WorkerSetSummary F). length (elems ws.workers))
            (get_or-set_self s.summary i new_set (zero_set fl) hi)
          ∙ sym wide
          ∙ long in
        (
          i,
          j,
          refl,
          omega (arith, length-set s.summary i new_set, hi),
          omega (arith, slot, there.1),
        )

    rooms-after :
        (id : WorkerId) (d : Data)
        → find_data id new_table ≡ some d
        → HasRoom (set s.summary i new_set) id
    rooms-after id d h = elim (Bool-cases (id_eq (id_of i j) id)) [
      | inl mine ↦ subst (HasRoom (set s.summary i new_set)) (id_eq→≡ (id_of i j) id mine) new_room
      | inr other ↦
          let put = find-put id (id_of i j) (next_data fl e old) s.table in
          let before : find_data id s.table ≡ some d = ground (arith, h, put, other) in
          keeps_room id (ok.rooms id d before)
    ]

    pub after-IsTallied : IsTallied sets after
    after-IsTallied = rw after_lem (record {
      shaped = set-IsShaped fl sets s.summary i new_set ok.shaped hi refl (sym wide ∙ long);
      unique = put-HasUniqueIds (id_of i j) (next_data fl e old) s.table ok.unique;
      rooms = rooms-after;
    })

    test : (k l : ℕ) → ((i == k) && (j == l)) ≡ id_eq e.id (id_of k l)
    test k l = id_test i j k l ∙ ap (λ x. id_eq x (id_of k l)) (sym own)

    mine : (k l : ℕ) → id_eq e.id (id_of k l) ≡ true → view s i j ≡ view s k l
    mine k l h = ap₂ (view s) (ground (arith, test k l, h)) (ground (arith, test k l, h))

    pub view-after :
        (k l : ℕ)
        → view after k l ≡ (if id_eq e.id (id_of k l) then step_view e (view s k l) else view s k l)
    view-after k l =
        let w : WorkerSummary F = add_report fl old e (worker_at fl s.summary i j) in
        let seen =
          worker_at-set fl s.summary i j k l new_set w row hi (omega (arith, long, there.1))
            (get_or-made fl (count_at sets i) ws.workers) refl in
        let entry = find-put (id_of k l) (id_of i j) (next_data fl e old) s.table in
        ap (λ t. view t k l) after_lem
        ∙ ap₂ (λ (w : WorkerSummary F) (o : Option Data). (w, o)) seen entry
        ∙ pair_if (id_eq e.id (id_of k l)) _ _ w (worker_at fl s.summary k l) _ _ (test k l)
            (sym (id_test i j k l) ∙ test k l)
        ∙ step_if (id_eq e.id (id_of k l)) e (view s i j) (view s k l) (mine k l)
