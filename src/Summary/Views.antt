-- ===== src/Summary/Views.antt =====
-- What is to be seen of the summaries: the worker at a place, and how many places a set has.
use schedbench.Base.{
  ℕ, zero, suc, ◌≡◌, ◌<◌, ◌≤◌, refl, sym, ◌∙◌, ap, subst, true, ◌&&◌, List, Option, none, some,
  length, get_or, set, replicate, length-set, length-replicate, get_or-set_self, get_or-set_ne,
  if◌then◌else◌, Bool-cases, inl, inr, arith, ◌==◌,
}
use schedbench.Base.Int.{pos, pos_part}
use schedbench.Base.Outcome.{elems}
use schedbench.Bench.{WorkerId, WorkerSet, WorkerSummary, WorkerSetSummary, zero_worker_config}
use schedbench.Summary.{Float, zero_worker, zero_set}

abbrev pub zero_worker_set : WorkerSet
zero_worker_set = record {
  params = record { args = none };
  config = zero_worker_config;
  count = pos 0;
}

abbrev pub id_of : ℕ → ℕ → WorkerId
id_of i j = record { set = pos i; id = pos j }

-- How many workers set `i` starts.
abbrev pub count_at : List WorkerSet → ℕ → ℕ
count_at sets i = pos_part (get_or sets i zero_worker_set).count

-- The run has a worker `i:j`.
abbrev pub HasWorker : List WorkerSet → ℕ → ℕ → Type 0
HasWorker sets i j = (i < length sets) × (j < count_at sets i)

pub get_or-replicate {ℓ} : {A : Type ℓ} (n j : ℕ) (a : A) → get_or (replicate n a) j a ≡ a
get_or-replicate zero j a = refl
get_or-replicate (suc n) zero a = refl
get_or-replicate (suc n) (suc j) a = get_or-replicate n j a

module _ {F : Type 0} (fl : Float F) where
  abbrev pub set_at : List (WorkerSetSummary F) → ℕ → WorkerSetSummary F
  set_at summary i = get_or summary i (zero_set fl)

  abbrev pub workers_at : List (WorkerSetSummary F) → ℕ → List (WorkerSummary F)
  workers_at summary i = elems (set_at summary i).workers

  -- The summary of worker `i:j`, a new one where there is none yet.
  abbrev pub worker_at : List (WorkerSetSummary F) → ℕ → ℕ → WorkerSummary F
  worker_at summary i j = get_or (workers_at summary i) j (zero_worker fl)

  -- A slice of workers that has been made is as long as the set's count.
  abbrev pub IsMade : ℕ → Option (List (WorkerSummary F)) → Type 0
  IsMade n none = Unit {0}
  IsMade n (some workers) = length workers ≡ n

  abbrev pub IsShaped : List WorkerSet → List (WorkerSetSummary F) → Type 0
  IsShaped sets summary =
      (length summary ≡ length sets)
      × ((i : ℕ) → IsMade (count_at sets i) (set_at summary i).workers)

  -- The workers of a set, made where they are nil.
  abbrev pub made : ℕ → Option (List (WorkerSummary F)) → List (WorkerSummary F)
  made n none = replicate n (zero_worker fl)
  made n (some workers) = workers

  pub length-made :
      (n : ℕ) (o : Option (List (WorkerSummary F))) → IsMade n o → length (made n o) ≡ n
  length-made n none h = length-replicate n (zero_worker fl)
  length-made n (some workers) h = h

  pub get_or-made :
      (n : ℕ) (o : Option (List (WorkerSummary F))) (j : ℕ)
      → get_or (made n o) j (zero_worker fl) ≡ get_or (elems o) j (zero_worker fl)
  get_or-made n none j = get_or-replicate n j (zero_worker fl)
  get_or-made n (some workers) j = refl

  pub le-length-made :
      (n : ℕ) (o : Option (List (WorkerSummary F))) → length (elems o) ≤ length (made n o)
  le-length-made n none = omega arith
  le-length-made n (some workers) = omega arith

  -- Writing worker `i:j` into the row of its set leaves the others.
  pub worker_at-set :
      (summary : List (WorkerSetSummary F)) (i j k l : ℕ) (ws : WorkerSetSummary F)
      (w : WorkerSummary F) (row : List (WorkerSummary F))
      → i < length summary
      → j < length row
      → ((m : ℕ) → get_or row m (zero_worker fl) ≡ worker_at summary i m)
      → ws.workers ≡ some (set row j w)
      → worker_at (set summary i ws) k l
        ≡ (if (i == k) && (j == l) then w else worker_at summary k l)
  worker_at-set summary i j k l ws w row hi hj same_row here = elim (Bool-cases (i == k)) [
    | inl same ↦
        let one : i ≡ k = ground arith in
        let slot : set_at (set summary i ws) k ≡ ws =
          ap (set_at (set summary i ws)) (sym one)
          ∙ get_or-set_self summary i ws (zero_set fl) hi in
        let wrote : workers_at (set summary i ws) k ≡ set row j w =
          ap (λ (s : WorkerSetSummary F). elems s.workers) slot ∙ ap elems here in
        let new : worker_at (set summary i ws) k l ≡ get_or (set row j w) l (zero_worker fl) =
          ap (λ (r : List (WorkerSummary F)). get_or r l (zero_worker fl)) wrote in
        new ∙ rw same (in_row same one)
    | inr other ↦ rw other (
        ap (λ (s : WorkerSetSummary F). get_or (elems s.workers) l (zero_worker fl))
          (get_or-set_ne summary i k ws (zero_set fl) (ground arith)))
  ]
    where
      in_row :
          (i == k) ≡ true
          → i ≡ k
          → get_or (set row j w) l (zero_worker fl) ≡ (if j == l then w else worker_at summary k l)
      in_row same one = elim (Bool-cases (j == l)) [
        | inl here' ↦
            let two : j ≡ l = ground arith in
            rw here' (
              ap (λ x. get_or (set row j w) x (zero_worker fl)) (sym two)
              ∙ get_or-set_self row j w (zero_worker fl) hj)
        | inr there ↦ rw there (
            get_or-set_ne row j l w (zero_worker fl) (ground arith)
            ∙ same_row l
            ∙ ap (λ x. worker_at summary x l) one)
      ]

  pub set-IsShaped :
      (sets : List WorkerSet) (summary : List (WorkerSetSummary F)) (i : ℕ)
      (ws : WorkerSetSummary F) {workers : List (WorkerSummary F)}
      → IsShaped sets summary
      → i < length summary
      → ws.workers ≡ some workers
      → length workers ≡ count_at sets i
      → IsShaped sets (set summary i ws)
  set-IsShaped sets summary i ws {workers} (long, rows) hi here size = (
    length-set summary i ws ∙ long,
    λ k. elim (Bool-cases (i == k)) [
      | inl same ↦
          let one : i ≡ k = ground arith in
          let slot : (set_at (set summary i ws) k).workers ≡ some workers =
            ap (λ x. (set_at (set summary i ws) x).workers) (sym one)
            ∙ ap (λ (s : WorkerSetSummary F). s.workers)
                (get_or-set_self summary i ws (zero_set fl) hi)
            ∙ here in
          subst (IsMade (count_at sets k)) (sym slot) (size ∙ ap (count_at sets) one)
      | inr other ↦
          subst (λ (s : WorkerSetSummary F). IsMade (count_at sets k) s.workers)
            (sym (get_or-set_ne summary i k ws (zero_set fl) (ground arith))) (rows k)
    ],
  )

  -- No set loses places when one that has as many is written.
  pub room-set :
      (summary : List (WorkerSetSummary F)) (i k : ℕ) (ws : WorkerSetSummary F)
      → i < length summary
      → length (workers_at summary i) ≤ length (elems ws.workers)
      → length (workers_at summary k) ≤ length (workers_at (set summary i ws) k)
  room-set summary i k ws hi room = elim (Bool-cases (i == k)) [
    | inl same ↦
        let one : i ≡ k = ground arith in
        let slot : length (workers_at (set summary i ws) i) ≡ length (elems ws.workers) =
          ap (λ (s : WorkerSetSummary F). length (elems s.workers))
            (get_or-set_self summary i ws (zero_set fl) hi) in
        subst (λ x. length (workers_at summary x) ≤ length (workers_at (set summary i ws) x)) one
          (omega (arith, slot))
    | inr other ↦
        let slot : length (workers_at (set summary i ws) k) ≡ length (workers_at summary k) =
          ap (λ (s : WorkerSetSummary F). length (elems s.workers))
            (get_or-set_ne summary i k ws (zero_set fl) (ground arith)) in
        omega (arith, slot)
  ]

  pub start_IsShaped :
      (sets : List WorkerSet) → IsShaped sets (replicate (length sets) (zero_set fl))
  start_IsShaped sets = (
    length-replicate (length sets) (zero_set fl),
    λ i.
        subst (λ (s : WorkerSetSummary F). IsMade (count_at sets i) s.workers)
          (sym (get_or-replicate (length sets) i (zero_set fl))) tt,
  )
