-- ===== src/Summary/Closes.antt =====
-- The loops after the reports: each entry of the map closes its own worker alone.
use schedbench.Base.{
  ℕ, zero, suc, ◌≡◌, ◌<◌, refl, sym, ◌∙◌, ap, ap₂, Bool, true, false, List, [], ◌∷◌, Option, none,
  some, length, get_or, set, map, if◌then◌else◌, arith, length-set,
}
use schedbench.Base.Outcome.{returns, index_ℕ-get_or, elems}
use schedbench.Bench.{WorkerId, WorkerSummary, WorkerSetSummary, id_eq}
use schedbench.Summary.{Float, Data, Table, find_data, zero_worker, zero_set, update}
use schedbench.Summary.Loops.{close_worker, close_entry, close_all, average, deviation}
use schedbench.Bench.Ids.{id_eq→≡, id_eq_refl}
use schedbench.Summary.Table.{HasUniqueIds, find-tail}
use schedbench.Summary.Views.{id_of, set_at, workers_at, worker_at, worker_at-set, room-set}
use schedbench.Summary.Reads.{HasRoom, id_test}

module _ {F : Type 0} (fl : Float F) where
  -- A worker's summary with its entry of the map closed, where it has one.
  abbrev pub closed : WorkerSummary F → Option Data → WorkerSummary F
  closed w none = w
  closed w (some d) = close_worker fl d w

  module _ (summary : List (WorkerSetSummary F)) (i j : ℕ) (d : Data) (hi : i < length summary)
      (hj : j < length (workers_at fl summary i)) where
    abbrev w : WorkerSummary F
    w = close_worker fl d (worker_at fl summary i j)

    abbrev closed_set : WorkerSetSummary F
    closed_set = record (set_at fl summary i) {
      workers = some (set (workers_at fl summary i) j w);
      min_max_avg_tput = update fl w.avg_tput (set_at fl summary i).min_max_avg_tput;
      min_max_avg_util = update fl w.avg_util (set_at fl summary i).min_max_avg_util;
    }

    close_entry-returns : close_entry fl (id_of i j) d summary ≡ returns (set summary i closed_set)
    unfolding close_entry
    close_entry-returns =
        rw
          (
            index_ℕ-get_or summary i (zero_set fl) hi,
            index_ℕ-get_or (workers_at fl summary i) j (zero_worker fl) hj,
            close_entry,
          )
          refl

    closed-room : (id : WorkerId) → HasRoom fl summary id → HasRoom fl (set summary i closed_set) id
    closed-room id (k, l, named, hk, hl) =
        let same = length-set (workers_at fl summary i) j w in
        let long' = length-set summary i closed_set in
        let more = room-set fl summary i k closed_set hi (omega (arith, same)) in
        (k, l, named, omega (arith, long', hk), omega (arith, more, hl))

    worker_at-closed :
        (k l : ℕ)
        → worker_at fl (set summary i closed_set) k l
          ≡ (if id_eq (id_of i j) (id_of k l) then w else worker_at fl summary k l)
    worker_at-closed k l =
        worker_at-set fl summary i j k l closed_set w (workers_at fl summary i) hi hj (λ m. refl)
          refl
        ∙ ap (λ t. if t then w else worker_at fl summary k l) (id_test i j k l)

  close_if :
      (b : Bool) (d : Data) (v v' : WorkerSummary F) (o : Option Data)
      → (b ≡ true → o ≡ none)
      → (b ≡ true → v ≡ v')
      → closed (if b then close_worker fl d v else v') o ≡ closed v' (if b then some d else o)
  close_if true d v v' o gone same = rw (gone refl) (ap (close_worker fl d) (same refl))
  close_if false d v v' o gone same = refl

  place_eq : (i j k l : ℕ) → id_eq (id_of i j) (id_of k l) ≡ true → (i ≡ k) × (j ≡ l)
  place_eq i j k l h = (ground (arith, id_test i j k l), ground (arith, id_test i j k l))

  -- Each entry of the table closes its own worker.
  pub close_all-closes :
      (t : Table) (summary : List (WorkerSetSummary F))
      → HasUniqueIds t
      → ((id : WorkerId) (d : Data) → find_data id t ≡ some d → HasRoom fl summary id)
      → (summary' : List (WorkerSetSummary F)) × (close_all fl t summary ≡ returns summary')
        × ((k l : ℕ)
            → worker_at fl summary' k l
              ≡ closed (worker_at fl summary k l) (find_data (id_of k l) t))
  unfolding close_all find_data
  close_all-closes [] summary u rooms = (summary, refl, λ k l. refl)
  close_all-closes ((id, d) ∷ t) summary (gone, u) rooms =
      let (i, j, named, hi, hj) = rooms id d (ground (arith, id_eq_refl id)) in
      let first : close_entry fl id d summary
          ≡ returns (set summary i (closed_set summary i j d hi hj)) =
        ap (λ x. close_entry fl x d summary) named ∙ close_entry-returns summary i j d hi hj in
      let (last, rest, workers) =
        close_all-closes t (set summary i (closed_set summary i j d hi hj)) u (λ id' d' h.
          closed-room summary i j d hi hj id' (rooms id' d' (find-tail id id' d d' t gone h))) in
      (
        last,
        rw (first, close_all) rest,
        λ k l.
            workers k l
            ∙ ap (λ v. closed v (find_data (id_of k l) t))
                (worker_at-closed summary i j d hi hj k l)
            ∙ close_if (id_eq (id_of i j) (id_of k l)) d (worker_at fl summary i j)
                (worker_at fl summary k l) (find_data (id_of k l) t)
                (λ mine.
                  ap (λ x. find_data x t) (sym (id_eq→≡ (id_of i j) (id_of k l) mine) ∙ sym named)
                  ∙ gone)
                (λ mine. let (p, q) = place_eq i j k l mine in ap₂ (worker_at fl summary) p q)
            ∙ ap
                (λ x.
                  closed (worker_at fl summary k l)
                    (if id_eq x (id_of k l) then some d else find_data (id_of k l) t))
                (sym named),
      )

  get_or-map_same :
      (f : WorkerSetSummary F → WorkerSetSummary F) (summary : List (WorkerSetSummary F)) (k : ℕ)
      → ((ws : WorkerSetSummary F) → (f ws).workers ≡ ws.workers)
      → (get_or (map f summary) k (zero_set fl)).workers ≡ (set_at fl summary k).workers
  get_or-map_same f [] k same = refl
  get_or-map_same f (ws ∷ summary) zero same = same ws
  get_or-map_same f (ws ∷ summary) (suc k) same = get_or-map_same f summary k same

  -- The averages and the deviations leave the workers as they are.
  pub worker_at-averages :
      (summary : List (WorkerSetSummary F)) (k l : ℕ)
      → worker_at fl (map (deviation fl) (map (average fl) summary)) k l ≡ worker_at fl summary k l
  unfolding average deviation
  worker_at-averages summary k l =
      ap (λ o. get_or (elems o) l (zero_worker fl))
        (get_or-map_same (deviation fl) (map (average fl) summary) k (λ ws. refl)
          ∙ get_or-map_same (average fl) summary k (λ ws. refl))
