-- ===== src/Workers/Distinct.antt =====
-- No two workers of a run have the same id.
use schedbench.Base.{
  ℕ, zero, suc, ◌<◌, ◌≡◌, refl, true, false, ◌||◌, List, [], ◌∷◌, ◌++◌, arith, ltb,
}
use schedbench.Base.Int.{pos_part}
use schedbench.Bench.{WorkerId, WorkerSet}
use schedbench.Run.Results.{has_id}
use schedbench.Run.Done.{HasOnce}
use schedbench.Workers.Ids.{id_of, ids_from, all_ids}

-- An id of an earlier set, or of an earlier worker, is not in the list.
has_id-ids_from :
    (k l wsi rounds i : ℕ) (rest : List WorkerId)
    → (ltb k wsi || ltb l i) ≡ true
    → has_id (id_of k l) rest ≡ false
    → has_id (id_of k l) (ids_from wsi i rounds ++ rest) ≡ false
has_id-ids_from k l wsi zero i rest early out = out
has_id-ids_from k l wsi (suc rounds) i rest early out =
    let later = has_id-ids_from k l wsi rounds (suc i) rest (ground arith) out in ground arith

has_id-all_ids :
    (k l wsi : ℕ) (sets : List WorkerSet) → k < wsi → has_id (id_of k l) (all_ids wsi sets) ≡ false
has_id-all_ids k l wsi [] early = refl
has_id-all_ids k l wsi (ws ∷ sets) early =
    has_id-ids_from k l wsi (pos_part ws.count) 0 (all_ids (suc wsi) sets) (ground arith)
      (has_id-all_ids k l (suc wsi) sets (omega arith))

ids_from-HasOnce :
    (wsi rounds i : ℕ) (rest : List WorkerId)
    → ((l : ℕ) → has_id (id_of wsi l) rest ≡ false)
    → HasOnce rest
    → HasOnce (ids_from wsi i rounds ++ rest)
ids_from-HasOnce wsi zero i rest out once = once
ids_from-HasOnce wsi (suc rounds) i rest out once = (
  has_id-ids_from wsi i wsi rounds (suc i) rest (ground arith) (out i),
  ids_from-HasOnce wsi rounds (suc i) rest out once,
)

pub all_ids-HasOnce : (wsi : ℕ) (sets : List WorkerSet) → HasOnce (all_ids wsi sets)
all_ids-HasOnce wsi [] = tt
all_ids-HasOnce wsi (ws ∷ sets) =
    ids_from-HasOnce wsi (pos_part ws.count) 0 (all_ids (suc wsi) sets)
      (λ l. has_id-all_ids wsi l (suc wsi) sets (omega arith)) (all_ids-HasOnce (suc wsi) sets)
