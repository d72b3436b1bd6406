-- ===== src/Plan/Bases.antt =====
-- The base runs of a matrix, before they are crossed: a baseline for each worker, a mix for each count.
use schedbench.Base.{
  ℕ, zero, suc, ◌≡◌, refl, ap, false, List, [], ◌∷◌, ◌++◌, none, some, arith, length, get_elem?,
  Text, is_none, codes,
}
use schedbench.Base.Int.{ℤ, pos}
use schedbench.Bench.{Presets}
use schedbench.Plan.{baselines, mixes, lookup_preset, empty_run, worker_set, mix_label, mix_sets}

-- Every worker of the matrix has a preset with arguments.
abbrev pub AllKnown : Presets → List Text → Type 0
AllKnown m [] = Unit {0}
AllKnown m (wn ∷ workers) = (is_none (lookup_preset wn m).args ≡ false) × AllKnown m workers

module _ (F : Type 0) (m : Presets) where
  pub length-mixes :
      (workers : List Text) (count : List ℤ) → length (mixes {F = F} m workers count) ≡ length count
  unfolding mixes
  length-mixes workers [] = refl
  length-mixes workers (c ∷ count) = ap suc (length-mixes workers count)

  pub length-baselines :
      (workers : List Text)
      → (baselines {F = F} m workers).0 ≡ none
      → length (baselines {F = F} m workers).1 ≡ length workers
  unfolding baselines
  length-baselines [] h = refl
  length-baselines (wn ∷ workers) h = ground (arith, length-baselines workers)

  pub baselines-AllKnown :
      (workers : List Text) → AllKnown m workers → (baselines {F = F} m workers).0 ≡ none
  unfolding baselines
  baselines-AllKnown [] k = refl
  baselines-AllKnown (wn ∷ workers) k = ground (arith, baselines-AllKnown workers k.1)

  pub AllKnown-baselines :
      (workers : List Text) → (baselines {F = F} m workers).0 ≡ none → AllKnown m workers
  unfolding baselines
  AllKnown-baselines [] h = tt
  AllKnown-baselines (wn ∷ workers) h = ground (arith, AllKnown-baselines workers)

  pub get_elem?-baselines :
      (workers : List Text) (i : ℕ) {wn : Text}
      → AllKnown m workers
      → get_elem? workers i ≡ some wn
      → get_elem? (baselines {F = F} m workers).1 i
        ≡ some (empty_run (wn ++ codes " baseline") (worker_set (lookup_preset wn m) (pos 1) ∷ []))
  unfolding baselines
  get_elem?-baselines [] i k h = cc
  get_elem?-baselines (w ∷ workers) zero {wn} k h = let same : w ≡ wn = cc in rw (k.0, same) refl
  get_elem?-baselines (w ∷ workers) (suc i) k h = rw k.0 (get_elem?-baselines workers i k.1 h)

  pub get_elem?-mixes :
      (workers : List Text) (count : List ℤ) (i : ℕ) {c : ℤ}
      → get_elem? count i ≡ some c
      → get_elem? (mixes {F = F} m workers count) i
        ≡ some (empty_run (mix_label c workers []) (mix_sets m c workers))
  unfolding mixes
  get_elem?-mixes workers [] i h = cc
  get_elem?-mixes workers (c ∷ count) zero {c = c'} h = let same : c ≡ c' = cc in rw same refl
  get_elem?-mixes workers (c ∷ count) (suc i) h = get_elem?-mixes workers count i h
