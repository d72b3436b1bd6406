-- ===== src/Plan/Mixes.antt =====
-- The label and the worker sets of a mix, described by what they hold for each worker.
use schedbench.Base.{
  ◌≡◌, refl, ap, ◌∙◌, false, List, [], ◌∷◌, ◌++◌, map, arith, Text, is_empty, codes,
}
use schedbench.Base.Int.{ℤ, show_int}
use schedbench.Bench.{WorkerSet, Presets}
use schedbench.Plan.{lookup_preset, worker_set, mix_label, mix_sets}
use mathlib.Core.List.{append_assoc, append-nil}

-- The part of a worker: its name and how many there are.
abbrev pub mix_part : ℤ → Text → Text
mix_part c wn = wn ++ codes " " ++ show_int c

-- The parts with ` + ` before each.
abbrev pub plus_parts : ℤ → List Text → Text
plus_parts c [] = []
plus_parts c (wn ∷ workers) = codes " + " ++ mix_part c wn ++ plus_parts c workers

-- The parts with ` + ` between them.
abbrev pub parts_label : ℤ → List Text → Text
parts_label c [] = []
parts_label c (wn ∷ workers) = mix_part c wn ++ plus_parts c workers

abbrev pub sets_of : Presets → ℤ → List Text → List WorkerSet
sets_of m c workers = map (λ wn. worker_set (lookup_preset wn m) c) workers

part_not_empty : (c : ℤ) (s wn : Text) → is_empty (s ++ mix_part c wn) ≡ false
part_not_empty c [] [] = refl
part_not_empty c [] (a ∷ wn) = refl
part_not_empty c (a ∷ s) wn = refl

add_part : (c : ℤ) (s wn : Text) → s ++ wn ++ codes " " ++ show_int c ≡ s ++ mix_part c wn
add_part c s wn =
    ap (λ t. t ++ show_int c) (append_assoc s wn (codes " "))
    ∙ append_assoc s (wn ++ codes " ") (show_int c)

mix_label-plus :
    (c : ℤ) (workers : List Text) (label : Text)
    → is_empty label ≡ false
    → mix_label c workers label ≡ label ++ plus_parts c workers
unfolding mix_label
mix_label-plus c [] label h = ground (arith, append-nil label)
mix_label-plus c (wn ∷ workers) label h =
    let next : Text = (label ++ codes " + ") ++ mix_part c wn in
    let longer : is_empty next ≡ false = part_not_empty c (label ++ codes " + ") wn in
    let one : mix_label c (wn ∷ workers) label ≡ mix_label c workers next =
      rw h (ap (mix_label c workers) (add_part c (label ++ codes " + ") wn)) in
    let regroup : next ++ plus_parts c workers ≡ label ++ plus_parts c (wn ∷ workers) =
      ap (λ t. t ++ plus_parts c workers) (append_assoc label (codes " + ") (mix_part c wn))
      ∙ append_assoc label (codes " + " ++ mix_part c wn) (plus_parts c workers) in
    one ∙ mix_label-plus c workers next longer ∙ regroup

pub mix_label-parts : (c : ℤ) (workers : List Text) → mix_label c workers [] ≡ parts_label c workers
unfolding mix_label
mix_label-parts c [] = refl
mix_label-parts c (wn ∷ workers) = mix_label-plus c workers (mix_part c wn) (part_not_empty c [] wn)

pub mix_sets-map :
    (m : Presets) (c : ℤ) (workers : List Text) → mix_sets m c workers ≡ sets_of m c workers
unfolding mix_sets
mix_sets-map m c [] = refl
mix_sets-map m c (wn ∷ workers) =
    ap (◌∷◌ (worker_set (lookup_preset wn m) c)) (mix_sets-map m c workers)
