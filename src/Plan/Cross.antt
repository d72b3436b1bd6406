-- ===== src/Plan/Cross.antt =====
-- The shape of an expanded matrix: how many runs, and which run stands where.
use schedbench.Base.{
  ℕ, zero, suc, ◌+◌, ◌*◌, ◌≡◌, refl, List, [], ◌∷◌, ◌++◌, some, map, arith, if◌then◌else◌, ltb,
  length, length-append, length-map, get_elem?,
}
use schedbench.Bench.{BenchmarkRun}
use schedbench.Plan.{cross, cross_if}

module _ {ℓ} {A : Type ℓ} where
  pub get_elem?-append_left :
      (xs ys : List A) (i : ℕ) {x : A} → get_elem? xs i ≡ some x → get_elem? (xs ++ ys) i ≡ some x
  get_elem?-append_left [] ys i h = cc
  get_elem?-append_left (x ∷ xs) ys zero h = h
  get_elem?-append_left (x ∷ xs) ys (suc i) h = get_elem?-append_left xs ys i h

  pub get_elem?-append_right :
      (xs ys : List A) (i : ℕ) → get_elem? (xs ++ ys) (length xs + i) ≡ get_elem? ys i
  get_elem?-append_right [] ys i = let e : 0 + i ≡ i = omega arith in rw e refl
  get_elem?-append_right (x ∷ xs) ys i =
      let e : suc (length xs) + i ≡ suc (length xs + i) = omega arith in
      rw e (get_elem?-append_right xs ys i)

get_elem?-map {ℓ κ} :
    {A : Type ℓ} {B : Type κ} (f : A → B) (xs : List A) (i : ℕ) {x : A}
    → get_elem? xs i ≡ some x
    → get_elem? (map f xs) i ≡ some (f x)
get_elem?-map f [] i h = cc
get_elem?-map f (x ∷ xs) zero h = ground arith
get_elem?-map f (x ∷ xs) (suc i) h = get_elem?-map f xs i h

module _ {ℓ} {F : Type 0} {V : Type ℓ} (variant : BenchmarkRun F → V → BenchmarkRun F) where
  length-cross :
      (axis : List V) (a : List (BenchmarkRun F))
      → length (cross variant axis a) ≡ length a * length axis
  unfolding cross
  length-cross axis [] = omega arith
  length-cross axis (base ∷ a) = grind (
    arith,
    length-append (map (variant base) axis) (cross variant axis a),
    length-map (variant base) axis,
    length-cross axis a,
  )

  pub length-cross_if :
      (axis : List V) (a : List (BenchmarkRun F))
      → length (cross_if variant axis a)
        ≡ length a * (if ltb 0 (length axis) then length axis else 1)
  unfolding cross_if
  length-cross_if axis a = ground (arith, length-cross axis a)

  -- The variants of one base run stand together.
  pub get_elem?-cross :
      (axis : List V) (a : List (BenchmarkRun F)) (i j : ℕ) {base : BenchmarkRun F} {v : V}
      → get_elem? a i ≡ some base
      → get_elem? axis j ≡ some v
      → get_elem? (cross variant axis a) (i * length axis + j) ≡ some (variant base v)
  unfolding cross
  get_elem?-cross axis [] i j h k = cc
  get_elem?-cross axis (b ∷ a) zero j h k =
      let here : 0 * length axis + j ≡ j = omega arith in
      rw here (
        cc (
          get_elem?-append_left (map (variant b) axis) (cross variant axis a) j
            (get_elem?-map (variant b) axis j k)))
  get_elem?-cross axis (b ∷ a) (suc i) j h k =
      let later : suc i * length axis + j ≡ length (map (variant b) axis) + (i * length axis + j) =
        grind (arith, length-map (variant b) axis) in
      rw
        (
          later,
          get_elem?-append_right (map (variant b) axis) (cross variant axis a)
              (i * length axis + j),
        )
        (get_elem?-cross axis a i j h k)
