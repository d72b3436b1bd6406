-- ===== src/Bitmap/Copies.antt =====
-- The conversions between Go's bitmaps and libxl's.
use schedbench.Base.{
  ℕ, ◌^◌, ◌<◌, ◌≤◌, ◌≡◌, refl, ap, ap₂, ◌∙◌, ◌⊎◌, true, false, leb, none, inl, inr, List, [], ◌∷◌,
  Option, some, arith, length, replicate, length-replicate,
}
use schedbench.Base.Outcome.{returns, panics}
use schedbench.Bitmap.{
  Bitmap, bytes, CBitmap, copy, filled, decided, bitmap_c_to_go, bitmap_go_to_c,
}

copy_all : (dst src : List ℕ) → length dst ≡ length src → copy dst src ≡ src
unfolding copy
copy_all [] [] h = refl
copy_all [] (b ∷ src) h = absurd (omega arith)
copy_all (d ∷ dst) [] h = absurd (omega arith)
copy_all (d ∷ dst) (b ∷ src) h = ap (◌∷◌ b) (copy_all dst src (omega arith))

filled-small :
    (size : ℕ) (memory bs : List ℕ) (d : (leb size (2 ^ 30) ≡ true) ⊎ (leb size (2 ^ 30) ≡ false))
    → size ≤ 2 ^ 30
    → length memory ≡ length bs
    → (cbm : CBitmap) × (filled size memory bs d ≡ returns cbm) × (cbm.size ≡ size) × (cbm.map ≡ bs)
unfolding filled
filled-small size memory bs (inr large) small long = absurd (ground arith)
filled-small size memory bs (inl here) small long = (_, refl, omega arith, copy_all memory bs long)

filled-large :
    (size : ℕ) (memory bs : List ℕ) (d : (leb size (2 ^ 30) ≡ true) ⊎ (leb size (2 ^ 30) ≡ false))
    → 2 ^ 30 < size
    → filled size memory bs d ≡ panics
unfolding filled
filled-large size memory bs (inr over) large = refl
filled-large size memory bs (inl here) large = absurd (ground arith)

-- A bitmap of at most 2 ^ 30 bytes comes back from C as the bytes that it went in with, when `malloc`
-- gives as much memory as it was asked for.
pub c_to_go-go_to_c :
    (malloc : ℕ → Option (List ℕ)) (bm : Bitmap) (memory : List ℕ)
    → malloc (length (bytes bm)) ≡ some memory
    → length memory ≡ length (bytes bm)
    → length (bytes bm) ≤ 2 ^ 30
    → (cbm : CBitmap) × (bitmap_go_to_c malloc bm ≡ returns cbm)
      × (bytes (bitmap_c_to_go cbm) ≡ bytes bm)
unfolding bitmap_go_to_c bitmap_c_to_go
c_to_go-go_to_c malloc bm memory given long small =
    let (cbm, made, size, map) =
      filled-small (length (bytes bm)) memory (bytes bm)
        (decided (leb (length (bytes bm)) (2 ^ 30))) small long in
    (
      cbm,
      rw (given, bitmap_go_to_c) made,
      ap₂ (λ n bs. copy (replicate n 0) bs) size map
          ∙ copy_all (replicate (length (bytes bm)) 0) (bytes bm)
              (length-replicate (length (bytes bm)) 0),
    )

-- A larger one panics, whatever `malloc` gives.
pub go_to_c-panics :
    (malloc : ℕ → Option (List ℕ)) (bm : Bitmap)
    → 2 ^ 30 < length (bytes bm)
    → bitmap_go_to_c malloc bm ≡ panics
unfolding bitmap_go_to_c
go_to_c-panics malloc bm large =
    go (malloc (length (bytes bm))) (decided (leb (length (bytes bm)) (2 ^ 30)))
  where
    go :
        (m : Option (List ℕ)) (d : _)
        → elim m [ none ↦ panics | some memory ↦ filled (length (bytes bm)) memory (bytes bm) d ]
          ≡ panics
    go none d = refl
    go (some memory) d = filled-large (length (bytes bm)) memory (bytes bm) d large
