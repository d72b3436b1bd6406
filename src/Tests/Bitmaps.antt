-- ===== src/Tests/Bitmaps.antt =====
-- The theorems on bitmaps at the bitmap of the comment in `Bitmap.String`: cpus 2, 4 to 8 and 10.
use schedbench.Base.{
  ℕ, ◌==◌, ◌≡◌, ◌↔◌, refl, true, false, not, ◌&&◌, ◌||◌, ◌∷◌, [], some, none, arith, leb, codes,
  replicate,
}
use schedbench.Base.Int.{pos, negsuc}
use schedbench.Base.Outcome.{returns}
use schedbench.Bitmap.{
  Bitmap, CBitmap, bytes, set, clear, set_range, clear_range, to_string, and, is_empty,
  bitmap_c_to_go, bitmap_go_to_c, grow,
}
use schedbench.Bitmap.Members.{has}
use schedbench.Bitmap.Bytes.{IsValid, has-and, is_empty_iff}
use schedbench.Bitmap.Negative.{set_negative}
use schedbench.Bitmap.Sets.{set_and_clear}
use schedbench.Bitmap.Range.{set_and_clear_range}
use schedbench.Bitmap.Runs.{IsSpaced, in_runs, render}
use schedbench.Bitmap.Print.{to_string_runs}
use schedbench.Bitmap.Copies.{c_to_go-go_to_c}

-- 0xf4 is cpus 2 and 4 to 7, and 0x05 is cpus 8 and 10.
abbrev sample : Bitmap
sample = record { bitmap = some (0xf4 ∷ 0x05 ∷ []) }

sample_text : to_string sample ≡ returns (codes "2,4-8,10")
unfolding to_string
sample_text = refl

with_nine : set (pos 9) sample ≡ returns (record { bitmap = some (0xf4 ∷ 0x07 ∷ []) })
unfolding set grow
with_nine = refl

-- Cpu -1 of a configuration is cpu 7.
minus_one :
    set (negsuc 0) (record { bitmap = none }) ≡ returns (record { bitmap = some (0x80 ∷ []) })
unfolding set grow
minus_one = refl

sample-IsValid : IsValid sample
sample-IsValid = omega arith

to_string_runs_example :
    (rs : _) × (to_string sample ≡ returns (render rs))
    × IsSpaced 0 rs
    × ((n : ℕ) → in_runs n rs ≡ has sample n)
to_string_runs_example = to_string_runs sample

set_and_clear_example :
    ((bm' : Bitmap) × (set (pos 9) sample ≡ returns bm')
      × ((m : ℕ) → has bm' m ≡ (m == 9 || has sample m)))
    × ((bm' : Bitmap) × (clear (pos 9) sample ≡ returns bm')
        × ((m : ℕ) → has bm' m ≡ (not (m == 9) && has sample m)))
set_and_clear_example = set_and_clear 9 sample

has-and_example :
    has (and sample (record { bitmap = some (0x0c ∷ []) })) 2
    ≡ (has sample 2 && has (record { bitmap = some (0x0c ∷ []) }) 2)
has-and_example = has-and sample (record { bitmap = some (0x0c ∷ []) }) 2

is_empty_iff_example : (is_empty sample ≡ true) ↔ ((n : ℕ) → has sample n ≡ false)
is_empty_iff_example = is_empty_iff sample sample-IsValid

set_and_clear_range_example :
    ((bm' : Bitmap) × (set_range (pos 4) (pos 8) sample ≡ returns bm')
      × ((m : ℕ) → has bm' m ≡ ((leb 4 m && leb m 8) || has sample m)))
    × ((bm' : Bitmap) × (clear_range (pos 4) (pos 8) sample ≡ returns bm')
        × ((m : ℕ) → has bm' m ≡ (not (leb 4 m && leb m 8) && has sample m)))
set_and_clear_range_example = set_and_clear_range 4 8 sample

set_negative_example : set (negsuc 0) sample ≡ set (pos 7) sample
set_negative_example = set_negative 0 sample

c_to_go-go_to_c_example :
    (cbm : CBitmap) × (bitmap_go_to_c (λ n. some (replicate n 0)) sample ≡ returns cbm)
    × (bytes (bitmap_c_to_go cbm) ≡ 0xf4 ∷ 0x05 ∷ [])
c_to_go-go_to_c_example =
    c_to_go-go_to_c (λ n. some (replicate n 0)) sample (0 ∷ 0 ∷ []) refl refl (omega arith)
