-- ===== src/Bitmap/Negative.antt =====
-- Cpu numbers below zero: the guards of `Test`, `Set` and `Clear` do not look for them.
use schedbench.Base.{
  if◌then◌else◌, ltb, ltb→lt, Bool-cases, inl, inr, ℕ, suc, ◌-◌, ◌/◌, ◌%◌, ◌≤◌, ◌<◌, ◌≡◌, refl,
  arith,
}
use schedbench.Base.Int.{pos, negsuc}
use schedbench.Base.Outcome.{panics}
use schedbench.Bitmap.{Bitmap, set, grow}

-- `Set` of -1 to -7 sets a cpu of the first byte: -1 is cpu 7, and -7 is cpu 1.
set_alias : (n : ℕ) (bm : Bitmap) → n < 7 → set (negsuc n) bm ≡ set (pos (7 - n)) bm
unfolding set
set_alias n bm h =
    let low : suc n / 8 ≡ 0 = omega arith in
    let low' : (7 - n) / 8 ≡ 0 = omega arith in
    let digit : n % 8 ≡ n = omega arith in
    let digit' : (7 - n) % 8 ≡ 7 - n = omega arith in rw (low, low', digit, digit') refl

-- `Set` of -8 and below panics.
set_panics : (n : ℕ) (bm : Bitmap) → 7 ≤ n → set (negsuc n) bm ≡ panics
unfolding set grow
set_panics n bm h =
    let below : suc n / 8 ≡ suc (suc n / 8 - 1) = omega arith in rw below (ground arith)

-- `Set` of a negative number sets a cpu of the first byte where the number is -1 to -7, and panics
-- from -8 on.
pub set_negative :
    (n : ℕ) (bm : Bitmap) → set (negsuc n) bm ≡ (if ltb n 7 then set (pos (7 - n)) bm else panics)
set_negative n bm = elim (Bool-cases (ltb n 7)) [
  | inl near ↦ rw near (set_alias n bm (ltb→lt n 7 near))
  | inr far ↦ rw far (set_panics n bm (ground (arith, far)))
]
