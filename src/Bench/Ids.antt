-- ===== src/Bench/Ids.antt =====
-- The test of two ids for equality, as Go's `==` on structs.
use schedbench.Base.{◌≡◌, ap, ap₂, true, arith}
use schedbench.Base.Int.{ℤ, pos, negsuc, eqb_ℤ}
use schedbench.Bench.{WorkerId, id_eq}

eqb_ℤ→≡ : (a b : ℤ) → eqb_ℤ a b ≡ true → a ≡ b
eqb_ℤ→≡ (pos a) (pos b) h = ground arith
eqb_ℤ→≡ (pos a) (negsuc b) h = absurd (ground arith)
eqb_ℤ→≡ (negsuc a) (pos b) h = absurd (ground arith)
eqb_ℤ→≡ (negsuc a) (negsuc b) h = ground arith

pub id_eq→≡ : (a b : WorkerId) → id_eq a b ≡ true → a ≡ b
id_eq→≡ a b h =
    let same_set : a.set ≡ b.set = eqb_ℤ→≡ a.set b.set (ground arith) in
    let same_id : a.id ≡ b.id = eqb_ℤ→≡ a.id b.id (ground arith) in
    ap₂ (λ (s n : ℤ). record { set = s; id = n }) same_set same_id

pub id_eq_refl : (id : WorkerId) → id_eq id id ≡ true
id_eq_refl id = ground arith

-- Where `a` is `b`, testing either against `c` is the same.
pub id_eq-cong : (a b c : WorkerId) → id_eq a b ≡ true → id_eq a c ≡ id_eq b c
id_eq-cong a b c h = ap (λ x. id_eq x c) (id_eq→≡ a b h)
