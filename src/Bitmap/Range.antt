-- ===== src/Bitmap/Range.antt =====
-- `SetRange` and `ClearRange` between two cpu numbers that are not negative.
use schedbench.Base.{
  ℕ, zero, suc, ◌+◌, ◌≤◌, ◌<◌, ◌≡◌, refl, ap, ◌∙◌, not, ◌&&◌, ◌||◌, arith, ltb, leb,
}
use schedbench.Base.Int.{ℤ, pos, ◌+ℤ◌}
use schedbench.Base.Outcome.{Outcome, returns, for_range}
use schedbench.Bitmap.{Bitmap, set, clear, set_range, clear_range, span}
use schedbench.Bitmap.Members.{
  has, with_cpu, without_cpu, set-returns, clear-returns, has-with_cpu, has-without_cpu,
}

pos_add : (a b : ℕ) → pos a +ℤ pos b ≡ pos (a + b)
unfolding ◌+ℤ◌
pos_add a b = ground arith

span_lem : (lo hi : ℕ) → lo ≤ suc hi → lo + span (pos lo) (pos hi) ≡ suc hi
unfolding span
span_lem lo hi h = ground arith

span_empty : (lo hi : ℕ) → hi < lo → span (pos lo) (pos hi) ≡ 0
unfolding span
span_empty lo hi h = ground arith

-- A loop over one operation that returns on every cpu, from `lo` on.
module _ (op : ℤ → Bitmap → Outcome Bitmap) (after : ℕ → Bitmap → Bitmap)
    (op-returns : (n : ℕ) (bm : Bitmap) → op (pos n) bm ≡ returns (after n bm)) where
  each : ℕ → ℕ → Bitmap → Bitmap
  each zero n bm = bm
  each (suc rounds) n bm = each rounds (suc n) (after n bm)

  for_range-each :
      (lo rounds k : ℕ) (bm : Bitmap)
      → for_range rounds k (λ k. op (pos lo +ℤ pos k)) bm ≡ returns (each rounds (lo + k) bm)
  unfolding for_range each
  for_range-each lo zero k bm = refl
  for_range-each lo (suc rounds) k bm =
      let next : lo + suc k ≡ suc (lo + k) = omega arith in
      rw (pos_add lo k, op-returns (lo + k) bm)
        (for_range-each lo rounds (suc k) (after (lo + k) bm)
          ∙ ap (λ n. returns (each rounds n (after (lo + k) bm))) next)

-- The bitmap after `SetRange` of `rounds` cpus from `n`, and after `ClearRange`.
with_cpus : ℕ → ℕ → Bitmap → Bitmap
with_cpus = each set with_cpu set-returns

without_cpus : ℕ → ℕ → Bitmap → Bitmap
without_cpus = each clear without_cpu clear-returns

has-with_cpus :
    (rounds n m : ℕ) (bm : Bitmap)
    → has (with_cpus rounds n bm) m ≡ ((leb n m && ltb m (n + rounds)) || has bm m)
unfolding with_cpus each
has-with_cpus zero n m bm = ground arith
has-with_cpus (suc rounds) n m bm =
    ground (arith, has-with_cpus rounds (suc n) m (with_cpu n bm), has-with_cpu n m bm)

has-without_cpus :
    (rounds n m : ℕ) (bm : Bitmap)
    → has (without_cpus rounds n bm) m ≡ (not (leb n m && ltb m (n + rounds)) && has bm m)
unfolding without_cpus each
has-without_cpus zero n m bm = ground arith
has-without_cpus (suc rounds) n m bm =
    ground (arith, has-without_cpus rounds (suc n) m (without_cpu n bm), has-without_cpu n m bm)

has-set_range :
    (lo hi : ℕ) (bm : Bitmap)
    → (bm' : Bitmap) × (set_range (pos lo) (pos hi) bm ≡ returns bm')
      × ((m : ℕ) → has bm' m ≡ ((leb lo m && leb m hi) || has bm m))
unfolding set_range with_cpus
has-set_range lo hi bm = (
  with_cpus (span (pos lo) (pos hi)) (lo + 0) bm,
  for_range-each set with_cpu set-returns lo (span (pos lo) (pos hi)) 0 bm,
  λ m. ground (
    arith,
    has-with_cpus (span (pos lo) (pos hi)) (lo + 0) m bm,
    span_lem lo hi,
    span_empty lo hi,
  ),
)

has-clear_range :
    (lo hi : ℕ) (bm : Bitmap)
    → (bm' : Bitmap) × (clear_range (pos lo) (pos hi) bm ≡ returns bm')
      × ((m : ℕ) → has bm' m ≡ (not (leb lo m && leb m hi) && has bm m))
unfolding clear_range without_cpus
has-clear_range lo hi bm = (
  without_cpus (span (pos lo) (pos hi)) (lo + 0) bm,
  for_range-each clear without_cpu clear-returns lo (span (pos lo) (pos hi)) 0 bm,
  λ m. ground (
    arith,
    has-without_cpus (span (pos lo) (pos hi)) (lo + 0) m bm,
    span_lem lo hi,
    span_empty lo hi,
  ),
)

-- With bounds that are not negative, `SetRange` returns, adds exactly the cpus from `lo` to `hi` and keeps the others; `ClearRange`
-- returns, takes away exactly those cpus and keeps the others.
pub set_and_clear_range :
    (lo hi : ℕ) (bm : Bitmap)
    → ((bm' : Bitmap) × (set_range (pos lo) (pos hi) bm ≡ returns bm')
        × ((m : ℕ) → has bm' m ≡ ((leb lo m && leb m hi) || has bm m)))
      × ((bm' : Bitmap) × (clear_range (pos lo) (pos hi) bm ≡ returns bm')
          × ((m : ℕ) → has bm' m ≡ (not (leb lo m && leb m hi) && has bm m)))
set_and_clear_range lo hi bm = (has-set_range lo hi bm, has-clear_range lo hi bm)
