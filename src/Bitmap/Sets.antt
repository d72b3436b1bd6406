-- ===== src/Bitmap/Sets.antt =====
-- `Set` and `Clear` as operations on sets of cpus.
use schedbench.Base.{ℕ, ◌≡◌, not, ◌&&◌, ◌||◌, ◌==◌}
use schedbench.Base.Int.{pos}
use schedbench.Base.Outcome.{returns}
use schedbench.Bitmap.{Bitmap, set, clear}
use schedbench.Bitmap.Members.{
  has, with_cpu, without_cpu, set-returns, clear-returns, has-with_cpu, has-without_cpu,
}

-- `Set` of a cpu number that is not negative returns, adds that cpu and keeps every other as it was;
-- `Clear` returns, takes that cpu out and keeps every other.
pub set_and_clear :
    (n : ℕ) (bm : Bitmap)
    → ((bm' : Bitmap) × (set (pos n) bm ≡ returns bm')
        × ((m : ℕ) → has bm' m ≡ (m == n || has bm m)))
      × ((bm' : Bitmap) × (clear (pos n) bm ≡ returns bm')
          × ((m : ℕ) → has bm' m ≡ (not (m == n) && has bm m)))
set_and_clear n bm = (
  (with_cpu n bm, set-returns n bm, λ m. has-with_cpu n m bm),
  (without_cpu n bm, clear-returns n bm, λ m. has-without_cpu n m bm),
)
