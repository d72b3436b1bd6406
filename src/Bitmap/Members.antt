-- ===== src/Bitmap/Members.antt =====
-- The cpus in a bitmap, and what `Test`, `Set`, `Clear`, `And` and `IsEmpty` do to them.
use schedbench.Base.{
  ℕ, zero, suc, ◌+◌, ◌-◌, ◌*◌, ◌/◌, ◌%◌, ◌^◌, ◌≤◌, ◌<◌, ◌≡◌, refl, Bool, false, not, ◌&&◌, ◌||◌,
  List, [], ◌∷◌, ◌++◌, Option, none, some, bit_and, bit_or, arith, ltb, ◌==◌, if◌then◌else◌, length,
  get_or, replicate, length-append, length-replicate, get_or-set_self, get_or-set_ne,
}
use schedbench.Base.{set as list_set}
use schedbench.Base.Bits.{
  bit, bit-lt, bit-zero, bit-bit_or, bit-bit_and, bit-pow, bit_clear_mask, bit_and-pow_ne_zero,
}
use schedbench.Base.Int.{pos}
use schedbench.Base.Outcome.{returns, elems, index_ℕ-get_or}
use schedbench.Bitmap.{Bitmap, bytes, test, set, clear, grow}

-- Cpu `n` is in the set that the bytes stand for.
abbrev pub holds : List ℕ → ℕ → Bool
holds bs n = bit (n % 8) (get_or bs (n / 8) 0) == 1

unfoldable pub has : Bitmap → ℕ → Bool
has bm n = holds (bytes bm) n

pub get_or_beyond : (bs : List ℕ) (i : ℕ) → length bs ≤ i → get_or bs i 0 ≡ 0
get_or_beyond [] i h = refl
get_or_beyond (b ∷ bs) zero h = absurd (omega arith)
get_or_beyond (b ∷ bs) (suc i) h = get_or_beyond bs i (omega arith)

pub holds_beyond : (bs : List ℕ) (n : ℕ) → length bs * 8 ≤ n → holds bs n ≡ false
holds_beyond bs n h = rw (get_or_beyond bs (n / 8) (omega arith), bit-zero (n % 8)) refl

test_slice :
    (bs : Option (List ℕ)) (n : ℕ)
    → test (record { bitmap = bs }) (pos n) ≡ returns (holds (elems bs) n)
unfolding test
test_slice none n = ground (arith, bit-zero (n % 8))
test_slice (some bs) n = ground (
  arith,
  holds_beyond bs n,
  index_ℕ-get_or bs (n / 8) 0,
  bit_and-pow_ne_zero (n % 8) (get_or bs (n / 8) 0),
)

-- `Test` of a cpu number that is not negative never panics, and tells membership.
pub test-has : (bm : Bitmap) (n : ℕ) → test bm (pos n) ≡ returns (has bm n)
unfolding test has
test-has bm n = test_slice bm.bitmap n

holds-write :
    (bs : List ℕ) (i v n : ℕ)
    → i < length bs
    → holds (list_set bs i v) n ≡ (if n / 8 == i then bit (n % 8) v == 1 else holds bs n)
holds-write bs i v n h = ground (arith, get_or-set_self bs i v 0 h, get_or-set_ne bs i (n / 8) v 0)

pub get_or-zeros : (k j : ℕ) → get_or {A = ℕ} (replicate k 0) j 0 ≡ 0
get_or-zeros zero j = refl
get_or-zeros (suc k) zero = refl
get_or-zeros (suc k) (suc j) = get_or-zeros k j

get_or-padded : (bs : List ℕ) (k j : ℕ) → get_or (bs ++ replicate k 0) j 0 ≡ get_or bs j 0
get_or-padded [] k j = get_or-zeros k j
get_or-padded (b ∷ bs) k zero = refl
get_or-padded (b ∷ bs) k (suc j) = get_or-padded bs k j

-- The slice that `Set` has after its `append`: long enough, and with no new cpu.
pub get_or-grow : (bs : List ℕ) (i j : ℕ) → get_or (grow bs (pos i)) j 0 ≡ get_or bs j 0
unfolding grow
get_or-grow bs i j = ground (arith, get_or-padded bs (i + 1 - length bs) j)

pub length-grow : (bs : List ℕ) (i : ℕ) → i < length (grow bs (pos i))
unfolding grow
length-grow bs i = ground (
  arith,
  length-append bs (replicate (i + 1 - length bs) 0),
  length-replicate {A = ℕ} (i + 1 - length bs) 0,
)

-- The bitmap after `Set` of cpu `n`.
abbrev pub with_cpu : ℕ → Bitmap → Bitmap
with_cpu n bm =
    let bs = grow (bytes bm) (pos (n / 8)) in
    record { bitmap = some (list_set bs (n / 8) (bit_or (get_or bs (n / 8) 0) (2 ^ (n % 8)))) }

pub set-returns : (n : ℕ) (bm : Bitmap) → set (pos n) bm ≡ returns (with_cpu n bm)
unfolding set
set-returns n bm =
    rw (index_ℕ-get_or (grow (bytes bm) (pos (n / 8))) (n / 8) 0 (length-grow (bytes bm) (n / 8)))
      refl

or_digit : (a j k : ℕ) → (bit j (bit_or a (2 ^ k)) == 1) ≡ (j == k || bit j a == 1)
or_digit a j k = ground (arith, bit-bit_or j a (2 ^ k), bit-pow k j, bit-lt j a)

pub has-with_cpu : (n m : ℕ) (bm : Bitmap) → has (with_cpu n bm) m ≡ (m == n || has bm m)
unfolding has
has-with_cpu n m bm = ground (
  arith,
  holds-write (grow bs (pos (n / 8))) (n / 8) v m (length-grow bs (n / 8)),
  get_or-grow bs (n / 8) (m / 8),
  get_or-grow bs (n / 8) (n / 8),
  or_digit (get_or bs (n / 8) 0) (m % 8) (n % 8),
)
  where
    bs : List ℕ
    bs = bytes bm

    v : ℕ
    v = bit_or (get_or bs (n / 8) 0) (2 ^ (n % 8))

-- The bitmap after `Clear` of a cpu `n` that it has room for.
abbrev pub without_cpu : ℕ → Bitmap → Bitmap
without_cpu n bm =
    if ltb n (length (bytes bm) * 8)
    then record {
      bitmap =
          some (
            list_set (bytes bm) (n / 8)
              (bit_and (get_or (bytes bm) (n / 8) 0) (255 - 2 ^ (n % 8))));
    }
    else bm

clear_slice :
    (bs : Option (List ℕ)) (n : ℕ)
    → clear (pos n) (record { bitmap = bs }) ≡ returns (without_cpu n (record { bitmap = bs }))
unfolding clear
clear_slice none n = ground arith
clear_slice (some bs) n = ground (arith, index_ℕ-get_or bs (n / 8) 0)

pub clear-returns : (n : ℕ) (bm : Bitmap) → clear (pos n) bm ≡ returns (without_cpu n bm)
clear-returns n bm = clear_slice bm.bitmap n

clear_digit :
    (a j k : ℕ)
    → j < 8
    → k < 8
    → (bit j (bit_and a (255 - 2 ^ k)) == 1) ≡ (not (j == k) && bit j a == 1)
clear_digit a j k p q =
    ground (arith, bit-bit_and j a (255 - 2 ^ k), bit_clear_mask k j q p, bit-lt j a)

pub has-without_cpu :
    (n m : ℕ) (bm : Bitmap) → has (without_cpu n bm) m ≡ (not (m == n) && has bm m)
unfolding has
has-without_cpu n m bm = ground (
  arith,
  holds_beyond bs n,
  holds-write bs (n / 8) v m,
  clear_digit (get_or bs (n / 8) 0) (m % 8) (n % 8),
)
  where
    bs : List ℕ
    bs = bytes bm

    v : ℕ
    v = bit_and (get_or bs (n / 8) 0) (255 - 2 ^ (n % 8))
