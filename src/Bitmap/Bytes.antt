-- ===== src/Bitmap/Bytes.antt =====
-- The bytes of a bitmap: they stay below 256, `And` meets two sets and `IsEmpty` sees every cpu.
use schedbench.Base.{
  ℕ, zero, suc, ◌+◌, ◌-◌, ◌/◌, ◌%◌, ◌^◌, ◌≤◌, ◌<◌, ◌≡◌, refl, sym, ◌∙◌, ◌↔◌, true, false, ◌&&◌,
  List, [], ◌∷◌, ◌++◌, bit_and, arith, ltb, ◌==◌, if◌then◌else◌, length, get_or, replicate,
  length-replicate, length-set, get_or-set_self, get_or-set_ne,
}
use schedbench.Base.{set as list_set}
use schedbench.Base.Bits.{
  bit, bit-lt, bit-zero, bit-bit_and, bit_and-le, bit_or-lt, byte-zero, pow-lt_byte,
}
use schedbench.Base.Int.{pos}
use schedbench.Bitmap.{Bitmap, bytes, grow, and, and_loop, is_empty, all_zero}
use schedbench.Bitmap.Members.{holds, has, get_or_beyond, get_or-zeros, with_cpu, without_cpu}

abbrev pub AllBytes : List ℕ → Type 0
AllBytes [] = Unit {0}
AllBytes (b ∷ bs) = (b < 256) × AllBytes bs

-- Every entry is a byte.
abbrev pub IsValid : Bitmap → Type 0
IsValid bm = AllBytes (bytes bm)

get_or-lt : (bs : List ℕ) (i : ℕ) → AllBytes bs → get_or bs i 0 < 256
get_or-lt [] i h = omega arith
get_or-lt (b ∷ bs) zero h = h.0
get_or-lt (b ∷ bs) (suc i) h = get_or-lt bs i h.1

AllBytes-set : (bs : List ℕ) (i v : ℕ) → v < 256 → AllBytes bs → AllBytes (list_set bs i v)
AllBytes-set [] i v p h = h
AllBytes-set (b ∷ bs) zero v p h = (p, h.1)
AllBytes-set (b ∷ bs) (suc i) v p h = (h.0, AllBytes-set bs i v p h.1)

AllBytes-padded : (bs : List ℕ) (k : ℕ) → AllBytes bs → AllBytes (bs ++ replicate k 0)
AllBytes-padded [] zero h = tt
AllBytes-padded [] (suc k) h = (omega arith, AllBytes-padded [] k tt)
AllBytes-padded (b ∷ bs) k h = (h.0, AllBytes-padded bs k h.1)

AllBytes-grow : (bs : List ℕ) (i : ℕ) → AllBytes bs → AllBytes (grow bs (pos i))
unfolding grow
AllBytes-grow bs i h = ground (arith, AllBytes-padded bs (i + 1 - length bs) h)

pub with_cpu-IsValid : (n : ℕ) (bm : Bitmap) → IsValid bm → IsValid (with_cpu n bm)
with_cpu-IsValid n bm h =
    AllBytes-set (grow (bytes bm) (pos (n / 8))) (n / 8) _
      (bit_or-lt 8 (get_or (grow (bytes bm) (pos (n / 8))) (n / 8) 0) (2 ^ (n % 8))
        (get_or-lt _ (n / 8) grown) (pow-lt_byte (n % 8) (omega arith)))
      grown
  where
    grown : AllBytes (grow (bytes bm) (pos (n / 8)))
    grown = AllBytes-grow (bytes bm) (n / 8) h

pub without_cpu-IsValid : (n : ℕ) (bm : Bitmap) → IsValid bm → IsValid (without_cpu n bm)
without_cpu-IsValid n bm h = ground (arith, AllBytes-set (bytes bm) (n / 8) _ cleared h)
  where
    b : ℕ
    b = get_or (bytes bm) (n / 8) 0

    cleared : bit_and b (255 - 2 ^ (n % 8)) < 256
    cleared = omega (arith, bit_and-le b b (255 - 2 ^ (n % 8)), get_or-lt (bytes bm) (n / 8) h)

-- `And`, entry by entry.
get_or-and_loop :
    (rounds i j : ℕ) (a b c : List ℕ)
    → i + rounds ≤ length c
    → get_or (and_loop rounds i a b c) j 0 ≡ (
        if ltb j i
        then get_or c j 0
        else if ltb j (i + rounds)
        then bit_and (get_or a j 0) (get_or b j 0)
        else get_or c j 0)
unfolding and_loop
get_or-and_loop zero i j a b c h = ground arith
get_or-and_loop (suc rounds) i j a b c h = ground (
  arith,
  length-set c i (bit_and (get_or a i 0) (get_or b i 0)),
  get_or-and_loop rounds (suc i) j a b (list_set c i (bit_and (get_or a i 0) (get_or b i 0))),
  get_or-set_self c i (bit_and (get_or a i 0) (get_or b i 0)) 0,
  get_or-set_ne c i j (bit_and (get_or a i 0) (get_or b i 0)) 0,
)

length-and_loop : (rounds i : ℕ) (a b c : List ℕ) → length (and_loop rounds i a b c) ≡ length c
unfolding and_loop
length-and_loop zero i a b c = refl
length-and_loop (suc rounds) i a b c =
    length-and_loop rounds (suc i) a b _ ∙ length-set c i (bit_and (get_or a i 0) (get_or b i 0))

get_or-and :
    (a b : Bitmap) (j : ℕ)
    → get_or (bytes (and a b)) j 0 ≡ (
        if ltb j (length (bytes a)) && ltb j (length (bytes b))
        then bit_and (get_or (bytes a) j 0) (get_or (bytes b) j 0)
        else 0)
unfolding and
get_or-and a b j =
    let la : ℕ = length (bytes a) in
    let lb : ℕ = length (bytes b) in
    let longer : ℕ = if ltb lb la then la else lb in
    let shorter : ℕ = if ltb lb la then lb else la in
    ground (
      arith,
      length-replicate {A = ℕ} longer 0,
      get_or-zeros longer j,
      get_or-and_loop shorter 0 j (bytes a) (bytes b) (replicate longer 0),
    )

meet_digit : (a b k : ℕ) → (bit k (bit_and a b) == 1) ≡ (bit k a == 1 && bit k b == 1)
meet_digit a b k = ground (arith, bit-bit_and k a b, bit-lt k a, bit-lt k b)

-- `And` is the intersection, also of bitmaps of two lengths.
pub has-and : (a b : Bitmap) (n : ℕ) → has (and a b) n ≡ (has a n && has b n)
unfolding has
has-and a b n = ground (
  arith,
  get_or-and a b (n / 8),
  meet_digit (get_or (bytes a) (n / 8) 0) (get_or (bytes b) (n / 8) 0) (n % 8),
  get_or_beyond (bytes a) (n / 8),
  get_or_beyond (bytes b) (n / 8),
  bit-zero (n % 8),
)

all_zero-get_or : (bs : List ℕ) (i : ℕ) → all_zero bs ≡ true → get_or bs i 0 ≡ 0
unfolding all_zero
all_zero-get_or [] i h = refl
all_zero-get_or (b ∷ bs) zero h = ground arith
all_zero-get_or (b ∷ bs) (suc i) h = ground (arith, all_zero-get_or bs i)

-- A set that `IsEmpty` accepts holds no cpu at all.
pub is_empty-has : (bm : Bitmap) (n : ℕ) → is_empty bm ≡ true → has bm n ≡ false
unfolding is_empty has
is_empty-has bm n h = rw (all_zero-get_or (bytes bm) (n / 8) h, bit-zero (n % 8)) refl

no_digits : (d : ℕ) → d < 2 → (d == 1) ≡ false → d ≡ 0
no_digits d h e = ground arith

holds_head : (b : ℕ) (bs : List ℕ) (k : ℕ) → k < 8 → holds (b ∷ bs) k ≡ false → bit k b ≡ 0
holds_head b bs k p h =
    let column : k % 8 ≡ k = omega arith in
    let row : k / 8 ≡ 0 = omega arith in no_digits (bit k b) (bit-lt k b) (rw (column, row) at h)

holds_tail : (b : ℕ) (bs : List ℕ) (n : ℕ) → holds (b ∷ bs) (n + 8) ≡ holds bs n
holds_tail b bs n =
    let column : (n + 8) % 8 ≡ n % 8 = omega arith in
    let row : (n + 8) / 8 ≡ suc (n / 8) = omega arith in rw (column, row) refl

all_zero_of_holds :
    (bs : List ℕ) → AllBytes bs → ((n : ℕ) → holds bs n ≡ false) → all_zero bs ≡ true
unfolding all_zero
all_zero_of_holds [] v h = refl
all_zero_of_holds (b ∷ bs) v h =
    let first : b ≡ 0 = byte-zero b v.0 (λ k p. holds_head b bs k p (h k)) in
    let rest : all_zero bs ≡ true =
      all_zero_of_holds bs v.1 (λ n. sym (holds_tail b bs n) ∙ h (n + 8)) in
    rw first rest

-- `IsEmpty` of a bitmap of bytes tells exactly whether no cpu is in it.
pub is_empty_iff : (bm : Bitmap) → IsValid bm → (is_empty bm ≡ true) ↔ ((n : ℕ) → has bm n ≡ false)
unfolding is_empty has
is_empty_iff bm v =
    (λ h n. unfold is_empty has in is_empty-has bm n h, all_zero_of_holds (bytes bm) v)
