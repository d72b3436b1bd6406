-- ===== src/Bitmap.antt =====
-- The type `Bitmap` of controller/libxl.go and its operations: cpu sets as slices of bytes.
-- A `Bitmap` is passed by pointer where it is written, so `set` and `clear` return the new one.
pub mod Members
pub mod Bytes
pub mod Negative
pub mod Sets
pub mod Runs
pub mod Print
pub mod Range
pub mod Copies
use schedbench.Base.{
  ℕ, zero, suc, ◌+◌, ◌-◌, ◌*◌, ◌/◌, ◌%◌, ◌^◌, Bool, true, false, not, ◌||◌, List, [], ◌∷◌, ◌++◌,
  Option, none, some, bit_and, bit_or, ltb, ◌==◌, if◌then◌else◌, is_none, length, get_or, replicate,
  Text, codes, leb, ◌≡◌, ◌≤◌, ◌⊎◌, inl, inr, refl, arith,
}
use schedbench.Base.{set as list_set}
use schedbench.Base.Int.{ℤ, pos, negsuc, pos_part, sub_ℕ, ltb_ℤ, ◌+ℤ◌, ◌-ℤ◌, show_int}
use schedbench.Base.Outcome.{Outcome, returns, panics, ◌>>=◌, index, elems, for_range}

pub record Bitmap : Type 0 where
  pub bitmap : Option (List ℕ)

abbrev pub bytes : Bitmap → List ℕ
bytes bm = elems bm.bitmap

-- `bit / 8`, which rounds towards zero.
unfoldable pub byte_index : ℤ → ℤ
byte_index (pos n) = pos (n / 8)
byte_index (negsuc n) = sub_ℕ 0 (suc n / 8)

-- `uint(bit) & 7`
unfoldable pub bit_index : ℤ → ℕ
bit_index (pos n) = n % 8
bit_index (negsuc n) = 7 - n % 8

-- `1 << (uint(bit) & 7)`
unfoldable pub mask : ℤ → ℕ
unfolding bit_index
mask bit = 2 ^ bit_index bit

unfoldable pub max : Bitmap → ℤ
max bm = sub_ℕ (length (bytes bm) * 8) 1

unfoldable pub test : Bitmap → ℤ → Outcome Bool
unfolding max byte_index mask
test bm bit =
    if ltb_ℤ (max bm) bit || is_none bm.bitmap
    then returns false
    else (index (bytes bm) (byte_index bit) >>= λ b. returns (not (bit_and b (mask bit) == 0)))

-- The slice of `Set` after the `append`.
unfoldable pub grow : List ℕ → ℤ → List ℕ
grow bs (pos i) = if ltb (length bs) (i + 1) then bs ++ replicate (i + 1 - length bs) 0 else bs
grow bs (negsuc i) = bs

-- `bs[i] = v`, after `bs[i]` was read.
abbrev write : List ℕ → ℤ → ℕ → Bitmap
write bs i v = record { bitmap = some (list_set bs (pos_part i) v) }

unfoldable pub set : ℤ → Bitmap → Outcome Bitmap
unfolding byte_index mask
set bit bm =
    let bs = grow (bytes bm) (byte_index bit) in
    index bs (byte_index bit) >>= λ b. returns (write bs (byte_index bit) (bit_or b (mask bit)))

-- `bm.bitmap[bit / 8] &= ^(1 << (ubit & 7))`, on bytes.
unfoldable pub clear : ℤ → Bitmap → Outcome Bitmap
unfolding max byte_index mask
clear bit bm =
    if ltb_ℤ (max bm) bit || is_none bm.bitmap
    then returns bm
    else (index (bytes bm) (byte_index bit) >>= λ b.
        returns (write (bytes bm) (byte_index bit) (bit_and b (255 - mask bit))))

-- The rounds of `for i := start; i <= end; i++`.
unfoldable pub span : ℤ → ℤ → ℕ
unfolding ◌+ℤ◌ ◌-ℤ◌
span start end = pos_part (end -ℤ start +ℤ pos 1)

unfoldable pub set_range : ℤ → ℤ → Bitmap → Outcome Bitmap
unfolding ◌+ℤ◌ span set for_range
set_range start end bm = for_range (span start end) 0 (λ k. set (start +ℤ pos k)) bm

unfoldable pub clear_range : ℤ → ℤ → Bitmap → Outcome Bitmap
unfolding ◌+ℤ◌ span clear for_range
clear_range start end bm = for_range (span start end) 0 (λ k. clear (start +ℤ pos k)) bm

unfoldable pub all_zero : List ℕ → Bool
all_zero [] = true
all_zero (b ∷ bs) = if b == 0 then all_zero bs else false

unfoldable pub is_empty : Bitmap → Bool
unfolding all_zero
is_empty bm = all_zero (bytes bm)

-- The loop of `And` over `i < min`; both slices have an entry `i`.
unfoldable pub and_loop : ℕ → ℕ → List ℕ → List ℕ → List ℕ → List ℕ
and_loop zero i a b c = c
and_loop (suc rounds) i a b c =
    and_loop rounds (suc i) a b (list_set c i (bit_and (get_or a i 0) (get_or b i 0)))

unfoldable pub and : Bitmap → Bitmap → Bitmap
unfolding and_loop
and a b =
    let la = length (bytes a) in
    let lb = length (bytes b) in
    let longer = if ltb lb la then la else lb in
    let shorter = if ltb lb la then lb else la in
    record { bitmap = some (and_loop shorter 0 (bytes a) (bytes b) (replicate longer 0)) }

-- The variables of the loop in `String`.
pub record Printer : Type 0 where
  pub last_online : Bool
  pub crange : Bool
  pub printed : Bool
  pub s : Text

-- One round of the loop, for cpu `i` with `bm.Test(i)` being `online`.
unfoldable pub print_cpu : ℕ → Bool → Printer → Printer
unfolding show_int
print_cpu i true p =
    if not p.last_online
    then record p {
      last_online = true;
      printed = true;
      s = (if p.printed then p.s ++ codes "," else p.s) ++ show_int (pos i);
    }
    else if not p.crange
    then record p { last_online = true; crange = true; s = p.s ++ codes "-" }
    else record p { last_online = true }
print_cpu i false p = record p {
  last_online = false;
  crange = false;
  s = if p.last_online then (if p.crange then p.s ++ show_int (pos i -ℤ pos 1) else p.s) else p.s;
}

-- After the loop, with `i` one past the last cpu.
unfoldable pub print_end : ℕ → Printer → Text
unfolding show_int
print_end i p =
    if p.last_online then (if p.crange then p.s ++ show_int (pos i -ℤ pos 1) else p.s) else p.s

unfoldable pub to_string : Bitmap → Outcome Text
unfolding ◌-ℤ◌ test for_range print_cpu print_end
to_string bm =
    let cpus = length (bytes bm) * 8 in
    for_range cpus 0 (λ i p. test bm (pos i) >>= λ online. returns (print_cpu i online p))
      (record { last_online = false; crange = false; printed = false; s = [] })
    >>= λ p. returns (print_end cpus p)

-- A `libxl_bitmap`: its size field and the memory that `map` points to. Go takes the memory for an
-- array of `1 << 30` bytes, so that it panics on a larger size and on a nil `map`. libxl fills its
-- bitmaps in with one bit for each cpu of the machine, and has neither: the bound is part of the type.
pub record CBitmap : Type 0 where
  pub size : ℕ
  pub map : List ℕ
  pub in_array : leb size (2 ^ 30) ≡ true

-- `copy(dst, src)`: the slices' common length is overwritten.
unfoldable pub copy : List ℕ → List ℕ → List ℕ
copy [] src = []
copy (d ∷ dst) [] = d ∷ dst
copy (d ∷ dst) (b ∷ src) = b ∷ copy dst src

-- The `uint32_t` of such a size is the size.
pub word-in_array : (size : ℕ) → leb size (2 ^ 30) ≡ true → leb (size % 2 ^ 32) (2 ^ 30) ≡ true
word-in_array size small =
    let bound : size ≤ 2 ^ 30 = ground arith in
    let same : size % 2 ^ 32 ≡ size = omega arith in rw same small

unfoldable pub bitmap_c_to_go : CBitmap → Bitmap
unfolding copy
bitmap_c_to_go cbm = record { bitmap = some (copy (replicate cbm.size 0) cbm.map) }

abbrev pub decided : (b : Bool) → (b ≡ true) ⊎ (b ≡ false)
decided true = inl refl
decided false = inr refl

-- From the slicing of the memory on, which panics on more than `1 << 30` bytes.
unfoldable pub filled :
    (size : ℕ)
    → List ℕ
    → List ℕ
    → (leb size (2 ^ 30) ≡ true) ⊎ (leb size (2 ^ 30) ≡ false)
    → Outcome CBitmap
unfolding copy
filled size memory bs (inr large) = panics
filled size memory bs (inl small) =
    returns
      (record { size = size % 2 ^ 32; map = copy memory bs; in_array = word-in_array size small })

-- `malloc` gives the memory's old contents, or fails.
unfoldable pub bitmap_go_to_c : (ℕ → Option (List ℕ)) → Bitmap → Outcome CBitmap
unfolding filled
bitmap_go_to_c malloc gbm =
    let size = length (bytes gbm) in
    elim (malloc size) [
      | none ↦ panics
      | some memory ↦ filled size memory (bytes gbm) (decided (leb size (2 ^ 30)))
    ]
