-- ===== src/Base/Bits.antt =====
-- One binary digit of a number, and what `&`, `|` and a cleared mask do to it.
use Prim.Native.Nat.{
  ℕ, zero, suc, ◌+◌, ◌-◌, ◌*◌, ◌/◌, ◌%◌, ◌^◌, ◌≤◌, ◌<◌, min, max, bit_and, bit_or, digits, bitwise,
  bit_and-bitwise, bit_or-bitwise,
}
use mathlib.Core.Path.{◌≡◌, refl, sym, ap, ◌∙◌}
use mathlib.Core.Bool.{Bool, true, ◌&&◌, not}
use mathlib.Core.Logic.{inl, inr}
use native.Mathlib.Nat.{le_refl, pow-suc, one-le-pow}
use native.Mathlib.Omega.{arith}
use schedbench.Base.Tests.{Bool-cases, ltb, ltb→lt, ◌==◌, ==_iff, if◌then◌else◌}

-- Digit `k` of `n`.
abbrev pub bit : ℕ → ℕ → ℕ
bit zero n = n % 2
bit (suc k) n = bit k (n / 2)

pub bit-lt : (k n : ℕ) → bit k n < 2
bit-lt zero n = omega arith
bit-lt (suc k) n = bit-lt k (n / 2)

pub bit-zero : (k : ℕ) → bit k 0 ≡ 0
bit-zero zero = refl
bit-zero (suc k) = bit-zero k

-- A test that all numbers under `bound` pass.
every : (ℕ → Bool) → ℕ → Bool
every test zero = true
every test (suc bound) = every test bound && test bound

every→test : (test : ℕ → Bool) (bound n : ℕ) → n < bound → every test bound ≡ true → test n ≡ true
unfolding every
every→test test (suc bound) n below passed = elim (Bool-cases (n == bound)) [
  | inl last ↦ let same : n ≡ bound = ground arith in rw same (ground arith)
  | inr before ↦ every→test test bound n (ground arith) (ground arith)
]
every→test test zero n below passed = absurd (omega arith)

-- The native operations are recursions on fuel. Fuel beyond the first number plays no part, so that
-- one digit can be split off.
module _ (z : ℕ → ℕ) (f : ℕ → ℕ → ℕ) where
  digits-zero : (fuel b : ℕ) → digits z f fuel 0 b ≡ z b
  digits-zero zero b = refl
  digits-zero (suc fuel) b = refl

  spare_fuel : (spare fuel a b : ℕ) → a ≤ fuel → digits z f (fuel + spare) a b ≡ digits z f fuel a b
  spare_fuel spare fuel zero b h = digits-zero (fuel + spare) b ∙ sym (digits-zero fuel b)
  spare_fuel spare zero (suc a) b h = absurd (omega arith)
  spare_fuel spare (suc fuel) (suc a) b h =
      let one_more : suc fuel + spare ≡ suc (fuel + spare) = omega arith in
      rw (one_more, spare_fuel spare fuel (suc a / 2) (b / 2) (omega arith)) refl

  split_digit :
      (a b : ℕ)
      → bitwise z f (suc a) b ≡ bitwise z f (suc a / 2) (b / 2) * 2 + f (suc a % 2) (b % 2)
  split_digit a b =
      let half : ℕ = suc a / 2 in
      let whole : half + (a - half) ≡ a = omega arith in
      let rest : digits z f a half (b / 2) ≡ digits z f half half (b / 2) =
        ap (λ fuel. digits z f fuel half (b / 2)) (sym whole)
        ∙ spare_fuel (a - half) half half (b / 2) (omega arith) in
      omega (arith, rest)

bit_or_digit : (a b : ℕ) → bit_or a b ≡ bit_or (a / 2) (b / 2) * 2 + max (a % 2) (b % 2)
bit_or_digit zero b = simp bit_or-bitwise (omega arith)
bit_or_digit (suc a) b = simp bit_or-bitwise (split_digit (λ y. y) max a b)

bit_and_digit : (a b : ℕ) → bit_and a b ≡ bit_and (a / 2) (b / 2) * 2 + min (a % 2) (b % 2)
bit_and_digit zero b = simp bit_and-bitwise (omega arith)
bit_and_digit (suc a) b = simp bit_and-bitwise (split_digit (λ y. 0) min a b)

pub bit-bit_or : (k a b : ℕ) → bit k (bit_or a b) ≡ max (bit k a) (bit k b)
bit-bit_or zero a b = omega (arith, bit_or_digit a b)
bit-bit_or (suc k) a b =
    let e : bit_or a b / 2 ≡ bit_or (a / 2) (b / 2) = omega (arith, bit_or_digit a b) in
    rw e (bit-bit_or k (a / 2) (b / 2))

pub bit-bit_and : (k a b : ℕ) → bit k (bit_and a b) ≡ min (bit k a) (bit k b)
bit-bit_and zero a b = omega (arith, bit_and_digit a b)
bit-bit_and (suc k) a b =
    let e : bit_and a b / 2 ≡ bit_and (a / 2) (b / 2) = omega (arith, bit_and_digit a b) in
    rw e (bit-bit_and k (a / 2) (b / 2))

-- A `&` or `|` of bytes is a byte, and so for every width.
pub bit_and-le : (n a b : ℕ) → a ≤ n → bit_and a b ≤ a
bit_and-le n zero b h = omega (arith, bit_and-bitwise 0 b)
bit_and-le zero (suc a) b h = absurd (omega arith)
bit_and-le (suc n) (suc a) b h =
    omega (arith, bit_and_digit (suc a) b, bit_and-le n (suc a / 2) (b / 2) (omega arith))

pub bit_or-lt : (k a b : ℕ) → a < 2 ^ k → b < 2 ^ k → bit_or a b < 2 ^ k
bit_or-lt zero a b p q =
    let ea : a ≡ 0 = omega arith in let eb : b ≡ 0 = omega arith in rw (ea, eb) (omega arith)
bit_or-lt (suc k) a b p q =
    let e : 2 ^ suc k ≡ 2 ^ k * 2 = pow-suc 2 k in
    omega (
      arith,
      e,
      bit_or_digit a b,
      bit_or-lt k (a / 2) (b / 2) (omega (arith, e)) (omega (arith, e)),
    )

bit_and-zero : (fuel n : ℕ) → n ≤ fuel → bit_and n 0 ≡ 0
bit_and-zero fuel zero h = refl
bit_and-zero zero (suc n) h = absurd (omega arith)
bit_and-zero (suc fuel) (suc n) h =
    omega (arith, bit_and_digit (suc n) 0, bit_and-zero fuel (suc n / 2) (omega arith))

-- `n & (1 << k)` keeps digit `k` alone.
bit_and-pow : (k n : ℕ) → bit_and n (2 ^ k) ≡ bit k n * 2 ^ k
bit_and-pow zero n = omega (arith, bit_and_digit n 1, bit_and-zero (n / 2) (n / 2) (le_refl _))
bit_and-pow (suc k) n =
    let e : 2 ^ suc k ≡ 2 ^ k * 2 = pow-suc 2 k in
    let half : 2 ^ suc k / 2 ≡ 2 ^ k = omega (arith, e) in
    let rest : bit_and (n / 2) (2 ^ suc k / 2) ≡ bit k (n / 2) * 2 ^ k =
      rw half (bit_and-pow k (n / 2)) in
    omega (arith, e, bit_and_digit n (2 ^ suc k), rest, ap (λ (t : ℕ). bit k (n / 2) * t) e)

digit_test : (d p : ℕ) → d < 2 → 1 ≤ p → not (d * p == 0) ≡ (d == 1)
digit_test zero p h q = ground arith
digit_test (suc zero) p h q = ground arith
digit_test (suc (suc d)) p h q = absurd (omega arith)

-- So the test of the source reads digit `k`.
pub bit_and-pow_ne_zero : (k n : ℕ) → not (bit_and n (2 ^ k) == 0) ≡ (bit k n == 1)
bit_and-pow_ne_zero k n =
    rw (bit_and-pow k n) (digit_test (bit k n) (2 ^ k) (bit-lt k n) (one-le-pow k 2 (omega arith)))

bit-one : (j : ℕ) → bit (suc j) 1 ≡ 0
bit-one j = bit-zero j

pub bit-pow : (k j : ℕ) → bit j (2 ^ k) ≡ (if j == k then 1 else 0)
bit-pow zero zero = refl
bit-pow zero (suc j) = bit-one j ∙ ground arith
bit-pow (suc k) zero = ground (arith, pow-suc 2 k)
bit-pow (suc k) (suc j) =
    let half : 2 ^ suc k / 2 ≡ 2 ^ k = omega (arith, pow-suc 2 k) in
    rw half (bit-pow k j ∙ ground arith)

-- The mask of `clear`, on a byte: every digit but `k`.
abbrev masks_clear : ℕ → ℕ → Bool
masks_clear k j = bit j (255 - 2 ^ k) == (if j == k then 0 else 1)

masks_clear_table : every (λ k. every (masks_clear k) 8) 8 ≡ true
unfolding every
masks_clear_table = refl

pub bit_clear_mask : (k j : ℕ) → k < 8 → j < 8 → bit j (255 - 2 ^ k) ≡ (if j == k then 0 else 1)
bit_clear_mask k j p q =
    let row : every (masks_clear k) 8 ≡ true =
      every→test (λ k. every (masks_clear k) 8) 8 k p masks_clear_table in
    (==_iff (bit j (255 - 2 ^ k)) (if j == k then 0 else 1)).0
      (every→test (masks_clear k) 8 j q row)

-- A byte with no digit set is 0.
pub byte-zero : (b : ℕ) → b < 256 → ((k : ℕ) → k < 8 → bit k b ≡ 0) → b ≡ 0
byte-zero b h z = omega (
  arith,
  z 0 (omega arith),
  z 1 (omega arith),
  z 2 (omega arith),
  z 3 (omega arith),
  z 4 (omega arith),
  z 5 (omega arith),
  z 6 (omega arith),
  z 7 (omega arith),
)

pow_table : every (λ k. ltb (2 ^ k) 256) 8 ≡ true
unfolding every
pow_table = refl

pub pow-lt_byte : (k : ℕ) → k < 8 → 2 ^ k < 256
pow-lt_byte k h = ltb→lt (2 ^ k) 256 (every→test (λ k. ltb (2 ^ k) 256) 8 k h pow_table)
