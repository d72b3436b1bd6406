-- ===== src/Base/Outcome.antt =====
-- What a Go call does: it returns, or it panics (a nil pointer, an index out of range, `panic`).
use Prim.Native.Nat.{ℕ, zero, suc, ◌<◌}
use mathlib.Core.Path.{◌≡◌, refl}
use mathlib.Core.Logic.{◌⊎◌, inl, inr}
use mathlib.Core.List.{List, [], ◌∷◌}
use mathlib.Core.Option.{Option, none, some}
use native.Mathlib.Omega.{arith}
use schedbench.Base.Lists.{length, get_or}
use schedbench.Base.Int.{ℤ, pos, negsuc}

pub data Outcome {ℓ} (A : Type ℓ) : Type ℓ where
  returns : A → Outcome A
  panics : Outcome A

infixl 5 ◌>>=◌ ◌>>◌
abbrev pub ◌>>=◌ {ℓ κ} : {A : Type ℓ} {B : Type κ} → Outcome A → (A → Outcome B) → Outcome B
returns a >>= f = f a
panics >>= f = panics

abbrev pub ◌>>◌ {ℓ} : {B : Type ℓ} → Outcome (Unit {0}) → Outcome B → Outcome B
m >> k = m >>= λ _. k

module _ {ℓ} {A : Type ℓ} where
  abbrev pub index_ℕ : List A → ℕ → Outcome A
  index_ℕ [] i = panics
  index_ℕ (x ∷ xs) zero = returns x
  index_ℕ (x ∷ xs) (suc i) = index_ℕ xs i

  -- `xs[i]`
  abbrev pub index : List A → ℤ → Outcome A
  index xs (pos i) = index_ℕ xs i
  index xs (negsuc i) = panics

  pub index_ℕ-get_or :
      (xs : List A) (i : ℕ) (d : A) → i < length xs → index_ℕ xs i ≡ returns (get_or xs i d)
  index_ℕ-get_or [] i d h = elim h [ ]
  index_ℕ-get_or (x ∷ xs) zero d h = refl
  index_ℕ-get_or (x ∷ xs) (suc i) d h = index_ℕ-get_or xs i d (omega arith)

  pub index_ℕ-panics : (xs : List A) (i : ℕ) → length xs < suc i → index_ℕ xs i ≡ panics
  index_ℕ-panics [] i h = refl
  index_ℕ-panics (x ∷ xs) zero h = absurd (omega arith)
  index_ℕ-panics (x ∷ xs) (suc i) h = index_ℕ-panics xs i (omega arith)

  -- The elements of a slice that may be nil.
  abbrev pub elems : Option (List A) → List A
  elems none = []
  elems (some xs) = xs

-- `for i := start; i < start + rounds; i++ { body }`, where the body may panic.
unfoldable pub for_range {ℓ} : {S : Type ℓ} → ℕ → ℕ → (ℕ → S → Outcome S) → S → Outcome S
for_range zero i body s = returns s
for_range (suc rounds) i body s = body i s >>= for_range rounds (suc i) body

pub Outcome-cases {ℓ} : {A : Type ℓ} (o : Outcome A) → (o ≡ panics) ⊎ ((a : A) × (o ≡ returns a))
Outcome-cases panics = inl refl
Outcome-cases (returns a) = inr (a, refl)
