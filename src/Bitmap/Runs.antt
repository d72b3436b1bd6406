-- ===== src/Bitmap/Runs.antt =====
-- The cpu list that a bitmap is printed as: its maximal runs of cpus, such as 2,4-8,10.
-- `f` tells which cpus are in the set.
use schedbench.Base.{
  ℕ, zero, suc, ◌+◌, ◌≤◌, ◌<◌, ◌≡◌, refl, Bool, false, ◌&&◌, ◌||◌, List, [], ◌∷◌, ◌++◌, arith, ltb,
  leb, ◌==◌, if◌then◌else◌, Text, codes, show_nat,
}

pub record Run : Type 0 where
  pub low : ℕ
  pub high : ℕ

-- Cpu `i` joins the run that begins at the next cpu, or is a run of its own.
unfoldable pub extend : ℕ → List Run → List Run
extend i [] = record { low = i; high = i } ∷ []
extend i (r ∷ rs) =
    if r.low == suc i then record r { low = i } ∷ rs else record { low = i; high = i } ∷ r ∷ rs

-- The runs of the cpus from `i` to `i + rounds - 1`.
unfoldable pub runs : (ℕ → Bool) → ℕ → ℕ → List Run
unfolding extend
runs f zero i = []
runs f (suc rounds) i = let rest = runs f rounds (suc i) in if f i then extend i rest else rest

abbrev pub show_run : Run → Text
show_run r =
    if r.low == r.high then show_nat r.low else show_nat r.low ++ codes "-" ++ show_nat r.high

-- Each run behind a comma.
abbrev pub render_more : List Run → Text
render_more [] = []
render_more (r ∷ rs) = codes "," ++ show_run r ++ render_more rs

-- The runs, with commas between them.
abbrev pub render : List Run → Text
render [] = []
render (r ∷ rs) = show_run r ++ render_more rs

abbrev pub in_run : ℕ → Run → Bool
in_run n r = leb r.low n && leb n r.high

abbrev pub in_runs : ℕ → List Run → Bool
in_runs n [] = false
in_runs n (r ∷ rs) = in_run n r || in_runs n rs

-- Runs from `i` on, in order, with a cpu left out between any two.
abbrev pub IsSpaced : ℕ → List Run → Type 0
IsSpaced i [] = Unit {0}
IsSpaced i (r ∷ rs) = (i ≤ r.low) × (r.low ≤ r.high) × IsSpaced (suc (suc r.high)) rs

IsSpaced-weaken : (i j : ℕ) (rs : List Run) → i ≤ j → IsSpaced j rs → IsSpaced i rs
IsSpaced-weaken i j [] h s = tt
IsSpaced-weaken i j (r ∷ rs) h s = (omega arith, s.1, s.2)

extend-IsSpaced : (i : ℕ) (rs : List Run) → IsSpaced (suc i) rs → IsSpaced i (extend i rs)
unfolding extend
extend-IsSpaced i [] s = (omega arith, omega arith, tt)
extend-IsSpaced i (r ∷ rs) s = ground arith

pub runs-IsSpaced : (f : ℕ → Bool) (rounds i : ℕ) → IsSpaced i (runs f rounds i)
unfolding runs
runs-IsSpaced f zero i = tt
runs-IsSpaced f (suc rounds) i = ground (
  arith,
  runs-IsSpaced f rounds (suc i),
  extend-IsSpaced i (runs f rounds (suc i)),
  IsSpaced-weaken i (suc i) (runs f rounds (suc i)),
)

in_runs-below : (n i : ℕ) (rs : List Run) → IsSpaced i rs → n < i → in_runs n rs ≡ false
in_runs-below n i [] s h = refl
in_runs-below n i (r ∷ rs) s h = ground (arith, in_runs-below n (suc (suc r.high)) rs s.2)

in_runs-extend :
    (n i : ℕ) (rs : List Run)
    → IsSpaced (suc i) rs
    → in_runs n (extend i rs) ≡ (n == i || in_runs n rs)
unfolding extend
in_runs-extend n i [] s = ground arith
in_runs-extend n i (r ∷ rs) s = ground (arith, in_runs-below n (suc (suc r.high)) rs s.2)

-- The runs hold the cpus of the set in the range, and no other.
pub in_runs-runs :
    (f : ℕ → Bool) (rounds i n : ℕ)
    → in_runs n (runs f rounds i) ≡ (leb i n && ltb n (i + rounds) && f n)
unfolding runs
in_runs-runs f zero i n = ground arith
in_runs-runs f (suc rounds) i n = ground (
  arith,
  in_runs-runs f rounds (suc i) n,
  in_runs-extend n i (runs f rounds (suc i)) (runs-IsSpaced f rounds (suc i)),
)
