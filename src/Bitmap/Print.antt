-- ===== src/Bitmap/Print.antt =====
-- `Bitmap.String` prints the maximal runs of the set.
use mathlib.Core.List.{append-nil, append_assoc}
use schedbench.Base.{
  ℕ, zero, suc, ◌+◌, ◌*◌, ◌≡◌, refl, ap, ◌∙◌, Bool, true, false, List, [], ◌∷◌, ◌++◌, arith, ◌==◌,
  if◌then◌else◌, length, Text, codes, show_nat, Bool-cases, inl, inr,
}
use schedbench.Base.Int.{pos, ◌-ℤ◌, show_int}
use schedbench.Base.Outcome.{Outcome, returns, ◌>>=◌, for_range}
use schedbench.Bitmap.{Bitmap, bytes, test, Printer, print_cpu, print_end, to_string}
use schedbench.Bitmap.Members.{has, test-has, holds_beyond}
use schedbench.Bitmap.Runs.{
  Run, extend, runs, render, render_more, IsSpaced, runs-IsSpaced, in_runs, in_runs-runs,
}

show_before : (i : ℕ) → show_int (pos (suc i) -ℤ pos 1) ≡ show_nat i
unfolding show_int ◌-ℤ◌
show_before i = ground arith

abbrev printer : Bool → Bool → Bool → Text → Printer
printer online range printed s = record {
  last_online = online;
  crange = range;
  printed = printed;
  s = s;
}

-- What is still to print: outside a run, ...
abbrev after_gap : Bool → List Run → Text
after_gap true rs = render_more rs
after_gap false rs = render rs

-- ... with cpu `i` printed as the first of its run, ...
abbrev after_first : ℕ → List Run → Text
after_first i [] = []
after_first i (r ∷ rs) =
    if r.low == suc i then codes "-" ++ show_nat r.high ++ render_more rs else render_more (r ∷ rs)

-- ... and with the dash printed, cpu `i` being the last one known of the run.
abbrev after_dash : ℕ → List Run → Text
after_dash i [] = show_nat i
after_dash i (r ∷ rs) =
    if r.low == suc i then show_nat r.high ++ render_more rs else show_nat i ++ render_more (r ∷ rs)

comma : Bool → Text
comma printed = if printed then codes "," else []

gap-extend :
    (printed : Bool) (i : ℕ) (rs : List Run)
    → IsSpaced (suc i) rs
    → after_gap printed (extend i rs) ≡ comma printed ++ show_nat i ++ after_first i rs
unfolding extend comma
gap-extend true i [] h = ground arith
gap-extend false i [] h = ground arith
gap-extend true i (r ∷ rs) h = elim (Bool-cases (r.low == suc i)) [
  | inl hit ↦ let wide : (i == r.high) ≡ false = ground arith in rw (hit, wide) (simp append_assoc)
  | inr miss ↦ let same : (i == i) ≡ true = ground arith in rw (miss, same) (simp append_assoc)
]
gap-extend false i (r ∷ rs) h = elim (Bool-cases (r.low == suc i)) [
  | inl hit ↦ let wide : (i == r.high) ≡ false = ground arith in rw (hit, wide) (simp append_assoc)
  | inr miss ↦ let same : (i == i) ≡ true = ground arith in rw (miss, same) (simp append_assoc)
]

first-extend :
    (i : ℕ) (rs : List Run) → after_first i (extend (suc i) rs) ≡ codes "-" ++ after_dash (suc i) rs
unfolding extend
first-extend i [] = ground (arith, append-nil (show_nat (suc i)))
first-extend i (r ∷ rs) = ground arith

dash-extend : (i : ℕ) (rs : List Run) → after_dash i (extend (suc i) rs) ≡ after_dash (suc i) rs
unfolding extend
dash-extend i [] = ground (arith, append-nil (show_nat (suc i)))
dash-extend i (r ∷ rs) = ground arith

first_gap : (i : ℕ) (rs : List Run) → IsSpaced (suc (suc i)) rs → after_first i rs ≡ render_more rs
first_gap i [] h = refl
first_gap i (r ∷ rs) h = ground arith

dash_gap :
    (i : ℕ) (rs : List Run)
    → IsSpaced (suc (suc i)) rs
    → after_dash i rs ≡ show_nat i ++ render_more rs
dash_gap i [] h = ground (arith, append-nil (show_nat i))
dash_gap i (r ∷ rs) h = ground arith

gap_step :
    (printed : Bool) (i : ℕ) (s : Text) (rs : List Run)
    → IsSpaced (suc i) rs
    → ((if printed then s ++ codes "," else s) ++ show_nat i) ++ after_first i rs
      ≡ s ++ after_gap printed (extend i rs)
unfolding comma
gap_step true i s rs h = rw (gap-extend true i rs h) (simp append_assoc)
gap_step false i s rs h = rw (gap-extend false i rs h) (simp append_assoc)

first_step :
    (i : ℕ) (s : Text) (rs : List Run)
    → (s ++ codes "-") ++ after_dash (suc i) rs ≡ s ++ after_first i (extend (suc i) rs)
first_step i s rs = rw (first-extend i rs) (append_assoc s (codes "-") (after_dash (suc i) rs))

dash_stop :
    (i : ℕ) (s : Text) (rs : List Run)
    → IsSpaced (suc (suc i)) rs
    → (s ++ show_int (pos (suc i) -ℤ pos 1)) ++ render_more rs ≡ s ++ after_dash i rs
dash_stop i s rs h =
    rw (show_before i, dash_gap i rs h) (append_assoc s (show_nat i) (render_more rs))

module _ (f : ℕ → Bool) where
  -- The rest of the loop over cpus `i` to `i + rounds - 1`, and what follows it.
  finish : ℕ → ℕ → Printer → Text
  finish zero i p = print_end i p
  finish (suc rounds) i p = finish rounds (suc i) (print_cpu i (f i) p)

  mutual
    unfolding finish runs print_cpu print_end comma

    finish_gap :
        (rounds i : ℕ) (printed : Bool) (s : Text)
        → finish rounds i (printer false false printed s) ≡ s ++ after_gap printed (runs f rounds i)
    finish_gap zero i true s = ground (arith, append-nil s)
    finish_gap zero i false s = ground (arith, append-nil s)
    finish_gap (suc rounds) i printed s = elim (Bool-cases (f i)) [
      | inl on ↦ rw on (
          finish_first rounds i ((if printed then s ++ codes "," else s) ++ show_nat i)
          ∙ gap_step printed i s (runs f rounds (suc i)) (runs-IsSpaced f rounds (suc i)))
      | inr off ↦ rw off (finish_gap rounds (suc i) printed s)
    ]

    finish_first :
        (rounds i : ℕ) (s : Text)
        → finish rounds (suc i) (printer true false true s)
          ≡ s ++ after_first i (runs f rounds (suc i))
    finish_first zero i s = ground (arith, append-nil s)
    finish_first (suc rounds) i s = elim (Bool-cases (f (suc i))) [
      | inl on ↦ rw on (
          finish_dash rounds (suc i) (s ++ codes "-")
          ∙ first_step i s (runs f rounds (suc (suc i))))
      | inr off ↦
          rw (off, first_gap i (runs f rounds (suc (suc i))) (runs-IsSpaced f rounds (suc (suc i))))
            (finish_gap rounds (suc (suc i)) true s)
    ]

    finish_dash :
        (rounds i : ℕ) (s : Text)
        → finish rounds (suc i) (printer true true true s)
          ≡ s ++ after_dash i (runs f rounds (suc i))
    finish_dash zero i s = ground (arith, show_before i)
    finish_dash (suc rounds) i s = elim (Bool-cases (f (suc i))) [
      | inl on ↦ rw (on, dash-extend i (runs f rounds (suc (suc i)))) (finish_dash rounds (suc i) s)
      | inr off ↦ rw off (
          finish_gap rounds (suc (suc i)) true (s ++ show_int (pos (suc i) -ℤ pos 1))
          ∙ dash_stop i s (runs f rounds (suc (suc i))) (runs-IsSpaced f rounds (suc (suc i))))
    ]

abbrev print_round : Bitmap → ℕ → Printer → Outcome Printer
print_round bm i p = test bm (pos i) >>= λ online. returns (print_cpu i online p)

loop-finish :
    (bm : Bitmap) (rounds i end : ℕ) (p : Printer)
    → i + rounds ≡ end
    → (for_range rounds i (print_round bm) p >>= λ p. returns (print_end end p))
      ≡ returns (finish (has bm) rounds i p)
unfolding for_range finish
loop-finish bm zero i end p e = let same : end ≡ i = omega arith in rw same refl
loop-finish bm (suc rounds) i end p e =
    rw (test-has bm i) (loop-finish bm rounds (suc i) end (print_cpu i (has bm i) p) (omega arith))

-- The cpus of a bitmap, as maximal runs.
abbrev pub cpu_runs : Bitmap → List Run
cpu_runs bm = runs (has bm) (length (bytes bm) * 8) 0

-- `String` never panics, and prints the maximal runs of cpus in order: a run of one cpu as its
-- number, a longer one as its first and last cpu with a dash, and commas between the runs.
pub to_string-render : (bm : Bitmap) → to_string bm ≡ returns (render (cpu_runs bm))
unfolding to_string
to_string-render bm =
    loop-finish bm (length (bytes bm) * 8) 0 (length (bytes bm) * 8) (printer false false false [])
      (omega arith)
    ∙ ap returns (finish_gap (has bm) (length (bytes bm) * 8) 0 false [])

-- The runs that are printed hold the cpus of the bitmap and no other.
pub in_runs-cpu_runs : (bm : Bitmap) (n : ℕ) → in_runs n (cpu_runs bm) ≡ has bm n
unfolding has
in_runs-cpu_runs bm n =
    ground (arith, in_runs-runs (has bm) (length (bytes bm) * 8) 0 n, holds_beyond (bytes bm) n)

-- `String` never panics, and prints runs of cpus, in order and with a gap between any two, that hold
-- the cpus of the bitmap and no other: a run of one cpu as its number, a longer one as its first and
-- last cpu with a dash, and commas between the runs.
pub to_string_runs :
    (bm : Bitmap)
    → (rs : List Run) × (to_string bm ≡ returns (render rs))
      × IsSpaced 0 rs
      × ((n : ℕ) → in_runs n rs ≡ has bm n)
to_string_runs bm = (
  cpu_runs bm,
  to_string-render bm,
  runs-IsSpaced (has bm) (length (bytes bm) * 8) 0,
  in_runs-cpu_runs bm,
)
