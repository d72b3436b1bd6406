-- ===== src/Prep/Cpus.antt =====
-- The comparison of the requested cpus with those of the pool.
use schedbench.Base.{
  ℕ, zero, suc, ◌+◌, ◌*◌, ◌≤◌, ◌<◌, ◌≡◌, refl, ◌↔◌, Bool, true, false, Option, none, some, arith,
  ◌==◌, if◌then◌else◌, is_none, Bool-cases, inl, inr, length, sym, ◌∙◌, ==_iff, ap,
}
use schedbench.Base.Outcome.{returns}
use schedbench.Bitmap.{Bitmap, bytes}
use schedbench.Bitmap.Members.{has, test-has, with_cpu, has-with_cpu}
use schedbench.Bench.{RunConfig}
use schedbench.Xl.{CpupoolInfo}
use schedbench.Prep.{same_cpus, cpus_match}

bool_eq : Bool → Bool → Bool
bool_eq true b = b
bool_eq false true = false
bool_eq false false = true

-- The two sets agree on the cpus from `i` to `i + rounds - 1`.
agree : (ℕ → Bool) → (ℕ → Bool) → ℕ → ℕ → Bool
agree f g zero i = true
agree f g (suc rounds) i =
    let rest = agree f g rounds (suc i) in if bool_eq (f i) (g i) then rest else false

same_cpus-agree :
    (pool want : Bitmap) (rounds i : ℕ)
    → same_cpus pool want rounds i ≡ returns (agree (has pool) (has want) rounds i)
unfolding same_cpus agree bool_eq
same_cpus-agree pool want zero i = refl
same_cpus-agree pool want (suc rounds) i =
    rw (test-has pool i, test-has want i) (ground (arith, same_cpus-agree pool want rounds (suc i)))

agree_sound :
    (f g : ℕ → Bool) (rounds i n : ℕ)
    → agree f g rounds i ≡ true
    → i ≤ n
    → n < i + rounds
    → f n ≡ g n
unfolding agree bool_eq
agree_sound f g zero i n h lo hi = absurd (omega arith)
agree_sound f g (suc rounds) i n h lo hi = elim (Bool-cases (i == n)) [
  | inl here ↦ rw (← (==_iff i n).0 here) (ground arith)
  | inr later ↦ agree_sound f g rounds (suc i) n (ground arith) (ground arith) (omega arith)
]

agree_complete :
    (f g : ℕ → Bool) (rounds i : ℕ)
    → ((n : ℕ) → n < i + rounds → f n ≡ g n)
    → agree f g rounds i ≡ true
unfolding agree bool_eq
agree_complete f g zero i h = refl
agree_complete f g (suc rounds) i h =
    let rest : agree f g rounds (suc i) ≡ true =
      agree_complete f g rounds (suc i) (λ n lt. h n (omega arith)) in
    ground (arith, h i)

agree-cong :
    (f g g' : ℕ → Bool) (rounds i : ℕ)
    → ((n : ℕ) → n < i + rounds → g n ≡ g' n)
    → agree f g rounds i ≡ agree f g' rounds i
unfolding agree bool_eq
agree-cong f g g' zero i h = refl
agree-cong f g g' (suc rounds) i h =
    let rest : agree f g rounds (suc i) ≡ agree f g' rounds (suc i) =
      agree-cong f g g' rounds (suc i) (λ n lt. h n (omega arith)) in
    ground (arith, h i)

-- The cpus of a pool that is present match exactly where the request and the pool agree on every
-- cpu that the pool's bitmap has room for: a request for some of the pool's cpus does not match it.
-- The comparison never panics.
pub cpus_match_iff :
    (c : RunConfig) (want : Bitmap) (p : CpupoolInfo)
    → is_none c.cpus ≡ false
    → (matching : Bool) × (cpus_match c want (some p) ≡ returns matching)
      × ((matching ≡ true)
          ↔ ((n : ℕ) → n < length (bytes p.cpumap) * 8 → has p.cpumap n ≡ has want n))
unfolding cpus_match
cpus_match_iff c want p given = (
  agree (has p.cpumap) (has want) (length (bytes p.cpumap) * 8) 0,
  rw (given, same_cpus-agree p.cpumap want (length (bytes p.cpumap) * 8) 0) refl,
  (
    λ all n lt.
        agree_sound (has p.cpumap) (has want) (length (bytes p.cpumap) * 8) 0 n all (omega arith)
          (omega arith),
    λ all.
        agree_complete (has p.cpumap) (has want) (length (bytes p.cpumap) * 8) 0
          (λ n lt. all n (omega arith)),
  ),
)

-- A requested cpu beyond the pool's bitmap is not looked at: asking for it as well changes nothing.
pub cpus_match_beyond :
    (c : RunConfig) (want : Bitmap) (p : CpupoolInfo) (n : ℕ)
    → length (bytes p.cpumap) * 8 ≤ n
    → cpus_match c (with_cpu n want) (some p) ≡ cpus_match c want (some p)
unfolding cpus_match
cpus_match_beyond c want p n far =
    ap (λ rest. if is_none c.cpus then returns true else rest)
      (same_cpus-agree p.cpumap (with_cpu n want) size 0
        ∙ ap returns (
            agree-cong (has p.cpumap) (has (with_cpu n want)) (has want) size 0
              (λ m lt. ground (arith, has-with_cpu n m want)))
        ∙ sym (same_cpus-agree p.cpumap want size 0))
  where
    size : ℕ
    size = length (bytes p.cpumap) * 8

-- The comparison never panics.
pub cpus_match_returns :
    (c : RunConfig) (want : Bitmap) (pool : Option CpupoolInfo)
    → (matching : Bool) × (cpus_match c want pool ≡ returns matching)
unfolding cpus_match
cpus_match_returns c want none = (is_none c.cpus, ground arith)
cpus_match_returns c want (some p) = (
  if is_none c.cpus then true else agree (has p.cpumap) (has want) (length (bytes p.cpumap) * 8) 0,
  ground (arith, same_cpus-agree p.cpumap want (length (bytes p.cpumap) * 8) 0),
)
