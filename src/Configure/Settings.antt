-- ===== src/Configure/Settings.antt =====
-- What the worker sets of a run are given before its workers are created.
use schedbench.Base.{
  ℕ, ◌≡◌, refl, ap, ◌⊎◌, inl, inr, Bool, Bool-cases, List, [], ◌∷◌, none, some, true, false, not,
  is_empty, arith, Text, text_eq, text_eq→≡, codes, show_nat, if◌then◌else◌,
}
use schedbench.Base.Outcome.{returns}
use schedbench.Bitmap.Members.{has}
use schedbench.Bitmap.Runs.{Run, in_runs, render}
use schedbench.Bitmap.Print.{to_string_runs}
use schedbench.Bench.{
  WorkerParams, WorkerConfig, WorkerSet, RunConfig, propagate_worker, set_khz, set_khz_args,
}
use schedbench.Bench.Config.{text_or}
use schedbench.Xl.{Libxl, Host, CpupoolInfo}
use schedbench.Xl.Cpupool.{cpupool_info, cpupool_find_by_name}
use schedbench.Prep.{get_cpumap, target_pool}
use schedbench.Configure.{with_pool, disable_numa, configure_set}

with_pool_lem :
    (g conf : WorkerConfig) (c : RunConfig)
    → with_pool g c conf ≡ record {
      pool = text_or (text_or conf.pool g.pool) c.pool;
      soft_affinity = conf.soft_affinity;
    }
unfolding with_pool propagate_worker
with_pool_lem g conf c = ground arith

-- Arguments without a frequency: the two that are one are taken off.
abbrev pub without_khz : List Text → List Text
without_khz [] = []
without_khz (a ∷ []) = a ∷ []
without_khz (a ∷ b ∷ args) = if text_eq a (codes "kHZ") then args else a ∷ b ∷ args

-- Arguments that a frequency can be put into: some, and not the word for it with nothing behind it.
abbrev pub takes_khz : List Text → Bool
takes_khz [] = false
takes_khz (a ∷ []) = not (text_eq a (codes "kHZ"))
takes_khz (a ∷ b ∷ args) = true

-- `SetkHZ` puts the frequency in front of the other arguments, in place of one that is there.
set_khz-without_khz :
    (khz : ℕ) (l : WorkerParams) (args : List Text)
    → l.args ≡ some args
    → takes_khz args ≡ true
    → set_khz khz l
      ≡ returns (record { args = some (codes "kHZ" ∷ show_nat khz ∷ without_khz args) })
unfolding set_khz set_khz_args
set_khz-without_khz khz l [] given takes = absurd (ground arith)
set_khz-without_khz khz l (a ∷ []) given takes = ground arith
set_khz-without_khz khz l (a ∷ b ∷ args) given takes = elim (Bool-cases (text_eq a (codes "kHZ"))) [
  | inl set ↦
      let word : a ≡ codes "kHZ" = text_eq→≡ a (codes "kHZ") set in
      rw given (rw set (ap (λ w. returns (record { args = some (w ∷ show_nat khz ∷ args) })) word))
  | inr new ↦ rw given (rw new refl)
]

module _ (L : Libxl) (c : RunConfig) (h : Host L) where
  -- The pool of a run: pool 0 where the run names none, and else the one of that name.
  abbrev pub IsPoolOf : CpupoolInfo → Type 0
  IsPoolOf p =
      ((is_empty c.pool ≡ true) × (cpupool_info L 0 h ≡ p))
      ⊎ ((is_empty c.pool ≡ false) × (cpupool_find_by_name L c.pool h ≡ some p))

  target_pool-IsPoolOf : (p : CpupoolInfo) → IsPoolOf p → target_pool L c h ≡ some p
  unfolding target_pool
  target_pool-IsPoolOf p (inl (unnamed, zeroth)) = rw (unnamed, target_pool) (ap some zeroth)
  target_pool-IsPoolOf p (inr (named, found)) = rw (named, target_pool) found

  get_cpumap-IsPoolOf : (p : CpupoolInfo) → IsPoolOf p → get_cpumap L c h ≡ returns p.cpumap
  unfolding get_cpumap
  get_cpumap-IsPoolOf p pool = rw (target_pool-IsPoolOf p pool, get_cpumap) refl

module _ (L : Libxl) (khz : ℕ) (g : WorkerConfig) (c : RunConfig) (h : Host L) where
  -- A worker set with NUMA placement off and no soft affinity of its own, whose arguments can take the
  -- frequency, gets the frequency in front of its other arguments, in place of one that is there, and
  -- the pool of the first of set, run and pool settings that has one. Its soft affinity names exactly
  -- the cpus of the run's pool: pool 0 where the run names none, and else the one of that name.
  pub configure_set_numa_off :
      (ws : WorkerSet) (args : List Text) (p : CpupoolInfo)
      → ws.params.args ≡ some args
      → takes_khz args ≡ true
      → c.numa_disable ≡ some true
      → is_empty ws.config.soft_affinity ≡ true
      → IsPoolOf L c h p
      → (rs : List Run) × (configure_set L khz g c h ws
          ≡ returns (
            none,
            record {
              params = record { args = some (codes "kHZ" ∷ show_nat khz ∷ without_khz args) };
              config = record {
                pool = text_or (text_or ws.config.pool g.pool) c.pool;
                soft_affinity = render rs;
              };
              count = ws.count;
            },
          ))
        × ((n : ℕ) → in_runs n rs ≡ has p.cpumap n)
  unfolding configure_set disable_numa
  configure_set_numa_off ws args p given takes off free pool =
      let (rs, printed, spaced, members) = to_string_runs p.cpumap in
      let named = with_pool_lem g ws.config c in
      let params = set_khz-without_khz khz ws.params args given takes in
      let cpus = get_cpumap-IsPoolOf L c h p pool in
      (rs, rw (params, off, configure_set) (rw (named, free, cpus, printed) refl), members)
