-- ===== src/Prep.antt =====
-- `BenchmarkRun.Prep` and `GetCpumap` of controller/run.go: whether a run's cpupool is there, and
-- building it where it is not. The printing is left out; `why` is a value of `Why`.
pub mod Verdict
pub mod Build
pub mod Cpus
use schedbench.Base.{
  ℕ, zero, suc, ◌+◌, ◌*◌, Bool, true, false, not, ◌&&◌, List, [], ◌∷◌, Option, none, some,
  if◌then◌else◌, is_none, ◌==◌, Text, is_empty, text_eq, codes, length,
}
use schedbench.Base.Int.{ℤ, pos}
use schedbench.Base.Outcome.{Outcome, returns, panics, ◌>>=◌, elems}
use schedbench.Bitmap.{Bitmap, bytes, set, test}
use schedbench.Bitmap.{is_empty as bitmap_is_empty}
use schedbench.Bench.{RunConfig}
use schedbench.Xl.{Libxl, Host, Error, CpupoolInfo}
use schedbench.Xl.Cpupool.{
  cpupool_info, cpupool_find_by_name, scheduler_string, from_string, cpupool_destroy,
  cpupool_make_free, cpupool_create,
}

pub data Why : Type 0 where
  empty_cpumap cpumap_mismatch no_pool cannot_destroy cannot_free cannot_create : Why
  cannot_change no_construction invalid_scheduler : Text → Why

-- `(ready bool, why string)`
pub record Prepared : Type 0 where
  pub ready : Bool
  pub why : Option Why

abbrev pub refuse : Why → Prepared
refuse w = record { ready = false; why = some w }

abbrev pub is_ready : Prepared
is_ready = record { ready = true; why = none }

-- `for _, i := range run.RunConfig.Cpus { Cpumap.Set(i) }`
unfoldable pub set_all : List ℤ → Bitmap → Outcome Bitmap
set_all [] bm = returns bm
set_all (i ∷ cpus) bm = set i bm >>= set_all cpus

unfoldable pub requested : RunConfig → Outcome Bitmap
unfolding set_all
requested c = set_all (elems c.cpus) (record { bitmap = none })

-- The loop over the cpus up to `pool.Cpumap.Max()`, which stops at the first difference.
unfoldable pub same_cpus : Bitmap → Bitmap → ℕ → ℕ → Outcome Bool
same_cpus pool want zero i = returns true
same_cpus pool want (suc rounds) i = test pool (pos i) >>= λ p. test want (pos i) >>= λ w. elim p [
  | true ↦ if w then same_cpus pool want rounds (suc i) else returns false
  | false ↦ if w then returns false else same_cpus pool want rounds (suc i)
]

-- `cpuMatches`
unfoldable pub cpus_match : RunConfig → Bitmap → Option CpupoolInfo → Outcome Bool
cpus_match c want pool = if is_none c.cpus then returns true else elim pool [
  | none ↦ returns false
  | some p ↦ same_cpus p.cpumap want (length (bytes p.cpumap) * 8) 0
]

module _ (L : Libxl) where
  -- `(pool, poolPresent)`: `none` where the pool is not present.
  unfoldable pub target_pool : RunConfig → Host L → Option CpupoolInfo
  target_pool c h =
      if is_empty c.pool then some (cpupool_info L 0 h) else cpupool_find_by_name L c.pool h

  -- `schedMatches`
  unfoldable pub sched_matches : RunConfig → Option CpupoolInfo → Bool
  sched_matches c pool = elim pool [
    | none ↦ true
    | some p ↦
        if not (is_empty c.scheduler) && not (text_eq (scheduler_string L p.scheduler) c.scheduler)
        then false
        else true
  ]

  -- After `CpupoolCreate`.
  unfoldable pub created : Outcome (Option Error × ℕ × Host L) → Outcome (Prepared × Host L)
  created panics = panics
  created (returns (some err, poolid, h)) = returns (refuse cannot_create, h)
  created (returns (none, poolid, h)) = returns (is_ready, h)

  -- After `CpupoolMakeFree`.
  unfoldable pub freed : ℤ → Bitmap → Outcome (Option Error × Host L) → Outcome (Prepared × Host L)
  unfolding created
  freed scheduler want panics = panics
  freed scheduler want (returns (some err, h)) = returns (refuse cannot_free, h)
  freed scheduler want (returns (none, h)) =
      created (cpupool_create L (codes "schedbench") scheduler want h)

  -- After `CpupoolDestroy`.
  unfoldable pub destroyed :
      ℤ → Bitmap → Outcome (Option Error × Host L) → Outcome (Prepared × Host L)
  unfolding freed
  destroyed scheduler want panics = panics
  destroyed scheduler want (returns (some err, h)) = returns (refuse cannot_destroy, h)
  destroyed scheduler want (returns (none, h)) = freed scheduler want (cpupool_make_free L want h)

  -- From `Destroy the pool if it's present` on.
  unfoldable pub rebuild_pool :
      Option CpupoolInfo → ℤ → Bitmap → Host L → Outcome (Prepared × Host L)
  unfolding destroyed
  rebuild_pool none scheduler want h = freed scheduler want (cpupool_make_free L want h)
  rebuild_pool (some p) scheduler want h = destroyed scheduler want (cpupool_destroy L p.poolid h)

  -- Pool 0, which is never changed.
  unfoldable pub prep_pool_0 : RunConfig → Bool → Bool → Prepared
  prep_pool_0 c sched cpu =
      if not sched
      then refuse (cannot_change c.scheduler)
      else if not cpu
      then refuse cpumap_mismatch
      else is_ready

  -- Another pool, or none.
  unfoldable pub prep_other :
      RunConfig → Bitmap → Option CpupoolInfo → Bool → Host L → Outcome (Prepared × Host L)
  prep_other c want pool sched h = elim c.cpus [
    | none ↦ elim pool [
      | none ↦ returns (refuse no_pool, h)
      | some p ↦ returns (if not sched then refuse (no_construction c.scheduler) else is_ready, h)
    ]
    | some cpus ↦
        let (err, scheduler) = from_string L L.scheduler_credit c.scheduler in
        elim err [
          | some e ↦ returns (refuse (invalid_scheduler c.scheduler), h)
          | none ↦ rebuild_pool pool scheduler want h
        ]
  ]

  abbrev pub is_pool_0 : Option CpupoolInfo → Bool
  is_pool_0 none = false
  is_pool_0 (some p) = p.poolid == 0

  unfoldable pub prep : RunConfig → Host L → Outcome (Prepared × Host L)
  prep c h = requested c >>= λ want.
      if not (is_none c.cpus) && bitmap_is_empty want
      then returns (refuse empty_cpumap, h)
      else let pool = target_pool c h in
        let sched = sched_matches c pool in
        cpus_match c want pool >>= λ cpu.
        if is_pool_0 pool
        then returns (prep_pool_0 c sched cpu, h)
        else prep_other c want pool sched h

  -- `GetCpumap` panics where the pool is not found.
  unfoldable pub get_cpumap : RunConfig → Host L → Outcome Bitmap
  get_cpumap c h = elim (target_pool c h) [ none ↦ panics | some pool ↦ returns pool.cpumap ]
