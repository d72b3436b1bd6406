-- ===== src/Prep/Verdict.antt =====
-- What `Prep` decides, and when it leaves the host alone.
use schedbench.Base.{
  ◌≡◌, refl, Bool, true, not, ◌&&◌, Option, none, some, arith, if◌then◌else◌, is_none, ◌==◌,
}
use schedbench.Base.Outcome.{returns}
use schedbench.Bitmap.{Bitmap}
use schedbench.Bitmap.{is_empty as bitmap_is_empty}
use schedbench.Bench.{RunConfig}
use schedbench.Xl.{Libxl, Host, CpupoolInfo}
use schedbench.Prep.{
  Prepared, refuse, is_ready, no_pool, empty_cpumap, no_construction, requested, cpus_match,
  target_pool, sched_matches, prep_pool_0, prep_other, prep,
}

module _ (L : Libxl) (c : RunConfig) (h : Host L) where
  abbrev verdict_no_cpus : Option CpupoolInfo → Prepared
  verdict_no_cpus none = refuse no_pool
  verdict_no_cpus (some p) =
      if p.poolid == 0
      then prep_pool_0 L c (sched_matches L c (some p)) true
      else if not (sched_matches L c (some p))
      then refuse (no_construction c.scheduler)
      else is_ready

  no_cpus_requested : c.cpus ≡ none → requested c ≡ returns (record { bitmap = none })
  unfolding requested
  no_cpus_requested e = rw e refl

  -- Without a list of cpus `Prep` never panics and never changes the host, and the run is ready
  -- exactly where its pool is present and has the scheduler.
  pub prep_no_cpus :
      c.cpus ≡ none
      → (v : Prepared) × (prep L c h ≡ returns (v, h))
        × (v.ready ≡ (not (is_none (target_pool L c h)) && sched_matches L c (target_pool L c h)))
  unfolding prep prep_pool_0 prep_other cpus_match
  prep_no_cpus e =
      (verdict_no_cpus (target_pool L c h), ground (arith, no_cpus_requested e), ground arith)

  -- Where the target is pool 0 and neither the asking for the run's cpus nor the comparison panics,
  -- `Prep` leaves the host as it is. The run is ready exactly where its cpus, if it names any, are not
  -- an empty set, and the scheduler and the cpus match the pool.
  pub prep_pool_0_unchanged :
      (p : CpupoolInfo) (want : Bitmap) (cpu : Bool)
      → target_pool L c h ≡ some p
      → p.poolid ≡ 0
      → requested c ≡ returns want
      → cpus_match c want (some p) ≡ returns cpu
      → (v : Prepared) × (prep L c h ≡ returns (v, h))
        × (v.ready ≡ (
            not (not (is_none c.cpus) && bitmap_is_empty want)
            && (sched_matches L c (some p) && cpu)))
  unfolding prep prep_pool_0
  prep_pool_0_unchanged p want cpu t z r m = (
    if not (is_none c.cpus) && bitmap_is_empty want
        then refuse empty_cpumap
        else prep_pool_0 L c (sched_matches L c (some p)) cpu,
    ground arith,
    ground arith,
  )
