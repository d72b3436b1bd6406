-- ===== src/Prep/Build.antt =====
-- What `Prep` builds where the run names its cpus and its pool is not pool 0.
use schedbench.Base.{
  ℕ, ◌≡◌, refl, sym, ◌∙◌, ap, Option-cases, inl, inr, true, false, List, Option, none, some, arith,
  codes,
}
use schedbench.Base.Int.{ℤ}
use schedbench.Base.Outcome.{Outcome, returns, panics}
use schedbench.Bitmap.{Bitmap}
use schedbench.Bitmap.{is_empty as bitmap_is_empty}
use schedbench.Bench.{RunConfig}
use schedbench.Xl.{Libxl, Host, Error, CpupoolInfo}
use schedbench.Xl.Cpupool.{from_string, cpupool_destroy, cpupool_make_free, cpupool_create}
use schedbench.Prep.{
  Prepared, refuse, invalid_scheduler, requested, target_pool, created, freed, destroyed,
  rebuild_pool, prep_other, is_pool_0, prep,
}
use schedbench.Prep.Cpus.{cpus_match_returns}

module _ (L : Libxl) where
  -- The machine has made the pool `schedbench` of these cpus and this scheduler, as the last thing.
  abbrev pub IsBuilt : ℤ → Bitmap → Host L → Type 0
  IsBuilt scheduler want h =
      (h1 : Host L) × (poolid : ℕ) × (cpupool_create L (codes "schedbench") scheduler want h1
        ≡ returns (none, poolid, h))

  -- The pool was not there, or its destruction has succeeded.
  abbrev pub WasDestroyed : Option CpupoolInfo → Host L → Host L → Type 0
  WasDestroyed none h h1 = h ≡ h1
  WasDestroyed (some p) h h1 = cpupool_destroy L p.poolid h ≡ returns (none, h1)

  created-IsBuilt :
      (h' : Host L) (v : Prepared) (o : Outcome (Option Error × ℕ × Host L))
      → created L o ≡ returns (v, h')
      → v.ready ≡ true
      → (poolid : ℕ) × (o ≡ returns (none, poolid, h'))
  unfolding created
  created-IsBuilt h' v panics e r = cc
  created-IsBuilt h' v (returns (some err, poolid, h)) e r = absurd (ground arith)
  created-IsBuilt h' v (returns (none, poolid, h)) e r = (poolid, ground arith)

  module _ (scheduler : ℤ) (want : Bitmap) (h' : Host L) (v : Prepared) where
    freed-IsBuilt :
        (o : Outcome (Option Error × Host L))
        → freed L scheduler want o ≡ returns (v, h')
        → v.ready ≡ true
        → IsBuilt scheduler want h'
    unfolding freed
    freed-IsBuilt panics e r = cc
    freed-IsBuilt (returns (some err, h)) e r = absurd (ground arith)
    freed-IsBuilt (returns (none, h)) e r =
        let (poolid, made) =
          created-IsBuilt h' v (cpupool_create L (codes "schedbench") scheduler want h) e r in
        (h, poolid, made)

    destroyed-IsBuilt :
        (o : Outcome (Option Error × Host L))
        → destroyed L scheduler want o ≡ returns (v, h')
        → v.ready ≡ true
        → IsBuilt scheduler want h'
    unfolding destroyed
    destroyed-IsBuilt panics e r = cc
    destroyed-IsBuilt (returns (some err, h)) e r = absurd (ground arith)
    destroyed-IsBuilt (returns (none, h)) e r = freed-IsBuilt (cpupool_make_free L want h) e r

    rebuild_pool-IsBuilt :
        (pool : Option CpupoolInfo) (h : Host L)
        → rebuild_pool L pool scheduler want h ≡ returns (v, h')
        → v.ready ≡ true
        → IsBuilt scheduler want h'
    unfolding rebuild_pool
    rebuild_pool-IsBuilt none h e r = freed-IsBuilt (cpupool_make_free L want h) e r
    rebuild_pool-IsBuilt (some p) h e r = destroyed-IsBuilt (cpupool_destroy L p.poolid h) e r

  -- What a ready run's `Prep` has done, in this order: destroyed the pool, if it was there, freed its
  -- cpus from every pool, and created `schedbench`. None of the three has failed.
  abbrev pub IsRebuilt : Option CpupoolInfo → ℤ → Bitmap → Host L → Host L → Type 0
  IsRebuilt pool scheduler want h h' =
      (h1 : Host L) × (h2 : Host L) × (poolid : ℕ) × WasDestroyed pool h h1
      × (cpupool_make_free L want h1 ≡ returns (none, h2))
      × (cpupool_create L (codes "schedbench") scheduler want h2 ≡ returns (none, poolid, h'))

  freed-IsRebuilt :
      (pool : Option CpupoolInfo) (scheduler : ℤ) (want : Bitmap) (h h1 h' : Host L) (v : Prepared)
      (o : Outcome (Option Error × Host L))
      → WasDestroyed pool h h1
      → cpupool_make_free L want h1 ≡ o
      → freed L scheduler want o ≡ returns (v, h')
      → v.ready ≡ true
      → IsRebuilt pool scheduler want h h'
  unfolding freed
  freed-IsRebuilt pool scheduler want h h1 h' v panics gone f e r = cc
  freed-IsRebuilt pool scheduler want h h1 h' v (returns (some err, h2)) gone f e r =
      absurd (ground arith)
  freed-IsRebuilt pool scheduler want h h1 h' v (returns (none, h2)) gone f e r =
      let (poolid, made) =
        created-IsBuilt h' v (cpupool_create L (codes "schedbench") scheduler want h2) e r in
      (h1, h2, poolid, gone, f, made)

  destroyed-IsRebuilt :
      (p : CpupoolInfo) (scheduler : ℤ) (want : Bitmap) (h h' : Host L) (v : Prepared)
      (o : Outcome (Option Error × Host L))
      → cpupool_destroy L p.poolid h ≡ o
      → destroyed L scheduler want o ≡ returns (v, h')
      → v.ready ≡ true
      → IsRebuilt (some p) scheduler want h h'
  unfolding destroyed
  destroyed-IsRebuilt p scheduler want h h' v panics d e r = cc
  destroyed-IsRebuilt p scheduler want h h' v (returns (some err, h1)) d e r = absurd (ground arith)
  destroyed-IsRebuilt p scheduler want h h' v (returns (none, h1)) d e r =
      freed-IsRebuilt (some p) scheduler want h h1 h' v (cpupool_make_free L want h1) d refl e r

  rebuild_pool-IsRebuilt :
      (pool : Option CpupoolInfo) (scheduler : ℤ) (want : Bitmap) (h h' : Host L) (v : Prepared)
      → rebuild_pool L pool scheduler want h ≡ returns (v, h')
      → v.ready ≡ true
      → IsRebuilt pool scheduler want h h'
  unfolding rebuild_pool
  rebuild_pool-IsRebuilt none scheduler want h h' v e r =
      freed-IsRebuilt none scheduler want h h h' v (cpupool_make_free L want h) refl refl e r
  rebuild_pool-IsRebuilt (some p) scheduler want h h' v e r =
      destroyed-IsRebuilt p scheduler want h h' v (cpupool_destroy L p.poolid h) refl e r

  module _ (c : RunConfig) (h : Host L) (cpus : List ℤ) (want : Bitmap) (given : c.cpus ≡ some cpus)
      (asked : requested c ≡ returns want) (some_cpus : bitmap_is_empty want ≡ false)
      (other : is_pool_0 L (target_pool L c h) ≡ false) where
    -- With cpus and another pool than 0, whether the pool matches plays no part: `Prep` reads the
    -- scheduler's name, destroys the pool if it is there and builds `schedbench` anew.
    prep_rebuilds : prep L c h ≡ elim (from_string L L.scheduler_credit c.scheduler).0 [
      | some e ↦ returns (refuse (invalid_scheduler c.scheduler), h)
      | none ↦
          rebuild_pool L (target_pool L c h) (from_string L L.scheduler_credit c.scheduler).1 want h
    ]
    unfolding prep prep_other
    prep_rebuilds =
        let (cpu, matching) = cpus_match_returns c want (target_pool L c h) in ground arith

    rebuilds_known :
        (scheduler : ℤ)
        → from_string L L.scheduler_credit c.scheduler ≡ (none, scheduler)
        → rebuild_pool L (target_pool L c h) scheduler want h ≡ prep L c h
    rebuilds_known scheduler known =
        ground (arith, prep_rebuilds, ap (λ o. o.0) known, ap (λ o. o.1) known)

    pub prep_ready_IsBuilt :
        (v : Prepared) (h' : Host L)
        → prep L c h ≡ returns (v, h')
        → v.ready ≡ true
        → (scheduler : ℤ) × (from_string L L.scheduler_credit c.scheduler ≡ (none, scheduler))
          × IsBuilt scheduler want h'
    prep_ready_IsBuilt v h' e r =
        elim (Option-cases (from_string L L.scheduler_credit c.scheduler).0) [
          | inl known ↦
              let named : ℤ = (from_string L L.scheduler_credit c.scheduler).1 in
              let rebuilt : rebuild_pool L (target_pool L c h) named want h ≡ returns (v, h') =
                rw known at (sym prep_rebuilds ∙ e) in
              (
                named,
                ground arith,
                rebuild_pool-IsBuilt named want h' v (target_pool L c h) h rebuilt r,
              )
          | inr (err, unknown) ↦ absurd (ground (arith, prep_rebuilds))
        ]

    -- Where the run names cpus and its pool is not pool 0, `Prep` says ready only after it has destroyed
    -- the pool, if it was there, then freed the cpus, then created `schedbench`, each without an
    -- error: it does so for a pool that matches, too.
    pub prep_ready_rebuilds :
        (v : Prepared) (h' : Host L)
        → prep L c h ≡ returns (v, h')
        → v.ready ≡ true
        → (scheduler : ℤ) × (from_string L L.scheduler_credit c.scheduler ≡ (none, scheduler))
          × IsRebuilt (target_pool L c h) scheduler want h h'
    prep_ready_rebuilds v h' e r =
        let (scheduler, known, built) = prep_ready_IsBuilt v h' e r in
        let rebuilt : rebuild_pool L (target_pool L c h) scheduler want h ≡ returns (v, h') =
          rebuilds_known scheduler known ∙ e in
        (
          scheduler,
          known,
          rebuild_pool-IsRebuilt (target_pool L c h) scheduler want h h' v rebuilt r,
        )
