-- ===== src/Tests/Preps.antt =====
-- The theorems on `Prep` at the machine of two pools.
use schedbench.Base.{
  ℕ, ◌<◌, ◌≡◌, ◌↔◌, refl, List, ◌∷◌, [], none, some, Bool, true, false, not, ◌&&◌, codes, is_none,
  arith,
}
use schedbench.Base.Int.{ℤ, pos}
use schedbench.Base.Outcome.{returns}
use schedbench.Bitmap.{Bitmap, set, grow, is_empty, test, and}
use schedbench.Bitmap.Members.{has, with_cpu}
use schedbench.Bench.{RunConfig, zero_run_config}
use schedbench.Xl.{CpupoolInfo}
use schedbench.Xl.Cpupool.{
  from_string, cpupool_info, cpupool_find_by_name, scheduler_string, cpupool_destroy,
  cpupool_make_free, cpupool_create,
}
use schedbench.Prep.{
  Prepared, is_ready, requested, cpus_match, target_pool, sched_matches, rebuild_pool, prep,
  same_cpus, prep_other,
}
use schedbench.Prep.Verdict.{prep_no_cpus, prep_pool_0_unchanged}
use schedbench.Prep.Cpus.{cpus_match_iff, cpus_match_beyond}
use schedbench.Prep.Build.{prep_ready_rebuilds, IsRebuilt}
use schedbench.Tests.Machine.{machine, host}

-- Pool 0 with cpus 0 to 7 and the scheduler that it has.
abbrev in_pool_0 : RunConfig
in_pool_0 = record zero_run_config {
  scheduler = codes "credit";
  cpus = some (pos 0 ∷ pos 1 ∷ pos 2 ∷ pos 3 ∷ pos 4 ∷ pos 5 ∷ pos 6 ∷ pos 7 ∷ []);
}

abbrev cpus_8_9 : List ℤ
cpus_8_9 = pos 8 ∷ pos 9 ∷ []

-- The pool `schedbench` as it is.
abbrev in_schedbench : RunConfig
in_schedbench = record zero_run_config {
  scheduler = codes "credit2";
  pool = codes "schedbench";
  cpus = some cpus_8_9;
}

abbrev go_pool_0 : CpupoolInfo
go_pool_0 = record {
  poolid = 0;
  pool_name = codes "Pool-0";
  scheduler = pos 5;
  domain_count = pos 1;
  cpumap = record { bitmap = some (255 ∷ []) };
}

abbrev bits_8_9 : Bitmap
bits_8_9 = record { bitmap = some (0 ∷ 3 ∷ []) }

prep_no_cpus_example :
    (v : Prepared) × (prep machine zero_run_config host ≡ returns (v, host))
    × (v.ready ≡ (
        not (is_none (target_pool machine zero_run_config host))
        && sched_matches machine zero_run_config (target_pool machine zero_run_config host)))
prep_no_cpus_example = prep_no_cpus machine zero_run_config host refl

pool_0_found : target_pool machine in_pool_0 host ≡ some go_pool_0
unfolding target_pool cpupool_info
pool_0_found = refl

pool_0_asked : requested in_pool_0 ≡ returns (record { bitmap = some (255 ∷ []) })
unfolding requested set grow
pool_0_asked = refl

pool_0_matches :
    cpus_match in_pool_0 (record { bitmap = some (255 ∷ []) }) (some go_pool_0) ≡ returns true
unfolding cpus_match same_cpus test
pool_0_matches = refl

prep_pool_0_unchanged_example :
    (v : Prepared) × (prep machine in_pool_0 host ≡ returns (v, host))
    × (v.ready ≡ (sched_matches machine in_pool_0 (some go_pool_0) && true))
unfolding is_empty
prep_pool_0_unchanged_example =
    prep_pool_0_unchanged machine in_pool_0 host go_pool_0 (record { bitmap = some (255 ∷ []) })
      true pool_0_found refl pool_0_asked pool_0_matches

cpus_match_iff_example :
    (matching : Bool) × (cpus_match in_pool_0 bits_8_9 (some go_pool_0) ≡ returns matching)
    × ((matching ≡ true) ↔ ((n : ℕ) → n < 8 → has go_pool_0.cpumap n ≡ has bits_8_9 n))
cpus_match_iff_example = cpus_match_iff in_pool_0 bits_8_9 go_pool_0 refl

-- Pool 0 has cpus 0 to 7 alone, and the request for cpu 9 as well passes for a match.
cpus_match_beyond_example :
    cpus_match in_pool_0 (with_cpu 9 go_pool_0.cpumap) (some go_pool_0)
    ≡ cpus_match in_pool_0 go_pool_0.cpumap (some go_pool_0)
cpus_match_beyond_example = cpus_match_beyond in_pool_0 go_pool_0.cpumap go_pool_0 9 (omega arith)

bits_8_9_asked : requested in_schedbench ≡ returns bits_8_9
unfolding requested set grow
bits_8_9_asked = refl

bits_8_9_some : is_empty bits_8_9 ≡ false
unfolding is_empty
bits_8_9_some = refl

prep_runs : prep machine in_schedbench host ≡ returns (is_ready, host)
unfolding prep requested set grow is_empty test cpus_match same_cpus target_pool
    cpupool_find_by_name sched_matches scheduler_string prep_other from_string rebuild_pool
    cpupool_destroy cpupool_make_free cpupool_create and
prep_runs = refl

-- The pool is there with the cpus and the scheduler that are asked for, and is made anew all the same.
prep_ready_rebuilds_example :
    (scheduler : ℤ) × (from_string machine (pos 5) (codes "credit2") ≡ (none, scheduler))
    × IsRebuilt machine (target_pool machine in_schedbench host) scheduler bits_8_9 host host
unfolding target_pool cpupool_find_by_name
prep_ready_rebuilds_example =
    prep_ready_rebuilds machine in_schedbench host cpus_8_9 bits_8_9 refl bits_8_9_asked
      bits_8_9_some refl is_ready host prep_runs refl
