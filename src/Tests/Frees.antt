-- ===== src/Tests/Frees.antt =====
-- `CpupoolMakeFree` on a machine of one pool that gives all its cpus away at once.
use schedbench.Base.{
  ℕ, ◌≡◌, refl, Bool, true, false, [], ◌∷◌, none, some, replicate, length-replicate, if◌then◌else◌,
  arith, zero, suc, ap,
}
use schedbench.Base.Int.{pos}
use schedbench.Base.Outcome.{returns}
use schedbench.Bitmap.{Bitmap, is_empty, and}
use schedbench.Bitmap.Bytes.{is_empty-has}
use schedbench.Bitmap.Members.{has}
use schedbench.Xl.{Libxl, CCpupoolInfo, CpupoolInfo, cpupool_info_to_go}
use schedbench.Xl.Cpupool.{list_cpupool, cpupool_make_free, cpupool_cpuremove_cpumap, free_pools}
use schedbench.Xl.Free.{Owned, TakesCpus, opened, cpupool_make_free-frees}
use schedbench.Tests.Machine.{no_dominfo, pool_0}

abbrev emptied : CCpupoolInfo
emptied = record pool_0 { cpumap = record { size = 1; map = 0 ∷ []; in_array = refl } }

-- The state says whether the pool still has its cpus.
abbrev giving : Libxl
giving = record {
  World = Bool;
  Handle = Unit {0};
  scheduler_credit = pos 5;
  malloc = λ w n. some (replicate n 0);
  ctx_alloc = λ w. (pos 0, some tt, w);
  ctx_free = λ ctx w. (pos 0, w);
  domain_info = λ ctx id w. (pos 0, no_dominfo);
  domain_unpause = λ ctx id w. (pos 0, w);
  scheduler_to_string = λ s. [];
  scheduler_from_string = λ name. (pos 0, pos 5);
  list_cpupool = λ ctx w. if w then pool_0 ∷ [] else emptied ∷ [];
  cpupool_info = λ ctx id w. (pos 0, pool_0);
  cpupool_create = λ ctx name sched cbm w. (pos 0, 1, w);
  cpupool_destroy = λ ctx id w. (pos 0, w);
  cpupool_cpuadd = λ ctx id cpu w. (pos 0, w);
  cpupool_cpuadd_cpumap = λ ctx id cbm w. (pos 0, w);
  cpupool_cpuremove = λ ctx id cpu w. (pos 0, w);
  cpupool_cpuremove_cpumap = λ ctx id cbm w. (pos 0, false);
}

no_cpu : (n : ℕ) → has (cpupool_info_to_go emptied).cpumap n ≡ false
unfolding is_empty cpupool_info_to_go
no_cpu n = is_empty-has (cpupool_info_to_go emptied).cpumap n refl

nothing_left : (q n : ℕ) → ¬ Owned giving (opened giving tt false) q n
unfolding list_cpupool
nothing_left q n (zero, p, at, same, held) =
    let one : cpupool_info_to_go emptied ≡ p = ground (arith, at) in
    absurd (ground (arith, ap (λ (p : CpupoolInfo). has p.cpumap n) one, no_cpu n, held))
nothing_left q n (suc i, p, at, same, held) = absurd (ground (arith, at))

giving-TakesCpus : TakesCpus giving
giving-TakesCpus = record {
  malloc_gives = λ w n. (replicate n 0, refl, length-replicate n 0);
  takes = λ ctx w id cbm q n fine owned. absurd (nothing_left q n owned);
}

abbrev wanted : Bitmap
wanted = record { bitmap = some (4 ∷ []) }

freed :
    cpupool_make_free giving wanted (opened giving tt true) ≡ returns (none, opened giving tt false)
unfolding cpupool_make_free list_cpupool free_pools cpupool_cpuremove_cpumap is_empty and
freed = refl

cpupool_make_free-frees_example : ¬ Owned giving (opened giving tt false) 0 2
unfolding has
cpupool_make_free-frees_example =
    cpupool_make_free-frees giving giving-TakesCpus tt true wanted freed 0 2 refl
