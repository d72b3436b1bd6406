-- ===== src/Tests/Machine.antt =====
-- A small machine that stands for libxl: a list of cpupools, where every call of its own succeeds.
use schedbench.Base.{
  ℕ, refl, leb, ◌^◌, inl, inr, ◌-◌, ◌==◌, Bool, List, [], ◌∷◌, ◌++◌, some, map, if◌then◌else◌,
  bit_and, replicate, text_eq, codes, length,
}
use schedbench.Base.Int.{ℤ, pos, negsuc, eqb_ℤ}
use schedbench.Bitmap.{CBitmap, decided}
use schedbench.Xl.{Libxl, Host, CCpupoolInfo, CDominfo}

abbrev no_pool_info : CCpupoolInfo
no_pool_info = record {
  poolid = 0;
  pool_name = [];
  sched = pos 0;
  n_dom = 0;
  cpumap = record { size = 0; map = []; in_array = refl };
}

abbrev pub no_dominfo : CDominfo
no_dominfo = record {
  uuid = [];
  domid = 0;
  running = Bool.false;
  blocked = Bool.false;
  paused = Bool.false;
  shutdown = Bool.false;
  dying = Bool.false;
  never_stop = Bool.false;
  shutdown_reason = pos 0;
  outstanding_memkb = 0;
  current_memkb = 0;
  shared_memkb = 0;
  paged_memkb = 0;
  max_memkb = 0;
  cpu_time = 0;
  vcpu_max_id = 0;
  vcpu_online = 0;
  cpupool = 0;
  domain_type = pos 0;
}

-- The number and the entry of a pool.
abbrev pool_entry : ℕ → List CCpupoolInfo → ℤ × CCpupoolInfo
pool_entry id [] = (negsuc 5, no_pool_info)
pool_entry id (p ∷ ps) = if p.poolid == id then (pos 0, p) else pool_entry id ps

abbrev drop_pool : ℕ → List CCpupoolInfo → List CCpupoolInfo
drop_pool id [] = []
drop_pool id (p ∷ ps) = if p.poolid == id then ps else p ∷ drop_pool id ps

-- The cpus of `bs` that `ms` does not have.
abbrev pub take_bits : List ℕ → List ℕ → List ℕ
take_bits [] ms = []
take_bits (b ∷ bs) [] = b ∷ bs
take_bits (b ∷ bs) (m ∷ ms) = (b - bit_and b m) ∷ take_bits bs ms

abbrev pub take_cpus : ℕ → CBitmap → CCpupoolInfo → CCpupoolInfo
take_cpus id cbm p =
    if p.poolid == id
    then record p {
      cpumap = record {
        size = p.cpumap.size;
        map = take_bits p.cpumap.map cbm.map;
        in_array = p.cpumap.in_array;
      };
    }
    else p

-- The bitmap that libxl keeps of one that it is given.
abbrev kept : CBitmap → CBitmap
kept cbm = elim (decided (leb cbm.size (2 ^ 30))) [
  | inl small ↦ record { size = cbm.size; map = cbm.map; in_array = small }
  | inr large ↦ record { size = 0; map = []; in_array = refl }
]

abbrev pub machine : Libxl
machine = record {
  World = List CCpupoolInfo;
  Handle = Unit {0};
  scheduler_credit = pos 5;
  malloc = λ w n. some (replicate n 0);
  ctx_alloc = λ w. (pos 0, some tt, w);
  ctx_free = λ ctx w. (pos 0, w);
  domain_info = λ ctx id w. (pos 0, no_dominfo);
  domain_unpause = λ ctx id w. (pos 0, w);
  scheduler_to_string = λ s. if eqb_ℤ s (pos 5) then codes "credit" else codes "credit2";
  scheduler_from_string = λ name.
      if text_eq name (codes "credit")
      then (pos 0, pos 5)
      else if text_eq name (codes "credit2")
      then (pos 0, pos 6)
      else (negsuc 5, pos 0);
  list_cpupool = λ ctx w. w;
  cpupool_info = λ ctx id w. pool_entry id w;
  cpupool_create = λ ctx name sched cbm w. (
    pos 0,
    length w,
    w
        ++ record {
          poolid = length w;
          pool_name = name;
          sched = sched;
          n_dom = 0;
          cpumap = kept cbm;
        }
          ∷ [],
  );
  cpupool_destroy = λ ctx id w. (pos 0, drop_pool id w);
  cpupool_cpuadd = λ ctx id cpu w. (pos 0, w);
  cpupool_cpuadd_cpumap = λ ctx id cbm w. (pos 0, w);
  cpupool_cpuremove = λ ctx id cpu w. (pos 0, w);
  cpupool_cpuremove_cpumap = λ ctx id cbm w. (pos 0, map (take_cpus id cbm) w);
}

-- Pool 0 with the cpus 0 to 7 under credit, and a pool of cpus 8 and 9 under credit2.
abbrev pub pool_0 : CCpupoolInfo
pool_0 = record {
  poolid = 0;
  pool_name = codes "Pool-0";
  sched = pos 5;
  n_dom = 1;
  cpumap = record { size = 1; map = 255 ∷ []; in_array = refl };
}

abbrev pub pool_1 : CCpupoolInfo
pool_1 = record {
  poolid = 1;
  pool_name = codes "schedbench";
  sched = pos 6;
  n_dom = 0;
  cpumap = record { size = 2; map = 0 ∷ 3 ∷ []; in_array = refl };
}

abbrev pub host : Host machine
host = record { ctx = some tt; world = pool_0 ∷ pool_1 ∷ [] }
