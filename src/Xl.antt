-- ===== src/Xl.antt =====
-- controller/libxl.go: the types that mirror libxl's, and what the C library is to the controller.
-- The library itself is not part of the repository: it is the record `Libxl`, which every
-- operation takes as its parameter.
pub mod Context
pub mod Cpupool
pub mod Free
pub mod Manual
use schedbench.Base.{ℕ, ◌==◌, ◌≡◌, Bool, List, Option, Text}
use schedbench.Base.Int.{ℤ, pos, of_word}
use schedbench.Bitmap.{Bitmap, CBitmap, bitmap_c_to_go}

-- `libxl_dominfo`
pub record CDominfo : Type 0 where
  pub uuid : List ℕ
  pub domid : ℕ
  pub running : Bool
  pub blocked : Bool
  pub paused : Bool
  pub shutdown : Bool
  pub dying : Bool
  pub never_stop : Bool
  pub shutdown_reason : ℤ
  pub outstanding_memkb : ℕ
  pub current_memkb : ℕ
  pub shared_memkb : ℕ
  pub paged_memkb : ℕ
  pub max_memkb : ℕ
  pub cpu_time : ℕ  -- uint64
  pub vcpu_max_id : ℕ
  pub vcpu_online : ℕ
  pub cpupool : ℕ
  pub domain_type : ℤ

pub record Dominfo : Type 0 where
  pub uuid : List ℕ
  pub domid : ℕ
  pub running : Bool
  pub blocked : Bool
  pub paused : Bool
  pub shutdown : Bool
  pub dying : Bool
  pub never_stop : Bool
  pub shutdown_reason : ℤ
  pub outstanding_memkb : ℕ
  pub current_memkb : ℕ
  pub shared_memkb : ℕ
  pub paged_memkb : ℕ
  pub max_memkb : ℕ
  pub cpu_time : ℤ  -- time.Duration, an int64
  pub vcpu_max_id : ℕ
  pub vcpu_online : ℕ
  pub cpupool : ℕ
  pub domain_type : ℤ

-- `func (c C.libxl_dominfo) toGo()`
unfoldable pub dominfo_to_go : CDominfo → Dominfo
dominfo_to_go c = record {
  uuid = c.uuid;
  domid = c.domid;
  running = c.running;
  blocked = c.blocked;
  paused = c.paused;
  shutdown = c.shutdown;
  dying = c.dying;
  never_stop = c.never_stop;
  shutdown_reason = c.shutdown_reason;
  outstanding_memkb = c.outstanding_memkb;
  current_memkb = c.current_memkb;
  shared_memkb = c.shared_memkb;
  paged_memkb = c.paged_memkb;
  max_memkb = c.max_memkb;
  cpu_time = of_word c.cpu_time;
  vcpu_max_id = c.vcpu_max_id;
  vcpu_online = c.vcpu_online;
  cpupool = c.cpupool;
  domain_type = c.domain_type;
}

-- `libxl_cpupoolinfo`
pub record CCpupoolInfo : Type 0 where
  pub poolid : ℕ
  pub pool_name : Text
  pub sched : ℤ
  pub n_dom : ℕ
  pub cpumap : CBitmap

pub record CpupoolInfo : Type 0 where
  pub poolid : ℕ
  pub pool_name : Text
  pub scheduler : ℤ
  pub domain_count : ℤ
  pub cpumap : Bitmap

-- `func (c C.libxl_cpupoolinfo) toGo()`
unfoldable pub cpupool_info_to_go : CCpupoolInfo → CpupoolInfo
unfolding bitmap_c_to_go
cpupool_info_to_go c = record {
  poolid = c.poolid;
  pool_name = c.pool_name;
  scheduler = c.sched;
  domain_count = pos c.n_dom;
  cpumap = bitmap_c_to_go c.cpumap;
}

-- The calls of libxl and `malloc`. A call that can change the machine gives its new state; a number
-- that is returned is 0 on success.
pub record Libxl : Type 1 where
  pub World : Type 0
  pub Handle : Type 0
  pub scheduler_credit : ℤ
  pub malloc : World → ℕ → Option (List ℕ)
  pub ctx_alloc : World → ℤ × Option Handle × World
  pub ctx_free : Option Handle → World → ℤ × World
  pub domain_info : Handle → ℕ → World → ℤ × CDominfo
  pub domain_unpause : Handle → ℕ → World → ℤ × World
  pub scheduler_to_string : ℤ → Text
  pub scheduler_from_string : Text → ℤ × ℤ
  pub list_cpupool : Handle → World → List CCpupoolInfo
  pub cpupool_info : Handle → ℕ → World → ℤ × CCpupoolInfo
  pub cpupool_create : Handle → Text → ℤ → CBitmap → World → ℤ × ℕ × World
  pub cpupool_destroy : Handle → ℕ → World → ℤ × World
  pub cpupool_cpuadd : Handle → ℕ → ℤ → World → ℤ × World
  pub cpupool_cpuadd_cpumap : Handle → ℕ → CBitmap → World → ℤ × World
  pub cpupool_cpuremove : Handle → ℕ → ℤ → World → ℤ × World
  pub cpupool_cpuremove_cpumap : Handle → ℕ → CBitmap → World → ℤ × World

-- The global `Ctx` and the machine it speaks to.
pub record Host (L : Libxl) : Type 0 where
  pub ctx : Option (Libxl.Handle L)
  pub world : Libxl.World L

-- The errors that the wrappers make, each with libxl's number.
pub data Error : Type 0 where
  not_opened : Error
  allocating freeing : ℤ → Error
  domain_info_failed unpause_failed : ℤ → Error
  from_string_failed : ℤ → Error
  create_failed destroy_failed : ℤ → Error
  cpuadd_failed cpuadd_cpumap_failed cpuremove_failed cpuremove_cpumap_failed : ℤ → Error
