-- ===== src/Xl/Cpupool.antt =====
-- The cpupool operations of `Context` in controller/libxl.go.
use schedbench.Base.{ℕ, true, false, Option, none, some, List, [], ◌∷◌, map, if◌then◌else◌}
use schedbench.Base.{Text, text_eq}
use schedbench.Base.Int.{ℤ, pos, eqb_ℤ}
use schedbench.Base.Outcome.{Outcome, returns, panics}
use schedbench.Bitmap.{Bitmap, CBitmap, bitmap_go_to_c, and, is_empty}
use schedbench.Xl.{
  Libxl, Host, Error, CpupoolInfo, cpupool_info_to_go, not_opened, from_string_failed,
  create_failed, destroy_failed, cpuadd_failed, cpuadd_cpumap_failed, cpuremove_failed,
  cpuremove_cpumap_failed,
}
use schedbench.Xl.Context.{status, xl_call}

-- The zero value of `CpupoolInfo`, which `CpupoolInfo` gives on an error.
abbrev pub zero_pool : CpupoolInfo
zero_pool = record {
  poolid = 0;
  pool_name = [];
  scheduler = pos 0;
  domain_count = pos 0;
  cpumap = record { bitmap = none };
}

module _ (L : Libxl) where
  open L use {Handle, World}

  unfoldable pub scheduler_string : ℤ → Text
  scheduler_string s = L.scheduler_to_string s

  -- `s.FromString(gstr)`: the error, and the new value of `*s`.
  unfoldable pub from_string : ℤ → Text → Option Error × ℤ
  from_string s gstr =
      let (ret, cs) = L.scheduler_from_string gstr in
      if eqb_ℤ ret (pos 0) then (none, cs) else (some (from_string_failed ret), s)

  unfoldable pub scheduler_from_string : Text → ℤ × Option Error
  scheduler_from_string name =
      let (ret, cs) = L.scheduler_from_string name in
      if eqb_ℤ ret (pos 0) then (cs, none) else (pos 0, some (from_string_failed ret))

  unfoldable pub list_cpupool : Host L → List CpupoolInfo
  unfolding cpupool_info_to_go
  list_cpupool h = elim h.ctx [
    | none ↦ []
    | some ctx ↦ map cpupool_info_to_go (L.list_cpupool ctx h.world)
  ]

  unfoldable pub cpupool_info : ℕ → Host L → CpupoolInfo
  unfolding cpupool_info_to_go
  cpupool_info poolid h = elim h.ctx [
    | none ↦ zero_pool
    | some ctx ↦
        let (ret, c_cpupool) = L.cpupool_info ctx poolid h.world in
        if eqb_ℤ ret (pos 0) then cpupool_info_to_go c_cpupool else zero_pool
  ]

  -- A wrapper that hands a bitmap over to C.
  abbrev xl_call_with :
      Bitmap
      → (Handle → CBitmap → World → ℤ × World)
      → (ℤ → Error)
      → Host L
      → Outcome (Option Error × Host L)
  xl_call_with cpumap call failed h = elim h.ctx [
    | none ↦ returns (some not_opened, h)
    | some ctx ↦ elim (bitmap_go_to_c (L.malloc h.world) cpumap) [
      | panics ↦ panics
      | returns cbm ↦
          let (ret, w) = call ctx cbm h.world in returns (status ret failed, record h { world = w })
    ]
  ]

  unfoldable pub cpupool_create : Text → ℤ → Bitmap → Host L → Outcome (Option Error × ℕ × Host L)
  unfolding bitmap_go_to_c
  cpupool_create name scheduler cpumap h = elim h.ctx [
    | none ↦ returns (some not_opened, 0, h)
    | some ctx ↦ elim (bitmap_go_to_c (L.malloc h.world) cpumap) [
      | panics ↦ panics
      | returns cbm ↦
          let (ret, poolid, w) = L.cpupool_create ctx name scheduler cbm h.world in
          returns (
            status ret create_failed,
            if eqb_ℤ ret (pos 0) then poolid else 0,
            record h { world = w },
          )
    ]
  ]

  unfoldable pub cpupool_destroy : ℕ → Host L → Outcome (Option Error × Host L)
  cpupool_destroy poolid = xl_call L (λ ctx w. L.cpupool_destroy ctx poolid w) destroy_failed

  unfoldable pub cpupool_cpuadd : ℕ → ℤ → Host L → Outcome (Option Error × Host L)
  cpupool_cpuadd poolid cpu = xl_call L (λ ctx w. L.cpupool_cpuadd ctx poolid cpu w) cpuadd_failed

  unfoldable pub cpupool_cpuadd_cpumap : ℕ → Bitmap → Host L → Outcome (Option Error × Host L)
  unfolding bitmap_go_to_c
  cpupool_cpuadd_cpumap poolid cpumap =
      xl_call_with cpumap (λ ctx cbm w. L.cpupool_cpuadd_cpumap ctx poolid cbm w)
        cpuadd_cpumap_failed

  unfoldable pub cpupool_cpuremove : ℕ → ℤ → Host L → Outcome (Option Error × Host L)
  cpupool_cpuremove poolid cpu =
      xl_call L (λ ctx w. L.cpupool_cpuremove ctx poolid cpu w) cpuremove_failed

  unfoldable pub cpupool_cpuremove_cpumap : ℕ → Bitmap → Host L → Outcome (Option Error × Host L)
  unfolding bitmap_go_to_c
  cpupool_cpuremove_cpumap poolid cpumap =
      xl_call_with cpumap (λ ctx cbm w. L.cpupool_cpuremove_cpumap ctx poolid cbm w)
        cpuremove_cpumap_failed

  -- The loop of `CpupoolFindByName`.
  unfoldable pub find_pool : Text → List CpupoolInfo → Option CpupoolInfo
  find_pool name [] = none
  find_pool name (p ∷ plist) = if text_eq p.pool_name name then some p else find_pool name plist

  -- `(info, found)`: `none` where `found` is false.
  unfoldable pub cpupool_find_by_name : Text → Host L → Option CpupoolInfo
  unfolding list_cpupool find_pool
  cpupool_find_by_name name h = find_pool name (list_cpupool h)

  -- The loop of `CpupoolMakeFree` over the list of pools.
  unfoldable pub free_pools : Bitmap → List CpupoolInfo → Host L → Outcome (Option Error × Host L)
  free_pools cpumap [] h = returns (none, h)
  free_pools cpumap (p ∷ plist) h =
      let intersection : Bitmap = and cpumap p.cpumap in
      elim (is_empty intersection) [
        | true ↦ free_pools cpumap plist h
        | false ↦ elim (cpupool_cpuremove_cpumap p.poolid intersection h) [
          | panics ↦ panics
          | returns (some err, h') ↦ returns (some err, h')
          | returns (none, h') ↦ free_pools cpumap plist h'
        ]
      ]

  unfoldable pub cpupool_make_free : Bitmap → Host L → Outcome (Option Error × Host L)
  unfolding list_cpupool free_pools cpupool_cpuremove_cpumap
  cpupool_make_free cpumap h = free_pools cpumap (list_cpupool h) h
