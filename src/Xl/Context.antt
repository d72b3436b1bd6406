-- ===== src/Xl/Context.antt =====
-- `Context` of controller/libxl.go: opening and closing it, and the calls on domains.
use schedbench.Base.{ℕ, Bool, Option, none, some, not, is_none, if◌then◌else◌}
use schedbench.Base.Int.{ℤ, pos, eqb_ℤ}
use schedbench.Base.Outcome.{Outcome, returns}
use schedbench.Xl.{
  Libxl, Host, Error, Dominfo, dominfo_to_go, not_opened, allocating, freeing, domain_info_failed,
  unpause_failed,
}

-- `if ret != 0 { err = ... }`
abbrev pub status : ℤ → (ℤ → Error) → Option Error
status ret failed = if eqb_ℤ ret (pos 0) then none else some (failed ret)

module _ (L : Libxl) where
  open L use {Handle, World}

  unfoldable pub is_open : Host L → Bool
  is_open h = not (is_none h.ctx)

  unfoldable pub open_context : Host L → Outcome (Option Error × Host L)
  open_context h = elim h.ctx [
    | some ctx ↦ returns (none, h)
    | none ↦
        let (ret, ctx, w) = L.ctx_alloc h.world in
        returns (status ret allocating, record { ctx = ctx; world = w })
  ]

  unfoldable pub close : Host L → Outcome (Option Error × Host L)
  close h =
      let (ret, w) = L.ctx_free h.ctx h.world in
      returns (status ret freeing, record { ctx = none; world = w })

  unfoldable pub check_open : Host L → Option Error
  check_open h = if is_none h.ctx then some not_opened else none

  -- A wrapper of a libxl call: `CheckOpen`, the call, and its number.
  abbrev pub xl_call :
      (Handle → World → ℤ × World) → (ℤ → Error) → Host L → Outcome (Option Error × Host L)
  xl_call call failed h = elim h.ctx [
    | none ↦ returns (some not_opened, h)
    | some ctx ↦
        let (ret, w) = call ctx h.world in returns (status ret failed, record h { world = w })
  ]

  -- `(di, err)`: `di` is the zero value, here `none`, whenever `err` is set.
  unfoldable pub domain_info : ℕ → Host L → Option Error × Option Dominfo
  unfolding dominfo_to_go
  domain_info id h = elim h.ctx [
    | none ↦ (some not_opened, none)
    | some ctx ↦
        let (ret, cdi) = L.domain_info ctx id h.world in
        if eqb_ℤ ret (pos 0)
        then (none, some (dominfo_to_go cdi))
        else (some (domain_info_failed ret), none)
  ]

  unfoldable pub domain_unpause : ℕ → Host L → Outcome (Option Error × Host L)
  domain_unpause id = xl_call (λ ctx w. L.domain_unpause ctx id w) unpause_failed
