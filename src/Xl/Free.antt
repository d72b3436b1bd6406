-- ===== src/Xl/Free.antt =====
-- What `CpupoolMakeFree` leaves, where libxl takes cpus out of a pool as it says.
use schedbench.Base.{
  ℕ, zero, suc, ◌^◌, ◌<◌, ◌≡◌, refl, sym, ◌∙◌, ap, subst, true, false, Bool-cases, inl, inr, List,
  [], ◌∷◌, Option, none, some, length, leb, ◌≤◌, get_elem?, arith,
}
use schedbench.Base.Int.{pos, eqb_ℤ}
use schedbench.Base.Outcome.{Outcome, returns, panics}
use schedbench.Bitmap.{Bitmap, CBitmap, bytes, and, copy, is_empty, bitmap_c_to_go, bitmap_go_to_c}
use schedbench.Bitmap.Members.{has, holds}
use schedbench.Bitmap.Bytes.{has-and, is_empty-has}
use schedbench.Bitmap.Copies.{c_to_go-go_to_c, go_to_c-panics}
use schedbench.Xl.{Libxl, Host, Error, CpupoolInfo, cpuremove_cpumap_failed}
use schedbench.Xl.Context.{status}
use schedbench.Xl.Cpupool.{list_cpupool, cpupool_cpuremove_cpumap, free_pools, cpupool_make_free}

has-bytes : (a b : Bitmap) (n : ℕ) → bytes a ≡ bytes b → has a n ≡ has b n
unfolding has
has-bytes a b n same = ap (λ bs. holds bs n) same

length-copy : (dst src : List ℕ) → length (copy dst src) ≡ length dst
unfolding copy
length-copy [] src = refl
length-copy (d ∷ dst) [] = refl
length-copy (d ∷ dst) (b ∷ src) = ap suc (length-copy dst src)

module _ (L : Libxl) where
  abbrev pub opened : L.Handle → L.World → Host L
  opened ctx w = record { ctx = some ctx; world = w }

  -- One of the listed pools, number `q`, has cpu `n`.
  abbrev pub Owned : Host L → ℕ → ℕ → Type 0
  Owned h q n =
      (i : ℕ) × (p : CpupoolInfo) × (get_elem? (list_cpupool L h) i ≡ some p)
      × (p.poolid ≡ q)
      × (has p.cpumap n ≡ true)

  -- What libxl and `malloc` do: memory is as much as was asked for, and a removal that gives 0 takes the cpus out of its pool and gives none to any.
  pub record TakesCpus : Type 0 where
    pub malloc_gives :
        (w : L.World) (n : ℕ) → (m : List ℕ) × (L.malloc w n ≡ some m) × (length m ≡ n)
    pub takes :
        (ctx : L.Handle) (w : L.World) (id : ℕ) (cbm : CBitmap) (q n : ℕ)
        → eqb_ℤ (L.cpupool_cpuremove_cpumap ctx id cbm w).0 (pos 0) ≡ true
        → Owned (opened ctx (L.cpupool_cpuremove_cpumap ctx id cbm w).1) q n
        → Owned (opened ctx w) q n × (q ≡ id → has (bitmap_c_to_go cbm) n ≡ false)

  module _ (laws : TakesCpus) (ctx : L.Handle) (cpumap : Bitmap) where
    -- The call that takes a bitmap's cpus out of a pool.
    removes :
        (w : L.World) (id : ℕ) (bm : Bitmap)
        → length (bytes bm) ≤ 2 ^ 30
        → (cbm : CBitmap) × (cpupool_cpuremove_cpumap L id bm (opened ctx w)
            ≡ returns (
              status (L.cpupool_cpuremove_cpumap ctx id cbm w).0 cpuremove_cpumap_failed,
              opened ctx (L.cpupool_cpuremove_cpumap ctx id cbm w).1,
            ))
          × ((n : ℕ) → has (bitmap_c_to_go cbm) n ≡ has bm n)
    unfolding cpupool_cpuremove_cpumap bitmap_go_to_c
    removes w id bm fits =
        let (memory, given, long) = laws.malloc_gives w (length (bytes bm)) in
        let (cbm, sent, back) = c_to_go-go_to_c (L.malloc w) bm memory given long fits in
        let call : Outcome CBitmap → Outcome (Option Error × Host L) = λ o. elim o [
          | panics ↦ panics
          | returns cbm ↦
              let (ret, w') = L.cpupool_cpuremove_cpumap ctx id cbm w in
              returns (status ret cpuremove_cpumap_failed, opened ctx w')
        ] in
        (cbm, ap call sent, λ n. has-bytes (bitmap_c_to_go cbm) bm n back)

    -- It panics on a bitmap that is too large.
    removes-panics :
        (w : L.World) (id : ℕ) (bm : Bitmap)
        → 2 ^ 30 < length (bytes bm)
        → cpupool_cpuremove_cpumap L id bm (opened ctx w) ≡ panics
    unfolding cpupool_cpuremove_cpumap bitmap_go_to_c
    removes-panics w id bm large =
        let call : Outcome CBitmap → Outcome (Option Error × Host L) = λ o. elim o [
          | panics ↦ panics
          | returns cbm ↦
              let (ret, w') = L.cpupool_cpuremove_cpumap ctx id cbm w in
              returns (status ret cpuremove_cpumap_failed, opened ctx w')
        ] in
        ap call (go_to_c-panics (L.malloc w) bm large)

    -- Each requested cpu that a pool has is one of a pool that is still to come.
    abbrev IsCovered : List CpupoolInfo → L.World → Type 0
    IsCovered plist w =
        (q n : ℕ)
        → has cpumap n ≡ true
        → Owned (opened ctx w) q n
        → (i : ℕ) × (p : CpupoolInfo) × (get_elem? plist i ≡ some p)
          × (p.poolid ≡ q)
          × (has p.cpumap n ≡ true)

    abbrev AreFree : Outcome (Option Error × Host L) → Type 0
    AreFree panics = Unit {0}
    AreFree (returns (some e, h)) = Unit {0}
    AreFree (returns (none, h)) = (q n : ℕ) → has cpumap n ≡ true → Owned h q n → ⊥

    -- The pools after the first cover what the first does not have.
    uncover :
        (p : CpupoolInfo) (plist : List CpupoolInfo) (w w' : L.World)
        → IsCovered (p ∷ plist) w
        → ((q n : ℕ) → Owned (opened ctx w') q n → Owned (opened ctx w) q n)
        → ((n : ℕ)
            → has cpumap n ≡ true
            → has p.cpumap n ≡ true
            → Owned (opened ctx w') p.poolid n
            → ⊥)
        → IsCovered plist w'
    uncover p plist w w' covered fewer gone q n wanted owned =
        let (i, p', at, same, held) = covered q n wanted (fewer q n owned) in from i p' at same held
      where
        from :
            (i : ℕ) (p' : CpupoolInfo)
            → get_elem? (p ∷ plist) i ≡ some p'
            → p'.poolid ≡ q
            → has p'.cpumap n ≡ true
            → (i : ℕ) × (p : CpupoolInfo) × (get_elem? plist i ≡ some p)
              × (p.poolid ≡ q)
              × (has p.cpumap n ≡ true)
        from zero p' at same held =
            let one : p ≡ p' = ground (arith, at) in
            let its : p.poolid ≡ q = ap (λ (p : CpupoolInfo). p.poolid) one ∙ same in
            absurd (
              gone n wanted (ap (λ (p : CpupoolInfo). has p.cpumap n) one ∙ held)
                (subst (λ q. Owned (opened ctx w') q n) (sym its) owned))
        from (suc i) p' at same held = (i, p', at, same, held)

    free_pools-AreFree :
        (plist : List CpupoolInfo) (w : L.World)
        → IsCovered plist w
        → AreFree (free_pools L cpumap plist (opened ctx w))
    unfolding free_pools
    free_pools-AreFree [] w covered = λ q n wanted owned.
        let (i, p, at, same, held) = covered q n wanted owned in absurd (ground (arith, at))
    free_pools-AreFree (p ∷ plist) w covered =
        let inter = and cpumap p.cpumap in
        elim (Bool-cases (is_empty inter)) [
          | inl empty ↦
              rw (empty, free_pools)
                (free_pools-AreFree plist w (
                  uncover p plist w w covered (λ q n owned. owned)
                    (λ n wanted held owned. absurd (
                      ground (
                        arith,
                        is_empty-has inter n empty,
                        has-and cpumap p.cpumap n,
                        wanted,
                        held,
                      )))))
          | inr some_cpu ↦ elim (Bool-cases (leb (length (bytes inter)) (2 ^ 30))) [
            | inr large ↦
                rw (some_cpu, removes-panics w p.poolid inter (ground arith), free_pools) tt
            | inl small ↦
                let (cbm, ran, sent) = removes w p.poolid inter (ground arith) in
                let w' = (L.cpupool_cpuremove_cpumap ctx p.poolid cbm w).1 in
                elim (Bool-cases
                  (eqb_ℤ (L.cpupool_cpuremove_cpumap ctx p.poolid cbm w).0 (pos 0))) [
                    | inr failed ↦ rw (some_cpu, ran, free_pools) (rw failed tt)
                    | inl fine ↦
                        rw (some_cpu, ran, free_pools)
                          (rw fine (
                            free_pools-AreFree plist w' (
                              uncover p plist w w' covered
                                (λ q n owned. (laws.takes ctx w p.poolid cbm q n fine owned).0)
                                (λ n wanted held owned.
                                  let taken =
                                    (laws.takes ctx w p.poolid cbm p.poolid n fine owned).1 refl in
                                  absurd (
                                    ground (
                                      arith,
                                      taken,
                                      sent n,
                                      has-and cpumap p.cpumap n,
                                      wanted,
                                      held,
                                    ))))))
                  ]
          ]
        ]

  -- After a `CpupoolMakeFree` that reports no error no pool has a cpu that was asked for, where the
  -- context is open, and libxl and `malloc` do what they say.
  pub cpupool_make_free-frees :
      (laws : TakesCpus) (ctx : L.Handle) (w : L.World) (cpumap : Bitmap) {h' : Host L}
      → cpupool_make_free L cpumap (opened ctx w) ≡ returns (none, h')
      → (q n : ℕ) → has cpumap n ≡ true
      → ¬ Owned h' q n
  unfolding cpupool_make_free
  cpupool_make_free-frees laws ctx w cpumap ends = subst (AreFree laws ctx cpumap) ends (
      free_pools-AreFree laws ctx cpumap (list_cpupool L (opened ctx w)) w
        (λ q n wanted owned. owned))
