-- ===== src/Xl/Manual.antt =====
-- `XlTest` of controller/libxl.go, a test that is run by hand. Its own `Ctx` hides the global one, so
-- that only the machine changes. The printing is left out.
use schedbench.Base.{none, some, codes}
use schedbench.Base.Int.{pos}
use schedbench.Base.Outcome.{Outcome, returns, ◌>>=◌}
use schedbench.Bitmap.{Bitmap, set, set_range}
use schedbench.Xl.{Libxl, Host}
use schedbench.Xl.Context.{open_context, close}
use schedbench.Xl.Cpupool.{
  cpupool_find_by_name, cpupool_destroy, cpupool_cpuadd_cpumap, cpupool_make_free, cpupool_create,
}

abbrev empty_bitmap : Bitmap
empty_bitmap = record { bitmap = none }

-- The bitmap that is printed at the start.
unfoldable pub first_cpus : Outcome Bitmap
unfolding set set_range
first_cpus = set (pos 2) empty_bitmap >>= λ b1.
    set_range (pos 4) (pos 8) b1 >>= λ b2. set (pos 10) b2 >>= λ b3. set (pos 9) b3

module _ (L : Libxl) where
  -- From `Cpumap = Bitmap{}` on.
  unfoldable pub create_again : Host L → Outcome L.World
  create_again h0 = set_range (pos 12) (pos 15) empty_bitmap >>= λ cpumap.
      cpupool_make_free L cpumap h0 >>= λ (err, h). elim err [
        | some e ↦ returns h.world
        | none ↦
            cpupool_create L (codes "schedbench") L.scheduler_credit cpumap h >>= λ (err, id, h1).
            close L h1 >>= λ (err, h2). returns h2.world
      ]

  -- The pool that is found is destroyed, and its cpus go to pool 0.
  unfoldable pub give_back : Host L → Outcome L.World
  unfolding create_again
  give_back h0 = elim (cpupool_find_by_name L (codes "schedbench") h0) [
    | none ↦ create_again h0
    | some pool ↦ cpupool_destroy L pool.poolid h0 >>= λ (err, h). elim err [
      | some e ↦ returns h.world
      | none ↦ cpupool_cpuadd_cpumap L 0 pool.cpumap h >>= λ (err', h1). elim err' [
        | some e ↦ returns h1.world
        | none ↦ create_again h1
      ]
    ]
  ]

  unfoldable pub xl_test : L.World → Outcome L.World
  unfolding first_cpus give_back
  xl_test w = first_cpus >>= λ cpumap.
      open_context L (record { ctx = none; world = w }) >>= λ (err, h). elim err [
        | some e ↦ returns h.world
        | none ↦ give_back h
      ]
