-- ===== src/Tests/Stores.antt =====
-- The theorems on `Save` and `LoadBenchmark` at a file system in memory.
use schedbench.Base.{◌≡◌, refl, none, some, codes, true, false, ℕ, [], arith}
use schedbench.Bench.{BenchmarkPlan, zero_plan}
use schedbench.Store.{Json, save, write_plan, load_benchmark, failed}
use schedbench.Store.Keeps.{save-load, save-IsKept, IsKept}
use schedbench.Tests.Disk.{Disk, disk, disk-IsLawful, put}

abbrev stored : BenchmarkPlan ℕ
stored = record zero_plan { filename = codes "a.bench"; runs = some [] }

-- The text of one plan, and reading it.
abbrev json : Json ℕ ℕ
json = record {
  marshal = λ plan. (none, codes "{}");
  unmarshal = λ b plan. (none, record plan { runs = some [] });
}

abbrev files : Disk
files = put (codes "a.bench") (some (codes "old")) (λ x. none)

stored_fine : (save (disk false) json stored files).0 ≡ none
unfolding save write_plan
stored_fine = refl

save-load_example :
    load_benchmark (disk false) json (codes "a.bench") (save (disk false) json stored files).1
    ≡ (stored, none)
save-load_example = save-load (disk false) json (disk-IsLawful false) stored files stored_fine refl

no_room : (save (disk true) json stored files).0 ≡ some (failed 28)
unfolding save write_plan
no_room = refl

-- The disk is full, and the old file is put back.
save-IsKept_example :
    IsKept (disk true) json (disk-IsLawful true) stored files (save (disk true) json stored files).1
save-IsKept_example =
    save-IsKept (disk true) json (disk-IsLawful true) stored files no_room
      (λ x e. absurd (ground (arith, e)))
