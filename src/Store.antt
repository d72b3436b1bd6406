-- ===== src/Store.antt =====
-- `LoadBenchmark` and `Save` of controller/benchmark.go. The file system and the two calls of
-- encoding/json are parameters.
pub mod Safe
pub mod Keeps
use schedbench.Base.{
  [], ◌++◌, Bool, not, true, false, Option, none, some, if◌then◌else◌, Text, is_empty, codes,
}
use schedbench.Bench.{BenchmarkPlan, zero_plan}

-- The calls of `os` and `ioutil` on files. An error is `some`.
pub record Files : Type 1 where
  pub World : Type 0
  pub Err : Type 0
  pub is_not_exist : Err → Bool
  pub read_file : Text → World → Option Err × Text
  pub write_file : Text → Text → World → Option Err × World
  pub rename : Text → Text → World → Option Err × World
  pub remove : Text → World → Option Err × World

-- `json.Marshal` of a plan, and `json.Unmarshal` into a plan.
pub record Json (F E : Type 0) : Type 0 where
  pub marshal : BenchmarkPlan F → Option E × Text
  pub unmarshal : Text → BenchmarkPlan F → Option E × BenchmarkPlan F

pub data SaveError (E : Type 0) : Type 0 where
  invalid_filename : SaveError E
  failed : E → SaveError E

abbrev pub backup_of : Text → Text
backup_of filename = codes "." ++ filename ++ codes ".tmp"

module _ {F : Type 0} (S : Files) (J : Json F S.Err) where
  unfoldable pub load_benchmark : Text → S.World → BenchmarkPlan F × Option S.Err
  load_benchmark filename w =
      let plan : BenchmarkPlan F = record zero_plan { filename = filename } in
      let (err, b) = S.read_file filename w in
      elim err [
        | some e ↦ (plan, some e)
        | none ↦ let (err', plan') = J.unmarshal b plan in (plan', err')
      ]

  -- From `WriteFile` on, with the name of the backup, which is empty where there is none.
  unfoldable pub write_plan : Text → Text → Text → S.World → Option (SaveError S.Err) × S.World
  write_plan filename backup b w =
      let (err, w1) = S.write_file filename b w in
      elim err [
        | some e ↦
            (some (failed e), if not (is_empty backup) then (S.rename backup filename w1).1 else w1)
        | none ↦ (none, if not (is_empty backup) then (S.remove backup w1).1 else w1)
      ]

  unfoldable pub save : BenchmarkPlan F → S.World → Option (SaveError S.Err) × S.World
  unfolding write_plan
  save plan w =
      if is_empty plan.filename
      then (some invalid_filename, w)
      else let (err, b) = J.marshal plan in
        elim err [
          | some e ↦ (some (failed e), w)
          | none ↦
              let (err', w1) = S.rename plan.filename (backup_of plan.filename) w in
              elim err' [
                | none ↦ write_plan plan.filename (backup_of plan.filename) b w1
                | some e ↦
                    if S.is_not_exist e
                    then write_plan plan.filename [] b w1
                    else (some (failed e), w1)
              ]
        ]
