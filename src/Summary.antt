-- ===== src/Summary.antt =====
-- `BenchmarkRun.Process` of controller/benchmark.go: a run's reports summed up by worker and by set.
-- `float64` is the parameter `Float`. A Go map is ranged over in an order that is the parameter
-- `visit`.
pub mod Loops
pub mod Table
pub mod Views
pub mod Reads
pub mod Closes
pub mod Whole
pub mod Totals
pub mod Errors
pub mod Ranges
use schedbench.Base.{
  ℕ, Bool, true, false, ◌||◌, List, [], ◌∷◌, ◌++◌, map, Option, none, some, if◌then◌else◌, length,
  set, replicate, is_none,
}
use schedbench.Base.Int.{ℤ, pos, negsuc, pos_part, ltb_ℤ, eqb_ℤ, ◌-int◌}
use schedbench.Base.Outcome.{Outcome, returns, panics, ◌>>=◌, index, elems}
use schedbench.Bench.{
  WorkerId, WorkerReport, WorkerSet, MinMax, WorkerSummary, WorkerSetSummary, BenchmarkRun, id_eq,
}

-- The operations on `float64` that the code uses.
pub record Float (F : Type 0) : Type 0 where
  pub zero : F
  pub of_int : ℤ → F
  pub add : F → F → F
  pub sub : F → F → F
  pub mul : F → F → F
  pub div : F → F → F
  pub sqrt : F → F
  pub lt : F → F → Bool
  pub eq : F → F → Bool

-- The local type `Data`.
pub record Data : Type 0 where
  pub start_time : ℤ
  pub start_cputime : ℤ
  pub last_time : ℤ
  pub last_kops : ℤ
  pub last_cputime : ℤ

abbrev pub zero_data : Data
zero_data = record {
  start_time = pos 0;
  start_cputime = pos 0;
  last_time = pos 0;
  last_kops = pos 0;
  last_cputime = pos 0;
}

-- `map[WorkerId]*Data`
abbrev pub Table : Type 0
Table = List (WorkerId × Data)

-- `data[id]`, `none` for nil.
unfoldable pub find_data : WorkerId → Table → Option Data
find_data id [] = none
find_data id ((j, d) ∷ t) = if id_eq j id then some d else find_data id t

-- What `data[id]` points at is set.
unfoldable pub put_data : WorkerId → Data → Table → Table
put_data id d [] = (id, d) ∷ []
put_data id d ((j, old) ∷ t) = if id_eq j id then (j, d) ∷ t else (j, old) ∷ put_data id d t

pub data ProcessError : Type 0 where
  bad_set bad_id : ℤ → ℕ → ProcessError

module _ {F : Type 0} (fl : Float F) where
  abbrev pub sec : F
  sec = fl.of_int (pos 1000000000)

  unfoldable pub throughput : ℤ → ℤ → ℤ → ℤ → F
  throughput lt lm t m = fl.div (fl.of_int (m -int lm)) (fl.div (fl.of_int (t -int lt)) sec)

  unfoldable pub utilization : ℤ → ℤ → ℤ → ℤ → F
  utilization lt lct t ct = fl.div (fl.of_int (ct -int lct)) (fl.of_int (t -int lt))

  -- `func (mm *MinMax) Update(x float64)`
  unfoldable pub update : F → MinMax F → MinMax F
  update x mm0 =
      let mm : MinMax F = if fl.lt mm0.max x then record mm0 { max = x } else mm0 in
      if fl.lt x mm.min || fl.eq mm.min fl.zero then record mm { min = x } else mm

  abbrev pub zero_min_max : MinMax F
  zero_min_max = record { min = fl.zero; max = fl.zero }

  abbrev pub zero_worker : WorkerSummary F
  zero_worker = record {
    raw = [];
    min_max_tput = zero_min_max;
    min_max_util = zero_min_max;
    total_tput = pos 0;
    total_time = pos 0;
    total_cputime = pos 0;
    avg_tput = fl.zero;
    avg_util = fl.zero;
  }

  abbrev pub zero_set : WorkerSetSummary F
  zero_set = record {
    workers = none;
    total_tput = fl.zero;
    avg_avg_tput = fl.zero;
    min_max_tput = zero_min_max;
    min_max_avg_tput = zero_min_max;
    avg_std_dev_tput = fl.zero;
    total_util = fl.zero;
    min_max_util = zero_min_max;
    min_max_avg_util = zero_min_max;
    avg_avg_util = fl.zero;
    avg_std_dev_util = fl.zero;
  }

  -- The summaries and the map while the reports are read.
  pub record Tally : Type 0 where
    pub summary : List (WorkerSetSummary F)
    pub table : Table

  -- `if Workers == nil { Workers = make([]WorkerSummary, Count) }`
  unfoldable pub make_workers :
      List WorkerSet → ℤ → WorkerSetSummary F → Outcome (List (WorkerSummary F))
  make_workers sets i ws = elim ws.workers [
    | some workers ↦ returns workers
    | none ↦ index sets i >>= λ set. elim set.count [
      | pos n ↦ returns (replicate n zero_worker)
      | negsuc n ↦ panics
    ]
  ]

  -- The report's throughput and utilization since the one before it.
  abbrev pub rates : Data → WorkerReport → F × F
  rates d e = (
    throughput d.last_time d.last_kops e.now e.kops,
    utilization d.last_time d.last_cputime e.now e.cputime,
  )

  -- The worker's summary with report `e`.
  unfoldable pub add_report : Data → WorkerReport → WorkerSummary F → WorkerSummary F
  add_report d e w0 =
      let w : WorkerSummary F = record w0 { raw = w0.raw ++ e ∷ [] } in
      let (tput, util) = rates d e in
      if eqb_ℤ d.start_time (pos 0) then w else record w {
        min_max_tput = update tput w.min_max_tput;
        min_max_util = update util w.min_max_util;
      }

  -- The set's own ranges with report `e`.
  unfoldable pub add_rates : Data → WorkerReport → WorkerSetSummary F → WorkerSetSummary F
  add_rates d e ws =
      let (tput, util) = rates d e in
      if eqb_ℤ d.start_time (pos 0) then ws else record ws {
        min_max_tput = update tput ws.min_max_tput;
        min_max_util = update util ws.min_max_util;
      }

  -- `*d` after report `e`.
  unfoldable pub next_data : WorkerReport → Data → Data
  next_data e d =
      let begun : Data =
        if eqb_ℤ d.start_time (pos 0)
        then record d { start_time = e.now; start_cputime = e.cputime }
        else d in
      record begun { last_time = e.now; last_kops = e.kops; last_cputime = e.cputime }

  abbrev pub data_or_new : Option Data → Data
  data_or_new none = zero_data
  data_or_new (some d) = d
