-- ===== src/Command.antt =====
-- `main` of controller/main.go: the loop over the arguments. The messages are left out.
pub mod Plans
use schedbench.Base.{
  ℕ, suc, List, [], ◌∷◌, Option, none, some, if◌then◌else◌, length, Text, is_empty, text_eq, codes,
  Bool, not,
}
use schedbench.Base.Int.{ℤ, pos}
use schedbench.Base.Outcome.{Outcome, returns, panics, ◌>>=◌, elems}
use schedbench.Bench.{WorkerParams, WorkerConfig, BenchmarkPlan, Presets}
use schedbench.Xl.{Libxl, Host}
use schedbench.Xl.Manual.{xl_test}
use schedbench.Run.{Event}
use schedbench.Workers.{AnyWorker}
use schedbench.Store.{Files, Json, SaveError, load_benchmark, save}
use schedbench.Plan.{PlanError, clear_runs, expand_input}
use schedbench.Summary.{Float, Table}
use schedbench.Cpu.{CpuInfo}
use schedbench.PlanRun.{
  PlanEnd, cannot_know_cpu, cannot_open, run_failed, save_failed, in_run, all_done, run_plan,
}
use schedbench.Report.{plan_report}
use schedbench.Html.{Format}
use schedbench.Html.Collect.{html_report}

pub data Flag : Type 0 where
  flag_f flag_t flag_v : Flag

pub data Word : Type 0 where
  takes_argument : Flag → Word
  plan_word run_word report_word html_word xltest_word unknown : Word

-- The `switch` on the first argument.
unfoldable pub word_of : Text → Word
word_of a =
    if text_eq a (codes "-f")
    then takes_argument flag_f
    else if text_eq a (codes "-t")
    then takes_argument flag_t
    else if text_eq a (codes "-v")
    then takes_argument flag_v
    else if text_eq a (codes "plan")
    then plan_word
    else if text_eq a (codes "run")
    then run_word
    else if text_eq a (codes "report")
    then report_word
    else if text_eq a (codes "htmlreport")
    then html_word
    else if text_eq a (codes "xltest")
    then xltest_word
    else unknown

-- How the program ends: as it should, with exit code 1, or not at all while a run is in its loop.
pub data MainEnd : Type 0 where
  done exit_1 still_running : MainEnd

-- The variables of `main`, the globals `Ctx`, `CpukHZ` and `WorkerPresets`, the machine and the files.
pub record Main (L : Libxl) (S : Files) : Type 0 where
  pub filename : Text
  pub template : Text
  pub verbosity : ℤ
  pub host : Host L
  pub khz : ℕ
  pub presets : Presets
  pub files : Files.World S

-- What the whole program is run with: floating-point numbers, encoding/json and `%f`, the order of a
-- map, /proc/cpuinfo, `Init`, what runs receive and do to the machine, and `strconv.Atoi`. The first
-- number of `received` and `after` is how many arguments follow the word `run`.
pub record Setting (F : Type 0) (L : Libxl) (S : Files) : Type 0 where
  pub json : Json F S.Err
  pub float : Float F
  pub format : Format F S.Err
  pub visit : Table → Table
  pub cpu : CpuInfo F S.Err
  pub init : WorkerParams → WorkerConfig → AnyWorker → AnyWorker
  pub received : ℕ → ℕ → List Event
  pub after : ℕ → ℕ → Host L → Host L
  pub atoi : Text → ℤ

module _ {F : Type 0} (L : Libxl) (S : Files) (st : Setting F L S) where
  unfoldable pub set_flag : Flag → Text → Main L S → Main L S
  set_flag flag_f b s = record s { filename = b }
  set_flag flag_t b s = record s { template = b }
  set_flag flag_v b s = record s { verbosity = st.atoi b }

  -- The file that `plan` loads.
  unfoldable pub loadfile : Main L S → Text
  loadfile s = if not (is_empty s.template) then s.template else s.filename

  -- The plan that is expanded: that of a template gets the new name and loses its runs.
  unfoldable pub from_template : Main L S → BenchmarkPlan F → BenchmarkPlan F
  unfolding clear_runs
  from_template s plan =
      if not (is_empty s.template) then clear_runs (record plan { filename = s.filename }) else plan

  -- From `plan.ExpandInput()` on.
  unfoldable pub expand_and_save : BenchmarkPlan F → Main L S → Option MainEnd × Main L S
  expand_and_save plan s =
      let (err, plan', presets) = expand_input plan s.presets in
      elim err [
        | some e ↦ (some exit_1, record s { presets = presets })
        | none ↦
            let (err', w) = save S st.json plan' s.files in
            elim err' [
              | some e ↦ (some exit_1, record s { presets = presets; files = w })
              | none ↦ (none, record s { presets = presets; files = w })
            ]
      ]

  -- `case "plan"`. The first result is `none` where the loop goes on.
  unfoldable pub plan_command : Main L S → Option MainEnd × Main L S
  unfolding loadfile from_template expand_and_save
  plan_command s =
      let (plan, err) = load_benchmark S st.json (loadfile s) s.files in
      elim err [ some e ↦ (some exit_1, s) | none ↦ expand_and_save (from_template s plan) s ]

  abbrev plan_end : PlanEnd S.Err → Option MainEnd
  plan_end (cannot_know_cpu e) = some exit_1
  plan_end (cannot_open e) = some exit_1
  plan_end (run_failed i e) = some exit_1
  plan_end (save_failed i e) = some exit_1
  plan_end (in_run i) = some still_running
  plan_end all_done = none

  -- `case "run"`, with the number of arguments that follow.
  unfoldable pub run_command : ℕ → Main L S → Outcome (Option MainEnd × Main L S)
  run_command left s =
      let (plan, err) = load_benchmark S st.json s.filename s.files in
      elim err [
        | some e ↦ returns (some exit_1, s)
        | none ↦
            run_plan L S st.json st.init (st.received left) (st.after left) st.cpu s.khz
              (record { plan = plan; host = s.host; files = s.files })
            >>= λ (khz, end, b).
                returns (plan_end end, record s { khz = khz; host = b.host; files = b.files })
      ]

  -- `case "report"`
  unfoldable pub report_command : Main L S → Outcome (Option MainEnd × Main L S)
  report_command s =
      let (plan, err) = load_benchmark S st.json s.filename s.files in
      elim err [
        | some e ↦ returns (some exit_1, s)
        | none ↦
            plan_report st.float st.visit s.verbosity 0 (elems plan.runs) >>= λ (err', out, runs).
            elim err' [ some e ↦ returns (some exit_1, s) | none ↦ returns (none, s) ]
      ]

  -- `case "htmlreport"`
  unfoldable pub html_command : Main L S → Outcome (Option MainEnd × Main L S)
  html_command s =
      let (plan, err) = load_benchmark S st.json s.filename s.files in
      elim err [
        | some e ↦ returns (some exit_1, s)
        | none ↦ html_report st.float st.format st.visit (elems plan.runs) >>= λ (err', out, runs).
            elim err' [ some e ↦ returns (some exit_1, s) | none ↦ returns (none, s) ]
      ]

  -- A word that takes no argument, with the number of those that follow.
  unfoldable pub command : Word → ℕ → Main L S → Outcome (Option MainEnd × Main L S)
  unfolding plan_command run_command report_command html_command
  command (takes_argument flag) left s = returns (some exit_1, s)
  command plan_word left s = returns (plan_command s)
  command run_word left s = run_command left s
  command report_word left s = report_command s
  command html_word left s = html_command s
  command xltest_word left s = xl_test L s.host.world >>= λ w.
      returns (some done, record s { host = record s.host { world = w } })
  command unknown left s = returns (some exit_1, s)

  abbrev last_end : Option MainEnd × Main L S → MainEnd × Main L S
  last_end (none, s) = (done, s)
  last_end (some end, s) = (end, s)

  -- `for len(Args) > 0`. A flag that is the last argument lacks its own.
  unfoldable pub main_loop : List Text → Main L S → Outcome (MainEnd × Main L S)
  unfolding word_of set_flag command
  main_loop [] s = returns (done, s)
  main_loop (a ∷ []) s = command (word_of a) 0 s >>= λ out. returns (last_end out)
  main_loop (a ∷ b ∷ args) s = elim (word_of a) [
    | takes_argument flag ↦ main_loop args (set_flag flag b s)
    | word ↦ elim (command (word_of a) (suc (length args)) s) [
      | panics ↦ panics
      | returns (some end, s') ↦ returns (end, s')
      | returns (none, s') ↦ main_loop (b ∷ args) s'
    ]
  ]

  -- The program with its arguments, on a machine and files.
  unfoldable pub main : List Text → Presets → L.World → S.World → Outcome (MainEnd × Main L S)
  unfolding main_loop
  main args presets machine files = main_loop args (record {
    filename = codes "test.bench";
    template = [];
    verbosity = pos 0;
    host = record { ctx = none; world = machine };
    khz = 0;
    presets = presets;
    files = files;
  })
