-- ===== src/Tests/Commands.antt =====
-- The program on a template of a plan, on the machine of two pools and the file system in memory.
use schedbench.Base.{ℕ, ◌≡◌, refl, [], ◌∷◌, none, some, false, codes}
use schedbench.Base.Int.{pos}
use schedbench.Base.Outcome.{Outcome, returns, panics}
use schedbench.Bench.{BenchmarkPlan}
use schedbench.Store.{load_benchmark, save, write_plan}
use schedbench.Store.Safe.{content}
use schedbench.Plan.{worker_presets, expand_input, merge_presets, baselines, expand_matrix}
use schedbench.Command.{
  Setting, Main, MainEnd, done, exit_1, plan_command, loadfile, from_template, main,
}
use schedbench.Command.Plans.{plan_command-saved}
use schedbench.Tests.Machine.{machine, host}
use schedbench.Tests.Disk.{Disk, disk, put, disk-IsLawful}
use schedbench.Tests.Plans.{plan}
use schedbench.Tests.PlanRuns.{cpuinfo}
use schedbench.Tests.Htmls.{format}
use schedbench.Tests.Sessions.{received, init}
use schedbench.Tests.Summaries.{numbers, in_order}

abbrev setting : Setting ℕ machine (disk false)
setting = record {
  json = record {
    marshal = λ plan. (none, codes "{}");
    unmarshal = λ b p. (none, record plan { filename = p.filename });
  };
  float = numbers;
  format = format;
  visit = in_order;
  cpu = cpuinfo;
  init = init;
  received = λ left i. received;
  after = λ left i h. h;
  atoi = λ s. pos 0;
}

abbrev files : Disk
files = put (codes "t.bench") (some (codes "{}")) (λ x. none)

abbrev start : Main machine (disk false)
start = record {
  filename = codes "a.bench";
  template = codes "t.bench";
  verbosity = pos 0;
  host = host;
  khz = 0;
  presets = worker_presets;
  files = files;
}

planned : (plan_command machine (disk false) setting start).0 ≡ none
unfolding plan_command save write_plan load_benchmark expand_input loadfile from_template
    expand_matrix baselines merge_presets worker_presets
planned = refl

plan_command-saved_example :
    (p : BenchmarkPlan ℕ) × (load_benchmark (disk false) setting.json (codes "t.bench") files
      ≡ (p, none))
    × (((expand_input (from_template machine (disk false) setting start p) worker_presets).0 ≡ none)
        × (content
              (disk false)
              (codes "a.bench")
              (plan_command machine (disk false) setting start).1.files
            ≡ some (codes "{}"))
        × ((plan_command machine (disk false) setting start).1.presets
            ≡ (expand_input (from_template machine (disk false) setting start p) worker_presets).2))
unfolding loadfile
plan_command-saved_example =
    plan_command-saved machine (disk false) setting (disk-IsLawful false) (λ b p. refl) start
      planned

-- The first result of the program.
abbrev end_of : Outcome (MainEnd × Main machine (disk false)) → MainEnd
end_of panics = exit_1
end_of (returns (end, s)) = end

whole :
    end_of (
      main machine
        (disk false)
        setting
        (codes "-f" ∷ codes "a.bench" ∷ codes "-t" ∷ codes "t.bench" ∷ codes "plan" ∷ [])
        worker_presets
        host.world
        files)
    ≡ done
unfolding main plan_command save write_plan load_benchmark expand_input loadfile from_template
    expand_matrix baselines merge_presets worker_presets
whole = refl
