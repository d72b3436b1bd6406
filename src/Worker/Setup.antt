-- ===== src/Worker/Setup.antt =====
-- `Init`, `Shutdown` and `DumpLog` of controller/xenworker.go and controller/processworker.go. The
-- programs that are run, the files and encoding/json are the parameter `Tools`. `mock` is false.
use schedbench.Base.{
  List, [], ◌∷◌, ◌++◌, Option, none, some, Text, is_empty, codes, if◌then◌else◌, not,
}
use schedbench.Base.Int.{ℤ, show_int}
use schedbench.Bench.{WorkerParams, WorkerConfig}
use schedbench.Base.Outcome.{elems}
use schedbench.Worker.{XenWorker}

pub record RumpRunConfigBlk : Type 0 where
  pub source : Text
  pub path : Text
  pub fstype : Text
  pub mountpoint : Text

pub record RumpRunConfig : Type 0 where
  pub blk : RumpRunConfigBlk
  pub cmdline : Text
  pub hostname : Text

-- What `Init` calls: `os.TempDir`, `os.Create`, `Fprintf` to the file, whose errors are not looked at,
-- `Run`, `Output` and `Start` of a command with its arguments, `StdoutPipe`, `Kill`, `Sscanf` of a
-- number, with the number's new value, `json.Marshal`, and `Fprintln` to a writer.
pub record Tools : Type 1 where
  pub World : Type 0
  pub Err : Type 0
  pub temp_dir : Text
  pub create : Text → World → Option Err × World
  pub print : Text → Text → World → World
  pub run : List Text → World → Option Err × World
  pub output : List Text → World → Option Err × Text × World
  pub stdout_pipe : List Text → World → Option Err × World
  pub start : List Text → World → World
  pub kill : List Text → World → World
  pub scan_number : Text → ℤ → Option Err × ℤ
  pub marshal : RumpRunConfig → Option Err × Text
  pub print_line : Text → World → Option Err × World

module _ (T : Tools) where
  -- The step that `Init` has failed in, none where it has not.
  abbrev pub Done : Type 0
  Done = Option T.Err × XenWorker × T.World

  abbrev pub config_name : XenWorker → Text
  config_name w = T.temp_dir ++ codes "/schedbench-" ++ w.vmname ++ codes ".cfg"

  -- The lines of the configuration of xl.
  unfoldable pub write_config : Text → XenWorker → WorkerConfig → T.World → T.World
  write_config cfg w g s0 =
      let s1 = T.print cfg (codes "name = '" ++ w.vmname ++ codes "'\n") s0 in
      let s2 = T.print cfg (codes "kernel = 'worker-xen.img'\n") s1 in
      let s3 = T.print cfg (codes "memory = 32\n") s2 in
      let s4 = T.print cfg (codes "vcpus = 1\n") s3 in
      let s5 = T.print cfg (codes "on_crash = 'destroy'\n") s4 in
      let s6 = T.print cfg (codes "tsc_mode = 'native'\n") s5 in
      let s7 =
        if not (is_empty g.pool)
        then T.print cfg (codes "pool = '" ++ g.pool ++ codes "'\n") s6
        else s6 in
      if not (is_empty g.soft_affinity)
      then T.print cfg (codes "cpus_soft = '" ++ g.soft_affinity ++ codes "'\n") s7
      else s7

  -- `Run console command, attach to w.console`
  unfoldable pub attach_console : XenWorker → T.World → Done
  attach_console w s =
      let console = codes "xl" ∷ codes "console" ∷ w.vmname ∷ [] in
      let (err, s1) = T.stdout_pipe console s in
      elim err [
        | some e ↦ (some e, record w { console = none }, s1)
        | none ↦ (none, record w { console = some console }, T.start console s1)
      ]

  -- A blank and the argument, for each.
  unfoldable pub with_args : Text → List Text → Text
  with_args cmdline [] = cmdline
  with_args cmdline (a ∷ args) = with_args (cmdline ++ codes " " ++ a) args

  abbrev pub rumprun_config : WorkerParams → XenWorker → RumpRunConfig
  rumprun_config p w = record {
    blk = record {
      source = codes "dev";
      path = codes "virtual";
      fstype = codes "kernfs";
      mountpoint = codes "/kern";
    };
    cmdline = with_args (codes "worker-xen.img") (elems p.args);
    hostname = w.vmname;
  }

  -- `Set xenstore config`
  unfoldable pub write_xenstore : WorkerParams → XenWorker → T.World → Done
  unfolding with_args attach_console show_int
  write_xenstore p w s =
      let (err, bs) = T.marshal (rumprun_config p w) in
      let path = codes "/local/domain/" ++ show_int w.domid ++ codes "/rumprun/cfg" in
      elim err [
        | some e ↦ (some e, w, s)
        | none ↦
            let (err', s1) = T.run (codes "xenstore-write" ∷ path ∷ bs ∷ []) s in
            elim err' [ some e ↦ (some e, w, s1) | none ↦ attach_console w s1 ]
      ]

  -- `Get domid`
  unfoldable pub get_domid : WorkerParams → XenWorker → T.World → Done
  unfolding write_xenstore
  get_domid p w s =
      let (err, text, s1) = T.output (codes "xl" ∷ codes "domid" ∷ w.vmname ∷ []) s in
      elim err [
        | some e ↦ (some e, w, s1)
        | none ↦
            let (err', domid) = T.scan_number text w.domid in
            let w' : XenWorker = record w { domid = domid } in
            elim err' [ some e ↦ (some e, w', s1) | none ↦ write_xenstore p w' s1 ]
      ]

  -- `func (w *XenWorker) Init(p WorkerParams, g WorkerConfig)`
  unfoldable pub xen_init : WorkerParams → WorkerConfig → XenWorker → T.World → Done
  unfolding write_config get_domid
  xen_init p g w s =
      let (err, s1) = T.create (config_name w) s in
      elim err [
        | some e ↦ (some e, w, s1)
        | none ↦
            let s2 = write_config (config_name w) w g s1 in
            let (err', s3) =
              T.run (codes "xl" ∷ codes "create" ∷ codes "-p" ∷ config_name w ∷ []) s2 in
            elim err' [ some e ↦ (some e, w, s3) | none ↦ get_domid p w s3 ]
      ]

  -- `func (w *XenWorker) Shutdown()`, whose error is only printed.
  unfoldable pub xen_shutdown : XenWorker → T.World → T.World
  xen_shutdown w s = (T.run (codes "xl" ∷ codes "destroy" ∷ w.vmname ∷ []) s).1

  -- The loop of `DumpLog`, which an error leaves.
  unfoldable pub dump_lines : List Text → T.World → Option T.Err × T.World
  dump_lines [] s = (none, s)
  dump_lines (line ∷ log) s =
      let (err, s1) = T.print_line line s in
      elim err [ some e ↦ (some e, s1) | none ↦ dump_lines log s1 ]

  unfoldable pub xen_dump_log : XenWorker → T.World → Option T.Err × T.World
  unfolding dump_lines
  xen_dump_log w s = dump_lines w.log s

  -- The command of a process worker.
  abbrev pub worker_command : WorkerParams → List Text
  worker_command p = codes "./worker-proc" ∷ elems p.args

  -- `func (w *ProcessWorker) Init(p WorkerParams, g WorkerConfig)`
  unfoldable pub process_init : WorkerParams → T.World → Option T.Err × T.World
  process_init p s = T.stdout_pipe (worker_command p) s

  -- `func (w *ProcessWorker) Shutdown()`
  unfoldable pub process_shutdown : WorkerParams → T.World → T.World
  process_shutdown p s = T.kill (worker_command p) s
