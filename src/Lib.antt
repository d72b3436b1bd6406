-- ===== src/Lib.antt =====
-- The controller of schedbench: the benchmark's plan, the cpupools that it runs in, and the loop that
-- collects the reports of its workers.
--
-- The program reads a plan from a file, expands the plan's matrix of workers, counts, schedulers and
-- NUMA settings into runs (controller/plan.go), and for each run that is not completed prepares a
-- cpupool with libxl (controller/run.go, controller/libxl.go), starts the workers and serves what they
-- send until all have ended (controller/run.go). It then sums the reports up and prints them as text
-- (controller/benchmark.go) or as a page of charts (controller/htmlreport.go).
--
--   Base      numbers, lists, texts, and Go's results: a value or a panic
--   Bitmap    `Bitmap` of controller/libxl.go, a slice of bytes. Each method is the function of the same
--             name. `has` of Bitmap/Members is the set of cpus that a bitmap stands for. `CBitmap` is a
--             `libxl_bitmap`. Go takes its memory for an array of 1 << 30 bytes, which panics on more:
--             `bitmap_go_to_c` does so, and a `CBitmap` holds no more and has memory, as libxl fills
--             its bitmaps in with one bit for each cpu of the machine.
--   Xl        the rest of controller/libxl.go: the structs of libxl, the context (Xl/Context) and the
--             cpupools (Xl/Cpupool), and `XlTest` (Xl/Manual). libxl and `malloc` are the parameter
--             `Libxl`, a record of calls on a state `World` of the machine; `TakesCpus` of Xl/Free says
--             what the removal of cpus does. `Host` is the global `Ctx` with that state.
--   Bench     the types of controller/benchmark.go, `PropagateFrom` and `SetkHZ`
--   Plan      controller/plan.go: `expand_input` is `ExpandInput`
--   Prep      `Prep` and `GetCpumap` of controller/run.go
--   Configure the loop over the worker sets at the start of `BenchmarkRun.Run` in controller/run.go
--   Workers   `NewWorkerList` of controller/run.go
--   Run       the loop of `BenchmarkRun.Run` in controller/run.go with the `WorkerList` that it serves
--   Session   `BenchmarkRun.Run` of controller/run.go as a whole: Configure, Workers and Run in turn
--   PlanRun   `BenchmarkPlan.Run` of controller/run.go: `run_plan` is the whole of it, on a plan, the
--             machine and the files. What each run receives is the parameter `received`, and what its
--             workers do to the machine is the parameter `after`.
--   Cpu       `getCpuHz` of controller/run.go. The lines of /proc/cpuinfo, the regular expression and
--             `ParseFloat` are the parameter `CpuInfo`.
--   Html      controller/htmlreport.go: a list of texts for what is printed, `written` to the writer or
--             `printed` to standard output. `html_report` of Html/Collect is `HTMLReport`.
--   Report    `TextReport` of controller/benchmark.go. A line that is printed is a value of `Line`.
--   Command   `main` of controller/main.go, which puts the parts together. What they all need from
--             outside is the record `Setting`.
--   Worker    `SetId` and `Process` of controller/xenworker.go and controller/processworker.go. What a
--             worker sends is a list of the events that Run receives; a nil console, which an `Init` that
--             has failed leaves, panics. Worker/Setup has `Init`, `Shutdown`
--             and `DumpLog`: the programs and files that they use are the parameter `Tools`.
--   Summary   `BenchmarkRun.Process` of controller/benchmark.go with `Throughput`, `Utilization` and
--             `MinMax.Update`: `process` is the whole of it. The operations on `float64` are the parameter
--             `Float`; the order in which Go visits the map of workers is the parameter `visit`.
--   Store     `LoadBenchmark` and `Save` of controller/benchmark.go. The file system and encoding/json
--             are the parameters `Files` and `Json`; `IsLawful` of Store/Safe says what the calls on files do.
--   Tests     the results at concrete inputs, on a machine of two pools (Tests/Machine) and a file
--             system in memory (Tests/Disk)
--
-- Conventions. A Go `int` is an integer without bound, except where the code converts it to a C type:
-- there the wrap-around is written out. A byte of a bitmap is a number below 256 (`IsValid`). A slice,
-- map or pointer that the code compares with nil is an `Option`; elsewhere a nil slice is the empty
-- list. A function that can panic returns an `Outcome`. `float64` is a type parameter, with the operations
-- that the code uses as a record. What the two reports show is part of the model; other printing is
-- left out, and so is the text of an error, whose place a constructor takes.
--
-- Loops are structural recursion on a list, or on a count of rounds that the loop's bounds fix
-- (`span`, and eight times the length of a bitmap), so that no fuel can run out. The loop of `Run`
-- is recursion on the events that it receives, in the order in which it receives them: whatever the
-- scheduling of the workers, the channels hand over some such sequence.
--
-- Not modelled: `DumpLog` of controller/processworker.go, which only prints; controller/stubs.go, which
-- only says that it is not implemented; and the C program worker/worker.c. `NewWorkerList` takes `Init`
-- as the parameter `init`, which may be any function on workers: its error is not looked at there.
pub mod Base
pub mod Bitmap
pub mod Xl
pub mod Bench
pub mod Plan
pub mod Html
pub mod PlanRun
pub mod Prep
pub mod Report
pub mod Run
pub mod Worker
pub mod Store
pub mod Workers
pub mod Command
pub mod Configure
pub mod Cpu
pub mod Session
pub mod Summary
mod Tests
