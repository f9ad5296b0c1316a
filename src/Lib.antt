-- ===== src/Lib.antt =====
-- The harness that certifies a storage backend: it selects test requirements from a knowledge base,
-- runs the tools that measure them, grades what was measured against the bars, and keeps a report
-- that says which partner level the backend reaches. This library models how results become
-- verdicts and how verdicts become a report.
--
-- Common holds the Boolean tests, the list lemmas, the order of strings, sorting and association
-- lists. Core is internal/core/types.go: the enumerations (Core/Status), a test requirement with
-- its bars and checks (Core/Requirement), and the report with its environment (Core/Document). A
-- string type's constants are constructors, and any other text is `other`.
--
-- Report is internal/report. Report/Rollup is `rollupLevels`, Report/Lifecycle `RefreshLifecycle`
-- and `Finalize`, Report/Build `Build` and `NewRunning`, and Report/Merge `Merge` with
-- `mergeComposition`, `mergeExecutions`, `mergeIncidents`, `dedupeVerdicts`, `dedupeMeasurements`
-- and `mergeStorageSelections`. Report/Measurements is `SelectMeasurements`. Report/Keyed holds the
-- specification of the merges: of the items with one key, the last stays. A Go map is an
-- association list; where the code iterates over a map and sorts, the model sorts the association
-- list's entries. `sort.Slice` is an insertion sort; the theorems say of its result only that it is
-- in order and which items it holds. The clock is an argument.
--
-- Grader is internal/grader. Grader/Units is `compareWithUnits`, Grader/Bars `selectBars` and
-- `findMetric`, Grader/Sla `gradeSLAs`, Grader/Checks `gradeChecks`, and Grader/Evaluate `GradeTR`
-- and `NativeOrGraded`. A float64 is its 64 bits: comparisons are defined on the bits, while
-- products, conversions and the verbs of package fmt are the fields of `Runtime`, a parameter.
-- `strings.ToLower` is modelled as far as the names of units need it.
--
-- Orchestrator is internal/orchestrator. Orchestrator/Selection is `SelectTRs`, `ApplyOverrides`,
-- `ResolveExecutions` and `missingRequiredParams`; Orchestrator/Resume is
-- `ResumeExecutionsWithOptions`; Orchestrator/Items is `itemVerdicts`, `notScorable`, `errTRs` and
-- `summarizeTR`; Orchestrator/Progress is the progress tracker, where each method holds the mutex
-- up to its callback and so is one step. Orchestrator/Run is what `Run` records: its closures, each
-- one step that holds its mutex, and the snapshot for the checkpoint. Orchestrator/Run/Steps puts
-- them together with the tracker, as the calls that goroutines make in any order: a method of the
-- tracker and the callback that it makes once it has let go of its mutex are two calls, between
-- which others may come, and Orchestrator/Run/Ending is the end of `Run`. Orchestrator/Triage is
-- what `Run` does before its jobs: the requirements that cannot be scored and the shared setups.
-- Orchestrator/Grouping is `groupByTool`, for which the registry's answer is a parameter;
-- Orchestrator/Schedule is `schedule`, as a step relation on the jobs' goroutines: what each holds
-- of the semaphore, of the read-write lock and of the groups' mutexes is in its phase. A map from a
-- name to true is the list of the names. Orchestrator/Executions is `runToolExecutionsWithTimeout`,
-- and Orchestrator/Pipeline `runJobWithTimeout`, the stages of one job: the tool's stages are
-- functions on the state of the world, and what the context, the clock and the callbacks do is the
-- parameter `Host`. The run has one context and each job its own, which ends with the run's or at
-- the time limit; the two are told apart where the code does it.
--
-- Registry is internal/registry, with `ResolveTool` and `runnable` of the orchestrator: which tool
-- measures a requirement. Knowledge is the knowledge base: Knowledge/Catalog and
-- Knowledge/Thresholds are the checks of its two exports in internal/catalog and
-- internal/thresholds, whose common loop is Knowledge/Records, and Knowledge/Join is internal/kb,
-- which makes the requirements of them. Plan is internal/plan: which plans are accepted and what
-- they select. Checkpoint is cmd/harness/checkpoint.go, the report that is kept while a run works
-- and that is recovered when its process is gone; `RecordIncident` is two steps, since it lets go
-- of the mutex between them.
--
-- Tools/Virtbench is a part of internal/tools/virtbench/parse.go: Tools/Virtbench/Drain is
-- `ParseDrain`, Tools/Virtbench/Summary the parsers of the scenarios' summaries,
-- Tools/Virtbench/DiskOps `ParseDiskOps`, and Tools/Virtbench/Fio `ParseFIO`. The matches of the
-- regular expressions, the numbers that package strconv reads and the decoder of JSON are
-- parameters. Common/Integers is Go's `int` where a value can be negative.
--
-- Examples holds concrete runs and the theorems at concrete data.
--
-- All loops are structural recursion, so no function takes fuel. Not modelled: the other tools and
-- what virtbench runs and prepares, because that is processes, manifests and calls of the cluster;
-- the checks of the cluster and the client of its interface; the printing of reports, the reading,
-- decoding and signing of files, the command line and the log. `Run` stands in parts, one for each
-- of its phases.
pub mod Common
pub mod Core
pub mod Report
pub mod Grader
pub mod Registry
pub mod Plan
pub mod Orchestrator
pub mod Checkpoint
pub mod Examples
pub mod Knowledge
pub mod Tools
