-- ===== src/Orchestrator/Run.antt =====
-- internal/orchestrator/orchestrator.go, `Run`: what a run records while its jobs work, and the report
-- that it makes of it. Each operation holds its mutex and so is one step; the jobs' calls may come in any
-- order. `Setting` is what does not change during the run. The recorders that the caller of `Run` may
-- have set, and the log, are left out. `now` is the clock's answer.
pub mod Ending
pub mod Close
pub mod Steps
pub mod States
pub mod Mirrored
pub mod Labels
pub mod Recorded
pub mod Whole
use storage_cert_harness.Common.{
  ℕ, ◌+◌, String, Bool, true, false, ◌&&◌, not, List, [], ◌∷◌, ◌++◌, map, Option, none, some, ◌==◌,
  length, if◌then◌else◌, is_empty, lookup, insert, sort_by, less_by,
}
use storage_cert_harness.Core.{
  Outcome, RunStatus, ExecutionState, TestRequirement, Verdict, Measurement, StorageSelection,
  Incident, RunExecution, RunPart, Provenance, Report, execution_label,
}
use storage_cert_harness.Report.Build.{build}
use storage_cert_harness.Report.Lifecycle.{refresh_lifecycle, finalize}
use storage_cert_harness.Report.Measurements.{select_measurements}
use storage_cert_harness.Orchestrator.Progress.{ProgressState, label_of}

pub record Setting : Type 0 where
  pub selected : List TestRequirement
  pub scenario : String
  pub extra_metrics : List String
  pub report_metrics : List (String × List String)
  pub run_id : String
  pub schema_version : String
  pub prov : Provenance
  pub part_kind : String
  pub started_at : String
  -- the verbs `%q` and `incident-%03d`
  pub quote : String → String
  pub incident_name : ℕ → String

-- The variables that the closures of `Run` share.
pub record Ledger : Type 0 where
  pub verdicts : List Verdict
  pub measurements : List Measurement
  pub storage_selections : List StorageSelection
  pub executions : List (String × RunExecution)
  pub incidents : List Incident

-- The zero value, which a missing key reads as.
abbrev pub no_execution : RunExecution
no_execution = record {
  tr = "";
  variant = "";
  scenario = "";
  state = ExecutionState.unset;
  outcome = Outcome.unset;
  stage = "";
  started_at = "";
  ended_at = "";
  reason = "";
  artifacts = [];
}

abbrev pub or_no_execution : Option RunExecution → RunExecution
or_no_execution none = no_execution
or_no_execution (some x) = x

-- `execution := executionStates[label]; …; executionStates[label] = execution`
abbrev pub change :
    (RunExecution → RunExecution)
    → String
    → List (String × RunExecution)
    → List (String × RunExecution)
change f label m = insert label (f (or_no_execution (lookup label m))) m

abbrev pub queued_execution : String → TestRequirement → RunExecution
queued_execution scenario tr = record no_execution {
  tr = tr.id;
  variant = tr.variant;
  scenario = scenario;
  state = ExecutionState.queued;
}

pub queue_each :
    String → List (String × RunExecution) → List TestRequirement → List (String × RunExecution)
queue_each scenario m [] = m
queue_each scenario m (tr ∷ trs) =
    queue_each scenario (insert (label_of tr) (queued_execution scenario tr) m) trs

unfoldable pub begin_run : Setting → Ledger
unfolding queue_each
begin_run c = record {
  verdicts = [];
  measurements = [];
  storage_selections = [];
  executions = queue_each c.scenario [] c.selected;
  incidents = [];
}

-- `levelOf`, which gives 0 for an unknown id.
levels_of : List (String × ℕ) → List TestRequirement → List (String × ℕ)
levels_of m [] = m
levels_of m (tr ∷ trs) = levels_of (insert tr.id tr.partner_level m) trs

abbrev or_zero : Option ℕ → ℕ
or_zero none = 0
or_zero (some n) = n

pub level_of : List TestRequirement → String → ℕ
unfolding levels_of
level_of selected id = or_zero (lookup id (levels_of [] selected))

abbrev pub stamp_verdict : Setting → Verdict → Verdict
stamp_verdict c v = record v { level = level_of c.selected v.tr; scenario = c.scenario }

abbrev pub stamp_measurement : Setting → Measurement → Measurement
stamp_measurement c m = record m { level = level_of c.selected m.tr; scenario = c.scenario }

unfoldable pub record_storage_selection : Setting → StorageSelection → Ledger → Ledger
record_storage_selection c selection l = record l {
  storage_selections = l.storage_selections ++ record selection { scenario = c.scenario } ∷ [];
}

unfoldable pub record_incident : Setting → Incident → Ledger → Ledger
record_incident c incident l = record l {
  incidents =
      l.incidents
      ++ (if incident.id == ""
          then record incident { id = c.incident_name (length l.incidents + 1) }
          else incident)
        ∷ [];
}

pub change_each :
    (RunExecution → RunExecution)
    → List TestRequirement
    → List (String × RunExecution)
    → List (String × RunExecution)
change_each f [] m = m
change_each f (tr ∷ trs) m = change_each f trs (change f (label_of tr) m)

unfoldable pub set_stage : String → List TestRequirement → Ledger → Ledger
unfolding change_each
set_stage stage trs l = record l {
  executions = change_each (λ x. record x { stage = stage }) trs l.executions;
}

-- `refs` are the paths that `relativeTo` kept.
unfoldable pub record_artifacts : List TestRequirement → List String → Ledger → Ledger
unfolding change_each
record_artifacts trs refs l = if is_empty refs then l else record l {
  executions = change_each (λ x. record x { artifacts = x.artifacts ++ refs }) trs l.executions;
}

-- The switch of `onStateChange`.
abbrev pub moved : String → ProgressState → Outcome → RunExecution → RunExecution
moved now ProgressState.queued outcome x = x
moved now ProgressState.running outcome x = record x {
  state = ExecutionState.running;
  started_at = now;
}
moved now ProgressState.complete outcome x = record x {
  state = ExecutionState.completed;
  outcome = outcome;
  stage = "complete";
  ended_at = now;
}
moved now ProgressState.aborted outcome x = record x {
  state = ExecutionState.aborted;
  outcome = outcome;
  reason = "run ended before execution completed";
  ended_at = now;
}

unfoldable pub on_state_change : String → String → ProgressState → Outcome → Ledger → Ledger
on_state_change now label state outcome l = record l {
  executions = change (moved now state outcome) label l.executions;
}

-- A job's verdicts and measurements, under the mutex of the results.
unfoldable pub add_results : List Verdict → List Measurement → Ledger → Ledger
add_results vs ms l = record l { verdicts = l.verdicts ++ vs; measurements = l.measurements ++ ms }

abbrev selection_order : StorageSelection → StorageSelection → Bool
selection_order = less_by ((λ s. execution_label s.tr s.variant) ∷ [])

abbrev execution_order : RunExecution → RunExecution → Bool
execution_order = less_by ((λ x. x.tr) ∷ (λ x. x.variant) ∷ [])

abbrev values : List (String × RunExecution) → List RunExecution
values m = map (λ e. e.1) m

-- `checkpointSnapshot`: the report so far.
unfoldable pub checkpoint_snapshot : Setting → RunStatus → Ledger → Report
checkpoint_snapshot c status l =
    let r = build c.run_id c.schema_version c.prov (map (stamp_verdict c) l.verdicts) in
    let (ms, warnings) =
      select_measurements c.quote c.selected (map (stamp_measurement c) l.measurements)
        c.extra_metrics c.report_metrics in
    let part : RunPart = record {
      part_id = c.run_id;
      kind = if c.part_kind == "" then "initial" else c.part_kind;
      started_at = c.started_at;
      ended_at = "";
      status = status;
      reason = "";
    } in
    refresh_lifecycle (record r {
      storage_selections = sort_by selection_order l.storage_selections;
      status = status;
      composition = record { parts_count = 1; parts = part ∷ [] };
      executions = sort_by execution_order (values l.executions);
      incidents = l.incidents;
      measurements = ms;
      warnings = warnings;
    })
