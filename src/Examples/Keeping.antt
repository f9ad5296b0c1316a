-- ===== src/Examples/Keeping.antt =====
-- The checkpoint of a run with one execution, and the recovery of its report.
use mathlib.Core.List.{Memᴰ}
use storage_cert_harness.Common.{
  String, ◌≡◌, refl, false, [], ◌∷◌, ◌++◌, flat_map, Option, none, some, ◌==◌,
}
use storage_cert_harness.Core.{RunStatus, RunHealth, ExecutionState, RunExecution, Report}
use storage_cert_harness.Examples.Reports.{at_commit, slow}
use storage_cert_harness.Report.Build.{build}
use storage_cert_harness.Report.Lifecycle.{refresh_lifecycle, finalize}
use storage_cert_harness.Report.Merge.{merge, merged, combine}
use storage_cert_harness.Orchestrator.Run.{no_execution}
use storage_cert_harness.Checkpoint.{
  ReportCheckpoint, save, incident_copy, recover, recovered, reason_of, abandoned_incident,
}
use storage_cert_harness.Checkpoint.Saved.{saves, saves_warnings, incident_copy-stale}
use storage_cert_harness.Checkpoint.Recovered.{recover_keeps}

abbrev execution : ExecutionState → RunExecution
execution s = record no_execution { tr = "TR-1"; state = s }

abbrev shown : ExecutionState → Report
shown s = record (build "run-1" "2" (at_commit "abc") []) {
  status = RunStatus.running;
  executions = execution s ∷ [];
  warnings = "not produced" ∷ [];
}

abbrev held : ReportCheckpoint
held = record {
  output_dir = "";
  latest = shown ExecutionState.running;
  last_err = none;
  written = [];
}

abbrev write : Report → Option String
write r = none

abbrev refusal : String → String → String
refusal a b = "different commits"

abbrev after : Report
after = refresh_lifecycle (combine (shown ExecutionState.running) (shown ExecutionState.completed))

once : merge (shown ExecutionState.running) (shown ExecutionState.completed) ≡ merged after
unfolding merge build refresh_lifecycle
once = refl

id_kept : (held.latest.run_id == "") ≡ false
unfolding build refresh_lifecycle
id_kept = refl

saves_warnings_example :
    (saves write refusal (shown ExecutionState.completed ∷ []) held).latest.warnings
    ≡ held.latest.warnings ++ flat_map (λ s. s.warnings) (shown ExecutionState.completed ∷ [])
saves_warnings_example =
    saves_warnings write refusal (shown ExecutionState.completed ∷ []) held
      (id_kept, (after, once), tt)

abbrev incident_taken : Report
incident_taken = refresh_lifecycle (record (shown ExecutionState.running) { incidents = slow ∷ [] })

taken : incident_copy slow held ≡ some incident_taken
unfolding incident_copy build refresh_lifecycle
taken = refl

abbrev last : Report
last =
    refresh_lifecycle (
      combine (saves write refusal (shown ExecutionState.completed ∷ []) held).latest
        incident_taken)

twice :
    merge (saves write refusal (shown ExecutionState.completed ∷ []) held).latest incident_taken
    ≡ merged last
unfolding merge save build refresh_lifecycle combine
twice = refl

id_kept_again :
    ((saves write refusal (shown ExecutionState.completed ∷ []) held).latest.run_id == "") ≡ false
unfolding merge save build refresh_lifecycle combine
id_kept_again = refl

-- The execution that was completed meanwhile runs again in the report.
incident_copy-stale_example :
    Memᴰ
      (execution ExecutionState.running)
      (save write refusal incident_taken
        (saves write refusal (shown ExecutionState.completed ∷ []) held)).latest.executions
incident_copy-stale_example =
    incident_copy-stale write refusal slow held (shown ExecutionState.completed ∷ []) taken
      id_kept_again twice (execution ExecutionState.running) refl

abbrev running : Report
running = shown ExecutionState.running

abbrev closed : Report
closed =
    finalize "noon" (record running { incidents = abandoned_incident (reason_of "") ∷ [] })
      RunStatus.abandoned (reason_of "") "noon"

stale : recover "noon" "" running ≡ recovered closed
unfolding recover build refresh_lifecycle
stale = refl

recover_keeps_example :
    (running.status ≡ RunStatus.running)
    × (closed.status ≡ RunStatus.abandoned)
    × (closed.health ≡ RunHealth.unhealthy)
    × (closed.certifiable ≡ false)
    × (closed.completion_reason ≡ reason_of "")
    × (closed.verdicts ≡ running.verdicts)
    × (closed.executions ≡ running.executions)
    × (closed.incidents ≡ running.incidents ++ abandoned_incident (reason_of "") ∷ [])
recover_keeps_example = recover_keeps "noon" "" running stale
