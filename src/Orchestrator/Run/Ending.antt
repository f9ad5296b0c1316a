-- ===== src/Orchestrator/Run/Ending.antt =====
-- internal/orchestrator/orchestrator.go, the end of `Run`: the results in order, the executions that have not
-- ended, and the status of the run with its reason.
use storage_cert_harness.Common.{
  String, Bool, true, false, not, List, [], ◌∷◌, map, Option, none, some, if◌then◌else◌, sort_by,
  less_by,
}
use storage_cert_harness.Core.{
  RunStatus, ExecutionState, Verdict, Measurement, Incident, RunExecution, Report,
}
use storage_cert_harness.Report.Lifecycle.{finalize}
use storage_cert_harness.Orchestrator.Run.{
  Setting, Ledger, stamp_verdict, stamp_measurement, record_incident, checkpoint_snapshot,
}

abbrev pub verdict_order : Verdict → Verdict → Bool
verdict_order = less_by ((λ v. v.tr) ∷ (λ v. v.variant) ∷ (λ v. v.item) ∷ [])

abbrev measurement_order : Measurement → Measurement → Bool
measurement_order =
    less_by ((λ m. m.tr) ∷ (λ m. m.variant) ∷ (λ m. m.name) ∷ (λ m. m.percentile) ∷ [])

-- The results in order, with their level and scenario.
unfoldable pub arrange : Setting → Ledger → Ledger
arrange c l = record l {
  verdicts = map (stamp_verdict c) (sort_by verdict_order l.verdicts);
  measurements = map (stamp_measurement c) (sort_by measurement_order l.measurements);
}

-- An execution that is still running when the jobs are done is aborted.
abbrev pub end_running : String → RunExecution → RunExecution
end_running now x = elim x.state [
  | ExecutionState.running ↦ record x {
    state = ExecutionState.aborted;
    reason = "run ended before execution completed";
    ended_at = now;
  }
  | _ ↦ x
]

abbrev pub is_terminal : ExecutionState → Bool
is_terminal ExecutionState.completed = true
is_terminal ExecutionState.aborted = true
is_terminal _ = false

-- The loop over the executions, with `allTerminal`.
unfoldable pub end_each :
    String → List (String × RunExecution) → List (String × RunExecution) × Bool
end_each now [] = ([], true)
end_each now ((label, x) ∷ m) =
    let (rest, terminal) = end_each now m in
    let x' = end_running now x in
    ((label, x') ∷ rest, if not (is_terminal x'.state) then false else terminal)

abbrev pub run_incident : String → String → String → String → String → Incident
run_incident id type message started_at impact = record {
  id = id;
  type = type;
  severity = "error";
  tr = "";
  variant = "";
  tool = "";
  stage = "";
  message = message;
  started_at = started_at;
  ended_at = "";
  duration_s = record { bits = 0 };
  resolved = false;
  blocks_certification = true;
  impact = impact;
  evidence = "";
}

-- The status of the run, the reason, and the incident that says why it is not complete.
unfoldable pub conclude_run :
    Setting → String → Option String → Bool → Ledger → RunStatus × String × Ledger
conclude_run c now (some err) terminal l = (
  RunStatus.partial,
  err,
  record_incident c
      (run_incident "run-cancelled" "cancellation" err now
        "run did not complete all selected executions")
      l,
)
conclude_run c now none true l = (RunStatus.complete, "", l)
conclude_run c now none false l = (
  RunStatus.partial,
  "run ended with queued executions",
  record_incident c
      (run_incident "run-incomplete" "incomplete" "run ended with queued executions" ""
        "selected executions were not completed")
      l,
)

-- The end of `Run`, once `schedule` has returned; `ctx_err` is `ctx.Err()`.
unfoldable pub close_run : Setting → String → Option String → Ledger → Report
unfolding arrange end_each conclude_run
close_run c now ctx_err l =
    let l' = arrange c l in
    let (executions, terminal) = end_each now l'.executions in
    let (status, reason, closed) =
      conclude_run c now ctx_err terminal (record l' { executions = executions }) in
    finalize now (checkpoint_snapshot c status closed) status reason now
