-- ===== src/Report/Build.antt =====
-- internal/report/report.go, `Build` and `NewRunning`: a report from verdicts, and the shell that is
-- written before any tool runs.
pub mod Counts
use storage_cert_harness.Common.{
  ℕ, String, Bool, false, List, [], ◌∷◌, ◌++◌, ◌+◌, ◌==◌, if◌then◌else◌, length,
}
use storage_cert_harness.Core.{
  Outcome, RunStatus, RunHealth, ExecutionState, TestRequirement, Verdict, RunPart, RunExecution,
  Summary, Provenance, Environment, Report,
}
use storage_cert_harness.Report.Rollup.{rollup_levels}
use storage_cert_harness.Report.Lifecycle.{refresh_lifecycle}

-- The `switch` of the counting loop: an outcome outside the four counts nowhere.
tick : Outcome → Summary → Summary
tick Outcome.pass s = record s { pass = s.pass + 1 }
tick Outcome.fail s = record s { fail = s.fail + 1 }
tick Outcome.error s = record s { error = s.error + 1 }
tick Outcome.skip s = record s { skip = s.skip + 1 }
tick _ s = s

count_from : Summary → List Verdict → Summary
count_from s [] = s
count_from s (v ∷ vs) = count_from (tick v.outcome s) vs

-- The zero values of the environment's structs.
abbrev pub no_environment : Environment
no_environment = record {
  hardware = record { nodes = 0; facts = [] };
  platform = record {
    ocp_version = "";
    kube_version = "";
    cnv_version = "";
    csi_driver = record {
      name = "";
      version = "";
      attach_required = false;
      fs_group_policy = "";
      volume_lifecycle_modes = [];
      capabilities = [];
    };
    operators = [];
    storage_classes = [];
    backend = "";
    facts = [];
  };
}

abbrev pub one_part : String → String → String → RunStatus → RunPart
one_part run_id kind started_at status = record {
  part_id = run_id;
  kind = kind;
  started_at = started_at;
  ended_at = "";
  status = status;
  reason = "";
}

abbrev pub no_counts : Summary
no_counts = record { total = 0; pass = 0; fail = 0; error = 0; skip = 0; certified_level = 0 }

-- A report with one part and nothing else in it.
abbrev pub blank : String → String → Provenance → RunStatus → RunPart → Report
blank run_id schema_version prov status part = record {
  run_id = run_id;
  status = status;
  health = RunHealth.healthy;
  certifiable = false;
  completion_reason = "";
  schema_version = schema_version;
  provenance = prov;
  environment = no_environment;
  storage_selections = [];
  attestations = [];
  composition = record { parts_count = 1; parts = part ∷ [] };
  executions = [];
  incidents = [];
  verdicts = [];
  measurements = [];
  warnings = [];
  levels = [];
  summary = no_counts;
}

-- The report just before the lifecycle is derived.
assemble : String → String → Provenance → List Verdict → Report
unfolding tick count_from
assemble run_id schema_version prov verdicts =
    let (levels, certified) = rollup_levels verdicts in
    let counted = count_from (record no_counts { total = length verdicts }) verdicts in
    record (blank run_id schema_version prov RunStatus.complete
      (one_part run_id "initial" "" RunStatus.complete)) {
        verdicts = verdicts;
        levels = levels;
        summary = record counted { certified_level = certified };
      }

unfoldable pub build : String → String → Provenance → List Verdict → Report
unfolding assemble
build run_id schema_version prov verdicts =
    refresh_lifecycle (assemble run_id schema_version prov verdicts)

abbrev pub queue : TestRequirement → RunExecution
queue tr = record {
  tr = tr.id;
  variant = tr.variant;
  scenario = "";
  state = ExecutionState.queued;
  outcome = Outcome.unset;
  stage = "";
  started_at = "";
  ended_at = "";
  reason = "";
  artifacts = [];
}

queue_all : List RunExecution → List TestRequirement → List RunExecution
queue_all done [] = done
queue_all done (tr ∷ trs) = queue_all (done ++ queue tr ∷ []) trs

unfoldable pub new_running :
    String → String → String → Provenance → List TestRequirement → String → String → Report
unfolding queue_all
new_running now run_id schema_version prov selected kind started_at =
    let started = if started_at == "" then now else started_at in
    record (blank run_id schema_version prov RunStatus.running
      (one_part run_id kind started RunStatus.running)) { executions = queue_all [] selected }
