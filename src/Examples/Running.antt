-- ===== src/Examples/Running.antt =====
-- Jobs of one tool, in a world that only logs, and the calls of a short run.
use storage_cert_harness.Common.{
  String, ◌≡◌, refl, ◌↔◌, ◌≢◌, true, false, List, [], ◌∷◌, Option, none, some, All, is_empty,
  lookup, insert, any, arith, Bool-cases, inl, inr, ◌==◌, if◌then◌else◌,
}
use storage_cert_harness.Core.{Outcome, TestRequirement, execution_label}
use storage_cert_harness.Examples.Grading.{tr, go}
use storage_cert_harness.Orchestrator.Items.{item_verdicts}
use storage_cert_harness.Orchestrator.Progress.{
  ProgressState, label_of, state_of, is_complete, new_progress_tracker, start, finish,
}
use storage_cert_harness.Orchestrator.Progress.Terminal.{Op}
use storage_cert_harness.Orchestrator.Pipeline.{failed, Stages, Host, run_job_with_timeout}
use storage_cert_harness.Orchestrator.Pipeline.Cleanup.{run_job-tears_down}
use storage_cert_harness.Orchestrator.Pipeline.Verdicts.{Covers, run_job-Covers}
use storage_cert_harness.Orchestrator.Executions.{Env, World, run_tool_executions}
use storage_cert_harness.Orchestrator.Executions.Concluded.{
  IsCancelled, StaysCancelled, IsConcluded, run_tool_executions-IsConcluded,
}
use storage_cert_harness.Orchestrator.Executions.Covered.{run_tool_executions-Covers}
use storage_cert_harness.Orchestrator.Run.{Setting}
use storage_cert_harness.Orchestrator.Run.Ending.{close_run}
use storage_cert_harness.Orchestrator.Run.Steps.{Call, calls, opening}
use storage_cert_harness.Orchestrator.Run.Mirrored.{Mirrors, IsQuiet, AllAllowed, run-Mirrors}
use storage_cert_harness.Orchestrator.Run.Recorded.{fails, blocks}
use storage_cert_harness.Orchestrator.Run.Whole.{IsBegun, run-certifiable_iff}

abbrev pub Log : Type 0
Log = List String

abbrev host : Host Log
host = record {
  parent_err = λ s. none;
  with_timeout = λ s. s;
  ctx_err = λ s. none;
  deadline_exceeded = λ s. false;
  set_stage = λ stage trs s. stage ∷ s;
  record_artifacts = none;
  since = λ s t. record { bits = 0 };
  limit = "2h0m0s";
  go = go;
}

-- A tool whose run fails.
abbrev tear : Log → Log
tear s = "gone" ∷ s

abbrev broken : Stages Log
broken = record {
  preflight = none;
  provisioner = none;
  runner = some (λ trs s. (s, failed "no disk"));
  log_collector = none;
  result_parser = none;
  teardown = some tear;
  evaluators = [];
}

run_job-tears_down_example :
    is_empty (run_job_with_timeout host (tr ∷ []) "virtbench" (some broken) []).0 ≡ false
run_job-tears_down_example =
    run_job-tears_down host (tr ∷ []) "virtbench" (λ s. is_empty s ≡ false) broken tear [] refl
      (λ s. refl) refl

run_job-Covers_example :
    Covers tr (run_job_with_timeout host (tr ∷ []) "virtbench" (some broken) []).1
run_job-Covers_example = run_job-Covers host tr refl "virtbench" (some broken) [] refl

-- The directory of the variant cannot be made.
abbrev env : Env Log
env = record {
  host = host;
  work_dir = "run";
  tool_at = λ dir t. some broken;
  variant_dir = λ t. "run/variants/";
  mkdir_all = λ dir s. (s, some "read-only");
  on_state_change = λ e s. e.label ∷ s;
}

abbrev small : TestRequirement
small = record tr { variant = "small" }

abbrev world : World Log
world = record { state = []; progress = new_progress_tracker (tr ∷ small ∷ []) }

-- Another world, whose run is cancelled with the first entry of the log.
abbrev cancelling : Env Log
cancelling = record env {
  host = record host { parent_err = λ s. if is_empty s then none else some "context canceled" };
}

stays_cancelled : StaysCancelled cancelling "virtbench"
stays_cancelled = (
  (λ s c. c, λ name trs s c. refl, tt),
  λ dir t. (tt, tt, λ trs s c. c, tt, tt, λ s c. refl),
  λ dir s c. c,
  λ e s c. refl,
)

run_tool_executions-IsConcluded_example :
    let w = (run_tool_executions cancelling "virtbench" (tr ∷ small ∷ []) world).world in
    All (λ t. IsConcluded cancelling "virtbench" stays_cancelled (label_of t) w) (tr ∷ small ∷ [])
    × (IsCancelled cancelling "virtbench" []
        → All
            (λ t.
              is_complete (state_of (label_of t) world.progress) ≡ false
              → state_of (label_of t) w.progress ≡ ProgressState.aborted)
            (tr ∷ small ∷ []))
run_tool_executions-IsConcluded_example =
    run_tool_executions-IsConcluded cancelling "virtbench" stays_cancelled (tr ∷ small ∷ []) world

run_tool_executions-Covers_example :
    All
      (λ t. Covers t (run_tool_executions env "virtbench" (tr ∷ small ∷ []) world).verdicts)
      (tr ∷ small ∷ [])
run_tool_executions-Covers_example =
    run_tool_executions-Covers env "virtbench" (tr ∷ small ∷ []) world
      ((refl, λ dir. refl), ((refl, λ dir. refl), tt))

abbrev pub setting : Setting
setting = record {
  selected = tr ∷ small ∷ [];
  scenario = "";
  extra_metrics = [];
  report_metrics = [];
  run_id = "run-1";
  schema_version = "2";
  prov = record { kb_git_commit = "a"; kb_commit_date = ""; generated_date = "" };
  part_kind = "";
  started_at = "2026-01-01";
  quote = λ s. s;
  incident_name = λ n. "incident";
}

-- The first execution passes, and the variant is skipped. The goroutine of the first is between the
-- tracker and its callback when the variant's callback is made.
abbrev made : List Call
made =
    Call.progressed (Op.finish_of small Outcome.skip)
    ∷ Call.progressed (Op.start_of tr)
    ∷ Call.told "t1" (label_of small)
    ∷ Call.staged "run" (tr ∷ [])
    ∷ Call.told "t2" (label_of tr)
    ∷ Call.produced (item_verdicts tr Outcome.pass "ok") []
    ∷ Call.progressed (Op.finish_of tr Outcome.pass)
    ∷ Call.told "t3" (label_of tr)
    ∷ []

abbrev alive : Option String
alive = none

-- The one stage of the run names a requirement that is tracked.
there :
    lookup
      (label_of tr)
      (calls setting
        (Call.progressed (Op.finish_of small Outcome.skip)
          ∷ Call.progressed (Op.start_of tr)
          ∷ Call.told "t1" (label_of small)
          ∷ [])
        (opening setting)).progress.state
    ≢ none
unfolding new_progress_tracker start finish insert execution_label
there h = absurd (ground (arith, h))

allowed : AllAllowed setting (opening setting) made
unfolding new_progress_tracker start finish insert execution_label
allowed = (refl, (refl, (tt, ((there, tt), (tt, (tt, (refl, (tt, tt))))))))

quiet : IsQuiet (calls setting made (opening setting))
unfolding new_progress_tracker start finish insert execution_label
quiet l = elim (Bool-cases (l == "TR-1")) [
  | inl t ↦ rw t refl
  | inr f ↦ elim (Bool-cases (l == "TR-1 [small]")) [
    | inl u ↦ rw (f, u) refl
    | inr g ↦ rw (f, g) refl
  ]
]

run-Mirrors_example : Mirrors (calls setting made (opening setting))
run-Mirrors_example = run-Mirrors setting made allowed

run-certifiable_example :
    ((close_run setting "t4" alive (calls setting made (opening setting)).ledger).certifiable
      ≡ true)
    ↔ ((alive ≡ none)
        × IsBegun setting made allowed quiet
        × (any fails made ≡ false)
        × (any blocks made ≡ false))
run-certifiable_example = run-certifiable_iff setting made allowed quiet "t4" alive
