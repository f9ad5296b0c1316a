-- ===== src/Examples/Planning.antt =====
-- A plan with a variant and an override, a run that was interrupted, and the progress of two jobs.

use mathlib.Core.List.{Memᴰ}
use storage_cert_harness.Common.{
  ◌≤◌, String, ◌≡◌, refl, ◌↔◌, ◌≢◌, ◌||◌, not, true, false, List, [], ◌∷◌, ◌++◌, keep, all, any,
  flat_map, if◌then◌else◌, insert, copy,
}
use storage_cert_harness.Core.{
  AnyValue, Params, Outcome, ExecutionState, TestRequirement, Report, Verdict, is_pass,
  execution_label,
}
use storage_cert_harness.Report.Lifecycle.{refresh_lifecycle}
use storage_cert_harness.Report.Build.{build}
use storage_cert_harness.Report.Build.Counts.{is_fail, is_error}
use storage_cert_harness.Orchestrator.Selection.{
  Config, Variant, as_variant, resolve_executions, resolved, select_trs, apply_overrides,
}
use storage_cert_harness.Orchestrator.Selection.Resolved.{
  expand, expands, names_known, planned_trs, resolve_executions_iff,
}
use storage_cert_harness.Orchestrator.Resume.{resume_executions_with_options}
use storage_cert_harness.Orchestrator.Resume.Remaining.{is_open, resume_executions_lem}
use storage_cert_harness.Orchestrator.Resume.Interrupted.{resume_interrupted}
use storage_cert_harness.Orchestrator.Items.{item_verdicts, summarize_tr}
use storage_cert_harness.Orchestrator.Items.Summary.{is_of, has_outcome, summarize_tr_lem}
use storage_cert_harness.Orchestrator.Progress.{
  ProgressState, ProgressTracker, new_progress_tracker, start, finish, label_of, state_of,
}
use storage_cert_harness.Orchestrator.Progress.Terminal.{
  Op, IsComplete, run, completions, run_keeps, completions_once,
}
use storage_cert_harness.Report.Measurements.{select_measurements}
use storage_cert_harness.Report.Measurements.Shown.{shows, select_measurements-keep}
use storage_cert_harness.Examples.Reports.{ran, sampled, second_report}
use storage_cert_harness.Examples.Grading.{tr}

abbrev spare : TestRequirement
spare = record tr {
  id = "TR-2";
  param_spec = ("size", record { required = true; default = AnyValue.nil }) ∷ [];
}

abbrev catalog : List TestRequirement
catalog = tr ∷ spare ∷ []

abbrev small : Variant
small = record { name = "small"; params = ("disk", AnyValue.string "hdd") ∷ [] }

abbrev overrides : List (String × Params)
overrides = ("TR-1", ("disk", AnyValue.string "nvme") ∷ []) ∷ []

abbrev cfg : Config
cfg = record {
  filter = record { tools = "virtbench" ∷ []; ids = []; partner_levels = 1 ∷ [] };
  overrides = overrides;
  variants = ("TR-1", small ∷ []) ∷ [];
}

abbrev expected : List TestRequirement
expected = as_variant tr small ∷ spare ∷ []

resolve_executions_example : (resolve_executions catalog cfg ≡ resolved expected) ↔ (
    (names_known catalog cfg.variants ≡ true)
    × (all (expands cfg.variants) (planned_trs catalog cfg) ≡ true)
    × (expected ≡ flat_map (expand cfg.variants) (planned_trs catalog cfg)))
resolve_executions_example = resolve_executions_iff catalog cfg expected

two_executions : resolve_executions catalog cfg ≡ resolved expected
unfolding resolve_executions apply_overrides select_trs copy
two_executions = refl

-- The run stopped in TR-1; TR-2 is done, and its verdict is older.
abbrev stopped : Report
stopped = record second_report {
  executions = ran "TR-1" ExecutionState.aborted ∷ ran "TR-2" ExecutionState.completed ∷ [];
}

resume_executions_example :
    resume_executions_with_options catalog stopped "" false
    ≡ keep (is_open "" stopped false) catalog
resume_executions_example = resume_executions_lem catalog stopped "" false

one_left : resume_executions_with_options catalog stopped "" false ≡ tr ∷ []
unfolding resume_executions_with_options build refresh_lifecycle
one_left = refl

resume_interrupted_example : Memᴰ tr (resume_executions_with_options catalog stopped "" false)
resume_interrupted_example =
    resume_interrupted catalog stopped "" false tr (Memᴰ.head refl) refl refl

abbrev timed_out : List Verdict
timed_out = item_verdicts tr Outcome.fail "too slow" ++ item_verdicts spare Outcome.error "no tool"

summarize_tr_example : summarize_tr timed_out tr ≡ (
    if not (any (is_of tr) timed_out) || has_outcome is_error tr timed_out
    then Outcome.error
    else if has_outcome is_fail tr timed_out
    then Outcome.fail
    else if has_outcome is_pass tr timed_out
    then Outcome.pass
    else Outcome.skip)
summarize_tr_example = summarize_tr_lem timed_out tr

abbrev begun : ProgressTracker
begun = new_progress_tracker catalog

abbrev finished : ProgressTracker
finished = (finish tr Outcome.pass (start tr begun).0).0

abbrev calls : List Op
calls = Op.abort_of tr Outcome.error ∷ Op.start_of spare ∷ Op.finish_of tr Outcome.fail ∷ []

tr_done : IsComplete "TR-1" Outcome.pass finished
unfolding finish start new_progress_tracker execution_label insert
tr_done = (refl, refl)

run_keeps_example : IsComplete "TR-1" Outcome.pass (run calls finished)
run_keeps_example = run_keeps "TR-1" Outcome.pass calls finished tr_done

completions_once_example : completions "TR-1" calls begun ≤ 1
completions_once_example = completions_once "TR-1" calls begun

spare_open : state_of (label_of spare) finished ≢ ProgressState.complete
unfolding finish start new_progress_tracker execution_label insert
spare_open = λ h. absurd (cc h)

select_measurements-keep_example :
    (select_measurements
      (λ s. s)
      catalog
      (sampled "TR-2" 1 ∷ sampled "TR-3" 2 ∷ [])
      ("latency" ∷ [])
      []).0
    ≡ keep (shows ("latency" ∷ []) [] catalog) (sampled "TR-2" 1 ∷ sampled "TR-3" 2 ∷ [])
unfolding execution_label
select_measurements-keep_example =
    select_measurements-keep ("latency" ∷ []) [] (λ s. s) catalog
      (sampled "TR-2" 1 ∷ sampled "TR-3" 2 ∷ []) ((refl, tt), (tt, tt))
