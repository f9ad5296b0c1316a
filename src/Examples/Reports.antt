-- ===== src/Examples/Reports.antt =====
-- Two runs of one certification, the second of which repeats a test that failed in the first.
use mathlib.Core.List.{Memᴰ}
use storage_cert_harness.Common.{
  ℕ, String, ◌≡◌, refl, ◌↔◌, true, false, List, [], ◌∷◌, ◌++◌, some, any, length, sort_by, insert,
}
use storage_cert_harness.Core.{
  Outcome, RunStatus, ExecutionState, Verdict, Measurement, Incident, RunExecution, Report, RunPart,
  Provenance, is_failure,
}
use storage_cert_harness.Grader.Sla.{verdict}
use storage_cert_harness.Report.Rollup.{rollup_levels}
use storage_cert_harness.Report.Rollup.Level.{RollsUp, rollup_levels-RollsUp}
use storage_cert_harness.Report.Rollup.Certified.{Certifies, rollup_levels-Certifies}
use storage_cert_harness.Report.Lifecycle.{refresh_lifecycle, or_complete}
use storage_cert_harness.Report.Lifecycle.Flags.{has_blocking}
use storage_cert_harness.Report.Build.{build}
use storage_cert_harness.Report.Build.Counts.{summary_of, build_counts}
use storage_cert_harness.Report.Keyed.{KeepsLast, Distinct, last_with}
use storage_cert_harness.Report.Merge.{
  verdict_key, verdict_less, dedupe_verdicts, dedupe_measurements, execution_key, execution_less,
  merge_executions, merge_composition, merged, combine, merge,
}
use storage_cert_harness.Report.Merge.Dedupe.{merge_executions-KeepsLast}
use storage_cert_harness.Report.Merge.Parts.{part_id, given_parts, merge_composition_keeps}
use storage_cert_harness.Report.Merge.Result.{merge_verdicts, merge-certifiable_iff}

abbrev scored : String → ℕ → Outcome → Verdict
scored tr level o = record (verdict tr "check:up" o "") { level = level }

abbrev first_run : List Verdict
first_run =
    scored "TR-2" 2 Outcome.fail
    ∷ scored "TR-1" 1 Outcome.pass
    ∷ scored "TR-3" 3 Outcome.pass
    ∷ scored "TR-4" 0 Outcome.skip
    ∷ []

abbrev second_run : List Verdict
second_run = scored "TR-2" 2 Outcome.pass ∷ []

abbrev pub at_commit : String → Provenance
at_commit c = record { kb_git_commit = c; kb_commit_date = ""; generated_date = "" }

abbrev pub slow : Incident
slow = record {
  id = "";
  type = "timeout";
  severity = "warning";
  tr = "TR-2";
  variant = "";
  tool = "virtbench";
  stage = "run";
  message = "too slow";
  started_at = "";
  ended_at = "";
  duration_s = record { bits = 0 };
  resolved = true;
  blocks_certification = false;
  impact = "";
  evidence = "";
}

abbrev pub first_report : Report
first_report = record (build "run-1" "1.0" (at_commit "abc") first_run) { incidents = slow ∷ [] }

abbrev pub second_report : Report
second_report = record (build "run-2" "1.0" (at_commit "abc") second_run) { incidents = slow ∷ [] }

abbrev both : Report
both = refresh_lifecycle (combine first_report second_report)

done : merge first_report second_report ≡ merged both
unfolding merge build refresh_lifecycle
done = refl

abbrev pub sampled : String → ℕ → Measurement
sampled tr bits = record {
  variant = "";
  tr = tr;
  level = 1;
  scenario = "";
  name = "latency";
  value = record { bits = bits };
  unit = "ms";
  percentile = "p99";
}

abbrev samples : List Measurement
samples = sampled "TR-2" 1 ∷ sampled "TR-1" 2 ∷ sampled "TR-2" 3 ∷ []

abbrev pub ran : String → ExecutionState → RunExecution
ran tr state = record {
  tr = tr;
  variant = "";
  scenario = "";
  state = state;
  outcome = Outcome.pass;
  stage = "";
  started_at = "";
  ended_at = "";
  reason = "";
  artifacts = [];
}

level-one : (rollup_levels first_run).1 ≡ 1
unfolding rollup_levels sort_by
level-one = refl

level-three : (rollup_levels (dedupe_verdicts (first_run ++ second_run))).1 ≡ 3
unfolding rollup_levels dedupe_verdicts sort_by insert
level-three = refl

sorted_samples : dedupe_measurements samples ≡ sampled "TR-1" 2 ∷ sampled "TR-2" 3 ∷ []
unfolding dedupe_measurements sort_by insert
sorted_samples = refl

rollup_levels-RollsUp_example : RollsUp first_run (rollup_levels first_run).0
rollup_levels-RollsUp_example = rollup_levels-RollsUp first_run

rollup_levels-Certifies_example : Certifies first_run (rollup_levels first_run).1
rollup_levels-Certifies_example = rollup_levels-Certifies first_run

build_counts_example :
    let r = build "run-1" "1.0" (at_commit "abc") first_run in
    (r.summary ≡ summary_of first_run)
    × (r.levels ≡ (rollup_levels first_run).0)
    × (r.verdicts ≡ first_run)
    × (r.provenance ≡ at_commit "abc")
build_counts_example = build_counts "run-1" "1.0" (at_commit "abc") first_run

abbrev before : List RunExecution
before = ran "TR-1" ExecutionState.completed ∷ ran "TR-2" ExecutionState.aborted ∷ []

abbrev after : List RunExecution
after = ran "TR-2" ExecutionState.completed ∷ []

merge_executions-KeepsLast_example :
    KeepsLast execution_key execution_less (before ++ after) (merge_executions before after)
merge_executions-KeepsLast_example = merge_executions-KeepsLast before after

merge_composition_keeps_example :
    let c = merge_composition first_report second_report in
    (c.parts_count ≡ length c.parts)
    × Distinct part_id c.parts
    × ((p : RunPart)
        → Memᴰ p c.parts
          ↔ (last_with part_id p.part_id (given_parts first_report second_report) ≡ some p))
merge_composition_keeps_example = merge_composition_keeps first_report second_report

merge_verdicts_example :
    KeepsLast verdict_key verdict_less
      (first_report.verdicts ++ second_report.verdicts)
      both.verdicts
merge_verdicts_example = merge_verdicts first_report second_report done

merge-certifiable_example : (both.certifiable ≡ true) ↔ (
    (or_complete second_report.status ≡ RunStatus.complete)
    × (has_blocking both.incidents ≡ false)
    × (any (λ v. is_failure v.outcome) both.verdicts ≡ false))
merge-certifiable_example = merge-certifiable_iff first_report second_report done
