-- ===== src/Grader/Sla.antt =====
-- internal/grader/evaluators.go, `gradeSLAs`: one verdict for each SLA descriptor.
pub mod Verdicts
use storage_cert_harness.Common.{
  ℕ, String, Bool, true, false, not, List, [], ◌∷◌, ◌++◌, Option, none, some, ◌<>◌, length,
  if◌then◌else◌,
}
use storage_cert_harness.Core.{Float64, Outcome, Sla, Metric, TestRequirement, TestResult, Verdict}
use storage_cert_harness.Grader.Runtime.{Runtime}
use storage_cert_harness.Grader.Units.{compare_with_units}
use storage_cert_harness.Grader.Bars.{
  measures, find_metric, metric_label, sla_item, unit_or, select_bars,
}

-- A verdict literal that gives these four fields.
abbrev pub verdict : String → String → Outcome → String → Verdict
verdict tr item outcome reason = record {
  variant = "";
  tr = tr;
  level = 0;
  scenario = "";
  item = item;
  outcome = outcome;
  duration_s = record { bits = 0 };
  reason = reason;
  expected = "";
  actual = "";
}

module _ (go : Runtime) (tr : TestRequirement) where
  abbrev shown : Metric → String → String
  shown m unit = go.format_g m.value <> " " <> unit_or m.unit unit

  -- No bar, or a bar with no value: the measured value is shown and nothing is graded.
  report_only : Sla → Option Metric → Verdict
  report_only d none =
      verdict tr.id (sla_item d) Outcome.skip "report-only: no threshold bar for these run params"
  report_only d (some m) =
      record (verdict tr.id (sla_item d) Outcome.skip
        "report-only: no threshold bar for these run params") { actual = shown m d.unit }

  -- The end of the loop's body: a bar with a value, and a metric.
  decide : Sla → Sla → Float64 → Metric → Bool × Bool → Verdict
  decide d bar want m (pass, incompatible) =
      let expected = bar.operator <> " " <> go.format_g want <> " " <> bar.unit in
      let actual = shown m bar.unit in
      if incompatible
      then record (verdict tr.id (sla_item d) Outcome.error (
          "incompatible units: measured "
          <> go.quote m.unit
          <> " cannot be compared to sla "
          <> go.quote bar.unit)) { expected = expected; actual = actual }
      else record (verdict tr.id (sla_item d) (if pass then Outcome.pass else Outcome.fail)
          bar.condition) { expected = expected; actual = actual }

  grade_bar : Sla → Sla → Option Float64 → Option Metric → Verdict
  unfolding report_only decide
  grade_bar d bar none m = report_only d m
  grade_bar d bar (some want) none = verdict tr.id (sla_item d) Outcome.error (
      "missing required metric "
      <> go.quote (metric_label d.metric d.percentile)
      <> " for graded SLA")
  grade_bar d bar (some want) (some m) =
      decide d bar want m (compare_with_units go m.value m.unit bar.operator want bar.unit)

  grade_with : Sla → List Sla → Option Metric → Verdict
  unfolding grade_bar
  grade_with d [] m = report_only d m
  grade_with d (bar ∷ []) m = grade_bar d bar bar.value m
  grade_with d (a ∷ b ∷ bars) m = verdict tr.id (sla_item d) Outcome.error (
      "data error: "
      <> go.format_d (length (a ∷ b ∷ bars))
      <> " threshold bars match "
      <> go.quote (metric_label d.metric d.percentile)
      <> " for the run params — bars must be disjoint by when")

  -- The body of the loop over the descriptors.
  pub grade_sla : TestResult → Sla → Verdict
  unfolding grade_with
  grade_sla res d =
      if not (measures d.measured_by tr.automation_tool)
      then verdict tr.id (sla_item d) Outcome.skip
          ("tool cannot measure metric: " <> go.quote tr.automation_tool <> " not in measured_by")
      else grade_with d (select_bars go tr.bars d.metric d.percentile tr.params)
          (find_metric res.metrics d.metric d.percentile)

  grade_from : TestResult → List Verdict → List Sla → List Verdict
  unfolding grade_sla
  grade_from res out [] = out
  grade_from res out (d ∷ ds) = grade_from res (out ++ grade_sla res d ∷ []) ds

  unfoldable pub grade_slas : TestResult → List Verdict
  unfolding grade_from
  grade_slas res = grade_from res [] tr.slas
