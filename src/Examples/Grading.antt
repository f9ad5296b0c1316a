-- ===== src/Examples/Grading.antt =====
-- A test requirement with a latency bar and two checks, and what a tool measured of it.
use storage_cert_harness.Common.{
  ◌≡◌, refl, ◌↔◌, ◌≢◌, ◌⊎◌, true, false, [], ◌∷◌, some, none, map, eqb, if◌then◌else◌, lookup,
  String, arith, eq_iff,
}
use storage_cert_harness.Core.{
  Float64, AnyValue, Outcome, Sla, Check, Metric, TestRequirement, TestResult,
}
use storage_cert_harness.Grader.Evaluate.{Evaluators, failed}
use storage_cert_harness.Grader.Runtime.{Runtime, float_le}
use storage_cert_harness.Grader.Units.{UnitConv, find_unit, compare, compare_with_units}
use storage_cert_harness.Grader.Units.Scale.{Scaled, Unscaled, compare_with_units_iff}
use storage_cert_harness.Grader.Bars.{measures, find_metric, select_bars}
use storage_cert_harness.Grader.Sla.{grade_sla, grade_slas}
use storage_cert_harness.Grader.Sla.Verdicts.{Compared, grade_sla-answer_iff}
use storage_cert_harness.Grader.Checks.{grade_check}
use storage_cert_harness.Grader.Checks.Verdicts.{IsAutomatic, grade_check_iff}

-- A runtime that multiplies by one and prints no digits.
abbrev pub go : Runtime
go = record {
  mul = λ a b. if eqb b.bits 0x3ff0000000000000 then a else record { bits = 0 };
  of_int = λ negative n. record { bits = n };
  widen = λ x. x;
  format_g = λ x. "#";
  quote = λ s. s;
  format_d = λ n. "#";
  sprint = λ v. "#";
}

abbrev one : Float64
one = record { bits = 0x3ff0000000000000 }

abbrev two : Float64
two = record { bits = 0x4000000000000000 }

abbrev pub latency : Sla
latency = record {
  metric = "boot";
  type = "latency";
  operator = "<=";
  value = none;
  unit = "s";
  percentile = "p99";
  condition = "";
  measured_by = none;
  when = [];
}

abbrev pub bar : Sla
bar = record latency { value = some two; when = ("disk", AnyValue.string "ssd") ∷ [] }

abbrev up : Check
up = record {
  id = "up";
  kind = "functional";
  name = "";
  expectation = "";
  blocking = none;
  status = "automated";
  tool = "virtbench";
  references = [];
}

abbrev pub tr : TestRequirement
tr = record {
  variant = "";
  id = "TR-1";
  title = "";
  description = "";
  category = "";
  partner_level = 1;
  verified = "";
  automation_tool = "virtbench";
  sla_status = "";
  sla_count = 1;
  checks_status = "";
  checks_count = 2;
  slas = latency ∷ [];
  bars = bar ∷ record bar { value = some one; when = ("disk", AnyValue.float64 one) ∷ [] } ∷ [];
  checks = up ∷ record up { id = "sound"; kind = "manual" } ∷ [];
  param_spec = [];
  params = ("disk", AnyValue.string "ssd") ∷ [];
}

abbrev boot : Metric
boot = record { name = "boot"; value = one; unit = "sec"; percentile = "p99" }

abbrev pub res : TestResult
res = record {
  tr_id = "TR-1";
  metrics = boot ∷ [];
  checks = ("up", Outcome.pass) ∷ [];
  native = Outcome.unset;
  artifacts = [];
}

compare_with_units_example :
    let r = compare_with_units go one "sec" "<=" two "s" in
    ((r.1 ≡ true) ↔ (
      (c : UnitConv) × (d : UnitConv) × (find_unit "sec" ≡ some c)
      × (find_unit "s" ≡ some d)
      × (c.dim ≢ d.dim)))
    × ((r.0 ≡ true) ↔ (Scaled go one "sec" "<=" two "s" ⊎ Unscaled go one "sec" "<=" two "s"))
compare_with_units_example = compare_with_units_iff go one "sec" "<=" two "s"

grade_sla-answer_example :
    (((grade_sla go tr res latency).outcome ≡ Outcome.pass)
      ↔ Compared go tr res latency (true, false))
    × (((grade_sla go tr res latency).outcome ≡ Outcome.fail)
        ↔ Compared go tr res latency (false, false))
grade_sla-answer_example = grade_sla-answer_iff go tr res latency

grade_check_example :
    let o = (grade_check tr res up).outcome in
    let native = lookup up.id res.checks in
    ((o ≡ Outcome.pass) ↔ (IsAutomatic up × (native ≡ some Outcome.pass)))
    × ((o ≡ Outcome.fail) ↔ (IsAutomatic up × (native ≡ some Outcome.fail)))
    × ((o ≡ Outcome.skip)
        ↔ ((up.status ≡ "to-be-validated") ⊎ (up.kind ≡ "manual") ⊎ (native ≡ some Outcome.skip)))
    × ((o ≡ Outcome.error) ↔ (
        IsAutomatic up
        × (native ≢ some Outcome.pass)
        × (native ≢ some Outcome.fail)
        × (native ≢ some Outcome.skip)))
grade_check_example = grade_check_iff tr res up

boot_passes : map (λ v. v.outcome) (grade_slas go tr res) ≡ Outcome.pass ∷ []
unfolding grade_slas measures select_bars find_metric compare_with_units find_unit compare float_le
boot_passes = refl

-- An evaluator of the tool's own that fails.
abbrev evaluators : Evaluators
evaluators = ("TR-1", some (λ tr res. failed "no samples")) ∷ []

tr_named : ◌≢◌ {A = String} "TR-1" ""
tr_named = ground (arith, eq_iff "TR-1" "")
