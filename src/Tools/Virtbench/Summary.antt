-- ===== src/Tools/Virtbench/Summary.antt =====
-- internal/tools/virtbench/parse.go, `parseSummary` and its callers: the summary that the clone, boot-storm,
-- single-node and failure-recovery scenarios write. The decoder of JSON is a parameter, which gives the
-- file's record or the text of its error.
pub mod Recovered
use storage_cert_harness.Common.{
  String, Bool, true, false, not, ◌&&◌, ◌||◌, List, [], ◌∷◌, ◌++◌, map, Option, none, some, ◌==◌,
  ◌<>◌, if◌then◌else◌, lookup, insert, ℤ, is_zero, is_positive, is_negative, ◌-ℤ◌,
}
use storage_cert_harness.Core.{Float64, Outcome, Metric, TestResult}
use storage_cert_harness.Orchestrator.Pipeline.{Attempt, done, failed, ◌>>=◌}

pub record SummaryMetric : Type 0 where
  pub metric : String
  pub avg : Option Float64
  pub max : Option Float64
  pub min : Option Float64
  pub count : ℤ

pub record SummaryFile : Type 0 where
  pub total_vms : ℤ
  pub successful : ℤ
  pub failed_vms : ℤ
  pub total_test_duration : Option Float64
  pub metrics : List SummaryMetric

-- `json.Unmarshal` into a `summaryFile` and into the struct of `ParseFailureRecovery`, which has some of
-- its fields, `float64(n)`, and `float64(a) / float64(b) * 100`.
pub record Decoder : Type 0 where
  pub unmarshal : String → Attempt SummaryFile
  pub unmarshal_recovery : String → Attempt SummaryFile
  pub of_int : ℤ → Float64
  pub percent : ℤ → ℤ → Float64

abbrev pub eqz : ℤ → ℤ → Bool
eqz a b = is_zero (a -ℤ b)

-- `byName`: of the metrics with one name the last is kept.
abbrev by_name : List (String × SummaryMetric) → List SummaryMetric → List (String × SummaryMetric)
by_name m [] = m
by_name m (x ∷ xs) = by_name (insert x.metric x m) xs

abbrev pub metric : String → Float64 → String → Metric
metric name value unit = record { name = name; value = value; unit = unit; percentile = "" }

-- A metric in seconds, where it was measured.
abbrev pub timed : String → Option Float64 → List Metric
timed name none = []
timed name (some v) = metric name v "s" ∷ []

abbrev or_blank : Option String → String
or_blank none = ""
or_blank (some s) = s

-- The loop over the order of the metrics.
aggregates : List (String × String) → List (String × SummaryMetric) → List String → List Metric
aggregates base found [] = []
aggregates base found (key ∷ keys) =
    let rest = aggregates base found keys in
    let name = or_blank (lookup key base) in
    elim (lookup key found) [
      | none ↦ rest
      | some m ↦
          timed name m.avg ++ timed (name <> "_max") m.max ++ timed (name <> "_min") m.min ++ rest
    ]

module _ (go : Decoder) where
  run_metrics : SummaryFile → List Metric
  run_metrics s =
      metric "vms_total" (go.of_int s.total_vms) ""
      ∷ metric "vms_successful" (go.of_int s.successful) ""
      ∷ metric "vms_failed" (go.of_int s.failed_vms) ""
      ∷ metric "vm_success_rate" (go.percent s.successful s.total_vms) "%"
      ∷ []

  pub summary_result : List (String × String) → List String → String → SummaryFile → TestResult
  unfolding aggregates run_metrics
  summary_result base order tr_id s = record {
    tr_id = tr_id;
    metrics =
        aggregates base (by_name [] s.metrics) order
        ++ run_metrics s
        ++ timed "total_test_duration" s.total_test_duration;
    checks = [];
    native = if is_positive s.failed_vms then Outcome.fail else Outcome.pass;
    artifacts = [];
  }

  -- `parseSummary`; its one result is `res[0]`.
  unfoldable pub parse_summary :
      List (String × String) → List String → String → String → Attempt TestResult
  unfolding summary_result
  parse_summary base order text tr_id =
      if text == "" then failed "virtbench: empty summary payload" else elim (go.unmarshal text) [
        | failed e ↦ failed ("virtbench: parse summary: " <> e)
        | done s ↦
            if is_zero s.total_vms
            then failed "virtbench: summary reports 0 VMs (no data to grade)"
            else done (summary_result base order tr_id s)
      ]

  abbrev clone_base : List (String × String)
  clone_base =
      ("clone_duration_sec", "clone_duration")
      ∷ ("running_time_sec", "time_to_running")
      ∷ ("ping_time_sec", "time_to_ping")
      ∷ []

  abbrev clone_order : List String
  clone_order = "clone_duration_sec" ∷ "running_time_sec" ∷ "ping_time_sec" ∷ []

  abbrev boot_storm_base : List (String × String)
  boot_storm_base = ("running_time_sec", "time_to_running") ∷ ("ping_time_sec", "time_to_ping") ∷ []

  abbrev pub boot_storm_order : List String
  boot_storm_order = "running_time_sec" ∷ "ping_time_sec" ∷ []

  -- The first metric with a name.
  pub metric_value : List Metric → String → Option Float64
  metric_value [] name = none
  metric_value (m ∷ ms) name =
      let rest = metric_value ms name in if m.name == name then some m.value else rest

  abbrev or_zero : Option Float64 → Float64
  or_zero none = record { bits = 0 }
  or_zero (some v) = v

  abbrev pub on_result : (TestResult → TestResult) → Attempt TestResult → Attempt TestResult
  on_result f (failed e) = failed e
  on_result f (done r) = done (f r)

  -- The time of the whole storm, under the name that is graded.
  abbrev boot_time : Option Float64 → List Metric
  boot_time none = []
  boot_time (some v) = metric "vm_boot_time" v "s" ∷ []

  unfoldable pub parse_boot_storm : String → String → Attempt TestResult
  unfolding parse_summary metric_value
  parse_boot_storm text tr_id =
      on_result
        (λ r. record r {
          metrics = r.metrics ++ boot_time (metric_value r.metrics "total_test_duration");
        })
        (parse_summary boot_storm_base boot_storm_order text tr_id)

  unfoldable pub parse_single_node_ceiling : String → String → Attempt TestResult
  unfolding parse_summary metric_value
  parse_single_node_ceiling text tr_id =
      on_result
        (λ r. record r {
          metrics =
              r.metrics
              ++ metric "max_vms_per_node" (or_zero (metric_value r.metrics "vms_successful"))
                  "count"
                ∷ [];
          native = Outcome.pass;
        })
        (parse_summary clone_base clone_order text tr_id)

  abbrev pub recovery_base : List (String × String)
  recovery_base =
      ("running_time_sec", "vm_ha_restart_time") ∷ ("ping_time_sec", "time_to_ping") ∷ []

  -- The loop over the metrics, with `pingComplete`.
  pub ping_complete : ℤ → List SummaryMetric → Bool
  ping_complete total [] = false
  ping_complete total (m ∷ ms) =
      let rest = ping_complete total ms in
      if m.metric == "ping_time_sec" && eqz m.count total then true else rest

  abbrev pub complete : SummaryFile → Bool
  complete s = is_positive s.total_vms && eqz s.successful s.total_vms && is_zero s.failed_vms

  abbrev pub is_pass_outcome : Outcome → Bool
  is_pass_outcome Outcome.pass = true
  is_pass_outcome _ = false

  -- The checks of a recovery, from its summary.
  abbrev pub recovery_checks : SummaryFile → TestResult → List (String × Outcome)
  recovery_checks s r =
      (
        "node-failure-vm-recovery",
        if is_pass_outcome r.native && complete s && ping_complete s.total_vms s.metrics
            then Outcome.pass
            else Outcome.fail,
      )
      ∷ ("reattach-failure-modes", r.native)
      ∷ []

  unfoldable pub parse_failure_recovery : String → String → Attempt TestResult
  unfolding parse_summary ping_complete
  parse_failure_recovery text tr_id = elim (go.unmarshal_recovery text) [
    | failed e ↦ failed ("virtbench: parse failure-recovery summary: " <> e)
    | done s ↦
        on_result (λ r. record r { checks = recovery_checks s r })
          (parse_summary recovery_base boot_storm_order text tr_id)
  ]
