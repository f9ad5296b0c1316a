-- ===== src/Tools/Virtbench/DiskOps.antt =====
-- internal/tools/virtbench/parse.go, `ParseDiskOps`: the times at which disks were attached to running
-- machines. The decoder of JSON is a parameter.
pub mod Graded
use storage_cert_harness.Common.{
  String, Bool, true, false, List, [], ◌∷◌, ◌++◌, Option, none, some, ◌==◌, ◌<>◌, if◌then◌else◌,
  is_empty, ℤ, is_positive, ◌+ℤ◌,
}
use storage_cert_harness.Core.{Float64, Outcome, Metric, TestResult}
use storage_cert_harness.Orchestrator.Pipeline.{Attempt, done, failed}
use storage_cert_harness.Tools.Virtbench.Summary.{metric, timed}

pub record DiskOpAgg : Type 0 where
  pub successful : ℤ
  pub failed_ops : ℤ
  pub avg_api_attach_time : Option Float64
  pub max_api_attach_time : Option Float64
  pub min_api_attach_time : Option Float64
  pub avg_volume_ready : Option Float64
  pub avg_validation : Option Float64

-- The part of `diskOpsFile` that is read.
pub record DiskOpsFile : Type 0 where
  pub hotplug : Option DiskOpAgg

-- `json.Unmarshal`, `float64(n)`, and `float64(a) / float64(b) * 100`.
pub record DiskDecoder : Type 0 where
  pub unmarshal : String → Attempt DiskOpsFile
  pub of_int : ℤ → Float64
  pub percent : ℤ → ℤ → Float64

abbrev pub timings : DiskOpAgg → List Metric
timings h =
    timed "pvc_attach_time" h.avg_api_attach_time
    ++ timed "pvc_attach_time_max" h.max_api_attach_time
    ++ timed "pvc_attach_time_min" h.min_api_attach_time
    ++ timed "volume_ready_time" h.avg_volume_ready
    ++ timed "validation_time" h.avg_validation

module _ (go : DiskDecoder) where
  abbrev pub op_counts : DiskOpAgg → List Metric
  op_counts h =
      let total = h.successful +ℤ h.failed_ops in
      metric "ops_total" (go.of_int total) ""
      ∷ metric "ops_successful" (go.of_int h.successful) ""
      ∷ metric "ops_failed" (go.of_int h.failed_ops) ""
      ∷ (if is_positive total
          then metric "attach_success_rate" (go.percent h.successful total) "%" ∷ []
          else [])

  -- `ParseDiskOps` once the file has a hotplug section.
  unfoldable pub grade_hotplug : String → DiskOpAgg → Attempt TestResult
  grade_hotplug tr_id h =
      let metrics = timings h ++ op_counts h in
      if is_empty metrics
      then failed "virtbench: disk-ops hotplug section has no timing data"
      else done (record {
        tr_id = tr_id;
        metrics = metrics;
        checks = [];
        native = if is_positive h.failed_ops then Outcome.fail else Outcome.pass;
        artifacts = [];
      })

  unfoldable pub parse_disk_ops : String → String → Attempt TestResult
  unfolding grade_hotplug
  parse_disk_ops text tr_id =
      if text == "" then failed "virtbench: empty disk-ops payload" else elim (go.unmarshal text) [
        | failed e ↦ failed ("virtbench: parse disk-ops: " <> e)
        | done d ↦ elim d.hotplug [
          | none ↦
              failed "virtbench: disk-ops results have no hotplug section (no attach data to grade)"
          | some h ↦ grade_hotplug tr_id h
        ]
      ]
