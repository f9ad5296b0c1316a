-- ===== src/Examples/Parsing.antt =====
-- The log of a drain that was cut off, and the summary of a recovery.
use storage_cert_harness.Common.{
  String, ◌≡◌, refl, ◌↔◌, true, false, ◌&&◌, [], ◌∷◌, ◌++◌, none, some, ◌==◌, if◌then◌else◌, any,
  lookup, insert, ℤ, is_positive, is_zero,
}
use storage_cert_harness.Core.{Float64, Outcome, TestResult}
use storage_cert_harness.Orchestrator.Pipeline.{done, failed}
use storage_cert_harness.Registry.{has_prefix}
use storage_cert_harness.Tools.Virtbench.Drain.{
  Texts, parse_drain, drain_result, split_lines, contains, drain_log_message,
}
use storage_cert_harness.Tools.Virtbench.Drain.Verdict.{is_after_heading, parse_drain_unread}
use storage_cert_harness.Tools.Virtbench.Summary.{
  Decoder, SummaryFile, SummaryMetric, eqz, summary_result, parse_failure_recovery, parse_summary,
  recovery_base, boot_storm_order, recovery_checks,
}
use storage_cert_harness.Tools.Virtbench.Summary.Recovered.{parse_failure_recovery_iff}
use storage_cert_harness.Grader.Runtime.{float_lt, float_eq}
use storage_cert_harness.Tools.Virtbench.Fio.{
  FioDirection, FioSummaryFile, FioCollectedResults, FioDecoder, Fleet, raised, fio_result,
  fio_run_metrics, fleet_metrics, parse_collected_fio,
}
use storage_cert_harness.Tools.Virtbench.Fio.Worst.{IsWorst, parse_collected_fio-IsWorst}
use storage_cert_harness.Tools.Virtbench.DiskOps.{DiskOpAgg, DiskDecoder, parse_disk_ops}
use storage_cert_harness.Tools.Virtbench.DiskOps.Graded.{in_seconds, measured, parse_disk_ops_lem}

abbrev second : Float64
second = record { bits = 0x3ff0000000000000 }

-- Of the patterns only their beginnings.
abbrev texts : Texts
texts = record {
  nodes_match = λ s. if has_prefix "Nodes:" s then some "n1" else none;
  node_time_match = λ s. if has_prefix "Drain" s then some "1.0" else none;
  total_time_match = λ s. none;
  parse_float = λ s. some second;
  atoi = λ s. if s == "2" then some (ℤ.pos 2) else none;
  trim_space = λ s. s;
  fields = λ s. if s == "n1 2" then "n1" ∷ "2" ∷ [] else [];
  quote = λ s. s;
  of_int = λ n. second;
  percent = λ a b. second;
}

-- The log ends with the time limit of the drain; the table after it is missing.
abbrev log : String
log =
    "t - I - Nodes: n1\nt - I - VMI DISTRIBUTION BEFORE DRAIN\nt - I - n1 2\nt - W - Drain timed out"

abbrev graded : TestResult
graded = drain_result texts "TR-8" second (ℤ.pos 2) (ℤ.pos 0)

cut_off : any (is_after_heading texts) (split_lines log) ≡ false
unfolding contains drain_log_message split_lines has_prefix
cut_off = refl

parsed : parse_drain texts log "TR-8" ≡ done (graded ∷ [])
unfolding parse_drain insert has_prefix
parsed = refl

parse_drain_unread_example :
    (graded.native ≡ Outcome.pass) × (lookup "all-vms-evacuated" graded.checks ≡ some Outcome.pass)
parse_drain_unread_example = parse_drain_unread texts log "TR-8" cut_off parsed

abbrev ping : SummaryMetric
ping = record {
  metric = "ping_time_sec";
  avg = some second;
  max = none;
  min = none;
  count = ℤ.pos 3;
}

abbrev file : SummaryFile
file = record {
  total_vms = ℤ.pos 3;
  successful = ℤ.pos 3;
  failed_vms = ℤ.pos 0;
  total_test_duration = none;
  metrics = ping ∷ [];
}

abbrev json : Decoder
json = record {
  unmarshal = λ s. done file;
  unmarshal_recovery = λ s. done file;
  of_int = λ n. second;
  percent = λ a b. second;
}

abbrev summary : TestResult
summary = summary_result json (recovery_base json) (boot_storm_order json) "TR-9" file

abbrev recovered : TestResult
recovered = record summary { checks = recovery_checks json file summary }

recovery : parse_failure_recovery json "{}" "TR-9" ≡ done recovered
unfolding parse_failure_recovery parse_summary
recovery = refl

parse_failure_recovery_example :
    (counts : SummaryFile) × (read : SummaryFile) × (json.unmarshal_recovery "{}" ≡ done counts)
    × (json.unmarshal "{}" ≡ done read)
    × ((lookup "node-failure-vm-recovery" recovered.checks ≡ some Outcome.pass) ↔ (
        (is_positive read.failed_vms ≡ false)
        × (is_positive counts.total_vms ≡ true)
        × (eqz counts.successful counts.total_vms ≡ true)
        × (is_zero counts.failed_vms ≡ true)
        × (any (λ m. m.metric == "ping_time_sec" && eqz m.count counts.total_vms) counts.metrics
            ≡ true)))
parse_failure_recovery_example = parse_failure_recovery_iff json "{}" "TR-9" recovery

-- A file of disk-ops with two operations, neither of which was timed.
abbrev untimed_ops : DiskOpAgg
untimed_ops = record {
  successful = ℤ.pos 2;
  failed_ops = ℤ.pos 0;
  avg_api_attach_time = none;
  max_api_attach_time = none;
  min_api_attach_time = none;
  avg_volume_ready = none;
  avg_validation = none;
}

abbrev disk_json : DiskDecoder
disk_json = record {
  unmarshal = λ s. done (record { hotplug = some untimed_ops });
  of_int = λ n. second;
  percent = λ a b. second;
}

parse_disk_ops_example :
    (r : TestResult) × (parse_disk_ops disk_json "{}" "TR-7" ≡ done r)
    × (any in_seconds r.metrics ≡ measured untimed_ops)
    × ((r.native ≡ Outcome.pass) ↔ (is_positive untimed_ops.failed_ops ≡ false))
parse_disk_ops_example = parse_disk_ops_lem disk_json "{}" "TR-7" refl refl refl

-- Two machines with the same result.
abbrev side : FioDirection
side = record { iops = second; percentile = ("99.0", second) ∷ [] }

abbrev fio_json : FioDecoder
fio_json = record {
  unmarshal_collected = λ s. failed "not a bundle";
  unmarshal_summary =
      λ s. done (record { total_vms = ℤ.pos 2; successful = ℤ.pos 2; failed_vms = ℤ.pos 0 });
  unmarshal_raw = λ s. done (record { error = ℤ.pos 0; read = side; write = side } ∷ []);
  parse_float = λ s. some (record { bits = 0x4058c00000000000 });
  add = λ a b. b;
  per_million = λ a. a;
  of_int = λ n. second;
  percent = λ a b. second;
  format_d = λ n. "";
}

abbrev bundle : FioCollectedResults
bundle = record { summary = "{}"; results = "vm-1" ∷ "vm-2" ∷ [] }

abbrev counted : FioSummaryFile
counted = record { total_vms = ℤ.pos 2; successful = ℤ.pos 2; failed_vms = ℤ.pos 0 }

abbrev worst : Fleet
worst = record { read_p99 = second; write_p99 = second; read_iops = second; write_iops = second }

abbrev fleet : TestResult
fleet =
    fio_result fio_json "TR-6" (fio_run_metrics fio_json counted ++ fleet_metrics fio_json worst)
      Outcome.pass

fleet_parsed : parse_collected_fio fio_json bundle "TR-6" ≡ done fleet
unfolding parse_collected_fio raised float_lt float_eq
fleet_parsed = refl

parse_collected_fio_example :
    (s : FioSummaryFile) × (fio_json.unmarshal_summary "{}" ≡ done s)
    × IsWorst fio_json ("vm-1" ∷ "vm-2" ∷ []) s fleet
parse_collected_fio_example = parse_collected_fio-IsWorst fio_json bundle "TR-6" fleet_parsed refl
