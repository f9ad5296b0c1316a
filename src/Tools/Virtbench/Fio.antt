-- ===== src/Tools/Virtbench/Fio.antt =====
-- internal/tools/virtbench/parse.go, `ParseFIO`: the latencies that FIO measured, on one machine or on a
-- fleet. The decoder of JSON and floating-point arithmetic are parameters. Of several percentiles that
-- read as 99 Go's order of the map leaves open which one is found; the model finds the first.
pub mod Worst
use storage_cert_harness.Common.{
  String, Bool, true, false, List, [], ◌∷◌, ◌++◌, Option, none, some, ◌==◌, ◌<>◌, if◌then◌else◌,
  is_empty, length, ℤ, is_positive, is_zero, ◌+ℤ◌,
}
use storage_cert_harness.Core.{Float64, Outcome, Metric, TestResult}
use storage_cert_harness.Grader.Runtime.{float_lt, float_eq}
use storage_cert_harness.Orchestrator.Pipeline.{Attempt, done, failed}
use storage_cert_harness.Tools.Virtbench.Summary.{metric, eqz}

pub record FioDirection : Type 0 where
  pub iops : Float64
  -- the percentiles of `clat_ns`
  pub percentile : List (String × Float64)

pub record FioJob : Type 0 where
  pub error : ℤ
  pub read : FioDirection
  pub write : FioDirection

pub record FioSummaryFile : Type 0 where
  pub total_vms : ℤ
  pub successful : ℤ
  pub failed_vms : ℤ

-- The parts stay text until they are decoded.
pub record FioCollectedResults : Type 0 where
  pub summary : String
  pub results : List String

-- `json.Unmarshal` into each of the structs, of a `fioRawFile` its jobs; `strconv.ParseFloat`; `a + b`,
-- `a / 1e6`, `float64(n)` and `float64(a) / float64(b) * 100`; and `%d`.
pub record FioDecoder : Type 0 where
  pub unmarshal_collected : String → Attempt FioCollectedResults
  pub unmarshal_summary : String → Attempt FioSummaryFile
  pub unmarshal_raw : String → Attempt (List FioJob)
  pub parse_float : String → Option Float64
  pub add : Float64 → Float64 → Float64
  pub per_million : Float64 → Float64
  pub of_int : ℤ → Float64
  pub percent : ℤ → ℤ → Float64
  pub format_d : ℤ → String

-- `readP99`, `writeP99`, `readIOPS` and `writeIOPS`
pub record Fleet : Type 0 where
  pub read_p99 : Float64
  pub write_p99 : Float64
  pub read_iops : Float64
  pub write_iops : Float64

abbrev ninety_nine : Float64
ninety_nine = record { bits = 0x4058c00000000000 }

abbrev pub no_fleet : Fleet
no_fleet = record {
  read_p99 = record { bits = 0 };
  write_p99 = record { bits = 0 };
  read_iops = record { bits = 0 };
  write_iops = record { bits = 0 };
}

unfoldable pub raised : Float64 → Float64 → Float64
raised worst v = if float_lt worst v then v else worst

module _ (go : FioDecoder) where
  pub fio_p99 : List (String × Float64) → Attempt Float64
  fio_p99 [] = failed "p99 percentile missing"
  fio_p99 ((key, value) ∷ percentiles) =
      let rest = fio_p99 percentiles in
      elim (go.parse_float key) [
        | none ↦ rest
        | some p ↦ if float_eq p ninety_nine then done value else rest
      ]

  abbrev one_job : List FioJob → Attempt FioJob
  one_job (job ∷ []) =
      if is_zero job.error
      then done job
      else failed ("virtbench: fio job failed with error " <> go.format_d job.error)
  one_job jobs = failed (
      "virtbench: fio result has "
      <> go.format_d (ℤ.pos (length jobs))
      <> " jobs, want one group-reported job")

  unfoldable pub fio_job_from_raw : String → Attempt FioJob
  fio_job_from_raw text = elim (go.unmarshal_raw text) [
    | failed e ↦ failed ("virtbench: parse fio: " <> e)
    | done jobs ↦ one_job jobs
  ]

  abbrev pub named : String → Attempt Float64 → Attempt Float64
  named prefix (failed e) = failed (prefix <> e)
  named prefix (done v) = done v

  abbrev pub read_latency : FioJob → Attempt Float64
  read_latency job =
      named "virtbench: read completion latency (clat_ns): " (fio_p99 job.read.percentile)

  abbrev pub write_latency : FioJob → Attempt Float64
  write_latency job =
      named "virtbench: write completion latency (clat_ns): " (fio_p99 job.write.percentile)

  -- One machine's job with its two latencies.
  unfoldable pub job_latencies : String → Attempt (FioJob × Float64 × Float64)
  unfolding fio_job_from_raw fio_p99
  job_latencies text = elim (fio_job_from_raw text) [
    | failed e ↦ failed e
    | done job ↦ elim (read_latency job) [
      | failed e ↦ failed e
      | done read ↦ elim (write_latency job) [
        | failed e ↦ failed e
        | done write ↦ done (job, read, write)
      ]
    ]
  ]

  abbrev pub add_job : FioJob → Float64 → Float64 → Fleet → Fleet
  add_job job read write f = record {
    read_p99 = raised f.read_p99 read;
    write_p99 = raised f.write_p99 write;
    read_iops = go.add f.read_iops job.read.iops;
    write_iops = go.add f.write_iops job.write.iops;
  }

  -- The loop over the machines' results.
  pub collect : List String → Fleet → Attempt Fleet
  unfolding job_latencies
  collect [] f = done f
  collect (text ∷ texts) f = elim (job_latencies text) [
    | failed e ↦ failed e
    | done (job, read, write) ↦ collect texts (add_job job read write f)
  ]

  abbrev pub fio_run_metrics : FioSummaryFile → List Metric
  fio_run_metrics s =
      metric "vms_total" (go.of_int s.total_vms) ""
      ∷ metric "vms_successful" (go.of_int s.successful) ""
      ∷ metric "vms_failed" (go.of_int s.failed_vms) ""
      ∷ metric "vm_success_rate" (go.percent s.successful s.total_vms) "%"
      ∷ []

  abbrev p99 : String → Float64 → Metric
  p99 name v = record (metric name (go.per_million v) "ms") { percentile = "p99" }

  abbrev pub fleet_metrics : Fleet → List Metric
  fleet_metrics f =
      p99 "read_latency" f.read_p99
      ∷ p99 "write_latency" f.write_p99
      ∷ metric "read_iops" f.read_iops "IOPS"
      ∷ metric "write_iops" f.write_iops "IOPS"
      ∷ []

  abbrev pub fio_result : String → List Metric → Outcome → TestResult
  fio_result tr_id metrics native = record {
    tr_id = tr_id;
    metrics = metrics;
    checks = [];
    native = native;
    artifacts = [];
  }

  -- `parseCollectedFIO`, once the summary is decoded.
  unfoldable pub grade_fleet : List String → FioSummaryFile → String → Attempt TestResult
  unfolding collect
  grade_fleet results s tr_id =
      if is_zero s.total_vms
      then failed "virtbench: fio summary reports 0 VMs"
      else if eqz (s.successful +ℤ s.failed_vms) s.total_vms
      then if is_positive s.failed_vms
        then done (fio_result tr_id (fio_run_metrics s) Outcome.fail)
        else if eqz (ℤ.pos (length results)) s.total_vms
        then elim (collect results no_fleet) [
          | failed e ↦ failed e
          | done f ↦ done (fio_result tr_id (fio_run_metrics s ++ fleet_metrics f) Outcome.pass)
        ]
        else failed (
            "virtbench: fio collected "
            <> go.format_d (ℤ.pos (length results))
            <> " VM results, want "
            <> go.format_d s.total_vms)
      else failed "virtbench: fio summary counts are inconsistent"

  unfoldable pub parse_collected_fio : FioCollectedResults → String → Attempt TestResult
  unfolding grade_fleet
  parse_collected_fio collected tr_id = elim (go.unmarshal_summary collected.summary) [
    | failed e ↦ failed ("virtbench: parse fio summary: " <> e)
    | done s ↦ grade_fleet collected.results s tr_id
  ]

  -- One raw result is its own fleet, without the counts; its latencies are not compared.
  unfoldable pub parse_fio_raw : String → String → Attempt TestResult
  unfolding job_latencies
  parse_fio_raw text tr_id = elim (job_latencies text) [
    | failed e ↦ failed e
    | done (job, read, write) ↦ done (
        fio_result tr_id
          (fleet_metrics (record {
            read_p99 = read;
            write_p99 = write;
            read_iops = job.read.iops;
            write_iops = job.write.iops;
          }))
          Outcome.pass)
  ]

  unfoldable pub parse_fio : String → String → Attempt TestResult
  unfolding parse_collected_fio parse_fio_raw
  parse_fio text tr_id =
      if text == ""
      then failed "virtbench: empty fio payload"
      else elim (go.unmarshal_collected text) [
        | failed e ↦ failed ("virtbench: parse fio: " <> e)
        | done collected ↦
            if is_empty collected.results
            then parse_fio_raw text tr_id
            else parse_collected_fio collected tr_id
      ]
