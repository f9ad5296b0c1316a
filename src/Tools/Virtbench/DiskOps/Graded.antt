-- ===== src/Tools/Virtbench/DiskOps/Graded.antt =====
-- What a result of disk-ops holds, and when it passes.
use storage_cert_harness.Common.{
  String, ◌≡◌, refl, ◌↔◌, Bool, true, false, ◌||◌, [], ◌++◌, Option, none, some, arith, ◌==◌, any,
  any-append, if◌then◌else◌, is_positive, ◌+ℤ◌, Bool-cases, inl, inr,
}
use storage_cert_harness.Core.{Float64, Outcome, Metric, TestResult}
use storage_cert_harness.Orchestrator.Pipeline.{done}
use storage_cert_harness.Tools.Virtbench.Summary.{timed}
use storage_cert_harness.Tools.Virtbench.DiskOps.{
  DiskOpAgg, DiskOpsFile, DiskDecoder, timings, op_counts, grade_hotplug, parse_disk_ops,
}

abbrev pub in_seconds : Metric → Bool
in_seconds m = m.unit == "s"

abbrev is_there : Option Float64 → Bool
is_there none = false
is_there (some v) = true

-- Some time was measured.
abbrev pub measured : DiskOpAgg → Bool
measured h =
    is_there h.avg_api_attach_time
    || is_there h.max_api_attach_time
    || is_there h.min_api_attach_time
    || is_there h.avg_volume_ready
    || is_there h.avg_validation

or_false : (b : Bool) → (b || false) ≡ b
or_false true = refl
or_false false = refl

any-timed : (name : String) (o : Option Float64) → any in_seconds (timed name o) ≡ is_there o
any-timed name none = refl
any-timed name (some v) = refl

module _ (go : DiskDecoder) where
  any-op_counts : (h : DiskOpAgg) → any in_seconds (op_counts go h) ≡ false
  any-op_counts h = elim (Bool-cases (is_positive (h.successful +ℤ h.failed_ops))) [
    | inl t ↦ rw t refl
    | inr f ↦ rw f refl
  ]

  any-metrics : (h : DiskOpAgg) → any in_seconds (timings h ++ op_counts go h) ≡ measured h
  any-metrics h = simp (any-append, any-timed, any-op_counts, or_false)

  -- Whatever file has a hotplug section gives a result, even if no time was measured in it. The
  -- result holds a time exactly if one was measured, and it passes exactly if no operation is
  -- counted as failed.
  pub parse_disk_ops_lem :
      (text tr_id : String) {d : DiskOpsFile} {h : DiskOpAgg}
      → (text == "") ≡ false
      → go.unmarshal text ≡ done d
      → d.hotplug ≡ some h
      → (r : TestResult) × (parse_disk_ops go text tr_id ≡ done r)
        × (any in_seconds r.metrics ≡ measured h)
        × ((r.native ≡ Outcome.pass) ↔ (is_positive h.failed_ops ≡ false))
  unfolding parse_disk_ops grade_hotplug
  parse_disk_ops_lem text tr_id {d} {h} given read section = (
    graded,
    ground (arith, given, read, section),
    any-metrics h,
    elim (Bool-cases (is_positive h.failed_ops)) [
      | inl t ↦ (λ p. absurd (ground (arith, p, t)), λ f. absurd (ground (arith, f, t)))
      | inr f ↦ (λ p. f, λ f. rw f refl)
    ],
  )
    where
      graded : TestResult
      graded = record {
        tr_id = tr_id;
        metrics = timings h ++ op_counts go h;
        checks = [];
        native = if is_positive h.failed_ops then Outcome.fail else Outcome.pass;
        artifacts = [];
      }
