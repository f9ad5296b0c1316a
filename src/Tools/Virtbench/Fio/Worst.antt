-- ===== src/Tools/Virtbench/Fio/Worst.antt =====
-- The worst latencies of a fleet.
use storage_cert_harness.Common.{
  String, ◌≡◌, inl, inr, true, false, List, [], ◌∷◌, ◌++◌, arith, Bool-cases, All, length, ℤ,
  is_positive,
}
use storage_cert_harness.Core.{Float64, Outcome, TestResult}
use storage_cert_harness.Grader.Runtime.{float_lt}
use storage_cert_harness.Orchestrator.Pipeline.{done}
use storage_cert_harness.Tools.Virtbench.Summary.{eqz}
use storage_cert_harness.Orchestrator.Pipeline.Kept.{Attempt-cases}
use storage_cert_harness.Tools.Virtbench.Fio.{
  FioJob, FioSummaryFile, FioCollectedResults, FioDecoder, Fleet, no_fleet, raised, job_latencies,
  add_job, collect, fio_run_metrics, fleet_metrics, grade_fleet, parse_collected_fio,
}

raised-reaches : (worst v : Float64) → float_lt (raised worst v) v ≡ false
unfolding raised float_lt
raised-reaches worst v = elim (Bool-cases (float_lt worst v)) [
  | inl t ↦ rw t (ground arith)
  | inr f ↦ rw f f
]

raised-keeps :
    (worst v u : Float64) → float_lt worst u ≡ false → float_lt (raised worst v) u ≡ false
unfolding raised float_lt
raised-keeps worst v u h = elim (Bool-cases (float_lt worst v)) [
  | inl t ↦ rw t (ground (arith, h, t))
  | inr f ↦ rw f h
]

module _ (go : FioDecoder) where
  -- The machine's result is read, and neither of its latencies exceeds the fleet's.
  abbrev pub IsBounded : Fleet → String → Type 0
  IsBounded f text =
      (job : FioJob) × (read : Float64) × (write : Float64) × (job_latencies go text
        ≡ done (job, read, write))
      × (float_lt f.read_p99 read ≡ false)
      × (float_lt f.write_p99 write ≡ false)

  collect-done :
      (text : String) (texts : List String) (f : Fleet) {g : Fleet}
      → collect go (text ∷ texts) f ≡ done g
      → (job : FioJob) × (read : Float64) × (write : Float64) × (job_latencies go text
          ≡ done (job, read, write))
        × (collect go texts (add_job go job read write f) ≡ done g)
  unfolding collect
  collect-done text texts f h = elim (Attempt-cases (job_latencies go text)) [
    | inr (e, bad) ↦ absurd (ground (arith, h, bad))
    | inl ((job, read, write), good) ↦ (job, read, write, good, rw (good, collect) at h)
  ]

  collect-keeps :
      (texts : List String) (f : Fleet) {g : Fleet} (read write : Float64)
      → collect go texts f ≡ done g
      → float_lt f.read_p99 read ≡ false
      → float_lt f.write_p99 write ≡ false
      → (float_lt g.read_p99 read ≡ false) × (float_lt g.write_p99 write ≡ false)
  unfolding collect
  collect-keeps [] f read write h a b = (ground (arith, h, a), ground (arith, h, b))
  collect-keeps (text ∷ texts) f read write h a b =
      let (job, r, w, good, rest) = collect-done text texts f h in
      collect-keeps texts (add_job go job r w f) read write rest (raised-keeps f.read_p99 r read a)
        (raised-keeps f.write_p99 w write b)

  collect-IsBounded :
      (texts : List String) (f : Fleet) {g : Fleet}
      → collect go texts f ≡ done g
      → All (IsBounded g) texts
  unfolding collect
  collect-IsBounded [] f h = tt
  collect-IsBounded (text ∷ texts) f h =
      let (job, r, w, good, rest) = collect-done text texts f h in
      let (a, b) =
        collect-keeps texts (add_job go job r w f) r w rest (raised-reaches f.read_p99 r)
          (raised-reaches f.write_p99 w) in
      ((job, r, w, good, a, b), collect-IsBounded texts (add_job go job r w f) rest)

  -- What a fleet's passing result holds.
  abbrev pub IsWorst : List String → FioSummaryFile → TestResult → Type 0
  IsWorst results s r =
      (f : Fleet) × (r.metrics ≡ fio_run_metrics go s ++ fleet_metrics go f)
      × All (IsBounded f) results
      × (is_positive s.failed_vms ≡ false)
      × (eqz (ℤ.pos (length results)) s.total_vms ≡ true)

  grade_fleet-IsWorst :
      (results : List String) (s : FioSummaryFile) (tr_id : String) {r : TestResult}
      → grade_fleet go results s tr_id ≡ done r
      → r.native ≡ Outcome.pass
      → IsWorst results s r
  unfolding grade_fleet
  grade_fleet-IsWorst results s tr_id {r} h p = elim (Bool-cases (is_positive s.failed_vms)) [
    | inl t ↦ absurd (ground (arith, h, p, t))
    | inr none_failed ↦ elim (Bool-cases (eqz (ℤ.pos (length results)) s.total_vms)) [
      | inr f ↦ absurd (ground (arith, h, p, none_failed, f))
      | inl all_there ↦ elim (Attempt-cases (collect go results no_fleet)) [
        | inr (e, bad) ↦ absurd (ground (arith, h, p, none_failed, all_there, bad))
        | inl (f, good) ↦ (
          f,
          ground (arith, h, p, none_failed, all_there, good),
          collect-IsBounded results no_fleet good,
          none_failed,
          all_there,
        )
      ]
    ]
  ]

  -- A fleet's result passes only if the summary counts no failed machine and there is a result of each
  -- machine; it then holds the counts and a fleet's latencies, which no machine's latency exceeds.
  pub parse_collected_fio-IsWorst :
      (collected : FioCollectedResults) (tr_id : String) {r : TestResult}
      → parse_collected_fio go collected tr_id ≡ done r
      → r.native ≡ Outcome.pass
      → (s : FioSummaryFile) × (go.unmarshal_summary collected.summary ≡ done s)
        × IsWorst collected.results s r
  unfolding parse_collected_fio
  parse_collected_fio-IsWorst collected tr_id {r} h p =
      elim (Attempt-cases (go.unmarshal_summary collected.summary)) [
        | inr (e, bad) ↦ absurd (ground (arith, h, bad))
        | inl (s, read) ↦ (
          s,
          read,
          grade_fleet-IsWorst collected.results s tr_id (rw (read, parse_collected_fio) at h) p,
        )
      ]
