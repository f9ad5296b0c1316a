-- ===== src/Tools/Virtbench/Summary/Recovered.antt =====
-- When a recovery from a node's failure is graded as passed.
use storage_cert_harness.Common.{
  String, ◌≡◌, refl, sym, ap, ◌↔◌, inl, inr, true, false, ◌&&◌, List, [], ◌∷◌, some, arith, ◌==◌,
  any, lookup, is_positive, is_zero, ℤ,
}
use storage_cert_harness.Core.{Outcome, TestResult}
use storage_cert_harness.Orchestrator.Pipeline.{done}
use storage_cert_harness.Orchestrator.Pipeline.Kept.{Attempt-cases}
use storage_cert_harness.Tools.Virtbench.Summary.{
  Decoder, SummaryFile, SummaryMetric, eqz, summary_result, parse_summary, ping_complete,
  recovery_checks, recovery_base, boot_storm_order, parse_failure_recovery,
}

module _ (go : Decoder) (text tr_id : String) where
  summary-done :
      (base : List (String × String)) (order : List String) {r : TestResult}
      → parse_summary go base order text tr_id ≡ done r
      → (s : SummaryFile) × (go.unmarshal text ≡ done s)
        × (summary_result go base order tr_id s ≡ r)
  unfolding parse_summary
  summary-done base order h = elim (Attempt-cases (go.unmarshal text)) [
    | inl (s, read) ↦ (s, read, ground (arith, h, read))
    | inr (e, unread) ↦ absurd (ground (arith, h, unread))
  ]

  recovery-done :
      {r : TestResult}
      → parse_failure_recovery go text tr_id ≡ done r
      → (s : SummaryFile) × (q : TestResult) × (go.unmarshal_recovery text ≡ done s)
        × (parse_summary go (recovery_base go) (boot_storm_order go) text tr_id ≡ done q)
        × (r.checks ≡ recovery_checks go s q)
  unfolding parse_failure_recovery
  recovery-done {r} h = elim (Attempt-cases (go.unmarshal_recovery text)) [
    | inr (e, unread) ↦ absurd (ground (arith, h, unread))
    | inl (s, read) ↦
        elim (Attempt-cases
          (parse_summary go (recovery_base go) (boot_storm_order go) text tr_id)) [
            | inr (e, bad) ↦ absurd (ground (arith, h, read, bad))
            | inl (q, good) ↦
                let made : record q { checks = recovery_checks go s q } ≡ r =
                  ground (arith, h, read, good) in
                (s, q, read, good, ap (λ r. r.checks) (sym made))
          ]
  ]

  ping_complete_lem :
      (total : ℤ) (ms : List SummaryMetric)
      → ping_complete go total ms ≡ any (λ m. m.metric == "ping_time_sec" && eqz m.count total) ms
  unfolding ping_complete
  ping_complete_lem total [] = refl
  ping_complete_lem total (m ∷ ms) = ground (arith, ping_complete_lem total ms)

  native-pass :
      (base : List (String × String)) (order : List String) (s : SummaryFile)
      → ((summary_result go base order tr_id s).native ≡ Outcome.pass)
        ↔ (is_positive s.failed_vms ≡ false)
  unfolding summary_result
  native-pass base order s = ground arith

  -- The recovery's check passes exactly if the summary counts no failed machine, at least one machine,
  -- every machine as successful and none as failed, and some ping metric covers them all. The counts are
  -- those of the two decodings of the one text that the code makes.
  pub parse_failure_recovery_iff :
      {r : TestResult}
      → parse_failure_recovery go text tr_id ≡ done r
      → (counts : SummaryFile) × (summary : SummaryFile) × (go.unmarshal_recovery text
          ≡ done counts)
        × (go.unmarshal text ≡ done summary)
        × ((lookup "node-failure-vm-recovery" r.checks ≡ some Outcome.pass) ↔ (
            (is_positive summary.failed_vms ≡ false)
            × (is_positive counts.total_vms ≡ true)
            × (eqz counts.successful counts.total_vms ≡ true)
            × (is_zero counts.failed_vms ≡ true)
            × (any (λ m. m.metric == "ping_time_sec" && eqz m.count counts.total_vms) counts.metrics
                ≡ true)))
  parse_failure_recovery_iff {r} h =
      let (s, q, read, good, checks) = recovery-done h in
      let (f, decoded, result) = summary-done (recovery_base go) (boot_storm_order go) good in
      let native = native-pass (recovery_base go) (boot_storm_order go) f in
      let ping = ping_complete_lem s.total_vms s.metrics in
      let same : q.native
          ≡ (summary_result go (recovery_base go) (boot_storm_order go) tr_id f).native =
        ap (λ t. t.native) (sym result) in
      let looked = ap (lookup "node-failure-vm-recovery") checks in
      (s, f, read, decoded, ground (arith, looked, native, same, ping))
