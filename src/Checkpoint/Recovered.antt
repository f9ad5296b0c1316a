-- ===== src/Checkpoint/Recovered.antt =====
-- What `recover` makes of a stale report.
use storage_cert_harness.Common.{String, ◌≡◌, sym, ap, ◌∙◌, false, [], ◌∷◌, ◌++◌, arith}
use storage_cert_harness.Core.{RunStatus, RunHealth, Report}
use storage_cert_harness.Report.Lifecycle.{finalize}
use storage_cert_harness.Report.Lifecycle.Flags.{refresh_lifecycle_lem}
use storage_cert_harness.Checkpoint.{recovered, reason_of, abandoned_incident, recover}

module _ (now given : String) (rep : Report) where
  -- The report with the incident of the recovery.
  abbrev noted : Report
  noted = record rep { incidents = rep.incidents ++ abandoned_incident (reason_of given) ∷ [] }

  recover-recovered :
      {r : Report}
      → recover now given rep ≡ recovered r
      → (rep.status ≡ RunStatus.running)
        × (finalize now noted RunStatus.abandoned (reason_of given) now ≡ r)
  unfolding recover
  recover-recovered h = ground (arith, h)

  -- Only a running report is recovered; it becomes abandoned, unhealthy and not certifiable, gives the
  -- reason, and keeps its verdicts, its executions and its incidents, after which stands the incident
  -- of the recovery.
  pub recover_keeps :
      {r : Report}
      → recover now given rep ≡ recovered r
      → (rep.status ≡ RunStatus.running)
        × (r.status ≡ RunStatus.abandoned)
        × (r.health ≡ RunHealth.unhealthy)
        × (r.certifiable ≡ false)
        × (r.completion_reason ≡ reason_of given)
        × (r.verdicts ≡ rep.verdicts)
        × (r.executions ≡ rep.executions)
        × (r.incidents ≡ rep.incidents ++ abandoned_incident (reason_of given) ∷ [])
  unfolding finalize
  recover_keeps h =
      let (running, made) = recover-recovered h in
      let shape = sym made ∙ refresh_lifecycle_lem _ in
      (
        running,
        ap (λ q. q.status) shape,
        ap (λ q. q.health) shape,
        ap (λ q. q.certifiable) shape,
        ap (λ q. q.completion_reason) shape,
        ap (λ q. q.verdicts) shape,
        ap (λ q. q.executions) shape,
        ap (λ q. q.incidents) shape,
      )
