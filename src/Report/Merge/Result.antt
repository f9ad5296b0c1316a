-- ===== src/Report/Merge/Result.antt =====
-- When a merge is refused, and what a merged report says.
use storage_cert_harness.Common.{
  String, ◌≡◌, sym, ap, ◌∙◌, ◌≢◌, ◌↔◌, ◌⊎◌, true, false, ◌++◌, arith, if◌then◌else◌, ◌==◌, eq_iff,
  any,
}
use storage_cert_harness.Core.{RunStatus, Report, is_failure}
use storage_cert_harness.Report.Lifecycle.{or_complete, refresh_lifecycle}
use storage_cert_harness.Report.Lifecycle.Flags.{
  has_blocking, or_complete_idem, refresh_lifecycle_lem, refresh_lifecycle-certifiable_iff,
}
use storage_cert_harness.Report.Build.Counts.{build_counts, no_failure_iff, summary_of}
use storage_cert_harness.Report.Keyed.{KeepsLast}
use storage_cert_harness.Report.Merge.{
  merged, different_commits, combine, merge, dedupe_verdicts, verdict_key, verdict_less,
}
use storage_cert_harness.Report.Merge.Dedupe.{dedupe_verdicts-KeepsLast}

-- A merge is refused exactly if both reports name a commit of the knowledge base and the two differ.
pub merge-refused_iff :
    (base next : Report)
    → let b = base.provenance.kb_git_commit in
      let n = next.provenance.kb_git_commit in
      (merge base next ≡ different_commits b n) ↔ ((b ≢ "") × (n ≢ "") × (b ≢ n))
unfolding merge
merge-refused_iff base next =
    let b = base.provenance.kb_git_commit in
    let n = next.provenance.kb_git_commit in ground (arith, eq_iff b "", eq_iff n "", eq_iff b n)

-- A merge that succeeds refreshes the combined report.
pub merge-merged :
    (base next : Report) {r : Report}
    → merge base next ≡ merged r
    → r ≡ refresh_lifecycle (combine base next)
unfolding merge
merge-merged base next h = ground arith

module _ (base next : Report) {r : Report} (done : merge base next ≡ merged r) where
  refreshed : r ≡ refresh_lifecycle (combine base next)
  refreshed = merge-merged base next done

  combine_verdicts : (combine base next).verdicts ≡ dedupe_verdicts (base.verdicts ++ next.verdicts)
  unfolding combine
  combine_verdicts = (build_counts _ _ _ _).2

  verdicts-eq : r.verdicts ≡ dedupe_verdicts (base.verdicts ++ next.verdicts)
  verdicts-eq =
      ap (λ q. q.verdicts) (refreshed ∙ refresh_lifecycle_lem (combine base next))
      ∙ combine_verdicts

  -- The merged report holds exactly the last verdict of each execution, item and scenario, in order:
  -- the later report's where it has one.
  pub merge_verdicts :
      KeepsLast verdict_key verdict_less (base.verdicts ++ next.verdicts) r.verdicts
  merge_verdicts = rw verdicts-eq (dedupe_verdicts-KeepsLast (base.verdicts ++ next.verdicts))

  combine_provenance :
      (combine base next).provenance
      ≡ (if base.provenance.kb_git_commit == "" then next.provenance else base.provenance)
  unfolding combine
  combine_provenance = (build_counts _ _ _ _).3

  counted :
      (combine base next).summary ≡ summary_of (dedupe_verdicts (base.verdicts ++ next.verdicts))
  unfolding combine
  counted = (build_counts _ _ _ _).0

  status_twice : or_complete (combine base next).status ≡ or_complete next.status
  unfolding combine
  status_twice = or_complete_idem next.status

  -- The merged report is certifiable exactly if the later run is complete, no incident of either
  -- report that is kept blocks certification, and no verdict that is kept fails or is an error.
  pub merge-certifiable_iff : (r.certifiable ≡ true) ↔ (
      (or_complete next.status ≡ RunStatus.complete)
      × (has_blocking r.incidents ≡ false)
      × (any (λ v. is_failure v.outcome) r.verdicts ≡ false))
  merge-certifiable_iff =
      let shape = refreshed ∙ refresh_lifecycle_lem (combine base next) in
      let flag = refresh_lifecycle-certifiable_iff (combine base next) in
      let none_failed = no_failure_iff (dedupe_verdicts (base.verdicts ++ next.verdicts)) in
      rw (ap (λ q. q.certifiable) refreshed, ap (λ q. q.incidents) shape, verdicts-eq)
        (
          λ h.
              let (complete, clear, fails, errors) = flag.0 h in
              (
                sym status_twice ∙ complete,
                clear,
                none_failed.0 (
                  sym (ap (λ s. s.fail) counted) ∙ fails,
                  sym (ap (λ s. s.error) counted) ∙ errors,
                ),
              ),
          λ (complete, clear, clean).
              let (fails, errors) = none_failed.1 clean in
              flag.1 (
                status_twice ∙ complete,
                clear,
                ap (λ s. s.fail) counted ∙ fails,
                ap (λ s. s.error) counted ∙ errors,
              ),
        )

  -- A merged report names the commit of each of the two that names one.
  pub merge_commit :
      let c = r.provenance.kb_git_commit in
      let names_it = λ (n : String). (n ≡ "") ⊎ (n ≡ c) in
      names_it base.provenance.kb_git_commit × names_it next.provenance.kb_git_commit
  unfolding merge
  merge_commit =
      let b = base.provenance.kb_git_commit in
      let n = next.provenance.kb_git_commit in
      let chosen =
        ap (λ q. q.provenance) (refreshed ∙ refresh_lifecycle_lem (combine base next))
        ∙ combine_provenance in
      ground (arith, ap (λ p. p.kb_git_commit) chosen, eq_iff b "", eq_iff n "", eq_iff b n)
