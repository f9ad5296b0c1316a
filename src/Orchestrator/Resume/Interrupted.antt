-- ===== src/Orchestrator/Resume/Interrupted.antt =====
-- What a run left open when it stopped is run again.
use mathlib.Core.List.{Memᴰ}
use storage_cert_harness.Common.{String, ◌≡◌, Bool, true, false, ◌&&◌, List, arith, any, keep-mem}
use storage_cert_harness.Core.{TestRequirement, Report, is_completed}
use storage_cert_harness.Orchestrator.Resume.{resume_executions_with_options}
use storage_cert_harness.Orchestrator.Resume.Remaining.{
  records, key_of, is_open, resume_executions_lem,
}

-- A selected requirement whose execution has records in the scenario, none of them completed, is run
-- again, whatever verdicts the report holds of it.
pub resume_interrupted :
    (selected : List TestRequirement) (prior : Report) (scenario : String) (retry_failed : Bool)
    → (tr : TestRequirement) → Memᴰ tr selected
    → any (records scenario (key_of scenario tr)) prior.executions ≡ true
    → any (λ e. records scenario (key_of scenario tr) e && is_completed e.state) prior.executions
      ≡ false
    → Memᴰ tr (resume_executions_with_options selected prior scenario retry_failed)
resume_interrupted selected prior scenario retry_failed tr m known none_completed =
    rw (resume_executions_lem selected prior scenario retry_failed)
      (keep-mem (is_open scenario prior retry_failed) m (ground (arith, known, none_completed)))
