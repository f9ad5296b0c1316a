-- ===== src/Orchestrator/Resume/Remaining.antt =====
-- Which executions a continuation runs, said of the prior report alone.
use mathlib.Core.List.{append-nil, append_assoc}
use storage_cert_harness.Common.{
  String, ◌≡◌, refl, sym, ◌∙◌, Bool, false, ◌&&◌, ◌||◌, not, List, [], ◌∷◌, ◌++◌, arith, ◌==◌,
  eq_iff, any, keep, Bool-cases, inl, inr,
}
use storage_cert_harness.Core.{
  TestRequirement, RunExecution, Verdict, Report, is_failure, is_completed,
}
use storage_cert_harness.Report.Merge.{member}
use storage_cert_harness.Orchestrator.Resume.{
  Prior, execution_key, nothing, note_execution, note_executions, note_verdict, note_verdicts,
  remaining, resume_executions_with_options,
}

-- The report has a record of the execution, or a verdict of it.
abbrev pub records : String → String → RunExecution → Bool
records scenario key e = e.scenario == scenario && execution_key e.tr e.variant e.scenario == key

abbrev pub judges : String → String → Verdict → Bool
judges scenario key v = v.scenario == scenario && execution_key v.tr v.variant v.scenario == key

-- A record of the execution is completed; or the report has no record of it, and a verdict.
abbrev pub is_done : String → Report → String → Bool
is_done scenario r key =
    any (λ e. records scenario key e && is_completed e.state) r.executions
    || (not (any (records scenario key) r.executions) && any (judges scenario key) r.verdicts)

-- The same of a record, or a verdict, that fails or is an error.
abbrev pub is_failed : String → Report → String → Bool
is_failed scenario r key =
    any (λ e. records scenario key e && (is_completed e.state && is_failure e.outcome)) r.executions
    || (not (any (records scenario key) r.executions)
        && any (λ v. judges scenario key v && is_failure v.outcome) r.verdicts)

module _ (scenario key : String) where
  record Agrees (p : Prior) (done failed known : Bool) : Type 0 where
    completed_is : member key p.completed ≡ done
    failed_is : member key p.failed ≡ failed
    known_is : member key p.known ≡ known

  note_execution_lem :
      (e : RunExecution) (p : Prior) {d f k : Bool}
      → Agrees p d f k
      → Agrees
          (note_execution scenario e p)
          ((records scenario key e && is_completed e.state) || d)
          ((records scenario key e && (is_completed e.state && is_failure e.outcome)) || f)
          (records scenario key e || k)
  unfolding note_execution
  note_execution_lem e p a = record {
    completed_is = ground (arith, a.completed_is);
    failed_is = ground (arith, a.failed_is);
    known_is = ground (arith, a.known_is);
  }

  note_executions_lem :
      (es : List RunExecution) (p : Prior) {d f k : Bool}
      → Agrees p d f k
      → Agrees
          (note_executions scenario es p)
          (any (λ e. records scenario key e && is_completed e.state) es || d)
          (any (λ e. records scenario key e && (is_completed e.state && is_failure e.outcome)) es
            || f)
          (any (records scenario key) es || k)
  unfolding note_executions
  note_executions_lem [] p a = a
  note_executions_lem (e ∷ es) p a =
      let b = note_executions_lem es (note_execution scenario e p) (note_execution_lem e p a) in
      record {
        completed_is = b.completed_is ∙ ground arith;
        failed_is = b.failed_is ∙ ground arith;
        known_is = b.known_is ∙ ground arith;
      }

  note_verdict_lem :
      (v : Verdict) (p : Prior) {d f k : Bool}
      → Agrees p d f k
      → Agrees
          (note_verdict scenario v p)
          ((not k && judges scenario key v) || d)
          ((not k && (judges scenario key v && is_failure v.outcome)) || f)
          k
  unfolding note_verdict
  note_verdict_lem v p a =
      let same = eq_iff (execution_key v.tr v.variant v.scenario) key in
      record {
        completed_is = ground (arith, a.completed_is, a.known_is, same);
        failed_is = ground (arith, a.failed_is, a.known_is, same);
        known_is = ground (arith, a.known_is);
      }

  note_verdicts_lem :
      (vs : List Verdict) (p : Prior) {d f k : Bool}
      → Agrees p d f k
      → Agrees
          (note_verdicts scenario vs p)
          ((not k && any (judges scenario key) vs) || d)
          ((not k && any (λ v. judges scenario key v && is_failure v.outcome) vs) || f)
          k
  unfolding note_verdicts
  note_verdicts_lem [] p a = record {
    completed_is = a.completed_is ∙ ground arith;
    failed_is = a.failed_is ∙ ground arith;
    known_is = a.known_is;
  }
  note_verdicts_lem (v ∷ vs) p a =
      let b = note_verdicts_lem vs (note_verdict scenario v p) (note_verdict_lem v p a) in
      record {
        completed_is = b.completed_is ∙ ground arith;
        failed_is = b.failed_is ∙ ground arith;
        known_is = b.known_is;
      }

prior_of : String → Report → Prior
prior_of scenario r =
    note_verdicts scenario r.verdicts (note_executions scenario r.executions nothing)

prior_of_lem :
    (scenario key : String) (r : Report)
    → (member key (prior_of scenario r).completed ≡ is_done scenario r key)
      × (member key (prior_of scenario r).failed ≡ is_failed scenario r key)
unfolding prior_of
prior_of_lem scenario key r =
    let fresh : Agrees scenario key nothing false false false = record {
      completed_is = refl;
      failed_is = refl;
      known_is = refl;
    } in
    let a =
      note_verdicts_lem scenario key r.verdicts (note_executions scenario r.executions nothing)
        (note_executions_lem scenario key r.executions nothing fresh) in
    (a.completed_is ∙ ground arith, a.failed_is ∙ ground arith)

abbrev pub key_of : String → TestRequirement → String
key_of scenario tr = execution_key tr.id tr.variant scenario

-- A requirement still has to run: it is not done, or it failed and failures are run again.
abbrev pub is_open : String → Report → Bool → TestRequirement → Bool
is_open scenario r retry_failed tr =
    not (is_done scenario r (key_of scenario tr))
    || (retry_failed && is_failed scenario r (key_of scenario tr))

remaining-keep :
    (scenario : String) (r : Report) (retry_failed : Bool) (out trs : List TestRequirement)
    → remaining scenario retry_failed (prior_of scenario r) out trs
      ≡ out ++ keep (is_open scenario r retry_failed) trs
unfolding remaining
remaining-keep scenario r retry_failed out [] = sym (append-nil out)
remaining-keep scenario r retry_failed out (tr ∷ trs) =
    let (done, failed) = prior_of_lem scenario (key_of scenario tr) r in
    elim (Bool-cases (is_open scenario r retry_failed tr)) [
      | inl t ↦ rw t (
          ground (arith, done, failed, t)
          ∙ remaining-keep scenario r retry_failed (out ++ tr ∷ []) trs
          ∙ append_assoc out (tr ∷ []) (keep (is_open scenario r retry_failed) trs))
      | inr f ↦
          rw f (ground (arith, done, failed, f) ∙ remaining-keep scenario r retry_failed out trs)
    ]

-- A continuation runs exactly the selected requirements, in order, that are not done in the prior
-- report, and with retries also those that failed. An execution is done if a record of it in the
-- scenario is completed, or if it has no record there and has a verdict; it failed if such a record or
-- verdict fails or is an error.
pub resume_executions_lem :
    (selected : List TestRequirement) (prior : Report) (scenario : String) (retry_failed : Bool)
    → resume_executions_with_options selected prior scenario retry_failed
      ≡ keep (is_open scenario prior retry_failed) selected
unfolding resume_executions_with_options prior_of
resume_executions_lem selected prior scenario retry_failed =
    remaining-keep scenario prior retry_failed [] selected
