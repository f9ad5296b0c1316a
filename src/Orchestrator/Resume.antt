-- ===== src/Orchestrator/Resume.antt =====
-- internal/orchestrator/orchestrator.go, `ResumeExecutionsWithOptions`: the executions that a
-- continuation still has to run. A `map[string]bool` is the list of its true keys.
pub mod Remaining
pub mod Interrupted
use storage_cert_harness.Common.{
  String, Bool, true, false, ◌&&◌, ◌||◌, not, List, [], ◌∷◌, ◌++◌, ◌==◌, ◌<>◌, nul_text,
  if◌then◌else◌,
}
use storage_cert_harness.Core.{
  TestRequirement, RunExecution, Verdict, Report, is_failure, is_completed,
}
use storage_cert_harness.Report.Merge.{member}

pub record Prior : Type 0 where
  pub completed : List String
  pub failed : List String
  pub known : List String

abbrev pub execution_key : String → String → String → String
execution_key tr variant scenario = tr <> nul_text <> variant <> nul_text <> scenario

-- The body of the loop over the executions.
note_execution : String → RunExecution → Prior → Prior
note_execution scenario e p =
    let key = execution_key e.tr e.variant e.scenario in
    if not (e.scenario == scenario)
    then p
    else if is_completed e.state
    then record {
      completed = key ∷ p.completed;
      failed = if is_failure e.outcome then key ∷ p.failed else p.failed;
      known = key ∷ p.known;
    }
    else record p { known = key ∷ p.known }

note_executions : String → List RunExecution → Prior → Prior
unfolding note_execution
note_executions scenario [] p = p
note_executions scenario (e ∷ es) p = note_executions scenario es (note_execution scenario e p)

-- The body of the loop over the verdicts.
note_verdict : String → Verdict → Prior → Prior
note_verdict scenario v p =
    let key = execution_key v.tr v.variant v.scenario in
    if not (v.scenario == scenario) then p else if member key p.known then p else record p {
      completed = key ∷ p.completed;
      failed = if is_failure v.outcome then key ∷ p.failed else p.failed;
    }

note_verdicts : String → List Verdict → Prior → Prior
unfolding note_verdict
note_verdicts scenario [] p = p
note_verdicts scenario (v ∷ vs) p = note_verdicts scenario vs (note_verdict scenario v p)

remaining :
    String → Bool → Prior → List TestRequirement → List TestRequirement → List TestRequirement
remaining scenario retry_failed p out [] = out
remaining scenario retry_failed p out (tr ∷ trs) =
    let key = execution_key tr.id tr.variant scenario in
    let skip = member key p.completed && (not retry_failed || not (member key p.failed)) in
    let kept = remaining scenario retry_failed p (out ++ tr ∷ []) trs in
    let skipped = remaining scenario retry_failed p out trs in if not skip then kept else skipped

abbrev nothing : Prior
nothing = record { completed = []; failed = []; known = [] }

unfoldable pub resume_executions_with_options :
    List TestRequirement → Report → String → Bool → List TestRequirement
unfolding note_executions note_verdicts remaining
resume_executions_with_options selected prior scenario retry_failed =
    let p =
      note_verdicts scenario prior.verdicts (note_executions scenario prior.executions nothing) in
    remaining scenario retry_failed p [] selected
