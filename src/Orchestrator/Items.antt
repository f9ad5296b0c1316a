-- ===== src/Orchestrator/Items.antt =====
-- internal/orchestrator/orchestrator.go, `itemVerdicts`, `notScorable` and `errTRs`, and progress.go,
-- `summarizeTR` and `outcomeRank`: verdicts that no tool produced, and the outcome of an execution.
pub mod Summary
pub mod Labels
use storage_cert_harness.Common.{
  ℕ, String, Bool, true, false, ◌||◌, not, ltb, List, [], ◌∷◌, ◌++◌, ◌==◌, ◌<>◌, if◌then◌else◌,
  is_empty,
}
use storage_cert_harness.Core.{Outcome, Sla, Check, TestRequirement, Verdict}
use storage_cert_harness.Grader.Sla.{verdict}

-- A verdict of one item of the requirement.
abbrev pub item_verdict : TestRequirement → Outcome → String → String → Verdict
item_verdict tr outcome reason item = record (verdict tr.id item outcome reason) {
  variant = tr.variant;
}

abbrev pub sla_label : Sla → String
sla_label s =
    if not (s.percentile == "")
    then ("sla:" <> s.metric) <> "@" <> s.percentile
    else "sla:" <> s.metric

sla_verdicts : TestRequirement → Outcome → String → List Verdict → List Sla → List Verdict
sla_verdicts tr outcome reason out [] = out
sla_verdicts tr outcome reason out (s ∷ ss) =
    sla_verdicts tr outcome reason (out ++ item_verdict tr outcome reason (sla_label s) ∷ []) ss

check_verdicts : TestRequirement → Outcome → String → List Verdict → List Check → List Verdict
check_verdicts tr outcome reason out [] = out
check_verdicts tr outcome reason out (c ∷ cs) =
    check_verdicts tr outcome reason (out ++ item_verdict tr outcome reason ("check:" <> c.id) ∷ [])
      cs

unfoldable pub item_verdicts : TestRequirement → Outcome → String → List Verdict
unfolding sla_verdicts check_verdicts
item_verdicts tr outcome reason =
    let out =
      check_verdicts tr outcome reason (sla_verdicts tr outcome reason [] tr.slas) tr.checks in
    if is_empty out then out ++ item_verdict tr outcome reason "(none)" ∷ [] else out

-- `%q` is a parameter.
unfoldable pub not_scorable : (String → String) → TestRequirement → List Verdict
not_scorable quote tr = item_verdicts tr Outcome.skip (
    if tr.automation_tool == "manual"
    then "manual: requires human sign-off"
    else if not (tr.automation_tool == "")
    then "automation tool " <> quote tr.automation_tool <> " not integrated"
    else "no automation tool")

err_from : String → List Verdict → List TestRequirement → List Verdict
err_from reason out [] = out
err_from reason out (tr ∷ trs) = err_from reason (out ++ item_verdicts tr Outcome.error reason) trs

unfoldable pub err_trs : List TestRequirement → String → List Verdict
unfolding err_from
err_trs trs reason = err_from reason [] trs

abbrev pub outcome_rank : Outcome → ℕ
outcome_rank Outcome.error = 3
outcome_rank Outcome.fail = 2
outcome_rank Outcome.pass = 1
outcome_rank _ = 0

-- The loop of `summarizeTR`: `best` and `seen`.
best_of : TestRequirement → Outcome → Bool → List Verdict → Outcome × Bool
best_of tr best seen [] = (best, seen)
best_of tr best seen (v ∷ vs) =
    let other = best_of tr best seen vs in
    let better = best_of tr v.outcome true vs in
    let no_better = best_of tr best true vs in
    if not (v.tr == tr.id) || not (v.variant == tr.variant)
    then other
    else if ltb (outcome_rank best) (outcome_rank v.outcome)
    then better
    else no_better

unfoldable pub summarize_tr : List Verdict → TestRequirement → Outcome
unfolding best_of
summarize_tr verdicts tr =
    let (best, seen) = best_of tr Outcome.skip false verdicts in
    if not seen then Outcome.error else best
