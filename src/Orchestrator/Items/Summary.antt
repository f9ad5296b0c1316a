-- ===== src/Orchestrator/Items/Summary.antt =====
-- What the verdicts that no tool produced hold, and the outcome of an execution.
use storage_cert_harness.Common.{
  ◌≡◌, ap, ◌∙◌, Bool, true, false, ◌&&◌, ◌||◌, not, List, [], ◌∷◌, arith, ◌==◌, if◌then◌else◌, ltb,
  any, Bool-cases, inl, inr,
}
use storage_cert_harness.Core.{Outcome, TestRequirement, Verdict, is_pass}
use storage_cert_harness.Report.Build.Counts.{is_fail, is_error}
use storage_cert_harness.Orchestrator.Items.{outcome_rank, best_of, summarize_tr}

-- The verdict is one of the execution's.
abbrev pub is_of : TestRequirement → Verdict → Bool
is_of tr v = v.tr == tr.id && v.variant == tr.variant

-- Some verdict of the execution has an outcome.
abbrev pub has_outcome : (Outcome → Bool) → TestRequirement → List Verdict → Bool
has_outcome p tr = any (λ v. is_of tr v && p v.outcome)

-- An error before a failure before a pass, and otherwise the one given.
abbrev pub settle : Outcome → Bool → Bool → Bool → Outcome
settle best errors fails passes =
    if is_error best || errors
    then Outcome.error
    else if is_fail best || fails
    then Outcome.fail
    else if is_pass best || passes
    then Outcome.pass
    else best

abbrev pub worst : TestRequirement → Outcome → List Verdict → Outcome
worst tr best vs =
    settle best (has_outcome is_error tr vs) (has_outcome is_fail tr vs) (has_outcome is_pass tr vs)

settle_better :
    (best o : Outcome) (e f p : Bool)
    → settle (if ltb (outcome_rank best) (outcome_rank o) then o else best) e f p
      ≡ settle best (is_error o || e) (is_fail o || f) (is_pass o || p)
settle_better Outcome.pass o e f p = ground arith
settle_better Outcome.fail o e f p = ground arith
settle_better Outcome.error o e f p = ground arith
settle_better Outcome.skip o e f p = ground arith
settle_better Outcome.unset o e f p = ground arith
settle_better (Outcome.other s) o e f p = ground arith

settle_none : (best : Outcome) → settle best false false false ≡ best
settle_none best = ground arith

or_true : (seen : Bool) → true ≡ (seen || true)
or_true seen = ground arith

best_of_lem :
    (tr : TestRequirement) (best : Outcome) (seen : Bool) (vs : List Verdict)
    → best_of tr best seen vs ≡ (worst tr best vs, seen || any (is_of tr) vs)
unfolding best_of
best_of_lem tr best seen [] = ground (arith, settle_none best)
best_of_lem tr best seen (v ∷ vs) = elim (Bool-cases (is_of tr v)) [
  | inl t ↦
      let next = if ltb (outcome_rank best) (outcome_rank v.outcome) then v.outcome else best in
      let step : best_of tr best seen (v ∷ vs) ≡ best_of tr next true vs = ground (arith, t) in
      rw t (
        step ∙ best_of_lem tr next true vs ∙ (λ i. (
          settle_better best v.outcome (has_outcome is_error tr vs) (has_outcome is_fail tr vs)
              (has_outcome is_pass tr vs) i,
          or_true seen i,
        )))
  | inr f ↦ rw f (ground (arith, f) ∙ best_of_lem tr best seen vs)
]

-- The outcome of an execution is an error if any of its verdicts is one or it has no verdict, else a
-- failure if any fails, else a pass if any passes, else a skip; other executions' verdicts are ignored.
pub summarize_tr_lem :
    (verdicts : List Verdict) (tr : TestRequirement)
    → summarize_tr verdicts tr ≡ (
        if not (any (is_of tr) verdicts) || has_outcome is_error tr verdicts
        then Outcome.error
        else if has_outcome is_fail tr verdicts
        then Outcome.fail
        else if has_outcome is_pass tr verdicts
        then Outcome.pass
        else Outcome.skip)
unfolding summarize_tr
summarize_tr_lem verdicts tr =
    ap (λ r. if not r.1 then Outcome.error else r.0) (best_of_lem tr Outcome.skip false verdicts)
    ∙ ground arith
