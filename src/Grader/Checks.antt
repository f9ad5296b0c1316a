-- ===== src/Grader/Checks.antt =====
-- internal/grader/evaluators.go, `gradeChecks`: one verdict for each check.
pub mod Verdicts
use storage_cert_harness.Common.{
  String, Bool, List, [], ◌∷◌, ◌++◌, Option, none, some, ◌==◌, ◌<>◌, lookup, if◌then◌else◌,
}
use storage_cert_harness.Core.{Outcome, Check, TestRequirement, TestResult, Verdict}
use storage_cert_harness.Grader.Sla.{verdict}

unfoldable pub reason_with_expectation : String → String → String
reason_with_expectation prefix expectation =
    if expectation == "" then prefix else prefix <> ": " <> expectation

-- `switch native`: an outcome that is none of the four counts as an error.
abbrev pub known_or_error : Outcome → Outcome
known_or_error Outcome.unset = Outcome.error
known_or_error (Outcome.other s) = Outcome.error
known_or_error o = o

module _ (tr : TestRequirement) where
  grade_native : Check → Option Outcome → Verdict
  grade_native c none = verdict tr.id ("check:" <> c.id) Outcome.error (
      reason_with_expectation ("missing required outcome for " <> c.kind <> " check") c.expectation)
  grade_native c (some native) =
      verdict tr.id ("check:" <> c.id) (known_or_error native)
        (reason_with_expectation (c.kind <> " check") c.expectation)

  -- The body of the loop over the checks.
  pub grade_check : TestResult → Check → Verdict
  unfolding grade_native
  grade_check res c =
      if c.status == "to-be-validated"
      then verdict tr.id ("check:" <> c.id) Outcome.skip
          (reason_with_expectation "check to-be-validated: no automation yet" c.expectation)
      else if c.kind == "manual"
      then verdict tr.id ("check:" <> c.id) Outcome.skip
          (reason_with_expectation "manual check: requires human sign-off" c.expectation)
      else grade_native c (lookup c.id res.checks)

  grade_from : TestResult → List Verdict → List Check → List Verdict
  unfolding grade_check
  grade_from res out [] = out
  grade_from res out (c ∷ cs) = grade_from res (out ++ grade_check res c ∷ []) cs

  unfoldable pub grade_checks : TestResult → List Verdict
  unfolding grade_from
  grade_checks res = grade_from res [] tr.checks
