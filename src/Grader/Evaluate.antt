-- ===== src/Grader/Evaluate.antt =====
-- internal/grader/grader.go and evaluator.go: a test requirement is scored by its tool's own evaluator
-- where there is one, else by the built-in rules.
pub mod Coverage
use storage_cert_harness.Common.{
  String, List, [], ◌∷◌, ◌++◌, Option, none, some, ◌==◌, lookup, if◌then◌else◌, is_empty, ◌||◌, not,
  map,
}
use storage_cert_harness.Core.{Outcome, TestRequirement, TestResult, Verdict}
use storage_cert_harness.Grader.Runtime.{Runtime}
use storage_cert_harness.Grader.Sla.{verdict, grade_slas}
use storage_cert_harness.Grader.Checks.{grade_checks}

-- What an evaluator returns: verdicts, or an error with its text.
pub data Evaluated : Type 0 where
  scored : List Verdict → Evaluated
  failed : String → Evaluated

abbrev pub Evaluator : Type 0
Evaluator = TestRequirement → TestResult → Evaluated

-- `toolEvaluators`: a key may stand for a nil evaluator.
abbrev pub Evaluators : Type 0
Evaluators = List (String × Option Evaluator)

-- A verdict with no test requirement takes the scored one's id.
stamp : String → List Verdict → List Verdict
stamp id [] = []
stamp id (v ∷ vs) = (if v.tr == "" then record v { tr = id } else v) ∷ stamp id vs

scored_by : TestRequirement → Evaluated → List Verdict
unfolding stamp
scored_by tr (failed message) = verdict tr.id "custom" Outcome.error message ∷ []
scored_by tr (scored vs) = stamp tr.id vs

unfoldable pub grade_tr : Runtime → TestRequirement → TestResult → Evaluators → List Verdict
unfolding scored_by grade_slas grade_checks
grade_tr go tr res evaluators = elim (lookup tr.id evaluators) [
  | some (some ev) ↦ scored_by tr (ev tr res)
  | _ ↦ grade_slas go tr res ++ grade_checks tr res
]

-- `""` becomes an error.
abbrev pub native_or_error : Outcome → Outcome
native_or_error Outcome.unset = Outcome.error
native_or_error o = o

-- `nativeOrGraded.Evaluate`: the standard rules where the test requirement has items, else one verdict
-- with the tool's own outcome.
unfoldable pub native_or_graded : Runtime → String → String → Evaluator
unfolding grade_tr
native_or_graded go item reason tr res =
    if not (is_empty tr.slas) || not (is_empty tr.checks)
    then scored (grade_tr go tr res [])
    else scored (verdict tr.id item (native_or_error res.native) reason ∷ [])
