-- ===== src/Grader/Evaluate/Coverage.antt =====
-- Every verdict of a test requirement says which requirement it is of.
use storage_cert_harness.Common.{
  String, ◌≡◌, ◌≢◌, List, [], ◌∷◌, ◌++◌, none, some, arith, eq_iff, lookup, All, All-append,
  Option-cases, inl, inr,
}
use storage_cert_harness.Core.{TestRequirement, TestResult, Verdict}
use storage_cert_harness.Grader.Runtime.{Runtime}
use storage_cert_harness.Grader.Sla.{grade_slas}
use storage_cert_harness.Grader.Sla.Verdicts.{grade_slas_owner}
use storage_cert_harness.Grader.Checks.{grade_checks}
use storage_cert_harness.Grader.Checks.Verdicts.{grade_checks_owner}
use storage_cert_harness.Grader.Evaluate.{
  Evaluated, scored, failed, Evaluators, stamp, scored_by, grade_tr,
}

abbrev pub IsNamed : Verdict → Type 0
IsNamed v = v.tr ≢ ""

stamp-IsNamed : (id : String) (vs : List Verdict) → id ≢ "" → All IsNamed (stamp id vs)
unfolding stamp
stamp-IsNamed id [] h = tt
stamp-IsNamed id (v ∷ vs) h = (ground (arith, h, eq_iff v.tr ""), stamp-IsNamed id vs h)

-- Verdicts that all name one requirement are named.
owned-IsNamed :
    (id : String) (vs : List Verdict) → id ≢ "" → All (λ v. v.tr ≡ id) vs → All IsNamed vs
owned-IsNamed id [] h e = tt
owned-IsNamed id (v ∷ vs) h (e, es) = (rw e h, owned-IsNamed id vs h es)

scored_by-IsNamed :
    (tr : TestRequirement) (r : Evaluated) → tr.id ≢ "" → All IsNamed (scored_by tr r)
unfolding scored_by
scored_by-IsNamed tr (failed message) h = (h, tt)
scored_by-IsNamed tr (scored vs) h = stamp-IsNamed tr.id vs h

module _ (go : Runtime) (tr : TestRequirement) (res : TestResult) (named : tr.id ≢ "") where
  built_in : All IsNamed (grade_slas go tr res ++ grade_checks tr res)
  built_in =
      All-append IsNamed (grade_slas go tr res) (grade_checks tr res)
        (owned-IsNamed tr.id (grade_slas go tr res) named (grade_slas_owner go tr res))
        (owned-IsNamed tr.id (grade_checks tr res) named (grade_checks_owner tr res))

  -- Where the requirement has an id, every verdict of it names a requirement, whichever evaluator
  -- scores it and whether or not the evaluator fails.
  pub grade_tr-IsNamed : (evaluators : Evaluators) → All IsNamed (grade_tr go tr res evaluators)
  unfolding grade_tr
  grade_tr-IsNamed evaluators =
      let built = grade_slas go tr res ++ grade_checks tr res in
      elim (Option-cases (lookup tr.id evaluators)) [
        | inl n ↦ let e : grade_tr go tr res evaluators ≡ built = ground (arith, n) in rw e built_in
        | inr (none, n) ↦
            let e : grade_tr go tr res evaluators ≡ built = ground (arith, n) in rw e built_in
        | inr (some ev, n) ↦
            let e : grade_tr go tr res evaluators ≡ scored_by tr (ev tr res) = ground (arith, n) in
            rw e (scored_by-IsNamed tr (ev tr res) named)
      ]
