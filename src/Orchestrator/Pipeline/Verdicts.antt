-- ===== src/Orchestrator/Pipeline/Verdicts.antt =====
-- What a job reports, on each of its paths.
use storage_cert_harness.Common.{
  String, ◌≡◌, refl, true, false, ◌&&◌, List, [], ◌∷◌, ◌++◌, map, Option, none, some, arith, any,
  eq_refl, is_empty, All, lookup, Bool-cases, Option-cases, All-append, ◌<>◌, inl, inr,
}
use storage_cert_harness.Core.{
  Outcome, Verdict, Measurement, Sla, Check, TestRequirement, TestResult,
}
use storage_cert_harness.Orchestrator.Items.{item_verdict, item_verdicts, err_trs}
use storage_cert_harness.Orchestrator.Items.Labels.{check_label, labels, item_verdicts-map}
use storage_cert_harness.Orchestrator.Items.Summary.{is_of}
use storage_cert_harness.Grader.Bars.{sla_item}
use storage_cert_harness.Grader.Runtime.{Runtime}
use storage_cert_harness.Grader.Sla.{grade_sla, grade_slas}
use storage_cert_harness.Grader.Sla.Verdicts.{grade_slas-map, grade_slas_owner}
use storage_cert_harness.Grader.Checks.{grade_check, grade_checks}
use storage_cert_harness.Grader.Checks.Verdicts.{grade_checks-map, grade_checks_owner}
use storage_cert_harness.Grader.Evaluate.{Evaluators, grade_tr}
use storage_cert_harness.Orchestrator.Pipeline.{
  Attempt, done, failed, Stages, Host, pipeline, graded, scored_by, override_timeout, timed_out,
  with_tool, run_body, run_job_with_timeout,
}

-- Some verdict is the execution's.
abbrev pub Covers : TestRequirement → List Verdict → Type 0
Covers tr vs = any (is_of tr) vs ≡ true

item_verdict-is_of :
    (tr : TestRequirement) (o : Outcome) (reason item : String)
    → is_of tr (item_verdict tr o reason item) ≡ true
item_verdict-is_of tr o reason item = ground (arith, eq_refl tr.id, eq_refl tr.variant)

is_empty-map-append :
    (xs : List Sla) (ys : List Check)
    → (is_empty xs && is_empty ys) ≡ false
    → is_empty (map sla_item xs ++ map check_label ys) ≡ false
is_empty-map-append [] [] h = cc
is_empty-map-append [] (y ∷ ys) h = refl
is_empty-map-append (x ∷ xs) ys h = refl

labels-nonempty : (tr : TestRequirement) → is_empty (labels tr) ≡ false
labels-nonempty tr = elim (Bool-cases (is_empty tr.slas && is_empty tr.checks)) [
  | inl t ↦ rw t refl
  | inr f ↦ rw f (is_empty-map-append tr.slas tr.checks f)
]

item_verdicts-Covers :
    (tr : TestRequirement) (o : Outcome) (reason : String) → Covers tr (item_verdicts tr o reason)
item_verdicts-Covers tr o reason =
    rw (item_verdicts-map tr o reason) (any_item (labels tr) (labels-nonempty tr))
  where
    any_item :
        (items : List String)
        → is_empty items ≡ false
        → any (is_of tr) (map (item_verdict tr o reason) items) ≡ true
    any_item [] h = cc
    any_item (l ∷ items) h = ground (arith, item_verdict-is_of tr o reason l)

any-stamped :
    (tr : TestRequirement) (f : Verdict → Verdict) (vs : List Verdict)
    → ((v : Verdict) → is_of tr (f v) ≡ is_of tr v)
    → any (is_of tr) (map f vs) ≡ any (is_of tr) vs
any-stamped tr f [] h = refl
any-stamped tr f (v ∷ vs) h = ground (arith, h v, any-stamped tr f vs h)

abbrev given_variant : TestRequirement → Verdict → Verdict
given_variant tr v = record v { variant = tr.variant }

-- Verdicts of one requirement, given its variant, are the execution's.
owned-Covers :
    (tr : TestRequirement) (vs : List Verdict)
    → All (λ v. v.tr ≡ tr.id) vs
    → is_empty vs ≡ false
    → Covers tr (map (given_variant tr) vs)
owned-Covers tr [] owned h = cc
owned-Covers tr (v ∷ vs) (e, owned) h = ground (arith, e, eq_refl tr.id, eq_refl tr.variant)

is_empty-grade :
    (go : Runtime) (tr : TestRequirement) (res : TestResult)
    → (is_empty tr.slas && is_empty tr.checks) ≡ false
    → is_empty (grade_slas go tr res ++ grade_checks tr res) ≡ false
is_empty-grade go tr res h =
    rw (grade_slas-map go tr res, grade_checks-map tr res) (either tr.slas tr.checks h)
  where
    either :
        (xs : List Sla) (ys : List Check)
        → (is_empty xs && is_empty ys) ≡ false
        → is_empty (map (grade_sla go tr res) xs ++ map (grade_check tr res) ys) ≡ false
    either [] [] h = cc
    either [] (y ∷ ys) h = refl
    either (x ∷ xs) ys h = refl

-- The tool, where it is registered, has no evaluator of its own for the requirement.
abbrev pub IsBuiltIn : {S : Type 0} → TestRequirement → Option (Stages S) → Type 0
IsBuiltIn tr none = Unit
IsBuiltIn tr (some ti) = lookup tr.id ti.evaluators ≡ none

module _ {S : Type 0} (host : Host S) (tr : TestRequirement)
    (has_item : (is_empty tr.slas && is_empty tr.checks) ≡ false) where
  abbrev one : List TestRequirement
  one = tr ∷ []

  built_in-Covers :
      (evaluators : Evaluators) (r : TestResult)
      → lookup tr.id evaluators ≡ none
      → Covers tr (map (given_variant tr) (grade_tr host.go tr r evaluators))
  unfolding grade_tr
  built_in-Covers evaluators r none_own =
      let e : grade_tr host.go tr r evaluators ≡ grade_slas host.go tr r ++ grade_checks tr r =
        ground (arith, none_own) in
      rw e (
        owned-Covers tr _
          (All-append (λ v. v.tr ≡ tr.id) (grade_slas host.go tr r) (grade_checks tr r)
            (grade_slas_owner host.go tr r) (grade_checks_owner tr r))
          (is_empty-grade host.go tr r has_item))

  graded-Covers :
      (evaluators : Evaluators) (r : Option TestResult)
      → lookup tr.id evaluators ≡ none
      → Covers tr (graded host one evaluators tr r).0
  unfolding graded
  graded-Covers evaluators none h =
      item_verdicts-Covers tr Outcome.error "no result produced for test requirement"
  graded-Covers evaluators (some r) h = built_in-Covers evaluators r h

  pub err_trs-Covers : (reason : String) → Covers tr (err_trs one reason)
  unfolding err_trs
  err_trs-Covers reason = item_verdicts-Covers tr Outcome.error reason

  scored_by-Covers :
      (evaluators : Evaluators) (r : Attempt (List TestResult))
      → lookup tr.id evaluators ≡ none
      → Covers tr (scored_by host one evaluators r).0
  unfolding scored_by
  scored_by-Covers evaluators (failed reason) h = err_trs-Covers reason
  scored_by-Covers evaluators (done rs) h = graded-Covers evaluators _ h

  override-Covers :
      (s : S) (out : List Verdict × List Measurement)
      → Covers tr out.0
      → Covers tr (override_timeout host one s out).0
  unfolding override_timeout
  override-Covers s out h = elim (Bool-cases (timed_out host one s)) [
    | inl late ↦
        rw late (item_verdicts-Covers tr Outcome.fail ("test exceeded " <> host.limit <> " limit"))
    | inr in_time ↦ rw in_time h
  ]

  with_tool-Covers :
      (ti : Stages S) (s : S)
      → lookup tr.id ti.evaluators ≡ none
      → Covers tr (with_tool host one ti s).1
  unfolding with_tool
  with_tool-Covers ti s h =
      override-Covers _ _ (scored_by-Covers ti.evaluators (pipeline host one ti s).1 h)

  run_body-Covers :
      (tool : String) (ti : Option (Stages S)) (s : S)
      → IsBuiltIn tr ti
      → Covers tr (run_body host one tool ti s).1
  unfolding run_body
  run_body-Covers tool none s h = elim (Option-cases (host.ctx_err s)) [
    | inr (e, dead) ↦ rw (dead, run_body) (err_trs-Covers ("cancelled: " <> e))
    | inl alive ↦
        rw (alive, run_body) (err_trs-Covers ("tool " <> host.go.quote tool <> " not registered"))
  ]
  run_body-Covers tool (some ti) s h = elim (Option-cases (host.ctx_err s)) [
    | inr (e, dead) ↦ rw (dead, run_body) (err_trs-Covers ("cancelled: " <> e))
    | inl alive ↦ rw (alive, run_body) (with_tool-Covers ti s h)
  ]

  -- A job for a requirement that has a descriptor or a check, and no evaluator of its tool's own, reports
  -- at least one verdict of the execution, whatever happens: the run is cancelled, the tool is not
  -- registered, a stage fails, the time limit is met, or there is no result for the requirement.
  pub run_job-Covers :
      (tool : String) (ti : Option (Stages S)) (s : S)
      → IsBuiltIn tr ti
      → Covers tr (run_job_with_timeout host one tool ti s).1
  unfolding run_job_with_timeout
  run_job-Covers tool ti s h =
      rw
        (any-stamped tr
          (λ v. record v {
            duration_s =
                host.since (host.with_timeout s)
                  (run_body host one tool ti (host.with_timeout s)).0;
          })
          (run_body host one tool ti (host.with_timeout s)).1 (λ v. refl))
        (run_body-Covers tool ti (host.with_timeout s) h)
