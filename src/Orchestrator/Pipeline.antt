-- ===== src/Orchestrator/Pipeline.antt =====
-- internal/orchestrator/orchestrator.go, `runJobWithTimeout`, with the stage interfaces of
-- internal/stages/stages.go. A tool's stages are parameters: each takes the state of the world, `S`, and
-- returns the new one with its result. What the run's context and the job's own, the clock, the registry
-- and the callbacks of the run do is the parameter `Host`.
pub mod Cleanup
pub mod Kept
pub mod Verdicts
use storage_cert_harness.Common.{
  String, Bool, List, [], ◌∷◌, ◌++◌, Option, none, some, map, ◌==◌, ◌<>◌, if◌then◌else◌, is_empty,
  is_some, not, ◌&&◌, lookup, insert,
}
use storage_cert_harness.Core.{
  Float64, Outcome, TestRequirement, Metric, TestResult, Verdict, Measurement,
}
use storage_cert_harness.Grader.Runtime.{Runtime}
use storage_cert_harness.Grader.Evaluate.{Evaluators, grade_tr}
use storage_cert_harness.Orchestrator.Items.{item_verdicts, err_trs}
use storage_cert_harness.Report.Measurements.{or_none}

-- A result or an error with its text.
pub data Attempt (A : Type 0) : Type 0 where
  done : A → Attempt A
  failed : String → Attempt A

pub record Finding : Type 0 where
  pub level : String
  pub message : String

pub record LogBundle : Type 0 where
  pub tr_id : String
  pub refs : List String
  pub payload : List (String × String)
  pub refs_by_tr : List (String × List String)

-- The stages of a `ToolIntegration`; a run's handle is its id.
pub record Stages (S : Type 0) : Type 0 where
  pub preflight : Option (List TestRequirement → S → S × Attempt (List Finding))
  pub provisioner : Option (List TestRequirement → S → S × Attempt (Unit {0}))
  pub runner : Option (List TestRequirement → S → S × Attempt String)
  pub log_collector : Option (String → S → S × Attempt LogBundle)
  pub result_parser : Option (LogBundle → S → S × Attempt (List TestResult))
  pub teardown : Option (S → S)
  pub evaluators : Evaluators

pub record Host (S : Type 0) : Type 0 where
  -- `parent.Err()`, of the run's context
  pub parent_err : S → Option String
  -- `context.WithTimeout`: the job gets a context of its own, in place of the one before
  pub with_timeout : S → S
  -- `ctx.Err()` of the job's context, and whether it is `context.DeadlineExceeded`
  pub ctx_err : S → Option String
  pub deadline_exceeded : S → Bool
  pub set_stage : String → List TestRequirement → S → S
  pub record_artifacts : Option (List TestRequirement → List String → S → S)
  -- the seconds from one moment to another, and the printed time limit
  pub since : S → S → Float64
  pub limit : String
  pub go : Runtime

-- A step of the pipeline: it changes the world and ends with a result or a reason to stop.
abbrev pub M : Type 0 → Type 0 → Type 0
M S A = S → S × Attempt A

infixl 5 ◌>>=◌ ◌>>◌
abbrev pub ◌>>=◌ : {S A B : Type 0} → M S A → (A → M S B) → M S B
◌>>=◌ m f s = let (s', r) = m s in elim r [ done a ↦ f a s' | failed e ↦ (s', failed e) ]

abbrev pub ◌>>◌ : {S B : Type 0} → M S (Unit {0}) → M S B → M S B
m >> k = m >>= λ _. k

abbrev pub pure : {S A : Type 0} → A → M S A
pure a s = (s, done a)

abbrev modify : {S : Type 0} → (S → S) → M S (Unit {0})
modify f s = (f s, done tt)

module _ {S : Type 0} (host : Host S) (trs : List TestRequirement) where
  -- `if err := ctx.Err(); err != nil { return … }`
  check_ctx : String → M S (Unit {0})
  check_ctx label s = elim (host.ctx_err s) [
    | none ↦ (s, done tt)
    | some e ↦ (s, failed (label <> e))
  ]

  labelled : {A : Type 0} → String → M S A → M S A
  labelled label m s =
      let (s', r) = m s in elim r [ done a ↦ (s', done a) | failed e ↦ (s', failed (label <> e)) ]

  -- One stage: its name is set, it is called, and both its error and the context's end the pipeline.
  stage : {A : Type 0} → String → String → M S A → M S A
  unfolding labelled check_ctx
  stage name label m = do
    modify (host.set_stage name trs)
    a ← labelled label m
    check_ctx label
    pure a

  -- The loop over the findings: the first one at level "error" ends the pipeline.
  read_findings : List Finding → M S (Unit {0})
  read_findings [] s = (s, done tt)
  read_findings (f ∷ fs) s =
      let rest = read_findings fs s in
      if f.level == "error" then (s, failed ("preflight failed: " <> f.message)) else rest

  run_preflight : Option (List TestRequirement → M S (List Finding)) → M S (Unit {0})
  unfolding stage read_findings
  run_preflight none = pure tt
  run_preflight (some check) = stage "preflight" "preflight: " (check trs) >>= read_findings

  run_provisioner : Option (List TestRequirement → M S (Unit {0})) → M S (Unit {0})
  unfolding stage
  run_provisioner none = pure tt
  run_provisioner (some provision) = stage "provision" "provision: " (provision trs)

  run_runner : Option (List TestRequirement → M S String) → M S String
  unfolding stage
  run_runner none = pure ""
  run_runner (some run) = stage "run" "run: " (run trs)

  abbrev empty_bundle : LogBundle
  empty_bundle = record { tr_id = ""; refs = []; payload = []; refs_by_tr = [] }

  -- One call for each requirement that has references of its own.
  record_each :
      (List TestRequirement → List String → S → S)
      → List (String × List String)
      → List TestRequirement
      → S
      → S
  record_each rec by_tr [] s = s
  record_each rec by_tr (tr ∷ rest) s =
      let refs = or_none (lookup tr.id by_tr) in
      record_each rec by_tr rest (if is_empty refs then s else rec (tr ∷ []) refs s)

  record_refs : Option (List TestRequirement → List String → S → S) → LogBundle → S → S
  unfolding record_each
  record_refs none lb s = s
  record_refs (some rec) lb s =
      if is_empty lb.refs_by_tr then rec trs lb.refs s else record_each rec lb.refs_by_tr trs s

  run_collector : Option (String → M S LogBundle) → String → M S LogBundle
  unfolding stage record_refs
  run_collector none handle = pure empty_bundle
  run_collector (some collect) handle = do
    lb ← stage "collect" "collect: " (collect handle)
    modify (record_refs host.record_artifacts lb)
    pure lb

  run_parser : Option (LogBundle → M S (List TestResult)) → LogBundle → M S (List TestResult)
  unfolding stage
  run_parser none logs = pure []
  run_parser (some parse) logs = stage "parse" "parse: " (parse logs)

  pub pipeline : Stages S → M S (List TestResult)
  unfolding run_preflight run_provisioner run_runner run_collector run_parser
  pipeline ti = do
    run_preflight ti.preflight
    run_provisioner ti.provisioner
    handle ← run_runner ti.runner
    logs ← run_collector ti.log_collector handle
    run_parser ti.result_parser logs

  -- `byID[r.TRID] = r`: of the results with one id the last is kept.
  abbrev by_id : List (String × TestResult) → List TestResult → List (String × TestResult)
  by_id m [] = m
  by_id m (r ∷ rs) = by_id (insert r.tr_id r m) rs

  abbrev measured : TestRequirement → Metric → Measurement
  measured tr m = record {
    variant = tr.variant;
    tr = tr.id;
    level = 0;
    scenario = "";
    name = m.name;
    value = m.value;
    unit = m.unit;
    percentile = m.percentile;
  }

  abbrev with_variant : TestRequirement → Verdict → Verdict
  with_variant tr v = record v { variant = tr.variant }

  -- The verdicts and the measurements of one requirement, from its result where there is one.
  graded : Evaluators → TestRequirement → Option TestResult → List Verdict × List Measurement
  graded evaluators tr none =
      (item_verdicts tr Outcome.error "no result produced for test requirement", [])
  graded evaluators tr (some r) =
      (map (with_variant tr) (grade_tr host.go tr r evaluators), map (measured tr) r.metrics)

  grade_all :
      Evaluators
      → List (String × TestResult)
      → List TestRequirement
      → List Verdict × List Measurement
      → List Verdict × List Measurement
  unfolding graded
  grade_all evaluators results [] out = out
  grade_all evaluators results (tr ∷ rest) out =
      let (vs, ms) = graded evaluators tr (lookup tr.id results) in
      grade_all evaluators results rest (out.0 ++ vs, out.1 ++ ms)

  scored_by : Evaluators → Attempt (List TestResult) → List Verdict × List Measurement
  unfolding grade_all
  scored_by evaluators (failed reason) = (err_trs trs reason, [])
  scored_by evaluators (done results) = grade_all evaluators (by_id [] results) trs ([], [])

  timeouts : List Verdict → List TestRequirement → List Verdict
  timeouts out [] = out
  timeouts out (tr ∷ rest) =
      timeouts (out ++ item_verdicts tr Outcome.fail ("test exceeded " <> host.limit <> " limit"))
        rest

  -- The job's context met its limit, and the run goes on.
  abbrev pub timed_out : S → Bool
  timed_out s = host.deadline_exceeded s && not (is_some (host.parent_err s))

  -- The deferred calls of the timeout and of the teardown, in the order in which they run.
  override_timeout : S → List Verdict × List Measurement → List Verdict × List Measurement
  unfolding timeouts
  override_timeout s out = if timed_out s then (timeouts [] trs, []) else out

  tear_down : Option (S → S) → S → S
  tear_down none s = s
  tear_down (some teardown) s = teardown (host.set_stage "teardown" trs s)

  abbrev stamp : Float64 → Verdict → Verdict
  stamp d v = record v { duration_s = d }

  -- The call with a tool that is registered.
  with_tool : Stages S → S → S × List Verdict × List Measurement
  unfolding pipeline scored_by override_timeout tear_down
  with_tool ti s =
      let (s', r) = pipeline ti s in
      let out = override_timeout s' (scored_by ti.evaluators r) in
      (tear_down ti.teardown s', out.0, out.1)

  run_body : String → Option (Stages S) → S → S × List Verdict × List Measurement
  unfolding with_tool
  run_body tool ti s = elim (host.ctx_err s) [
    | some e ↦ (s, err_trs trs ("cancelled: " <> e), [])
    | none ↦ elim ti [
      | none ↦ (s, err_trs trs ("tool " <> host.go.quote tool <> " not registered"), [])
      | some ti ↦ with_tool ti s
    ]
  ]

  -- `runJobWithTimeout`: `ti` is what the registry has for the first of the job's requirements.
  unfoldable pub run_job_with_timeout :
      String → Option (Stages S) → S → S × List Verdict × List Measurement
  unfolding run_body
  run_job_with_timeout tool ti s =
      let s = host.with_timeout s in
      let (s', vs, ms) = run_body tool ti s in (s', map (stamp (host.since s s')) vs, ms)
