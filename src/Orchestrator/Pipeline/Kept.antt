-- ===== src/Orchestrator/Pipeline/Kept.antt =====
-- What every stage and callback keeps, a job keeps.
use storage_cert_harness.Common.{
  String, ◌≡◌, ◌⊎◌, refl, ◌==◌, List, [], ◌∷◌, Option, none, some, Bool-cases, Option-cases, inl,
  inr, is_empty, lookup,
}
use storage_cert_harness.Core.{TestRequirement, TestResult}
use storage_cert_harness.Report.Measurements.{or_none}
use storage_cert_harness.Orchestrator.Pipeline.{
  Attempt, done, failed, Finding, LogBundle, Stages, Host, M, ◌>>=◌, pure, check_ctx, labelled,
  stage, read_findings, run_preflight, run_provisioner, run_runner, record_each, record_refs,
  run_collector, run_parser, pipeline, tear_down, with_tool, run_body, run_job_with_timeout,
}

-- The outcome of an attempt, as a fact.
pub Attempt-cases :
    {A : Type 0} (a : Attempt A) → ((x : A) × (a ≡ done x)) ⊎ ((e : String) × (a ≡ failed e))
Attempt-cases (done x) = inl (x, refl)
Attempt-cases (failed e) = inr (e, refl)

-- The predicate holds of what there is.
abbrev pub OfSome : {A : Type 0} → (A → Type 0) → Option A → Type 0
OfSome P none = Unit
OfSome P (some a) = P a

module _ {S : Type 0} (Q : S → Type 0) where
  abbrev pub Keeps : (S → S) → Type 0
  Keeps f = (s : S) → Q s → Q (f s)

  abbrev pub KeepsM : {A : Type 0} → M S A → Type 0
  KeepsM m = (s : S) → Q s → Q (m s).0

  -- Every stage of the tool keeps it.
  abbrev pub StagesKeep : Stages S → Type 0
  StagesKeep ti =
      OfSome (λ f. (trs : List TestRequirement) → KeepsM (f trs)) ti.preflight
      × OfSome (λ f. (trs : List TestRequirement) → KeepsM (f trs)) ti.provisioner
      × OfSome (λ f. (trs : List TestRequirement) → KeepsM (f trs)) ti.runner
      × OfSome (λ f. (handle : String) → KeepsM (f handle)) ti.log_collector
      × OfSome (λ f. (logs : LogBundle) → KeepsM (f logs)) ti.result_parser
      × OfSome Keeps ti.teardown

  -- The callbacks of the run keep it, and so does a new context for a job.
  abbrev pub HostKeeps : Host S → Type 0
  HostKeeps host =
      Keeps host.with_timeout
      × ((name : String) (trs : List TestRequirement) → Keeps (host.set_stage name trs))
      × OfSome (λ rec. (trs : List TestRequirement) (refs : List String) → Keeps (rec trs refs))
          host.record_artifacts

  bind-Keeps :
      {A B : Type 0} (m : M S A) (f : A → M S B)
      → KeepsM m
      → ((a : A) → KeepsM (f a))
      → KeepsM (m >>= f)
  bind-Keeps m f km kf s q = elim (Attempt-cases (m s).1) [
    | inl (a, e) ↦ rw (e, ◌>>=◌) (kf a (m s).0 (km s q))
    | inr (r, e) ↦ rw (e, ◌>>=◌) (km s q)
  ]

  module _ (host : Host S) (hk : HostKeeps host) (trs : List TestRequirement) where
    check_ctx-Keeps : (label : String) → KeepsM (check_ctx host trs label)
    unfolding check_ctx
    check_ctx-Keeps label s q = elim (Option-cases (host.ctx_err s)) [
      | inl e ↦ rw (e, check_ctx) q
      | inr (x, e) ↦ rw (e, check_ctx) q
    ]

    labelled-Keeps :
        {A : Type 0} (label : String) (m : M S A) → KeepsM m → KeepsM (labelled host trs label m)
    unfolding labelled
    labelled-Keeps label m km s q = elim (Attempt-cases (m s).1) [
      | inl (a, e) ↦ rw (e, labelled) (km s q)
      | inr (r, e) ↦ rw (e, labelled) (km s q)
    ]

    stage-Keeps :
        {A : Type 0} (name label : String) (m : M S A)
        → KeepsM m
        → KeepsM (stage host trs name label m)
    unfolding stage
    stage-Keeps {A} name label m km s q =
        let last : A → M S A = λ a. check_ctx host trs label >>= λ u. pure a in
        bind-Keeps (labelled host trs label m) last (labelled-Keeps label m km)
          (λ a.
            bind-Keeps (check_ctx host trs label) (λ u. pure a) (check_ctx-Keeps label)
              (λ u s q. q))
          (host.set_stage name trs s) (hk.1 name trs s q)

    read_findings-Keeps : (fs : List Finding) → KeepsM (read_findings host trs fs)
    unfolding read_findings
    read_findings-Keeps [] s q = q
    read_findings-Keeps (f ∷ fs) s q = elim (Bool-cases (f.level == "error")) [
      | inl t ↦ rw t q
      | inr f' ↦ rw f' (read_findings-Keeps fs s q)
    ]

    preflight-Keeps :
        (o : Option (List TestRequirement → M S (List Finding)))
        → OfSome (λ f. (trs : List TestRequirement) → KeepsM (f trs)) o
        → KeepsM (run_preflight host trs o)
    unfolding run_preflight
    preflight-Keeps none k s q = q
    preflight-Keeps (some f) k s q =
        bind-Keeps (stage host trs "preflight" "preflight: " (f trs)) (read_findings host trs)
          (stage-Keeps "preflight" "preflight: " (f trs) (k trs)) read_findings-Keeps s q

    provisioner-Keeps :
        (o : Option (List TestRequirement → M S (Unit {0})))
        → OfSome (λ f. (trs : List TestRequirement) → KeepsM (f trs)) o
        → KeepsM (run_provisioner host trs o)
    unfolding run_provisioner
    provisioner-Keeps none k s q = q
    provisioner-Keeps (some f) k s q = stage-Keeps "provision" "provision: " (f trs) (k trs) s q

    runner-Keeps :
        (o : Option (List TestRequirement → M S String))
        → OfSome (λ f. (trs : List TestRequirement) → KeepsM (f trs)) o
        → KeepsM (run_runner host trs o)
    unfolding run_runner
    runner-Keeps none k s q = q
    runner-Keeps (some f) k s q = stage-Keeps "run" "run: " (f trs) (k trs) s q

    record_each-Keeps :
        (rec : List TestRequirement → List String → S → S) (by_tr : List (String × List String))
        (rest : List TestRequirement)
        → ((trs : List TestRequirement) (refs : List String) → Keeps (rec trs refs))
        → Keeps (record_each host trs rec by_tr rest)
    unfolding record_each
    record_each-Keeps rec by_tr [] k s q = q
    record_each-Keeps rec by_tr (tr ∷ rest) k s q =
        elim (Bool-cases (is_empty (or_none (lookup tr.id by_tr)))) [
          | inl t ↦ rw t (record_each-Keeps rec by_tr rest k s q)
          | inr f ↦ rw f (record_each-Keeps rec by_tr rest k _ (k (tr ∷ []) _ s q))
        ]

    record_refs-Keeps :
        (o : Option (List TestRequirement → List String → S → S)) (lb : LogBundle)
        → OfSome (λ rec. (trs : List TestRequirement) (refs : List String) → Keeps (rec trs refs)) o
        → Keeps (record_refs host trs o lb)
    unfolding record_refs
    record_refs-Keeps none lb k s q = q
    record_refs-Keeps (some rec) lb k s q = elim (Bool-cases (is_empty lb.refs_by_tr)) [
      | inl t ↦ rw t (k trs lb.refs s q)
      | inr f ↦ rw f (record_each-Keeps rec lb.refs_by_tr trs k s q)
    ]

    collector-Keeps :
        (o : Option (String → M S LogBundle)) (handle : String)
        → OfSome (λ f. (handle : String) → KeepsM (f handle)) o
        → KeepsM (run_collector host trs o handle)
    unfolding run_collector
    collector-Keeps none handle k = λ s q. q
    collector-Keeps (some f) handle k =
        bind-Keeps (stage host trs "collect" "collect: " (f handle))
          (λ lb s. (record_refs host trs host.record_artifacts lb s, done lb))
          (stage-Keeps "collect" "collect: " (f handle) (k handle))
          (λ lb s q. record_refs-Keeps host.record_artifacts lb hk.2 s q)

    parser-Keeps :
        (o : Option (LogBundle → M S (List TestResult)))
        → OfSome (λ f. (logs : LogBundle) → KeepsM (f logs)) o
        → (logs : LogBundle) → KeepsM (run_parser host trs o logs)
    unfolding run_parser
    parser-Keeps none k logs s q = q
    parser-Keeps (some f) k logs s q = stage-Keeps "parse" "parse: " (f logs) (k logs) s q

    pipeline-Keeps : (ti : Stages S) → StagesKeep ti → KeepsM (pipeline host trs ti)
    unfolding pipeline
    pipeline-Keeps ti (pre, prov, run, col, par, tear) =
        let parse : LogBundle → M S (List TestResult) = run_parser host trs ti.result_parser in
        let collect : String → M S (List TestResult) =
          λ handle. run_collector host trs ti.log_collector handle >>= parse in
        let start : M S (List TestResult) = run_runner host trs ti.runner >>= collect in
        let provision : M S (List TestResult) =
          run_provisioner host trs ti.provisioner >>= λ _. start in
        bind-Keeps (run_preflight host trs ti.preflight) (λ _. provision)
          (preflight-Keeps ti.preflight pre)
          (λ _.
            bind-Keeps (run_provisioner host trs ti.provisioner) (λ _. start)
              (provisioner-Keeps ti.provisioner prov)
              (λ _.
                bind-Keeps (run_runner host trs ti.runner) collect (runner-Keeps ti.runner run)
                  (λ handle.
                    bind-Keeps (run_collector host trs ti.log_collector handle) parse
                      (collector-Keeps ti.log_collector handle col)
                      (parser-Keeps ti.result_parser par))))

    tear_down-Keeps : (t : Option (S → S)) → OfSome Keeps t → Keeps (tear_down host trs t)
    unfolding tear_down
    tear_down-Keeps none k s q = q
    tear_down-Keeps (some f) k s q = k _ (hk.1 "teardown" trs s q)

    run_body-Keeps :
        (tool : String) (o : Option (Stages S))
        → OfSome StagesKeep o
        → (s : S) → Q s
        → Q (run_body host trs tool o s).0
    unfolding run_body with_tool
    run_body-Keeps tool none k s q = elim (Option-cases (host.ctx_err s)) [
      | inl e ↦ rw (e, run_body) q
      | inr (x, e) ↦ rw (e, run_body) q
    ]
    run_body-Keeps tool (some ti) k s q = elim (Option-cases (host.ctx_err s)) [
      | inl e ↦ rw (e, run_body) (tear_down-Keeps ti.teardown k.5 _ (pipeline-Keeps ti k s q))
      | inr (x, e) ↦ rw (e, run_body) q
    ]

    -- Whatever the new context, each stage and each callback of the run keep, the job keeps.
    pub run_job-Keeps :
        (tool : String) (o : Option (Stages S))
        → OfSome StagesKeep o
        → (s : S) → Q s
        → Q (run_job_with_timeout host trs tool o s).0
    unfolding run_job_with_timeout
    run_job-Keeps tool o k s q = run_body-Keeps tool o k (host.with_timeout s) (hk.0 s q)
