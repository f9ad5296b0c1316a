-- ===== src/Orchestrator/Executions.antt =====
-- internal/orchestrator/orchestrator.go, `runToolExecutionsWithTimeout`: the executions of one tool, one
-- after the other, each with its own job and its progress. The directories of the variants, the
-- registry and the callback of the progress tracker are the parameter `Env`.
pub mod Each
pub mod Ended
pub mod Concluded
pub mod Covered
use storage_cert_harness.Common.{
  String, List, [], ◌∷◌, ◌++◌, Option, none, some, ◌==◌, ◌<>◌, if◌then◌else◌, keep, not,
}
use storage_cert_harness.Core.{Outcome, TestRequirement, Verdict, Measurement}
use storage_cert_harness.Orchestrator.Items.{err_trs, summarize_tr}
use storage_cert_harness.Orchestrator.Progress.{ProgressTracker, Event, start, finish, abort}
use storage_cert_harness.Orchestrator.Pipeline.{Stages, Host, run_job_with_timeout}

pub record Env (S : Type 0) : Type 0 where
  pub host : Host S
  pub work_dir : String
  -- `resolveTool`, with the stages as they work in a directory
  pub tool_at : String → TestRequirement → Option (Stages S)
  pub variant_dir : TestRequirement → String
  -- `os.MkdirAll`, with its error
  pub mkdir_all : String → S → S × Option String
  pub on_state_change : Event → S → S

-- The run and its progress.
pub record World (S : Type 0) : Type 0 where
  pub state : S
  pub progress : ProgressTracker

-- The world with the lists `vs` and `ms`.
pub record Ran (S : Type 0) : Type 0 where
  pub world : World S
  pub verdicts : List Verdict
  pub measurements : List Measurement

module _ {S : Type 0} (env : Env S) (tool : String) where
  abbrev notify : Option Event → S → S
  notify none s = s
  notify (some e) s = env.on_state_change e s

  -- A call of the tracker, with the callback that it makes.
  abbrev advance : (ProgressTracker → ProgressTracker × Option Event) → World S → World S
  advance op w = let (p, e) = op w.progress in record { state = notify e w.state; progress = p }

  -- The context is the run's, not the job's: `if ctx.Err() != nil { progress.abort(…) } else { progress.complete(…) }`
  conclude : TestRequirement → Outcome → World S → World S
  conclude tr o w = elim (env.host.parent_err w.state) [
    | some e ↦ advance (abort tr Outcome.error) w
    | none ↦ advance (finish tr o) w
  ]

  -- The job of one execution.
  pub run_in : String → Ran S → TestRequirement → Ran S
  unfolding conclude
  run_in dir r tr =
      let w = advance (start tr) r.world in
      let (s, v, m) = run_job_with_timeout env.host (tr ∷ []) tool (env.tool_at dir tr) w.state in
      record {
        world = conclude tr (summarize_tr v tr) (record w { state = s });
        verdicts = r.verdicts ++ v;
        measurements = r.measurements ++ m;
      }

  -- The world once the directory of the variant was asked for.
  abbrev pub asked : Ran S → TestRequirement → Ran S
  asked r tr = record r {
    world = record r.world { state = (env.mkdir_all (env.variant_dir tr) r.world.state).0 };
  }

  pub run_variant : Ran S → TestRequirement → Ran S
  unfolding run_in conclude
  run_variant r tr =
      let r' = asked r tr in
      elim (env.mkdir_all (env.variant_dir tr) r.world.state).1 [
        | some e ↦ record r {
          world = conclude tr Outcome.error r'.world;
          verdicts = r.verdicts ++ err_trs (tr ∷ []) ("variant workdir: " <> e);
        }
        | none ↦ run_in (env.variant_dir tr) r' tr
      ]

  run_ordinary : Ran S → List TestRequirement → Ran S
  unfolding run_in
  run_ordinary r [] = r
  run_ordinary r (tr ∷ trs) = run_ordinary (run_in env.work_dir r tr) trs

  run_variants : Ran S → List TestRequirement → Ran S
  unfolding run_variant
  run_variants r [] = r
  run_variants r (tr ∷ trs) = run_variants (if tr.variant == "" then r else run_variant r tr) trs

  unfoldable pub run_tool_executions : List TestRequirement → World S → Ran S
  unfolding run_ordinary run_variants
  run_tool_executions trs w =
      run_variants
        (run_ordinary (record { world = w; verdicts = []; measurements = [] })
          (keep (λ tr. tr.variant == "") trs))
        trs
