-- ===== src/Orchestrator/Pipeline/Cleanup.antt =====
-- What a job leaves behind.
use storage_cert_harness.Common.{String, ◌≡◌, List, Option, none, some, arith}
use storage_cert_harness.Core.{TestRequirement}
use storage_cert_harness.Orchestrator.Pipeline.{
  Stages, Host, run_job_with_timeout, run_body, with_tool, tear_down,
}

module _ {S : Type 0} (host : Host S) (trs : List TestRequirement) (tool : String) where
  -- Of a tool that is registered and a context that is alive the job's body runs.
  run_body-with_tool :
      (ti : Stages S) (s : S)
      → host.ctx_err s ≡ none
      → run_body host trs tool (some ti) s ≡ with_tool host trs ti s
  unfolding run_body
  run_body-with_tool ti s alive = ground (arith, alive)

  torn_down :
      (Clean : S → Type 0) (t : Option (S → S)) (teardown : S → S) (s : S)
      → t ≡ some teardown
      → ((x : S) → Clean (teardown x))
      → Clean (tear_down host trs t s)
  unfolding tear_down
  torn_down Clean t teardown s has cleans = rw has (cleans _)

  -- A job of a registered tool that gets a context that is alive ends with the tool's teardown, whichever stage
  -- fails and whether or not the time limit is met: what the teardown always establishes holds of the
  -- state in which the job ends.
  pub run_job-tears_down :
      (Clean : S → Type 0) (ti : Stages S) (teardown : S → S) (s : S)
      → ti.teardown ≡ some teardown
      → ((x : S) → Clean (teardown x))
      → host.ctx_err (host.with_timeout s) ≡ none
      → Clean (run_job_with_timeout host trs tool (some ti) s).0
  unfolding run_job_with_timeout
  run_job-tears_down Clean ti teardown s has cleans alive =
      rw (run_body-with_tool ti (host.with_timeout s) alive)
        (unfold with_tool in torn_down Clean ti.teardown teardown _ has cleans)
