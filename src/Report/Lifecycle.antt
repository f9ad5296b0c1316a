-- ===== src/Report/Lifecycle.antt =====
-- internal/report/report.go, `RefreshLifecycle`, `Finalize` and `NewRunning`. The model is for a report
-- that is there: both return at once on a nil pointer. `now` is the clock's answer.
pub mod Flags
pub mod Finish
use storage_cert_harness.Common.{
  ℕ, String, Bool, true, false, ◌&&◌, ◌==◌, List, [], ◌∷◌, ◌++◌, map, length, is_empty, eqb,
  if◌then◌else◌, not,
}
use storage_cert_harness.Core.{
  Outcome, RunStatus, RunHealth, ExecutionState, Report, Incident, RunPart, RunExecution,
  RunComposition, Summary, Provenance, Environment, TestRequirement,
}

abbrev pub or_complete : RunStatus → RunStatus
or_complete RunStatus.unset = RunStatus.complete
or_complete status = status

abbrev pub initial_part : Report → RunPart
initial_part r = record {
  part_id = r.run_id;
  kind = "initial";
  started_at = "";
  ended_at = "";
  status = r.status;
  reason = "";
}

-- The parts of the composition, with one made from the run where there is none.
pub default_parts : Report → List RunPart
default_parts r =
    if is_empty r.composition.parts && not (r.run_id == "")
    then initial_part r ∷ []
    else r.composition.parts

-- The loop over the incidents of a completed run.
pub judge : Report → List Incident → Report
judge r [] = record r { certifiable = eqb r.summary.fail 0 && eqb r.summary.error 0 }
judge r (i ∷ is) =
    let degraded = record r { health = RunHealth.degraded } in
    let rest = judge degraded is in
    if i.blocks_certification then record degraded { certifiable = false } else rest

settle : RunStatus → Report → Report
unfolding judge
settle RunStatus.running r = record r {
  health = if is_empty r.incidents then RunHealth.healthy else RunHealth.degraded;
  certifiable = false;
}
settle RunStatus.complete r = judge (record r { health = RunHealth.healthy }) r.incidents
settle _ r = record r { health = RunHealth.unhealthy; certifiable = false }

unfoldable pub refresh_lifecycle : Report → Report
unfolding settle default_parts
refresh_lifecycle r =
    let r' = record r { status = or_complete r.status } in
    let parts = default_parts r' in
    settle r'.status
      (record r' { composition = record { parts_count = length parts; parts = parts } })

-- Gives the last item of a list anew.
abbrev pub on_last {ℓ} : {A : Type ℓ} → (A → A) → List A → List A
on_last f [] = []
on_last f (x ∷ []) = f x ∷ []
on_last f (x ∷ y ∷ ys) = x ∷ on_last f (y ∷ ys)

-- `[]core.RunPart{{PartID: r.RunID}}`
abbrev pub bare_part : String → RunPart
bare_part run_id = record {
  part_id = run_id;
  kind = "";
  started_at = "";
  ended_at = "";
  status = RunStatus.unset;
  reason = "";
}

unfoldable pub finalize : String → Report → RunStatus → String → String → Report
finalize now r status reason ended_at =
    let ended = if ended_at == "" then now else ended_at in
    let parts =
      if is_empty r.composition.parts then bare_part r.run_id ∷ [] else r.composition.parts in
    let closed =
      on_last (λ p. record p { status = status; ended_at = ended; reason = reason }) parts in
    refresh_lifecycle (record r {
      status = status;
      completion_reason = reason;
      composition = record { parts_count = length closed; parts = closed };
    })
