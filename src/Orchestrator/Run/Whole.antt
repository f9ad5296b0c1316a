-- ===== src/Orchestrator/Run/Whole.antt =====
-- A whole run: the calls of its jobs and the report that it ends with.
use storage_cert_harness.Common.{
  String, ◌≡◌, refl, sym, ap, ◌∙◌, ◌↔◌, ◌≢◌, inl, inr, true, false, List, Option, none, some, arith,
  lookup, any, Option-cases,
}
use storage_cert_harness.Core.{RunStatus}
use storage_cert_harness.Report.Lifecycle.Flags.{has_blocking}
use storage_cert_harness.Orchestrator.Progress.{ProgressState}
use storage_cert_harness.Orchestrator.Run.{Setting, begin_run}
use storage_cert_harness.Orchestrator.Run.Ending.{close_run}
use storage_cert_harness.Orchestrator.Run.Close.{
  unbegun, left_over, close_run-status_iff, close_run-certifiable_iff,
}
use storage_cert_harness.Orchestrator.Run.Labels.{
  left_over-lookup, lookup-left_over, calls-IsMap, opening-IsMap,
}
use storage_cert_harness.Orchestrator.Run.Recorded.{
  fails, blocks, failing, calls-fails, calls-blocks,
}
use storage_cert_harness.Orchestrator.Run.Steps.{Call, Shared, calls, opening}
use storage_cert_harness.Orchestrator.Run.States.{shown}
use storage_cert_harness.Orchestrator.Run.Mirrored.{IsMirrored, IsQuiet, AllAllowed, run-Mirrors}

unbegun-shown : (s : ProgressState) → s ≢ ProgressState.queued → unbegun (shown s) ≡ false
unbegun-shown ProgressState.queued h = absurd (h refl)
unbegun-shown ProgressState.running h = refl
unbegun-shown ProgressState.complete h = refl
unbegun-shown ProgressState.aborted h = refl

module _ (c : Setting) (xs : List Call) (allowed : AllAllowed c (opening c) xs)
    (quiet : IsQuiet (calls c xs (opening c))) where
  -- The state in which the run is when its jobs are done.
  abbrev pub done : Shared
  done = calls c xs (opening c)

  abbrev pub IsBegun : Type 0
  IsBegun = (label : String) → lookup label done.progress.state ≢ some ProgressState.queued

  left_over_iff : (left_over done.ledger.executions ≡ false) ↔ IsBegun
  left_over_iff = (to, from)
    where
      same : (label : String) → IsMirrored label done
      same label = (run-Mirrors c xs allowed label).0 (quiet label)

      to : left_over done.ledger.executions ≡ false → IsBegun
      to h label queued = elim (Option-cases (lookup label done.ledger.executions)) [
        | inl missing ↦ absurd (ground (arith, same label, missing, queued))
        | inr (x, found) ↦
            let begun = left_over-lookup label done.ledger.executions x h found in
            absurd (ground (arith, same label, found, queued, begun))
      ]

      from : IsBegun → left_over done.ledger.executions ≡ false
      from h =
          lookup-left_over done.ledger.executions (calls-IsMap c xs (opening c) (opening-IsMap c))
            (λ label x found. elim (Option-cases (lookup label done.progress.state)) [
              | inl missing ↦ absurd (ground (arith, same label, found, missing))
              | inr (s, tracked) ↦
                  let begun = unbegun-shown s (λ e. h label (tracked ∙ ap some e)) in
                  ground (arith, same label, found, tracked, begun)
            ])

  -- A run ends as complete exactly if it was not cancelled and no execution is queued in the progress
  -- tracker when the jobs are done and no callback of the tracker is still to be made.
  pub run-status_iff :
      (now : String) (err : Option String)
      → ((close_run c now err done.ledger).status ≡ RunStatus.complete) ↔ ((err ≡ none) × IsBegun)
  run-status_iff now err =
      let status = close_run-status_iff c now err done.ledger in
      (
        λ h. let (alive, none_left) = status.0 h in (alive, left_over_iff.0 none_left),
        λ (alive, begun). status.1 (alive, left_over_iff.1 begun),
      )

  opened_empty :
      (failing (opening c).ledger ≡ false) × (has_blocking (opening c).ledger.incidents ≡ false)
  unfolding begin_run
  opened_empty = (refl, refl)

  -- The report of a run is certifiable exactly if the run was not cancelled, no execution is queued in
  -- the progress tracker when the jobs are done, no call produced a verdict that fails or is an error,
  -- and no call reported an incident that blocks certification, in whatever order its goroutines made
  -- their calls. The conditions are that no execution is worked on by two goroutines at once, each of
  -- which waits for the tracker's callback, that stages name only tracked requirements, and that when
  -- the jobs are done no callback is still to be made.
  pub run-certifiable_iff :
      (now : String) (err : Option String)
      → ((close_run c now err done.ledger).certifiable ≡ true)
        ↔ ((err ≡ none) × IsBegun × (any fails xs ≡ false) × (any blocks xs ≡ false))
  run-certifiable_iff now err =
      let flag = close_run-certifiable_iff c now err done.ledger in
      let failed : failing done.ledger ≡ any fails xs =
        ground (arith, calls-fails c xs (opening c), opened_empty.0) in
      let blocked : has_blocking done.ledger.incidents ≡ any blocks xs =
        ground (arith, calls-blocks c xs (opening c), opened_empty.1) in
      (
        λ h.
            let (alive, left, b, f) = flag.0 h in
            (alive, left_over_iff.0 left, sym failed ∙ f, sym blocked ∙ b),
        λ (alive, begun, f, b). flag.1 (alive, left_over_iff.1 begun, blocked ∙ b, failed ∙ f),
      )
