-- ===== src/Orchestrator/Run/Close.antt =====
-- The report with which a run ends.
use storage_cert_harness.Common.{
  String, ◌≡◌, refl, sym, ap, ◌∙◌, ◌↔◌, Bool, true, false, not, List, [], ◌∷◌, map, Option, none,
  some, arith, any, sort_by, mem-sort_by, sort_by-mem, any→mem, mem→any,
}
use storage_cert_harness.Core.{RunStatus, ExecutionState, Verdict, RunExecution, Report, is_failure}
use storage_cert_harness.Report.Lifecycle.{finalize, or_complete}
use storage_cert_harness.Report.Lifecycle.Flags.{has_blocking, refresh_lifecycle_lem}
use storage_cert_harness.Report.Lifecycle.Finish.{finalize_closes, finalize-certifiable_iff}
use storage_cert_harness.Report.Build.Counts.{build_counts, summary_of, no_failure_iff}
use storage_cert_harness.Orchestrator.Run.{Setting, Ledger, stamp_verdict, checkpoint_snapshot}
use storage_cert_harness.Orchestrator.Run.Ending.{
  verdict_order, arrange, end_each, end_running, is_terminal, conclude_run, close_run,
}

-- The execution has neither ended nor begun.
abbrev pub unbegun : ExecutionState → Bool
unbegun ExecutionState.running = false
unbegun ExecutionState.completed = false
unbegun ExecutionState.aborted = false
unbegun _ = true

abbrev pub is_unbegun : RunExecution → Bool
is_unbegun x = unbegun x.state

abbrev pub left_over : List (String × RunExecution) → Bool
left_over = any (λ e. is_unbegun e.1)

end_running_terminal :
    (now : String) (x : RunExecution) → is_terminal (end_running now x).state ≡ not (is_unbegun x)
end_running_terminal now x = by_state x.state
  where
    by_state :
        (s : ExecutionState)
        → is_terminal (end_running now (record x { state = s })).state
          ≡ not (is_unbegun (record x { state = s }))
    by_state ExecutionState.running = refl
    by_state ExecutionState.completed = refl
    by_state ExecutionState.aborted = refl
    by_state _ = refl

end_each_terminal :
    (now : String) (m : List (String × RunExecution)) → (end_each now m).1 ≡ not (left_over m)
unfolding end_each
end_each_terminal now [] = refl
end_each_terminal now ((label, x) ∷ m) =
    ground (arith, end_running_terminal now x, end_each_terminal now m)

-- Sorting and stamping change no outcome.
any-map :
    (f : Verdict → Verdict) (vs : List Verdict)
    → ((v : Verdict) → (f v).outcome ≡ v.outcome)
    → any (λ v. is_failure v.outcome) (map f vs) ≡ any (λ v. is_failure v.outcome) vs
any-map f [] h = refl
any-map f (v ∷ vs) h = ground (arith, h v, any-map f vs h)

same_if : (a b : Bool) → (a ≡ true → b ≡ true) → (b ≡ true → a ≡ true) → a ≡ b
same_if true b f g = sym (f refl)
same_if false true f g = g refl
same_if false false f g = refl

any-sort_by : (p : Verdict → Bool) (vs : List Verdict) → any p (sort_by verdict_order vs) ≡ any p vs
any-sort_by p vs =
    same_if (any p (sort_by verdict_order vs)) (any p vs)
      (λ h. let (v, m, t) = any→mem p _ h in mem→any p (sort_by-mem verdict_order vs m) t)
      (λ h. let (v, m, t) = any→mem p vs h in mem→any p (mem-sort_by verdict_order vs m) t)

module _ (c : Setting) where
  -- A snapshot counts its verdicts and holds the incidents so far.
  snapshot_counts :
      (status : RunStatus) (l : Ledger)
      → ((checkpoint_snapshot c status l).summary ≡ summary_of (map (stamp_verdict c) l.verdicts))
        × ((checkpoint_snapshot c status l).incidents ≡ l.incidents)
  unfolding checkpoint_snapshot
  snapshot_counts status l =
      let shape = refresh_lifecycle_lem _ in
      let counted =
        build_counts c.run_id c.schema_version c.prov (map (stamp_verdict c) l.verdicts) in
      (ap (λ r. r.summary) shape ∙ counted.0, ap (λ r. r.incidents) shape)

  -- What a report of the run says when it is finalized with a status.
  finalized_iff :
      (now reason : String) (status : RunStatus) (l : Ledger)
      → ((finalize now (checkpoint_snapshot c status l) status reason now).certifiable ≡ true) ↔ (
          (or_complete status ≡ RunStatus.complete)
          × (has_blocking l.incidents ≡ false)
          × (any (λ v. is_failure v.outcome) l.verdicts ≡ false))
  finalized_iff now reason status l =
      let r = checkpoint_snapshot c status l in
      let (counted, held) = snapshot_counts status l in
      let flag = finalize-certifiable_iff now r status reason now in
      let none_failed = no_failure_iff (map (stamp_verdict c) l.verdicts) in
      let same = any-map (stamp_verdict c) l.verdicts (λ v. refl) in
      (
        λ h.
            let (s, b, f, e) = flag.0 h in
            (
              s,
              sym (ap has_blocking held) ∙ b,
              sym same
                  ∙ none_failed.0
                      (sym (ap (λ m. m.fail) counted) ∙ f, sym (ap (λ m. m.error) counted) ∙ e),
            ),
        λ (s, b, ok).
            let (f, e) = none_failed.1 (same ∙ ok) in
            flag.1 (
              s,
              ap has_blocking held ∙ b,
              ap (λ m. m.fail) counted ∙ f,
              ap (λ m. m.error) counted ∙ e,
            ),
      )

  -- The verdicts, once arranged, fail where they failed before.
  arranged :
      (l : Ledger)
      → any (λ v. is_failure v.outcome) (arrange c l).verdicts
        ≡ any (λ v. is_failure v.outcome) l.verdicts
  unfolding arrange
  arranged l =
      any-map (stamp_verdict c) (sort_by verdict_order l.verdicts) (λ v. refl)
      ∙ any-sort_by (λ v. is_failure v.outcome) l.verdicts

  arranged_incidents : (l : Ledger) → (arrange c l).incidents ≡ l.incidents
  unfolding arrange
  arranged_incidents l = refl

  arranged_executions : (l : Ledger) → (arrange c l).executions ≡ l.executions
  unfolding arrange
  arranged_executions l = refl

  -- The parts of the end of a run: the ledger with its executions ended, and whether all have ended.
  abbrev ended : String → Ledger → Ledger
  ended now l = record (arrange c l) { executions = (end_each now (arrange c l).executions).0 }

  close_run-shape :
      (now : String) (err : Option String) (l : Ledger)
      → close_run c now err l ≡ (
          let (status, reason, closed) =
            conclude_run c now err (not (left_over l.executions)) (ended now l) in
          finalize now (checkpoint_snapshot c status closed) status reason now)
  unfolding close_run
  close_run-shape now err l =
      rw (end_each_terminal now (arrange c l).executions, arranged_executions l) refl

  -- The report that the end of a run makes, whether or not the run was cancelled and all have ended.
  abbrev report_of : String → Option String → Bool → Ledger → Report
  report_of now err terminal l =
      let (status, reason, closed) = conclude_run c now err terminal l in
      finalize now (checkpoint_snapshot c status closed) status reason now

  finalized_status :
      (now reason : String) (status : RunStatus) (l : Ledger)
      → (finalize now (checkpoint_snapshot c status l) status reason now).status
        ≡ or_complete status
  finalized_status now reason status l = (finalize_closes now _ status reason now).0

  status_by_case :
      (now : String) (err : Option String) (left : Bool) (l : Ledger)
      → ((report_of now err (not left) l).status ≡ RunStatus.complete)
        ↔ ((err ≡ none) × (left ≡ false))
  unfolding conclude_run
  status_by_case now (some e) left l = (
    λ h. absurd (ground (arith, sym (finalized_status now e RunStatus.partial _) ∙ h)),
    λ (h, _). absurd (ground (arith, h)),
  )
  status_by_case now none true l = (
    λ h. absurd (
        ground (
          arith,
          sym (finalized_status now "run ended with queued executions" RunStatus.partial _) ∙ h,
        )),
    λ (_, h). absurd (ground (arith, h)),
  )
  status_by_case now none false l =
      (λ h. (refl, refl), λ h. finalized_status now "" RunStatus.complete l)

  flag_by_case :
      (now : String) (err : Option String) (left : Bool) (l : Ledger)
      → ((report_of now err (not left) l).certifiable ≡ true) ↔ (
          (err ≡ none)
          × (left ≡ false)
          × (has_blocking l.incidents ≡ false)
          × (any (λ v. is_failure v.outcome) l.verdicts ≡ false))
  unfolding conclude_run
  flag_by_case now (some e) left l = (
    λ h. absurd (ground (arith, ((finalized_iff now e RunStatus.partial _).0 h).0)),
    λ (h, _, _, _). absurd (ground (arith, h)),
  )
  flag_by_case now none true l = (
    λ h. absurd (
        ground (
          arith,
          ((finalized_iff now "run ended with queued executions" RunStatus.partial _).0 h).0,
        )),
    λ (_, h, _, _). absurd (ground (arith, h)),
  )
  flag_by_case now none false l =
      let flag = finalized_iff now "" RunStatus.complete l in
      (λ h. let (_, b, ok) = flag.0 h in (refl, refl, b, ok), λ (_, _, b, ok). flag.1 (refl, b, ok))

  -- A run ends as complete exactly if its context was not cancelled and every execution has begun: those
  -- that are still running are aborted, and one that is still queued makes the run partial.
  pub close_run-status_iff :
      (now : String) (err : Option String) (l : Ledger)
      → ((close_run c now err l).status ≡ RunStatus.complete)
        ↔ ((err ≡ none) × (left_over l.executions ≡ false))
  close_run-status_iff now err l =
      rw (close_run-shape now err l) (status_by_case now err (left_over l.executions) (ended now l))

  -- The report of a run is certifiable exactly if the run was not cancelled, every execution has begun,
  -- no recorded incident blocks certification, and no recorded verdict fails or is an error.
  pub close_run-certifiable_iff :
      (now : String) (err : Option String) (l : Ledger)
      → ((close_run c now err l).certifiable ≡ true) ↔ (
          (err ≡ none)
          × (left_over l.executions ≡ false)
          × (has_blocking l.incidents ≡ false)
          × (any (λ v. is_failure v.outcome) l.verdicts ≡ false))
  close_run-certifiable_iff now err l =
      let flag = flag_by_case now err (left_over l.executions) (ended now l) in
      let held = ap has_blocking (arranged_incidents l) in
      rw (close_run-shape now err l) (
        λ h.
            let (alive, begun, i, v) = flag.0 h in
            (alive, begun, sym held ∙ i, sym (arranged l) ∙ v),
        λ (alive, begun, i, v). flag.1 (alive, begun, held ∙ i, arranged l ∙ v),
      )
