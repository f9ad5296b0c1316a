-- ===== src/Orchestrator/Executions/Concluded.antt =====
-- How each execution of a tool ends.
use storage_cert_harness.Common.{
  String, ◌≡◌, refl, inl, inr, true, false, List, [], ◌∷◌, Option, none, some, arith, All,
  All-of_mem, All-mem, ap, is_some, Option-cases,
}
use storage_cert_harness.Core.{Outcome, TestRequirement}
use storage_cert_harness.Orchestrator.Progress.{
  ProgressState, Event, label_of, state_of, is_complete, start,
}
use storage_cert_harness.Orchestrator.Progress.Terminal.{Op, apply}
use storage_cert_harness.Orchestrator.Pipeline.Kept.{
  OfSome, Keeps, StagesKeep, HostKeeps, run_job-Keeps,
}
use storage_cert_harness.Orchestrator.Executions.Each.{
  run_tool_executions_has, run_tool_executions_keeps,
}
use storage_cert_harness.Orchestrator.Executions.Ended.{
  EndedAs, ended_stays, finish-complete, abort-EndedAs, completing, open_stays,
}
use storage_cert_harness.Orchestrator.Executions.{
  Env, World, Ran, asked, notify, advance, conclude, run_in, run_variant, run_tool_executions,
}

module _ {S : Type 0} (env : Env S) (tool : String) where
  -- The run's context has an error.
  abbrev pub IsCancelled : S → Type 0
  IsCancelled s = is_some (env.host.parent_err s) ≡ true

  -- A context that has an error keeps one: the run stays cancelled whatever the stages of its tools, the
  -- callbacks and the file system do.
  abbrev pub StaysCancelled : Type 0
  StaysCancelled =
      HostKeeps IsCancelled env.host
      × ((dir : String) (tr : TestRequirement)
          → OfSome (StagesKeep IsCancelled) (env.tool_at dir tr))
      × ((dir : String) → Keeps IsCancelled (λ s. (env.mkdir_all dir s).0))
      × ((e : Event) → Keeps IsCancelled (env.on_state_change e))

  module _ (stays : StaysCancelled) where
    notify_stays : (e : Option Event) (s : S) → IsCancelled s → IsCancelled (notify env tool e s)
    notify_stays none s c = c
    notify_stays (some e) s c = stays.3 e s c

    -- An invariant of the world that the steps of an execution keep, its run keeps.
    module _ (I : World S → Type 0)
        (start_keeps : (tr : TestRequirement) (w : World S)
          → I w
          → I (advance env tool (start tr) w))
        (moves : (w : World S) (s : S)
          → (IsCancelled w.state → IsCancelled s)
          → I w
          → I (record w { state = s }))
        (conclude_keeps : (tr : TestRequirement) (o : Outcome) (w : World S)
          → I w
          → I (conclude env tool tr o w)) where
      run_in_keeps :
          (dir : String) (r : Ran S) (tr : TestRequirement)
          → I r.world
          → I (run_in env tool dir r tr).world
      unfolding run_in
      run_in_keeps dir r tr h = conclude_keeps tr _ _ (
          moves (advance env tool (start tr) r.world) _
            (run_job-Keeps IsCancelled env.host stays.0 (tr ∷ []) tool (env.tool_at dir tr)
              (stays.1 dir tr) (advance env tool (start tr) r.world).state)
            (start_keeps tr r.world h))

      asked_keeps : (r : Ran S) (tr : TestRequirement) → I r.world → I (asked env tool r tr).world
      asked_keeps r tr h = moves r.world _ (stays.2 (env.variant_dir tr) r.world.state) h

      run_variant_keeps :
          (r : Ran S) (tr : TestRequirement) → I r.world → I (run_variant env tool r tr).world
      unfolding run_variant
      run_variant_keeps r tr h =
          elim (Option-cases (env.mkdir_all (env.variant_dir tr) r.world.state).1) [
            | inl made ↦
                rw (made, run_variant)
                  (run_in_keeps (env.variant_dir tr) (asked env tool r tr) tr (asked_keeps r tr h))
            | inr (e, unmade) ↦
                rw (unmade, run_variant) (conclude_keeps tr Outcome.error _ (asked_keeps r tr h))
          ]

    -- The execution is complete, or it is aborted and the run is cancelled.
    abbrev pub IsConcluded : String → World S → Type 0
    IsConcluded label w = EndedAs label (IsCancelled w.state) w.progress

    advance_keeps :
        (label : String) (op : Op) (w : World S)
        → IsConcluded label w
        → IsConcluded label (advance env tool (apply op) w)
    advance_keeps label op w h =
        ended_stays label _ _ op w.progress (notify_stays (apply op w.progress).1 w.state) h

    moves_keeps :
        (label : String) (w : World S) (s : S)
        → (IsCancelled w.state → IsCancelled s)
        → IsConcluded label w
        → IsConcluded label (record w { state = s })
    moves_keeps label w s f (inl c) = inl c
    moves_keeps label w s f (inr (a, c)) = inr (a, f c)

    conclude_stays :
        (label : String) (tr : TestRequirement) (o : Outcome) (w : World S)
        → IsConcluded label w
        → IsConcluded label (conclude env tool tr o w)
    unfolding conclude
    conclude_stays label tr o w h = elim (Option-cases (env.host.parent_err w.state)) [
      | inl alive ↦ rw (alive, conclude) (advance_keeps label (Op.finish_of tr o) w h)
      | inr (e, dead) ↦ rw (dead, conclude) (advance_keeps label (Op.abort_of tr Outcome.error) w h)
    ]

    conclude-IsConcluded :
        (tr : TestRequirement) (o : Outcome) (w : World S)
        → IsConcluded (label_of tr) (conclude env tool tr o w)
    unfolding conclude
    conclude-IsConcluded tr o w = elim (Option-cases (env.host.parent_err w.state)) [
      | inl alive ↦ rw (alive, conclude) (inl (finish-complete tr o w.progress))
      | inr (e, dead) ↦
          rw (dead, conclude)
            (abort-EndedAs tr _ w.progress (
              notify_stays (apply (Op.abort_of tr Outcome.error) w.progress).1 w.state
                (ap is_some dead)))
    ]

    run_in-IsConcluded :
        (dir : String) (r : Ran S) (tr : TestRequirement)
        → IsConcluded (label_of tr) (run_in env tool dir r tr).world
    unfolding run_in
    run_in-IsConcluded dir r tr = conclude-IsConcluded tr _ _

    run_variant-IsConcluded :
        (r : Ran S) (tr : TestRequirement)
        → IsConcluded (label_of tr) (run_variant env tool r tr).world
    unfolding run_variant
    run_variant-IsConcluded r tr =
        elim (Option-cases (env.mkdir_all (env.variant_dir tr) r.world.state).1) [
          | inl made ↦
              rw (made, run_variant)
                (run_in-IsConcluded (env.variant_dir tr) (asked env tool r tr) tr)
          | inr (e, unmade) ↦ rw (unmade, run_variant) (conclude-IsConcluded tr Outcome.error _)
        ]

    -- The run is cancelled, and the execution is not complete.
    abbrev IsCut : String → World S → Type 0
    IsCut label w = IsCancelled w.state × (is_complete (state_of label w.progress) ≡ false)

    advance-IsCut :
        (label : String) (op : Op) (w : World S)
        → completing op ≡ false
        → IsCut label w
        → IsCut label (advance env tool (apply op) w)
    advance-IsCut label op w k (c, o) =
        (notify_stays (apply op w.progress).1 w.state c, open_stays label op w.progress k o)

    conclude-IsCut :
        (label : String) (tr : TestRequirement) (o : Outcome) (w : World S)
        → IsCut label w
        → IsCut label (conclude env tool tr o w)
    unfolding conclude
    conclude-IsCut label tr o w h = elim (Option-cases (env.host.parent_err w.state)) [
      | inl alive ↦ absurd (ground (arith, alive, h.0))
      | inr (e, dead) ↦
          rw (dead, conclude) (advance-IsCut label (Op.abort_of tr Outcome.error) w refl h)
    ]

    concluded :
        (trs : List TestRequirement) (w : World S)
        → All (λ tr. IsConcluded (label_of tr) (run_tool_executions env tool trs w).world) trs
    concluded trs w =
        run_tool_executions_has env tool (λ tr. Unit) (λ tr r. IsConcluded (label_of tr) r.world)
          (λ x.
            run_in_keeps (IsConcluded (label_of x))
              (λ tr. advance_keeps (label_of x) (Op.start_of tr)) (moves_keeps (label_of x))
              (conclude_stays (label_of x)))
          (λ x.
            run_variant_keeps (IsConcluded (label_of x))
              (λ tr. advance_keeps (label_of x) (Op.start_of tr)) (moves_keeps (label_of x))
              (conclude_stays (label_of x)))
          (λ dir r tr u. run_in-IsConcluded dir r tr) (λ r tr u. run_variant-IsConcluded r tr) trs w
          (All-of_mem _ trs (λ tr m. tt))

    run_tool_executions-IsCut :
        (x : TestRequirement) (trs : List TestRequirement) (w : World S)
        → IsCut (label_of x) w
        → IsCut (label_of x) (run_tool_executions env tool trs w).world
    run_tool_executions-IsCut x trs w h =
        run_tool_executions_keeps env tool (λ tr. false ≡ true)
          (λ tr r. IsCut (label_of tr) r.world)
          (λ x.
            run_in_keeps (IsCut (label_of x))
              (λ tr w. advance-IsCut (label_of x) (Op.start_of tr) w refl)
              (λ w s f (c, o). (f c, o)) (conclude-IsCut (label_of x)))
          (λ x.
            run_variant_keeps (IsCut (label_of x))
              (λ tr w. advance-IsCut (label_of x) (Op.start_of tr) w refl)
              (λ w s f (c, o). (f c, o)) (conclude-IsCut (label_of x)))
          (λ dir r tr never. absurd (ground (arith, never)))
          (λ r tr never. absurd (ground (arith, never))) x trs w h

    -- When a tool's executions have run, each of them is complete, or it is aborted and the run is
    -- cancelled: a job that fails, meets its own time limit or has no directory is complete. Where the
    -- run was cancelled before, each execution that was not complete is aborted. The condition is that
    -- a run that is cancelled stays so, whatever the tool, the callbacks and the file system do.
    pub run_tool_executions-IsConcluded :
        (trs : List TestRequirement) (w : World S)
        → let w' = (run_tool_executions env tool trs w).world in
          All (λ tr. IsConcluded (label_of tr) w') trs
          × (IsCancelled w.state
              → All
                  (λ tr.
                    is_complete (state_of (label_of tr) w.progress) ≡ false
                    → state_of (label_of tr) w'.progress ≡ ProgressState.aborted)
                  trs)
    run_tool_executions-IsConcluded trs w = (
      concluded trs w,
      λ c. All-of_mem _ trs (λ tr m o. elim (All-mem _ m (concluded trs w)) [
        | inl done ↦ absurd (ground (arith, done, (run_tool_executions-IsCut tr trs w (c, o)).1))
        | inr (a, c') ↦ a
      ]),
    )
