-- ===== src/Orchestrator/Run/Mirrored.antt =====
-- How the report stands to the progress tracker while the goroutines of a run work.
use storage_cert_harness.Common.{
  String, ◌≡◌, refl, sym, ap, subst, ◌∙◌, ◌≢◌, true, false, inl, inr, List, [], ◌∷◌, ◌++◌, Option,
  none, some, arith, ◌==◌, eq_iff, if◌then◌else◌, is_empty, lookup, insert, lookup-insert, All,
  Bool-cases, Option-cases,
}
use storage_cert_harness.Core.{TestRequirement, RunExecution}
use storage_cert_harness.Orchestrator.Progress.{
  ProgressState, ProgressTracker, Event, label_of, track, new_progress_tracker,
}
use storage_cert_harness.Orchestrator.Progress.Terminal.{Op, apply}
use storage_cert_harness.Orchestrator.Run.{
  Setting, queued_execution, begin_run, queue_each, change_each, moved, or_no_execution,
  record_storage_selection, record_incident, set_stage, record_artifacts, on_state_change,
  add_results,
}
use storage_cert_harness.Orchestrator.Run.Steps.{Call, Shared, made, of_op, call, calls, opening}
use storage_cert_harness.Orchestrator.Run.States.{
  shown_opt, state_opt, state_insert, shown-insert, moved-shown, change_each-state, apply-shape,
}

-- The label has the same state in the tracker and among the executions of the report, or is in neither.
abbrev pub IsMirrored : String → Shared → Type 0
IsMirrored label w =
    state_opt (lookup label w.ledger.executions) ≡ shown_opt (lookup label w.progress.state)

-- The callback is for the label, and brings the state that the tracker has.
abbrev pub IsDue : String → Event → Shared → Type 0
IsDue label e w =
    (e.label ≡ label)
    × (lookup label w.progress.state ≡ some e.state)
    × (e.state ≢ ProgressState.queued)

-- The report shows the tracker's state of each execution, but where a callback is still to be made, and
-- that one brings it.
abbrev pub Mirrors : Shared → Type 0
Mirrors w =
    (label : String)
    → (w.pending label ≡ none → IsMirrored label w)
      × ((e : Event) → w.pending label ≡ some e → IsDue label e w)

-- No callback is still to be made.
abbrev pub IsQuiet : Shared → Type 0
IsQuiet w = (label : String) → w.pending label ≡ none

-- The requirements that a stage names are tracked.
abbrev pub Tracked : ProgressTracker → List TestRequirement → Type 0
Tracked p = All (λ tr. lookup (label_of tr) p.state ≢ none)

-- When a call may be made: the one goroutine that is at work on an execution waits for the callback
-- before it calls the tracker for it again, and a stage names only tracked requirements.
abbrev pub Allowed : Shared → Call → Type 0
Allowed w (Call.progressed op) = w.pending (label_of (of_op op)) ≡ none
Allowed w (Call.staged stage trs) = Tracked w.progress trs
Allowed w (Call.collected trs refs) = Tracked w.progress trs
Allowed w _ = Unit

opening_mirrors :
    (scenario : String) (p : ProgressTracker) (m : List (String × RunExecution))
    (trs : List TestRequirement)
    → ((label : String) → state_opt (lookup label m) ≡ shown_opt (lookup label p.state))
    → (label : String)
    → state_opt (lookup label (queue_each scenario m trs))
      ≡ shown_opt (lookup label (track p trs).state)
unfolding queue_each track
opening_mirrors scenario p m [] h label = h label
opening_mirrors scenario p m (tr ∷ trs) h label =
    opening_mirrors scenario
      (record p {
        order = p.order ++ label_of tr ∷ [];
        state = insert (label_of tr) ProgressState.queued p.state;
      })
      (insert (label_of tr) (queued_execution scenario tr) m) trs
      (λ l. ground (
        arith,
        h l,
        shown-insert (label_of tr) l ProgressState.queued p.state,
        state_insert (label_of tr) l (queued_execution scenario tr) m,
      ))
      label

none-some : {A : Type 0} {a : A} → ¬ (none ≡ some a)
none-some h = absurd (ground (arith, h))

opening-Mirrors : (c : Setting) → Mirrors (opening c)
unfolding begin_run new_progress_tracker
opening-Mirrors c label = (
  λ q. opening_mirrors c.scenario _ _ c.selected (λ label. refl) label,
  λ e pending. absurd (none-some pending),
)

abbrev or_this : {A : Type 0} → A → Option A → A
or_this d none = d
or_this d (some a) = a

some_injective : {A : Type 0} {a b : A} → some a ≡ some b → a ≡ b
some_injective {a} h = ap (or_this a) h

progressed-Mirrors :
    (c : Setting) (op : Op) (w : Shared)
    → w.pending (label_of (of_op op)) ≡ none
    → Mirrors w
    → Mirrors (call c (Call.progressed op) w)
progressed-Mirrors c op w free h l = elim (apply-shape op w.progress) [
  | inl (same, silent) ↦ rw (same, silent) (h l)
  | inr (e, spoken, label, states, begun) ↦
      let k = label_of (of_op op) in
      let now_there : lookup l (apply op w.progress).0.state
          ≡ (if k == l then some e.state else lookup l w.progress.state) =
        ap (lookup l) states ∙ lookup-insert k l e.state w.progress.state in
      elim (Bool-cases (l == e.label)) [
        | inl t ↦
            let this : (k == l) ≡ true = ground (arith, t, label, eq_iff l e.label, eq_iff k l) in
            (
              λ none_due. absurd (ground (arith, none_due, spoken, t)),
              λ e' due.
                  subst (λ x. IsDue l x (call c (Call.progressed op) w))
                    (some_injective {a = e} {b = e'} (ground (arith, due, spoken, t)))
                    (sym ((eq_iff l e.label).0 t), ground (arith, now_there, this), begun),
            )
        | inr f ↦
            let other : (k == l) ≡ false = ground (arith, f, label, eq_iff l e.label, eq_iff k l) in
            let stays : (call c (Call.progressed op) w).pending l ≡ w.pending l =
              ground (arith, spoken, f) in
            let unmoved : lookup l (apply op w.progress).0.state ≡ lookup l w.progress.state =
              ground (arith, now_there, other) in
            (
              λ none_due. (h l).0 (sym stays ∙ none_due) ∙ ap shown_opt (sym unmoved),
              λ e' due.
                  let (for_l, has, b) = (h l).1 e' (sym stays ∙ due) in (for_l, unmoved ∙ has, b),
            )
      ]
]

told-Mirrors :
    (c : Setting) (now label : String) (w : Shared)
    → Mirrors w
    → Mirrors (call c (Call.told now label) w)
unfolding on_state_change
told-Mirrors c now label w h l = elim (Option-cases (w.pending label)) [
  | inl silent ↦
      let stays : made label w.pending l ≡ w.pending l = elim (Bool-cases (l == label)) [
        | inl t ↦ rw t (sym (ap w.pending ((eq_iff l label).0 t) ∙ silent))
        | inr f ↦ rw f refl
      ] in
      rw (silent, stays) (h l)
  | inr (e, due) ↦
      let (for_label, has, begun) = (h label).1 e due in
      let new =
        moved now e.state e.outcome (or_no_execution (lookup e.label w.ledger.executions)) in
      let now_there : state_opt (lookup l (call c (Call.told now label) w).ledger.executions)
          ≡ (if e.label == l then some new.state else state_opt (lookup l w.ledger.executions)) =
        rw due (state_insert e.label l new w.ledger.executions) in
      elim (Bool-cases (l == label)) [
        | inl t ↦ (
          λ q.
              let shows =
                moved-shown now e.state e.outcome
                  (or_no_execution (lookup e.label w.ledger.executions)) begun in
              let this : (e.label == l) ≡ true =
                ground (arith, t, for_label, eq_iff l label, eq_iff e.label l) in
              let found : lookup l w.progress.state ≡ some e.state =
                ap (λ k. lookup k w.progress.state) ((eq_iff l label).0 t) ∙ has in
              ground (arith, now_there, this, shows, found),
          λ e' due'. absurd (ground (arith, due', t)),
        )
        | inr f ↦ (
          λ q.
              let other : (e.label == l) ≡ false =
                ground (arith, f, for_label, eq_iff l label, eq_iff e.label l) in
              ground (arith, now_there, other, (h l).0 (ground (arith, q, f))),
          λ e' due'. (h l).1 e' (ground (arith, due', f)),
        )
      ]
]

-- The requirements that a stage names are in the report where no callback is awaited.
named_there :
    (l : String) (w : Shared) (trs : List TestRequirement)
    → IsMirrored l w
    → Tracked w.progress trs
    → All (λ tr. (label_of tr == l) ≡ true → state_opt (lookup l w.ledger.executions) ≢ none) trs
named_there l w [] same names = tt
named_there l w (tr ∷ trs) same (tracked, names) = (
  λ e gone. elim (Option-cases (lookup l w.progress.state)) [
    | inl missing ↦
        tracked (ap (λ k. lookup k w.progress.state) ((eq_iff (label_of tr) l).0 e) ∙ missing)
    | inr (s, found) ↦ absurd (ground (arith, same, gone, found))
  ],
  named_there l w trs same names,
)

staged-Mirrors :
    (f : RunExecution → RunExecution) (trs : List TestRequirement) (w : Shared)
    → ((x : RunExecution) → (f x).state ≡ x.state)
    → Tracked w.progress trs
    → Mirrors w
    → Mirrors (record w {
      ledger = record w.ledger { executions = change_each f trs w.ledger.executions };
    })
staged-Mirrors f trs w same names h l = (
  λ q.
      let here = (h l).0 q in
      change_each-state f l w.ledger.executions trs same (named_there l w trs here names) ∙ here,
  (h l).1,
)

call-Mirrors :
    (c : Setting) (x : Call) (w : Shared) → Allowed w x → Mirrors w → Mirrors (call c x w)
unfolding set_stage record_artifacts record_storage_selection record_incident add_results
call-Mirrors c (Call.progressed op) w free h = progressed-Mirrors c op w free h
call-Mirrors c (Call.told now label) w names h = told-Mirrors c now label w h
call-Mirrors c (Call.staged stage trs) w names h =
    staged-Mirrors (λ x. record x { stage = stage }) trs w (λ x. refl) names h
call-Mirrors c (Call.collected trs refs) w names h = elim (Bool-cases (is_empty refs)) [
  | inl t ↦ rw t h
  | inr f ↦
      rw f (
        staged-Mirrors (λ x. record x { artifacts = x.artifacts ++ refs }) trs w (λ x. refl) names
          h)
]
call-Mirrors c (Call.chose selection) w names h = h
call-Mirrors c (Call.reported incident) w names h = h
call-Mirrors c (Call.produced vs ms) w names h = h

-- Every call may be made when it is made.
abbrev pub AllAllowed : Setting → Shared → List Call → Type 0
AllAllowed c w [] = Unit
AllAllowed c w (x ∷ xs) = Allowed w x × AllAllowed c (call c x w) xs

calls-Mirrors :
    (c : Setting) (xs : List Call) (w : Shared)
    → AllAllowed c w xs
    → Mirrors w
    → Mirrors (calls c xs w)
calls-Mirrors c [] w names h = h
calls-Mirrors c (x ∷ xs) w (n, names) h =
    calls-Mirrors c xs (call c x w) names (call-Mirrors c x w n h)

-- In whatever order the goroutines of a run make their calls, and whichever callbacks of the progress
-- tracker are still to be made, the report shows the state that the tracker has of each execution, and no
-- other execution, but where its callback is still to be made; that callback then brings the tracker's
-- state. The conditions are that no execution is worked on by two goroutines at once, each of which
-- waits for its callback, and that stages name only tracked requirements.
pub run-Mirrors :
    (c : Setting) (xs : List Call) → AllAllowed c (opening c) xs → Mirrors (calls c xs (opening c))
run-Mirrors c xs names = calls-Mirrors c xs (opening c) names (opening-Mirrors c)
