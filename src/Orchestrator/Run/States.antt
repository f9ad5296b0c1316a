-- ===== src/Orchestrator/Run/States.antt =====
-- The states of the executions, in the progress tracker and in the report, and what changes them.
use storage_cert_harness.Common.{
  String, ◌≡◌, refl, sym, ap, ◌∙◌, ◌≢◌, ◌⊎◌, Bool, true, false, inl, inr, List, [], ◌∷◌, Option,
  none, some, arith, ◌==◌, eq_iff, if◌then◌else◌, lookup, insert, lookup-insert, All, Bool-cases,
  Option-cases,
}
use storage_cert_harness.Core.{Outcome, ExecutionState, TestRequirement, RunExecution}
use storage_cert_harness.Orchestrator.Progress.{
  ProgressState, ProgressTracker, Event, label_of, start, finish, abort, state_of, is_complete,
}
use storage_cert_harness.Orchestrator.Progress.Terminal.{Op, apply}
use storage_cert_harness.Orchestrator.Executions.Ended.{has_ended}
use storage_cert_harness.Orchestrator.Run.{change, change_each, moved, or_no_execution}
use storage_cert_harness.Orchestrator.Run.Steps.{of_op}

-- How a state of the tracker stands in the report.
abbrev pub shown : ProgressState → ExecutionState
shown ProgressState.queued = ExecutionState.queued
shown ProgressState.running = ExecutionState.running
shown ProgressState.complete = ExecutionState.completed
shown ProgressState.aborted = ExecutionState.aborted

abbrev pub shown_opt : Option ProgressState → Option ExecutionState
shown_opt none = none
shown_opt (some s) = some (shown s)

abbrev pub state_opt : Option RunExecution → Option ExecutionState
state_opt none = none
state_opt (some x) = some x.state

pub state_insert :
    (label l : String) (x : RunExecution) (m : List (String × RunExecution))
    → state_opt (lookup l (insert label x m))
      ≡ (if label == l then some x.state else state_opt (lookup l m))
state_insert label l x m = ground (arith, lookup-insert label l x m)

pub shown-insert :
    (label l : String) (s : ProgressState) (m : List (String × ProgressState))
    → shown_opt (lookup l (insert label s m))
      ≡ (if label == l then some (shown s) else shown_opt (lookup l m))
shown-insert label l s m = ground (arith, lookup-insert label l s m)

-- A change that leaves the state alone.
change_state :
    (f : RunExecution → RunExecution) (label l : String) (m : List (String × RunExecution))
    → ((x : RunExecution) → (f x).state ≡ x.state)
    → ((label == l) ≡ true → state_opt (lookup l m) ≢ none)
    → state_opt (lookup l (change f label m)) ≡ state_opt (lookup l m)
change_state f label l m same there =
    let changed = state_insert label l (f (or_no_execution (lookup label m))) m in
    elim (Bool-cases (label == l)) [
      | inl t ↦ elim (Option-cases (lookup l m)) [
        | inl missing ↦ absurd (there t (ap state_opt missing))
        | inr (x, found) ↦ ground (arith, t, found, same x, changed, eq_iff label l)
      ]
      | inr g ↦ ground (arith, g, changed)
    ]

abbrev is_queued : ProgressState → Bool
is_queued ProgressState.queued = true
is_queued _ = false

-- What a call of the tracker does: nothing, or it gives the label a state and makes a callback.
pub apply-shape :
    (op : Op) (p : ProgressTracker)
    → (((apply op p).0 ≡ p) × ((apply op p).1 ≡ none))
      ⊎ ((e : Event) × ((apply op p).1 ≡ some e)
          × (e.label ≡ label_of (of_op op))
          × ((apply op p).0.state ≡ insert (label_of (of_op op)) e.state p.state)
          × (e.state ≢ ProgressState.queued))
unfolding start finish abort
apply-shape (Op.start_of tr) p = elim (Bool-cases (is_queued (state_of (label_of tr) p))) [
  | inr f ↦ inl (ground (arith, f), ground (arith, f))
  | inl t ↦ inr (
    record { label = label_of tr; state = ProgressState.running; outcome = Outcome.unset },
    ground (arith, t),
    refl,
    ground (arith, t),
    λ q. absurd (ground (arith, q)),
  )
]
apply-shape (Op.finish_of tr o) p = elim (Bool-cases (is_complete (state_of (label_of tr) p))) [
  | inl t ↦ inl (ground (arith, t), ground (arith, t))
  | inr f ↦ inr (
    record { label = label_of tr; state = ProgressState.complete; outcome = o },
    ground (arith, f),
    refl,
    ground (arith, f),
    λ q. absurd (ground (arith, q)),
  )
]
apply-shape (Op.abort_of tr o) p = elim (Bool-cases (has_ended (state_of (label_of tr) p))) [
  | inl t ↦ inl (ground (arith, t), ground (arith, t))
  | inr f ↦ inr (
    record { label = label_of tr; state = ProgressState.aborted; outcome = o },
    ground (arith, f),
    refl,
    ground (arith, f),
    λ q. absurd (ground (arith, q)),
  )
]

pub moved-shown :
    (now : String) (s : ProgressState) (o : Outcome) (x : RunExecution)
    → s ≢ ProgressState.queued
    → (moved now s o x).state ≡ shown s
moved-shown now ProgressState.queued o x h = absurd (h refl)
moved-shown now ProgressState.running o x h = refl
moved-shown now ProgressState.complete o x h = refl
moved-shown now ProgressState.aborted o x h = refl

All-after :
    {A B : Type 0} (l : String) (f : A → B) (trs : List TestRequirement)
    → All (λ tr. (label_of tr == l) ≡ true → ¬ B) trs
    → All (λ tr. (label_of tr == l) ≡ true → ¬ A) trs
All-after l f [] h = tt
All-after l f (tr ∷ trs) (this, later) = (λ e a. this e (f a), All-after l f trs later)

pub change_each-state :
    (f : RunExecution → RunExecution) (l : String) (m : List (String × RunExecution))
    (trs : List TestRequirement)
    → ((x : RunExecution) → (f x).state ≡ x.state)
    → All (λ tr. (label_of tr == l) ≡ true → state_opt (lookup l m) ≢ none) trs
    → state_opt (lookup l (change_each f trs m)) ≡ state_opt (lookup l m)
unfolding change_each
change_each-state f l m [] same there = refl
change_each-state f l m (tr ∷ trs) same (t, there) =
    let this = change_state f (label_of tr) l m same t in
    change_each-state f l (change f (label_of tr) m) trs same
      (All-after l (λ gone. sym this ∙ gone) trs there)
    ∙ this
