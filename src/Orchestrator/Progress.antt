-- ===== src/Orchestrator/Progress.antt =====
-- internal/orchestrator/progress.go: the state of each execution. The mutex makes every operation one
-- step; the log lines are left out, and the call of `onStateChange` is the event that is returned.
pub mod Terminal
use storage_cert_harness.Common.{
  ℕ, suc, String, Bool, true, false, ◌&&◌, not, List, [], ◌∷◌, ◌++◌, map, Option, none, some,
  length, if◌then◌else◌, count, lookup, insert,
}
use storage_cert_harness.Core.{Outcome, TestRequirement, execution_label}

pub data ProgressState : Type 0 where
  queued running complete aborted : ProgressState

pub record ProgressTracker : Type 0 where
  pub order : List String
  pub state : List (String × ProgressState)
  pub outcomes : List (String × Outcome)

-- The arguments of `onStateChange`.
pub record Event : Type 0 where
  pub label : String
  pub state : ProgressState
  pub outcome : Outcome

abbrev pub label_of : TestRequirement → String
label_of tr = execution_label tr.id tr.variant

-- A missing key reads as the zero value.
abbrev or_queued : Option ProgressState → ProgressState
or_queued none = ProgressState.queued
or_queued (some s) = s

abbrev pub state_of : String → ProgressTracker → ProgressState
state_of label p = or_queued (lookup label p.state)

abbrev pub is_complete : ProgressState → Bool
is_complete ProgressState.complete = true
is_complete _ = false

unfoldable pub track : ProgressTracker → List TestRequirement → ProgressTracker
track p [] = p
track p (tr ∷ trs) =
    track
      (record p {
        order = p.order ++ label_of tr ∷ [];
        state = insert (label_of tr) ProgressState.queued p.state;
      })
      trs

unfoldable pub new_progress_tracker : List TestRequirement → ProgressTracker
unfolding track
new_progress_tracker trs = track (record { order = []; state = []; outcomes = [] }) trs

abbrev pub move : String → ProgressState → ProgressTracker → ProgressTracker
move label s p = record p { state = insert label s p.state }

abbrev pub move_with : String → ProgressState → Outcome → ProgressTracker → ProgressTracker
move_with label s o p = record p {
  state = insert label s p.state;
  outcomes = insert label o p.outcomes;
}

abbrev pub event : String → ProgressState → Outcome → Option Event
event label s o = some (record { label = label; state = s; outcome = o })

unfoldable pub start : TestRequirement → ProgressTracker → ProgressTracker × Option Event
start tr p = elim (state_of (label_of tr) p) [
  | ProgressState.queued ↦ (
    move (label_of tr) ProgressState.running p,
    event (label_of tr) ProgressState.running Outcome.unset,
  )
  | _ ↦ (p, none)
]

unfoldable pub finish : TestRequirement → Outcome → ProgressTracker → ProgressTracker × Option Event
finish tr outcome p = elim (state_of (label_of tr) p) [
  | ProgressState.complete ↦ (p, none)
  | _ ↦ (
    move_with (label_of tr) ProgressState.complete outcome p,
    event (label_of tr) ProgressState.complete outcome,
  )
]

unfoldable pub abort : TestRequirement → Outcome → ProgressTracker → ProgressTracker × Option Event
abort tr outcome p = elim (state_of (label_of tr) p) [
  | ProgressState.complete ↦ (p, none)
  | ProgressState.aborted ↦ (p, none)
  | _ ↦ (
    move_with (label_of tr) ProgressState.aborted outcome p,
    event (label_of tr) ProgressState.aborted outcome,
  )
]

-- `countsLocked`: how many are complete, of how many.
unfoldable pub counts : ProgressTracker → ℕ × ℕ
counts p = (count (λ label. is_complete (state_of label p)) p.order, length p.order)
