-- ===== src/Core/Status.antt =====
-- internal/core/types.go: the string enumerations. A Go string type can hold any text: `unset` is the
-- empty string, and `other` any text that is no constant of the type.
use Prim.Native.String.{String}
use mathlib.Core.Bool.{Bool, true, false}

pub data Outcome : Type 0 where
  pass fail error skip unset : Outcome
  other : String → Outcome

pub data RunStatus : Type 0 where
  running complete partial failed abandoned unset : RunStatus
  other : String → RunStatus

pub data RunHealth : Type 0 where
  healthy degraded unhealthy unset : RunHealth
  other : String → RunHealth

pub data ExecutionState : Type 0 where
  queued running completed aborted unset : ExecutionState
  other : String → ExecutionState

-- `outcome == OutcomeFail || outcome == OutcomeError`
abbrev pub is_failure : Outcome → Bool
is_failure Outcome.fail = true
is_failure Outcome.error = true
is_failure _ = false

abbrev pub is_pass : Outcome → Bool
is_pass Outcome.pass = true
is_pass _ = false

abbrev pub is_completed : ExecutionState → Bool
is_completed ExecutionState.completed = true
is_completed _ = false
