-- ===== src/Orchestrator/Executions/Ended.antt =====
-- What the calls of the tracker do to an execution that has ended, or has not.
use storage_cert_harness.Common.{
  String, ◌≡◌, Bool, true, false, arith, eq_iff, eq_refl, lookup-insert, inl, inr, ◌⊎◌, Bool-cases,
  ◌==◌,
}
use storage_cert_harness.Core.{Outcome, TestRequirement}
use storage_cert_harness.Orchestrator.Progress.{
  ProgressState, ProgressTracker, label_of, state_of, is_complete, start, finish, abort,
}
use storage_cert_harness.Orchestrator.Progress.Terminal.{Op, apply}

-- The execution is complete or aborted.
abbrev pub has_ended : ProgressState → Bool
has_ended ProgressState.complete = true
has_ended ProgressState.aborted = true
has_ended _ = false

abbrev pub Ended : String → ProgressTracker → Type 0
Ended label p = has_ended (state_of label p) ≡ true

pub apply_ends :
    (label : String) (op : Op) (p : ProgressTracker) → Ended label p → Ended label (apply op p).0
unfolding start finish abort
apply_ends label (Op.start_of tr) p h = ground (
  arith,
  h,
  lookup-insert (label_of tr) label ProgressState.running p.state,
  eq_iff (label_of tr) label,
)
apply_ends label (Op.finish_of tr new) p h = ground (
  arith,
  h,
  lookup-insert (label_of tr) label ProgressState.complete p.state,
  eq_iff (label_of tr) label,
)
apply_ends label (Op.abort_of tr new) p h = ground (
  arith,
  h,
  lookup-insert (label_of tr) label ProgressState.aborted p.state,
  eq_iff (label_of tr) label,
)

pub finish-Ended :
    (tr : TestRequirement) (o : Outcome) (p : ProgressTracker)
    → Ended (label_of tr) (finish tr o p).0
unfolding finish
finish-Ended tr o p = ground (
  arith,
  lookup-insert (label_of tr) (label_of tr) ProgressState.complete p.state,
  eq_refl (label_of tr),
)

pub abort-Ended :
    (tr : TestRequirement) (o : Outcome) (p : ProgressTracker)
    → Ended (label_of tr) (abort tr o p).0
unfolding abort
abort-Ended tr o p = ground (
  arith,
  lookup-insert (label_of tr) (label_of tr) ProgressState.aborted p.state,
  eq_refl (label_of tr),
)

-- Complete, or aborted where `C` holds.
abbrev pub EndedAs : String → Type 0 → ProgressTracker → Type 0
EndedAs label C p =
    (state_of label p ≡ ProgressState.complete) ⊎ ((state_of label p ≡ ProgressState.aborted) × C)

complete_stays :
    (label : String) (op : Op) (p : ProgressTracker)
    → state_of label p ≡ ProgressState.complete
    → state_of label (apply op p).0 ≡ ProgressState.complete
unfolding start finish abort
complete_stays label (Op.start_of tr) p h = ground (
  arith,
  h,
  lookup-insert (label_of tr) label ProgressState.running p.state,
  eq_iff (label_of tr) label,
)
complete_stays label (Op.finish_of tr o) p h = ground (
  arith,
  h,
  lookup-insert (label_of tr) label ProgressState.complete p.state,
  eq_iff (label_of tr) label,
)
complete_stays label (Op.abort_of tr o) p h = ground (
  arith,
  h,
  lookup-insert (label_of tr) label ProgressState.aborted p.state,
  eq_iff (label_of tr) label,
)

-- An execution that was aborted stays so, but for one that is completed later.
aborted_stays :
    (label : String) (op : Op) (p : ProgressTracker)
    → state_of label p ≡ ProgressState.aborted
    → (state_of label (apply op p).0 ≡ ProgressState.complete)
      ⊎ (state_of label (apply op p).0 ≡ ProgressState.aborted)
unfolding start finish abort
aborted_stays label (Op.start_of tr) p h = inr (
    ground (
      arith,
      h,
      lookup-insert (label_of tr) label ProgressState.running p.state,
      eq_iff (label_of tr) label,
    ))
aborted_stays label (Op.finish_of tr o) p h = elim (Bool-cases (label_of tr == label)) [
  | inl t ↦ inl (
      ground (
        arith,
        t,
        h,
        lookup-insert (label_of tr) label ProgressState.complete p.state,
        eq_iff (label_of tr) label,
      ))
  | inr f ↦ inr (
      ground (
        arith,
        f,
        h,
        lookup-insert (label_of tr) label ProgressState.complete p.state,
        eq_iff (label_of tr) label,
      ))
]
aborted_stays label (Op.abort_of tr o) p h = inr (
    ground (
      arith,
      h,
      lookup-insert (label_of tr) label ProgressState.aborted p.state,
      eq_iff (label_of tr) label,
    ))

pub ended_stays :
    (label : String) (C D : Type 0) (op : Op) (p : ProgressTracker)
    → (C → D)
    → EndedAs label C p
    → EndedAs label D (apply op p).0
ended_stays label C D op p f (inl c) = inl (complete_stays label op p c)
ended_stays label C D op p f (inr (a, c)) = elim (aborted_stays label op p a) [
  | inl done ↦ inl done
  | inr still ↦ inr (still, f c)
]

pub finish-complete :
    (tr : TestRequirement) (o : Outcome) (p : ProgressTracker)
    → state_of (label_of tr) (finish tr o p).0 ≡ ProgressState.complete
unfolding finish
finish-complete tr o p = ground (
  arith,
  lookup-insert (label_of tr) (label_of tr) ProgressState.complete p.state,
  eq_refl (label_of tr),
)

pub abort-EndedAs :
    (tr : TestRequirement) (C : Type 0) (p : ProgressTracker)
    → C
    → EndedAs (label_of tr) C (abort tr Outcome.error p).0
unfolding abort
abort-EndedAs tr C p c = elim (Bool-cases (is_complete (state_of (label_of tr) p))) [
  | inl t ↦ inl (ground (arith, t))
  | inr f ↦ inr (
    ground (
      arith,
      f,
      lookup-insert (label_of tr) (label_of tr) ProgressState.aborted p.state,
      eq_refl (label_of tr),
    ),
    c,
  )
]

-- Neither the start nor the abortion of an execution completes one.
abbrev pub completing : Op → Bool
completing (Op.finish_of tr o) = true
completing _ = false

pub open_stays :
    (label : String) (op : Op) (p : ProgressTracker)
    → completing op ≡ false
    → is_complete (state_of label p) ≡ false
    → is_complete (state_of label (apply op p).0) ≡ false
unfolding start finish abort
open_stays label (Op.start_of tr) p k h = ground (
  arith,
  h,
  lookup-insert (label_of tr) label ProgressState.running p.state,
  eq_iff (label_of tr) label,
)
open_stays label (Op.finish_of tr o) p k h = absurd (ground (arith, k))
open_stays label (Op.abort_of tr o) p k h = ground (
  arith,
  h,
  lookup-insert (label_of tr) label ProgressState.aborted p.state,
  eq_iff (label_of tr) label,
)
