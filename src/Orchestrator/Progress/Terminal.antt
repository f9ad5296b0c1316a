-- ===== src/Orchestrator/Progress/Terminal.antt =====
-- What stays of an execution's progress, whatever the others do.
use storage_cert_harness.Common.{
  ℕ, ◌≤◌, ◌+◌, String, ◌≡◌, refl, ◌↔◌, ◌≢◌, Bool, true, ◌&&◌, List, [], ◌∷◌, Option, none, some,
  length, arith, ◌==◌, eq_iff, eq_refl, if◌then◌else◌, count, all, lookup, lookup-insert, inl, inr,
  ◌⊎◌,
}
use storage_cert_harness.Core.{Outcome, TestRequirement}
use storage_cert_harness.Orchestrator.Progress.{
  ProgressState, ProgressTracker, Event, label_of, state_of, is_complete, start, finish, abort,
  counts,
}

-- A call of one of the three operations.
pub data Op : Type 0 where
  start_of : TestRequirement → Op
  finish_of : TestRequirement → Outcome → Op
  abort_of : TestRequirement → Outcome → Op

abbrev pub apply : Op → ProgressTracker → ProgressTracker × Option Event
apply (Op.start_of tr) p = start tr p
apply (Op.finish_of tr o) p = finish tr o p
apply (Op.abort_of tr o) p = abort tr o p

-- The calls of all the jobs, in the order in which they hold the mutex.
abbrev pub run : List Op → ProgressTracker → ProgressTracker
run [] p = p
run (op ∷ ops) p = run ops (apply op p).0

-- An execution that is complete with an outcome.
abbrev pub IsComplete : String → Outcome → ProgressTracker → Type 0
IsComplete label o p =
    (state_of label p ≡ ProgressState.complete) × (lookup label p.outcomes ≡ some o)

apply_keeps :
    (label : String) (o : Outcome) (op : Op) (p : ProgressTracker)
    → IsComplete label o p
    → IsComplete label o (apply op p).0
unfolding start finish abort
apply_keeps label o (Op.start_of tr) p (c, h) = ground (
  arith,
  c,
  h,
  lookup-insert (label_of tr) label ProgressState.running p.state,
  eq_iff (label_of tr) label,
)
apply_keeps label o (Op.finish_of tr new) p (c, h) = ground (
  arith,
  c,
  h,
  lookup-insert (label_of tr) label ProgressState.complete p.state,
  lookup-insert (label_of tr) label new p.outcomes,
  eq_iff (label_of tr) label,
)
apply_keeps label o (Op.abort_of tr new) p (c, h) = ground (
  arith,
  c,
  h,
  lookup-insert (label_of tr) label ProgressState.aborted p.state,
  lookup-insert (label_of tr) label new p.outcomes,
  eq_iff (label_of tr) label,
)

-- Once an execution is complete with an outcome, no sequence of calls for it or for others, in
-- whatever order the jobs make them, changes its state or its outcome.
pub run_keeps :
    (label : String) (o : Outcome) (ops : List Op) (p : ProgressTracker)
    → IsComplete label o p
    → IsComplete label o (run ops p)
run_keeps label o [] p h = h
run_keeps label o (op ∷ ops) p h = run_keeps label o ops (apply op p).0 (apply_keeps label o op p h)

-- The event says that the execution is complete.
abbrev completes : String → Option Event → ℕ
completes label none = 0
completes label (some e) = if e.label == label && is_complete e.state then 1 else 0

-- How often a run reports that the execution is complete.
abbrev pub completions : String → List Op → ProgressTracker → ℕ
completions label [] p = 0
completions label (op ∷ ops) p =
    completes label (apply op p).1 + completions label ops (apply op p).0

-- One call reports a completion only if the execution was not complete before, and is then.
apply_reports :
    (label : String) (op : Op) (p : ProgressTracker)
    → ((completes label (apply op p).1 ≡ 0)
        × (state_of label p ≡ ProgressState.complete
            → state_of label (apply op p).0 ≡ ProgressState.complete))
      ⊎ ((completes label (apply op p).1 ≡ 1)
          × (state_of label p ≢ ProgressState.complete)
          × (state_of label (apply op p).0 ≡ ProgressState.complete))
unfolding start finish abort
apply_reports label (Op.start_of tr) p = ground (
  arith,
  lookup-insert (label_of tr) label ProgressState.running p.state,
  eq_iff (label_of tr) label,
)
apply_reports label (Op.finish_of tr new) p = ground (
  arith,
  lookup-insert (label_of tr) label ProgressState.complete p.state,
  eq_iff (label_of tr) label,
)
apply_reports label (Op.abort_of tr new) p = ground (
  arith,
  lookup-insert (label_of tr) label ProgressState.aborted p.state,
  eq_iff (label_of tr) label,
)

completions_none :
    (label : String) (ops : List Op) (p : ProgressTracker)
    → state_of label p ≡ ProgressState.complete
    → completions label ops p ≡ 0
completions_none label [] p h = refl
completions_none label (op ∷ ops) p h = elim (apply_reports label op p) [
  | inl (zero, stays) ↦ ground (arith, zero, completions_none label ops (apply op p).0 (stays h))
  | inr (one, open_before, after) ↦ absurd (open_before h)
]

-- Whatever the jobs call, the completion of an execution is reported at most once.
pub completions_once :
    (label : String) (ops : List Op) (p : ProgressTracker) → completions label ops p ≤ 1
completions_once label [] p = omega arith
completions_once label (op ∷ ops) p = elim (apply_reports label op p) [
  | inl (zero, stays) ↦ omega (arith, zero, completions_once label ops (apply op p).0)
  | inr (one, open_before, after) ↦
      omega (arith, one, completions_none label ops (apply op p).0 after)
]

-- Aborting completes no execution, and an execution that was not complete is aborted with the outcome
-- or was aborted before.
pub abort_lem :
    (tr : TestRequirement) (o : Outcome) (p : ProgressTracker)
    → state_of (label_of tr) p ≢ ProgressState.complete
    → (state_of (label_of tr) (abort tr o p).0 ≡ ProgressState.aborted)
      × ((state_of (label_of tr) p ≡ ProgressState.aborted)
          ⊎ (lookup (label_of tr) (abort tr o p).0.outcomes ≡ some o))
unfolding abort
abort_lem tr o p h =
    let l = label_of tr in
    let moved = lookup-insert l l ProgressState.aborted p.state in
    let noted = lookup-insert l l o p.outcomes in
    (ground (arith, moved, eq_refl l, h), ground (arith, noted, eq_refl l, h))

count_bound :
    (q : String → Bool) (xs : List String)
    → (count q xs ≤ length xs) × ((count q xs ≡ length xs) ↔ (all q xs ≡ true))
count_bound q [] = (omega arith, (λ h. refl, λ h. refl))
count_bound q (x ∷ xs) = ground (arith, count_bound q xs)

-- No more executions are complete than there are, and the plan is reported as complete exactly if all
-- are.
pub counts_lem :
    (p : ProgressTracker)
    → ((counts p).0 ≤ (counts p).1)
      × (((counts p).0 ≡ (counts p).1)
          ↔ (all (λ label. is_complete (state_of label p)) p.order ≡ true))
unfolding counts
counts_lem p = count_bound (λ label. is_complete (state_of label p)) p.order
