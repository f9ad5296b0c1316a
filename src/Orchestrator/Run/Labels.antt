-- ===== src/Orchestrator/Run/Labels.antt =====
-- Each label stands once among a run's executions.
use storage_cert_harness.Common.{
  String, ◌≡◌, refl, inl, inr, false, List, [], ◌∷◌, ◌++◌, Option, none, some, arith, ◌==◌, eq_iff,
  eq_refl, is_empty, lookup, insert, insert-IsMap, IsMap, Bool-cases,
}
use storage_cert_harness.Core.{TestRequirement, RunExecution}
use storage_cert_harness.Orchestrator.Progress.{Event, label_of}
use storage_cert_harness.Orchestrator.Run.{
  Setting, begin_run, queue_each, queued_execution, change, change_each, set_stage,
  record_artifacts, on_state_change, record_storage_selection, record_incident, add_results,
}
use storage_cert_harness.Orchestrator.Run.Close.{unbegun, left_over}
use storage_cert_harness.Orchestrator.Run.Steps.{Call, Shared, heard, call, calls, opening}

-- What is left over, by label.
pub left_over-lookup :
    (label : String) (m : List (String × RunExecution)) (x : RunExecution)
    → left_over m ≡ false
    → lookup label m ≡ some x
    → unbegun x.state ≡ false
left_over-lookup label [] x h found = cc
left_over-lookup label ((k, y) ∷ m) x h found = elim (Bool-cases (k == label)) [
  | inl t ↦ ground (arith, h, found, t)
  | inr f ↦ left_over-lookup label m x (ground (arith, h)) (rw f at found)
]

pub lookup-left_over :
    (m : List (String × RunExecution))
    → IsMap m
    → ((label : String) (x : RunExecution) → lookup label m ≡ some x → unbegun x.state ≡ false)
    → left_over m ≡ false
lookup-left_over [] im h = refl
lookup-left_over ((k, y) ∷ m) (fresh, im) h =
    let this : unbegun y.state ≡ false = h k y (ground (arith, eq_refl k)) in
    let later = lookup-left_over m im (λ label x found. h label x (elim (Bool-cases (k == label)) [
      | inl t ↦ absurd (ground (arith, fresh, found, eq_iff k label, t))
      | inr f ↦ rw f found
    ])) in
    ground (arith, this, later)

-- A label stands once among the executions.
queue_each-IsMap :
    (scenario : String) (m : List (String × RunExecution)) (trs : List TestRequirement)
    → IsMap m
    → IsMap (queue_each scenario m trs)
unfolding queue_each
queue_each-IsMap scenario m [] h = h
queue_each-IsMap scenario m (tr ∷ trs) h =
    queue_each-IsMap scenario (insert (label_of tr) (queued_execution scenario tr) m) trs
      (insert-IsMap (label_of tr) (queued_execution scenario tr) m h)

change_each-IsMap :
    (f : RunExecution → RunExecution) (m : List (String × RunExecution))
    (trs : List TestRequirement)
    → IsMap m
    → IsMap (change_each f trs m)
unfolding change_each
change_each-IsMap f m [] h = h
change_each-IsMap f m (tr ∷ trs) h =
    change_each-IsMap f (change f (label_of tr) m) trs (insert-IsMap (label_of tr) _ m h)

call-IsMap :
    (c : Setting) (x : Call) (w : Shared)
    → IsMap w.ledger.executions
    → IsMap (call c x w).ledger.executions
unfolding set_stage record_artifacts on_state_change record_storage_selection record_incident
    add_results
call-IsMap c (Call.progressed op) w h = h
call-IsMap c (Call.told now label) w h = by_event (w.pending label)
  where
    by_event : (e : Option Event) → IsMap (heard now e w.ledger).executions
    by_event none = h
    by_event (some e) = insert-IsMap e.label _ w.ledger.executions h
call-IsMap c (Call.staged stage trs) w h =
    change_each-IsMap (λ x. record x { stage = stage }) w.ledger.executions trs h
call-IsMap c (Call.collected trs refs) w h = elim (Bool-cases (is_empty refs)) [
  | inl t ↦ rw t h
  | inr f ↦ rw f (
      change_each-IsMap (λ x. record x { artifacts = x.artifacts ++ refs }) w.ledger.executions trs
        h)
]
call-IsMap c (Call.chose selection) w h = h
call-IsMap c (Call.reported incident) w h = h
call-IsMap c (Call.produced vs ms) w h = h

pub calls-IsMap :
    (c : Setting) (xs : List Call) (w : Shared)
    → IsMap w.ledger.executions
    → IsMap (calls c xs w).ledger.executions
calls-IsMap c [] w h = h
calls-IsMap c (x ∷ xs) w h = calls-IsMap c xs (call c x w) (call-IsMap c x w h)

pub opening-IsMap : (c : Setting) → IsMap (opening c).ledger.executions
unfolding begin_run
opening-IsMap c = queue_each-IsMap c.scenario [] c.selected tt
