-- ===== src/Orchestrator/Run/Steps.antt =====
-- The calls that the jobs, the stages and the progress tracker make while a run works, in the order in
-- which they hold the mutexes, and what they keep.
use storage_cert_harness.Common.{String, List, [], ◌∷◌, Option, none, some, ◌==◌, if◌then◌else◌}
use storage_cert_harness.Core.{TestRequirement, Verdict, Measurement, StorageSelection, Incident}
use storage_cert_harness.Orchestrator.Progress.{
  ProgressTracker, Event, label_of, new_progress_tracker,
}
use storage_cert_harness.Orchestrator.Progress.Terminal.{Op, apply}
use storage_cert_harness.Orchestrator.Run.{
  Setting, Ledger, begin_run, record_storage_selection, record_incident, set_stage,
  record_artifacts, on_state_change, add_results,
}

-- `told` is the call of `onStateChange`, which the tracker makes once it has let go of its mutex.
pub data Call : Type 0 where
  progressed : Op → Call
  told : (now label : String) → Call
  staged : String → List TestRequirement → Call
  collected : List TestRequirement → List String → Call
  chose : StorageSelection → Call
  reported : Incident → Call
  produced : List Verdict → List Measurement → Call

-- The run, with the callbacks that the tracker is still to make, by execution.
pub record Shared : Type 0 where
  pub progress : ProgressTracker
  pub ledger : Ledger
  pub pending : String → Option Event

abbrev pub heard : String → Option Event → Ledger → Ledger
heard now none l = l
heard now (some e) l = on_state_change now e.label e.state e.outcome l

abbrev pub awaiting : Option Event → (String → Option Event) → String → Option Event
awaiting none pending l = pending l
awaiting (some e) pending l = if l == e.label then some e else pending l

abbrev pub made : String → (String → Option Event) → String → Option Event
made label pending l = if l == label then none else pending l

abbrev pub of_op : Op → TestRequirement
of_op (Op.start_of tr) = tr
of_op (Op.finish_of tr o) = tr
of_op (Op.abort_of tr o) = tr

abbrev pub call : Setting → Call → Shared → Shared
call c (Call.progressed op) w =
    let (p, e) = apply op w.progress in record w { progress = p; pending = awaiting e w.pending }
call c (Call.told now label) w = record w {
  ledger = heard now (w.pending label) w.ledger;
  pending = made label w.pending;
}
call c (Call.staged stage trs) w = record w { ledger = set_stage stage trs w.ledger }
call c (Call.collected trs refs) w = record w { ledger = record_artifacts trs refs w.ledger }
call c (Call.chose selection) w = record w {
  ledger = record_storage_selection c selection w.ledger;
}
call c (Call.reported incident) w = record w { ledger = record_incident c incident w.ledger }
call c (Call.produced vs ms) w = record w { ledger = add_results vs ms w.ledger }

abbrev pub calls : Setting → List Call → Shared → Shared
calls c [] w = w
calls c (x ∷ xs) w = calls c xs (call c x w)

-- A call of the tracker up to its return, where no other goroutine is at work.
abbrev pub advance : Setting → String → Op → Shared → Shared
advance c now op w = call c (Call.told now (label_of (of_op op))) (call c (Call.progressed op) w)

abbrev pub opening : Setting → Shared
opening c = record {
  progress = new_progress_tracker c.selected;
  ledger = begin_run c;
  pending = λ label. none;
}
