-- ===== src/Orchestrator/Run/Recorded.antt =====
-- What the calls of a run record: verdicts that fail and incidents that block certification.
use storage_cert_harness.Common.{
  String, ◌≡◌, refl, ap, ◌∙◌, inl, inr, Bool, true, false, ◌||◌, List, [], ◌∷◌, Option, none, some,
  arith, ◌==◌, any, any-append, Bool-cases,
}
use storage_cert_harness.Core.{TestRequirement, is_failure}
use storage_cert_harness.Report.Lifecycle.Flags.{has_blocking}
use storage_cert_harness.Orchestrator.Progress.{Event}
use storage_cert_harness.Orchestrator.Run.{
  Setting, Ledger, set_stage, record_artifacts, on_state_change, record_storage_selection,
  record_incident, add_results,
}
use storage_cert_harness.Orchestrator.Run.Steps.{Call, Shared, heard, call, calls}

-- The verdicts of a call hold a failure or an error; a call reports an incident that blocks
-- certification.
abbrev pub fails : Call → Bool
fails (Call.produced vs ms) = any (λ v. is_failure v.outcome) vs
fails _ = false

abbrev pub blocks : Call → Bool
blocks (Call.reported incident) = incident.blocks_certification
blocks _ = false

heard_keeps :
    (now : String) (e : Option Event) (l : Ledger)
    → ((heard now e l).verdicts ≡ l.verdicts) × ((heard now e l).incidents ≡ l.incidents)
unfolding on_state_change
heard_keeps now none l = (refl, refl)
heard_keeps now (some e) l = (refl, refl)

collected_keeps :
    (trs : List TestRequirement) (refs : List String) (l : Ledger)
    → ((record_artifacts trs refs l).verdicts ≡ l.verdicts)
      × ((record_artifacts trs refs l).incidents ≡ l.incidents)
unfolding record_artifacts
collected_keeps trs [] l = (refl, refl)
collected_keeps trs (r ∷ refs) l = (refl, refl)

abbrev pub failing : Ledger → Bool
failing l = any (λ v. is_failure v.outcome) l.verdicts

or_false : (a : Bool) → a ≡ (a || false)
or_false true = refl
or_false false = refl

call-fails :
    (c : Setting) (x : Call) (w : Shared)
    → failing (call c x w).ledger ≡ (failing w.ledger || fails x)
unfolding set_stage record_storage_selection record_incident add_results
call-fails c (Call.progressed op) w = or_false (failing w.ledger)
call-fails c (Call.told now label) w =
    ap (any (λ v. is_failure v.outcome)) (heard_keeps now (w.pending label) w.ledger).0
    ∙ or_false (failing w.ledger)
call-fails c (Call.staged stage trs) w = or_false (failing w.ledger)
call-fails c (Call.collected trs refs) w =
    ap (any (λ v. is_failure v.outcome)) (collected_keeps trs refs w.ledger).0
    ∙ or_false (failing w.ledger)
call-fails c (Call.chose selection) w = or_false (failing w.ledger)
call-fails c (Call.reported incident) w = or_false (failing w.ledger)
call-fails c (Call.produced vs ms) w = any-append (λ v. is_failure v.outcome) w.ledger.verdicts vs

call-blocks :
    (c : Setting) (x : Call) (w : Shared)
    → has_blocking (call c x w).ledger.incidents ≡ (has_blocking w.ledger.incidents || blocks x)
unfolding set_stage record_storage_selection record_incident add_results
call-blocks c (Call.progressed op) w = or_false (has_blocking w.ledger.incidents)
call-blocks c (Call.told now label) w =
    ap has_blocking (heard_keeps now (w.pending label) w.ledger).1
    ∙ or_false (has_blocking w.ledger.incidents)
call-blocks c (Call.staged stage trs) w = or_false (has_blocking w.ledger.incidents)
call-blocks c (Call.collected trs refs) w =
    ap has_blocking (collected_keeps trs refs w.ledger).1
    ∙ or_false (has_blocking w.ledger.incidents)
call-blocks c (Call.chose selection) w = or_false (has_blocking w.ledger.incidents)
call-blocks c (Call.reported incident) w = elim (Bool-cases (incident.id == "")) [
  | inl t ↦ rw t (any-append (λ i. i.blocks_certification) w.ledger.incidents _ ∙ ground arith)
  | inr f ↦ rw f (any-append (λ i. i.blocks_certification) w.ledger.incidents _ ∙ ground arith)
]
call-blocks c (Call.produced vs ms) w = or_false (has_blocking w.ledger.incidents)

pub calls-fails :
    (c : Setting) (xs : List Call) (w : Shared)
    → failing (calls c xs w).ledger ≡ (failing w.ledger || any fails xs)
calls-fails c [] w = or_false (failing w.ledger)
calls-fails c (x ∷ xs) w = ground (arith, calls-fails c xs (call c x w), call-fails c x w)

pub calls-blocks :
    (c : Setting) (xs : List Call) (w : Shared)
    → has_blocking (calls c xs w).ledger.incidents
      ≡ (has_blocking w.ledger.incidents || any blocks xs)
calls-blocks c [] w = or_false (has_blocking w.ledger.incidents)
calls-blocks c (x ∷ xs) w = ground (arith, calls-blocks c xs (call c x w), call-blocks c x w)
