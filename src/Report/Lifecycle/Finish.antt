-- ===== src/Report/Lifecycle/Finish.antt =====
-- What `Finalize` leaves in a report.
use storage_cert_harness.Common.{
  suc, String, ◌≡◌, refl, ap, ◌∙◌, true, false, ◌↔◌, List, [], ◌∷◌, arith, length, is_empty, ◌==◌,
  if◌then◌else◌,
}
use storage_cert_harness.Core.{RunStatus, RunPart, Report}
use storage_cert_harness.Report.Lifecycle.{or_complete, default_parts, on_last, bare_part, finalize}
use storage_cert_harness.Report.Lifecycle.Flags.{
  has_blocking, refresh_lifecycle_lem, refresh_lifecycle-certifiable_iff,
}

length-on_last : (f : RunPart → RunPart) (ps : List RunPart) → length (on_last f ps) ≡ length ps
length-on_last f [] = refl
length-on_last f (p ∷ []) = refl
length-on_last f (p ∷ q ∷ ps) = ap suc (length-on_last f (q ∷ ps))

-- The parts of a report to be closed: its own, or a bare one for the run.
abbrev pub opened : String → List RunPart → List RunPart
opened run_id parts = if is_empty parts then bare_part run_id ∷ [] else parts

on_last-nonempty :
    (f : RunPart → RunPart) (run_id : String) (parts : List RunPart)
    → is_empty (on_last f (opened run_id parts)) ≡ false
on_last-nonempty f run_id [] = refl
on_last-nonempty f run_id (p ∷ []) = refl
on_last-nonempty f run_id (p ∷ q ∷ ps) = refl

default_parts-keep :
    (r : Report) → is_empty r.composition.parts ≡ false → default_parts r ≡ r.composition.parts
unfolding default_parts
default_parts-keep r h = ground (arith, h)

-- Finalizing records the status and the reason, closes the last part (a bare one where there is none)
-- with the status, the reason and the end time, the clock's where none is given, leaves the other
-- parts alone, and counts them.
pub finalize_closes :
    (now : String) (r : Report) (status : RunStatus) (reason ended_at : String)
    → let r' = finalize now r status reason ended_at in
      let ended = if ended_at == "" then now else ended_at in
      let parts = opened r.run_id r.composition.parts in
      (r'.status ≡ or_complete status)
      × (r'.completion_reason ≡ reason)
      × (r'.composition.parts
          ≡ on_last (λ p. record p { status = status; ended_at = ended; reason = reason }) parts)
      × (r'.composition.parts_count ≡ length parts)
unfolding finalize
finalize_closes now r status reason ended_at =
    let ended = if ended_at == "" then now else ended_at in
    let f : RunPart → RunPart =
      λ p. record p { status = status; ended_at = ended; reason = reason } in
    let parts = opened r.run_id r.composition.parts in
    let closed = on_last f parts in
    let q = record r {
      status = status;
      completion_reason = reason;
      composition = record { parts_count = length closed; parts = closed };
    } in
    let kept =
      default_parts-keep (record q { status = or_complete status })
        (on_last-nonempty f r.run_id r.composition.parts) in
    let shape = refresh_lifecycle_lem q in
    (
      ap (λ t. t.status) shape,
      ap (λ t. t.completion_reason) shape,
      ap (λ t. t.composition.parts) shape ∙ kept,
      ap (λ t. t.composition.parts_count) shape ∙ ap length kept ∙ length-on_last f parts,
    )

-- The flag after finalizing, from the status that is given and what the report holds.
pub finalize-certifiable_iff :
    (now : String) (r : Report) (status : RunStatus) (reason ended_at : String)
    → ((finalize now r status reason ended_at).certifiable ≡ true) ↔ (
        (or_complete status ≡ RunStatus.complete)
        × (has_blocking r.incidents ≡ false)
        × (r.summary.fail ≡ 0)
        × (r.summary.error ≡ 0))
unfolding finalize
finalize-certifiable_iff now r status reason ended_at = refresh_lifecycle-certifiable_iff _
