-- ===== src/Checkpoint/Saved.antt =====
-- What the saves of a run leave in the checkpoint.
use mathlib.Core.List.{Memᴰ, append-nil, append_assoc}
use storage_cert_harness.Common.{
  String, ◌≡◌, sym, ap, ◌∙◌, false, List, [], ◌∷◌, ◌++◌, flat_map, Option, some, arith, ◌==◌,
}
use storage_cert_harness.Core.{RunExecution, Incident, Report}
use storage_cert_harness.Report.Lifecycle.{refresh_lifecycle}
use storage_cert_harness.Report.Lifecycle.Flags.{refresh_lifecycle_lem}
use storage_cert_harness.Report.Keyed.{last_with}
use storage_cert_harness.Report.Merge.{merge, merged, combine, merge_executions, execution_key}
use storage_cert_harness.Report.Merge.Dedupe.{merge_executions-KeepsLast}
use storage_cert_harness.Report.Merge.Result.{merge-merged}
use storage_cert_harness.Checkpoint.{ReportCheckpoint, save, incident_copy}

module _ (write : Report → Option String) (refusal : String → String → String) where
  -- The saves of a run, one after the other.
  abbrev pub saves : List Report → ReportCheckpoint → ReportCheckpoint
  saves [] c = c
  saves (s ∷ ss) c = saves ss (save write refusal s c)

  -- Each save merges: the checkpoint's report has a run id, and the merge is not refused.
  abbrev pub AllMerge : List Report → ReportCheckpoint → Type 0
  AllMerge [] c = Unit
  AllMerge (s ∷ ss) c =
      ((c.latest.run_id == "") ≡ false)
      × ((r : Report) × (merge c.latest s ≡ merged r))
      × AllMerge ss (save write refusal s c)

  save-merged :
      (s : Report) (c : ReportCheckpoint) {r : Report}
      → (c.latest.run_id == "") ≡ false
      → merge c.latest s ≡ merged r
      → (save write refusal s c).latest ≡ r
  unfolding save
  save-merged s c named h = ground (arith, named, h)

  merged_warnings :
      (base next : Report) {r : Report}
      → merge base next ≡ merged r
      → r.warnings ≡ base.warnings ++ next.warnings
  unfolding combine
  merged_warnings base next h =
      ap (λ q. q.warnings) (merge-merged base next h ∙ refresh_lifecycle_lem (combine base next))

  -- After saves that each merge, because the checkpoint's report has a run id and the merge is not refused,
  -- a checkpoint holds its first warnings and those of all the saves, one after the other: a warning that
  -- every snapshot of the run gives stands there once for each save.
  pub saves_warnings :
      (ss : List Report) (c : ReportCheckpoint)
      → AllMerge ss c
      → (saves ss c).latest.warnings ≡ c.latest.warnings ++ flat_map (λ s. s.warnings) ss
  saves_warnings [] c all = sym (append-nil c.latest.warnings)
  saves_warnings (s ∷ ss) c (named, (r, h), all) =
      saves_warnings ss (save write refusal s c) all
      ∙ ap (λ w. w ++ flat_map (λ s. s.warnings) ss)
          (ap (λ q. q.warnings) (save-merged s c named h) ∙ merged_warnings c.latest s h)
      ∙ append_assoc c.latest.warnings s.warnings (flat_map (λ s. s.warnings) ss)

  merged_executions :
      (base next : Report) {r : Report}
      → merge base next ≡ merged r
      → r.executions ≡ merge_executions base.executions next.executions
  unfolding combine
  merged_executions base next h =
      ap (λ q. q.executions) (merge-merged base next h ∙ refresh_lifecycle_lem (combine base next))

  last_with-append :
      (k : String) (xs ys : List RunExecution) (x : RunExecution)
      → last_with execution_key k ys ≡ some x
      → last_with execution_key k (xs ++ ys) ≡ some x
  last_with-append k [] ys x h = h
  last_with-append k (y ∷ xs) ys x h = ground (arith, last_with-append k xs ys x h)

  copied :
      (incident : Incident) (c : ReportCheckpoint) {copy : Report}
      → incident_copy incident c ≡ some copy
      → copy.executions ≡ c.latest.executions
  unfolding incident_copy
  copied incident c {copy} taken =
      let noted = record c.latest { incidents = c.latest.incidents ++ incident ∷ [] } in
      let made : refresh_lifecycle noted ≡ copy = ground (arith, taken) in
      ap (λ q. q.executions) (sym made ∙ refresh_lifecycle_lem noted)

  -- The two steps of recording an incident: what the checkpoint's report said of an execution when the
  -- incident was taken is what it says again when the copy is saved, whatever was saved in between: a
  -- state that the execution reached meanwhile is lost.
  pub incident_copy-stale :
      (incident : Incident) (c : ReportCheckpoint) {copy : Report} (between : List Report)
      {r : Report}
      → incident_copy incident c ≡ some copy
      → ((saves between c).latest.run_id == "") ≡ false
      → merge (saves between c).latest copy ≡ merged r
      → (x : RunExecution) → last_with execution_key (execution_key x) c.latest.executions ≡ some x
      → Memᴰ x (save write refusal copy (saves between c)).latest.executions
  incident_copy-stale incident c {copy} between {r} taken named h x held =
      let now = (saves between c).latest in
      let same =
        ap (λ q. q.executions) (save-merged copy (saves between c) named h)
        ∙ merged_executions now copy h in
      let keeps = merge_executions-KeepsLast now.executions copy.executions in
      let latest =
        last_with-append (execution_key x) now.executions copy.executions x
          (ap (last_with execution_key (execution_key x)) (copied incident c taken) ∙ held) in
      rw same ((keeps.exact x).1 latest)
