-- ===== src/Checkpoint.antt =====
-- cmd/harness/checkpoint.go: the report that is kept while a run works. Each method holds the mutex from
-- its first line to its last, but for `RecordIncident`, which lets go of it before it calls `Save`: it is
-- two steps here. The methods return at once on a nil pointer; the model is for one that is there.
pub mod Saved
pub mod Recovered
use storage_cert_harness.Common.{
  String, Bool, true, false, not, ◌&&◌, List, [], ◌∷◌, ◌++◌, Option, none, some, ◌==◌,
  if◌then◌else◌, any, is_empty,
}
use storage_cert_harness.Core.{RunStatus, Incident, Report}
use storage_cert_harness.Report.Lifecycle.{refresh_lifecycle, finalize}
use storage_cert_harness.Report.Merge.{merge, merged, different_commits}
use storage_cert_harness.Orchestrator.Run.Ending.{run_incident}

-- `reportCheckpoint`, with the reports that it wrote, the last one first.
pub record ReportCheckpoint : Type 0 where
  pub output_dir : String
  pub latest : Report
  pub last_err : Option String
  pub written : List Report

abbrev or_error : Option String → Option String → Option String
or_error none old = old
or_error (some e) old = some e

-- What the merge gives, or the snapshot with the merge's error.
abbrev pub merged_with : (String → String → String) → Report → Report → Report × Option String
merged_with refusal base snapshot =
    if base.run_id == "" then (snapshot, none) else elim (merge base snapshot) [
      | merged r ↦ (r, none)
      | different_commits b n ↦ (snapshot, some (refusal b n))
    ]

-- The first step of `RecordIncident`: the copy of the report that it is going to save, if any.
unfoldable pub incident_copy : Incident → ReportCheckpoint → Option Report
incident_copy incident c =
    if any (λ i. not (i.id == "") && i.id == incident.id) c.latest.incidents
    then none
    else some
        (refresh_lifecycle (record c.latest { incidents = c.latest.incidents ++ incident ∷ [] }))

-- `write` gives the error of `writeReportFiles`, and `refusal` the text of the merge's.
module _ (write : Report → Option String) (refusal : String → String → String) where
  -- The report's files, where there is a directory for them.
  abbrev pub write_out : ReportCheckpoint → ReportCheckpoint
  write_out c = if c.output_dir == "" then c else record c {
    written = c.latest ∷ c.written;
    last_err = or_error (write c.latest) c.last_err;
  }

  unfoldable pub save : Report → ReportCheckpoint → ReportCheckpoint
  save snapshot c =
      let (r, e) = merged_with refusal c.latest snapshot in
      write_out (record c { latest = r; last_err = or_error e c.last_err })

  -- Both steps with nothing between them.
  unfoldable pub record_incident : Incident → ReportCheckpoint → ReportCheckpoint
  unfolding save incident_copy
  record_incident incident c = elim (incident_copy incident c) [
    | none ↦ c
    | some copy ↦ save copy c
  ]

  unfoldable pub close_checkpoint :
      String → RunStatus → String → ReportCheckpoint → ReportCheckpoint
  close_checkpoint now status reason c =
      write_out (record c { latest = finalize now c.latest status reason now })

-- `recover`: a report that no process will finish any more. `given` is the reason on the command line.
pub data Recovery : Type 0 where
  recovered : Report → Recovery
  not_running : RunStatus → Recovery

abbrev pub reason_of : String → String
reason_of given = if given == "" then "process ended without finalizing the run" else given

abbrev pub abandoned_incident : String → Incident
abandoned_incident reason =
    run_incident "run-abandoned" "abandoned" reason ""
      "the report was recovered from a stale running checkpoint"

unfoldable pub recover : String → String → Report → Recovery
recover now given rep = elim rep.status [
  | RunStatus.running ↦ recovered (
      finalize now
        (record rep { incidents = rep.incidents ++ abandoned_incident (reason_of given) ∷ [] })
        RunStatus.abandoned (reason_of given) now)
  | _ ↦ not_running rep.status
]
