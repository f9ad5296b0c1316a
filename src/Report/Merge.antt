-- ===== src/Report/Merge.antt =====
-- internal/report/report.go, `Merge` and its helpers, and internal/report/storage.go. A map from a key
-- to an index or to a value is an association list.
pub mod Dedupe
pub mod Parts
pub mod Result
use storage_cert_harness.Common.{
  ℕ, String, Bool, true, false, eqb, ◌&&◌, not, List, [], ◌∷◌, ◌++◌, map, Option, none, some, ◌==◌,
  ◌<>◌, nul_text, if◌then◌else◌, length, is_empty, set, lookup, insert, less_by, sort_by,
}
use storage_cert_harness.Core.{
  RunStatus, Verdict, Measurement, RunExecution, RunPart, RunComposition, Incident,
  StorageSelection, Environment, Report, Provenance,
}
use storage_cert_harness.Report.Lifecycle.{or_complete, refresh_lifecycle}
use storage_cert_harness.Report.Build.{build}

-- The loop of `dedupeVerdicts` and `dedupeMeasurements`: `seen` maps a key to its index in `out`.
dedupe_from : {A : Type 0} → (A → String) → List (String × ℕ) → List A → List A → List A
dedupe_from key seen out [] = out
dedupe_from key seen out (v ∷ vs) = elim (lookup (key v) seen) [
  | some i ↦ dedupe_from key seen (set out i v) vs
  | none ↦ dedupe_from key (insert (key v) (length out) seen) (out ++ v ∷ []) vs
]

abbrev pub verdict_key : Verdict → String
verdict_key v = v.tr <> nul_text <> v.variant <> nul_text <> v.item <> nul_text <> v.scenario

abbrev pub verdict_order : List (Verdict → String)
verdict_order = (λ v. v.tr) ∷ (λ v. v.variant) ∷ (λ v. v.scenario) ∷ (λ v. v.item) ∷ []

abbrev pub verdict_less : Verdict → Verdict → Bool
verdict_less = less_by verdict_order

unfoldable pub dedupe_verdicts : List Verdict → List Verdict
unfolding dedupe_from
dedupe_verdicts vs = sort_by verdict_less (dedupe_from verdict_key [] [] vs)

abbrev pub measurement_key : Measurement → String
measurement_key m =
    m.tr <> nul_text <> m.variant <> nul_text <> m.name <> nul_text <> m.percentile <> nul_text
    <> m.scenario

abbrev pub measurement_order : List (Measurement → String)
measurement_order =
    (λ m. m.tr) ∷ (λ m. m.variant) ∷ (λ m. m.scenario) ∷ (λ m. m.name) ∷ (λ m. m.percentile) ∷ []

abbrev pub measurement_less : Measurement → Measurement → Bool
measurement_less = less_by measurement_order

unfoldable pub dedupe_measurements : List Measurement → List Measurement
unfolding dedupe_from
dedupe_measurements ms = sort_by measurement_less (dedupe_from measurement_key [] [] ms)

abbrev pub execution_key : RunExecution → String
execution_key e = e.tr <> nul_text <> e.variant <> nul_text <> e.scenario

abbrev pub execution_order : List (RunExecution → String)
execution_order = (λ e. e.tr) ∷ (λ e. e.variant) ∷ (λ e. e.scenario) ∷ []

abbrev pub execution_less : RunExecution → RunExecution → Bool
execution_less = less_by execution_order

by_key : List (String × RunExecution) → List RunExecution → List (String × RunExecution)
by_key m [] = m
by_key m (e ∷ es) = by_key (insert (execution_key e) e m) es

unfoldable pub merge_executions : List RunExecution → List RunExecution → List RunExecution
unfolding by_key
merge_executions base next = sort_by execution_less (map (λ b. b.1) (by_key [] (base ++ next)))

-- `seen[k]` of a `map[string]bool`, as the list of the keys set to true.
abbrev pub member : String → List String → Bool
member k [] = false
member k (j ∷ js) = let rest = member k js in if j == k then true else rest

abbrev pub incident_key : Incident → String
incident_key i = if i.id == "" then i.type <> nul_text <> i.tr <> nul_text <> i.message else i.id

first_incidents : List String → List Incident → List Incident → List Incident
first_incidents seen out [] = out
first_incidents seen out (i ∷ is) =
    let known = first_incidents seen out is in
    let new = first_incidents (incident_key i ∷ seen) (out ++ i ∷ []) is in
    if member (incident_key i) seen then known else new

unfoldable pub merge_incidents : List Incident → List Incident → List Incident
unfolding first_incidents
merge_incidents base next = first_incidents [] [] (base ++ next)

-- The loop that gives a part anew wherever its id stands.
replace_part : RunPart → List RunPart → List RunPart
replace_part p [] = []
replace_part p (q ∷ qs) = (if q.part_id == p.part_id then p else q) ∷ replace_part p qs

-- The body of the loop over a report's parts: `seen` and `parts`.
add_parts : List String → List RunPart → List RunPart → List String × List RunPart
unfolding replace_part
add_parts seen parts [] = (seen, parts)
add_parts seen parts (p ∷ ps) =
    let skipped = add_parts seen parts ps in
    let replaced = add_parts seen (replace_part p parts) ps in
    let appended = add_parts (p.part_id ∷ seen) (parts ++ p ∷ []) ps in
    if p.part_id == "" then skipped else if member p.part_id seen then replaced else appended

-- The parts that a report brings: its own, or one made from its id and status.
abbrev pub parts_of : Report → List RunPart
parts_of r =
    if is_empty r.composition.parts && not (r.run_id == "")
    then record {
      part_id = r.run_id;
      kind = "";
      started_at = "";
      ended_at = "";
      status = or_complete r.status;
      reason = "";
    }
      ∷ []
    else r.composition.parts

unfoldable pub merge_composition : Report → Report → RunComposition
unfolding add_parts
merge_composition base next =
    let (seen, first) = add_parts [] [] (parts_of base) in
    let (all_seen, parts) = add_parts seen first (parts_of next) in
    record { parts_count = length parts; parts = parts }

-- `mergeStorageSelections`: the first selection of the same execution is given anew, or the new one is
-- appended.
place_selection : StorageSelection → List StorageSelection → List StorageSelection
place_selection s [] = s ∷ []
place_selection s (old ∷ rest) =
    let later = place_selection s rest in
    if old.tr == s.tr && (old.variant == s.variant && old.scenario == s.scenario)
    then s ∷ rest
    else old ∷ later

unfoldable pub merge_storage_selections :
    List StorageSelection → List StorageSelection → List StorageSelection
unfolding place_selection
merge_storage_selections out [] = out
merge_storage_selections out (s ∷ next) = merge_storage_selections (place_selection s out) next

unfoldable pub empty_env : Environment → Bool
empty_env e =
    eqb e.hardware.nodes 0
    && (is_empty e.hardware.facts
        && (p.ocp_version == ""
            && (p.csi_driver.name == ""
                && (p.backend == "" && (is_empty p.storage_classes && is_empty p.facts)))))
  where
    open e use {platform as p}

-- The error of `Merge`, with the two commits that differ.
pub data MergeResult : Type 0 where
  merged : Report → MergeResult
  different_commits : String → String → MergeResult

-- What `Merge` builds when the commits agree, before the lifecycle is derived again.
unfoldable pub combine : Report → Report → Report
unfolding dedupe_verdicts dedupe_measurements merge_composition merge_executions
    merge_storage_selections merge_incidents empty_env build
combine base next =
    let prov = if base.provenance.kb_git_commit == "" then next.provenance else base.provenance in
    let schema = if base.schema_version == "" then next.schema_version else base.schema_version in
    let built = build base.run_id schema prov (dedupe_verdicts (base.verdicts ++ next.verdicts)) in
    record built {
      measurements = dedupe_measurements (base.measurements ++ next.measurements);
      composition = merge_composition base next;
      executions = merge_executions base.executions next.executions;
      storage_selections = merge_storage_selections base.storage_selections next.storage_selections;
      incidents = merge_incidents base.incidents next.incidents;
      warnings = base.warnings ++ next.warnings;
      status = or_complete next.status;
      completion_reason = next.completion_reason;
      environment = if empty_env base.environment then next.environment else base.environment;
      attestations = if is_empty base.attestations then next.attestations else base.attestations;
    }

unfoldable pub merge : Report → Report → MergeResult
unfolding combine
merge base next =
    let bc = base.provenance.kb_git_commit in
    let nc = next.provenance.kb_git_commit in
    if not (bc == "") && (not (nc == "") && not (bc == nc))
    then different_commits bc nc
    else merged (refresh_lifecycle (combine base next))
