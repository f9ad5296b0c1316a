-- ===== src/Core/Document.antt =====
-- internal/core/types.go: the report, its parts, and the environment that it records.
use Prim.Native.Nat.{ℕ}
use Prim.Native.String.{String}
use mathlib.Core.Bool.{Bool}
use mathlib.Core.List.{List}
use storage_cert_harness.Core.Status.{Outcome, RunStatus, RunHealth, ExecutionState}
use storage_cert_harness.Core.Requirement.{Float64, Verdict, Measurement}

pub record RunExecution : Type 0 where
  pub tr : String
  pub variant : String
  pub scenario : String
  pub state : ExecutionState
  pub outcome : Outcome
  pub stage : String
  pub started_at : String
  pub ended_at : String
  pub reason : String
  pub artifacts : List String

pub record RunPart : Type 0 where
  pub part_id : String
  pub kind : String
  pub started_at : String
  pub ended_at : String
  pub status : RunStatus
  pub reason : String

pub record RunComposition : Type 0 where
  pub parts_count : ℕ
  pub parts : List RunPart

pub record Incident : Type 0 where
  pub id : String
  pub type : String
  pub severity : String
  pub tr : String
  pub variant : String
  pub tool : String
  pub stage : String
  pub message : String
  pub started_at : String
  pub ended_at : String
  pub duration_s : Float64
  pub resolved : Bool
  pub blocks_certification : Bool
  pub impact : String
  pub evidence : String

pub record Provenance : Type 0 where
  pub kb_git_commit : String
  pub kb_commit_date : String
  pub generated_date : String

pub record StorageSelection : Type 0 where
  pub tr : String
  pub variant : String
  pub scenario : String
  pub storage_class : String
  pub snapshot_class : String
  pub effective_storage_class : String

pub record Summary : Type 0 where
  pub total : ℕ
  pub pass : ℕ
  pub fail : ℕ
  pub error : ℕ
  pub skip : ℕ
  pub certified_level : ℕ

pub record LevelRollup : Type 0 where
  pub level : ℕ
  pub outcome : Outcome

pub record Fact : Type 0 where
  pub key : String
  pub value : String
  pub source : String

pub record Hardware : Type 0 where
  pub nodes : ℕ
  pub facts : List Fact

pub record CsiDriverInfo : Type 0 where
  pub name : String
  pub version : String
  pub attach_required : Bool
  pub fs_group_policy : String
  pub volume_lifecycle_modes : List String
  pub capabilities : List String

pub record OperatorInfo : Type 0 where
  pub name : String
  pub version : String
  pub channel : String
  pub source : String

pub record StorageClassInfo : Type 0 where
  pub name : String
  pub provisioner : String
  pub is_default : Bool
  pub under_test : Bool
  pub reclaim_policy : String
  pub volume_binding_mode : String
  pub parameters : List (String × String)

pub record Platform : Type 0 where
  pub ocp_version : String
  pub kube_version : String
  pub cnv_version : String
  pub csi_driver : CsiDriverInfo
  pub operators : List OperatorInfo
  pub storage_classes : List StorageClassInfo
  pub backend : String
  pub facts : List Fact

pub record Environment : Type 0 where
  pub hardware : Hardware
  pub platform : Platform

pub record Attestation : Type 0 where
  pub claim : String
  pub value : String
  pub signed_by : String

pub record Report : Type 0 where
  pub run_id : String
  pub status : RunStatus
  pub health : RunHealth
  pub certifiable : Bool
  pub completion_reason : String
  pub schema_version : String
  pub provenance : Provenance
  pub environment : Environment
  pub storage_selections : List StorageSelection
  pub attestations : List Attestation
  pub composition : RunComposition
  pub executions : List RunExecution
  pub incidents : List Incident
  pub verdicts : List Verdict
  pub measurements : List Measurement
  pub warnings : List String
  pub levels : List LevelRollup
  pub summary : Summary
