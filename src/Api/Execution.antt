-- ===== src/Api/Execution.antt =====
-- The resources of one execution: api/v1alpha1/backupjob_types.go, snapshot_types.go and
-- restorejob_types.go. The methods of RestoreImportSource are in `dataprotection.Import`.
use dataprotection.Base.{ℕ, List, Option, Bool, Text, ℤ}
use dataprotection.Kube.Meta.{Time, TextMap, Condition, ObjectMeta}
use dataprotection.Kube.Core.{LocalObjectReference}
use dataprotection.Api.Common.{
  ResourcePhase, ProbeResult, SecretParameterReference, NamespacedObjectReference, EndpointSpec,
  JobRuntimeSpec, NotificationDeliveryStatus,
}

pub record BackupJobSpec : Type 0 where
  pub policy_ref : Option LocalObjectReference
  pub source_ref : LocalObjectReference
  pub storage_ref : LocalObjectReference
  pub retention_ref : Option LocalObjectReference
  pub notification_refs : List LocalObjectReference
  pub job_runtime : JobRuntimeSpec
  pub snapshot_name : Text
  pub reason : Text

pub record BackupJobStatus : Type 0 where
  pub phase : ResourcePhase
  pub observed_generation : ℕ
  pub started_at : Option Time
  pub completed_at : Option Time
  pub message : Text
  pub native_job_name : Text
  pub series : Text
  pub snapshot_ref : Text
  pub storage_probe_result : ProbeResult
  pub storage_probe_message : Text
  pub notification : NotificationDeliveryStatus
  pub conditions : List Condition

pub record BackupJob : Type 0 where
  pub metadata : ObjectMeta
  pub open metadata use *
  pub spec : BackupJobSpec
  pub status : BackupJobStatus

pub record SnapshotSpec : Type 0 where
  pub series : Text
  pub source_ref : LocalObjectReference
  pub storage_ref : LocalObjectReference
  pub policy_ref : Option LocalObjectReference
  pub backup_job_ref : Option LocalObjectReference
  pub native_job_name : Text
  pub backend_path : Text
  pub snapshot : Text
  pub checksum : Text
  pub size : ℤ

pub record SnapshotStatus : Type 0 where
  pub phase : ResourcePhase
  pub observed_generation : ℕ
  pub started_at : Option Time
  pub completed_at : Option Time
  pub message : Text
  pub latest : Bool
  pub artifact_ready : Bool
  pub conditions : List Condition

pub record Snapshot : Type 0 where
  pub metadata : ObjectMeta
  pub open metadata use *
  pub spec : SnapshotSpec
  pub status : SnapshotStatus

pub record RestoreImportSource : Type 0 where
  pub storage_ref : LocalObjectReference
  pub path : Text
  pub format : Text
  pub series : Text
  pub snapshot : Text

pub record RestoreJobSpec : Type 0 where
  pub source_ref : LocalObjectReference
  pub snapshot_ref : LocalObjectReference
  pub import_source : Option RestoreImportSource
  pub target_ref : Option NamespacedObjectReference
  pub endpoint : Option EndpointSpec
  pub parameters : TextMap
  pub secret_refs : List SecretParameterReference
  pub notification_refs : List LocalObjectReference
  pub job_runtime : JobRuntimeSpec
  pub reason : Text

pub record RestoreJobStatus : Type 0 where
  pub phase : ResourcePhase
  pub observed_generation : ℕ
  pub started_at : Option Time
  pub completed_at : Option Time
  pub message : Text
  pub native_job_name : Text
  pub storage_probe_result : ProbeResult
  pub storage_probe_message : Text
  pub notification : NotificationDeliveryStatus
  pub conditions : List Condition

pub record RestoreJob : Type 0 where
  pub metadata : ObjectMeta
  pub open metadata use *
  pub spec : RestoreJobSpec
  pub status : RestoreJobStatus
