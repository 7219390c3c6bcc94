-- ===== src/Api/Config.antt =====
-- The resources that an administrator writes: api/v1alpha1/backupaddon_types.go,
-- backupsource_types.go, backupstorage_types.go, backuppolicy_types.go, retentionpolicy_types.go and
-- notificationendpoint_types.go.
use dataprotection.Base.{ℕ, List, Option, Bool, Text, ℤ}
use dataprotection.Kube.Meta.{Time, TextMap, Condition, ObjectMeta}
use dataprotection.Kube.Core.{LocalObjectReference}
use dataprotection.Api.Common.{
  ResourcePhase, ProbeResult, StorageType, SecretParameterReference, SecretHeaderReference,
  NamespacedObjectReference, EndpointSpec, BackupScheduleSpec, JobRuntimeSpec, AddonParameterSpec,
  AddonTemplateSpec, MinIoStorageSpec, NfsStorageSpec, SuccessfulSnapshotRetentionSpec,
  FailedExecutionRetentionSpec,
}

pub record BackupAddonSpec : Type 0 where
  pub display_name : Text
  pub version : Text
  pub supported_kinds : List Text
  pub parameters : List AddonParameterSpec
  pub backup_template : AddonTemplateSpec
  pub restore_template : Option AddonTemplateSpec

pub record BackupAddonStatus : Type 0 where
  pub phase : ResourcePhase
  pub observed_generation : ℕ
  pub message : Text
  pub conditions : List Condition

pub record BackupAddon : Type 0 where
  pub metadata : ObjectMeta
  pub open metadata use *
  pub spec : BackupAddonSpec
  pub status : BackupAddonStatus

pub record BackupSourceSpec : Type 0 where
  pub addon_ref : LocalObjectReference
  pub target_ref : Option NamespacedObjectReference
  pub endpoint : EndpointSpec
  pub parameters : TextMap
  pub secret_refs : List SecretParameterReference
  pub paused : Bool

pub record BackupSourceStatus : Type 0 where
  pub phase : ResourcePhase
  pub observed_generation : ℕ
  pub last_validated_time : Option Time
  pub message : Text
  pub conditions : List Condition

pub record BackupSource : Type 0 where
  pub metadata : ObjectMeta
  pub open metadata use *
  pub spec : BackupSourceSpec
  pub status : BackupSourceStatus

pub record BackupStorageSpec : Type 0 where
  pub type : StorageType
  pub nfs : Option NfsStorageSpec
  pub minio : Option MinIoStorageSpec

pub record BackupStorageStatus : Type 0 where
  pub phase : ResourcePhase
  pub observed_generation : ℕ
  pub last_validated_time : Option Time
  pub last_probe_time : Option Time
  pub last_probe_result : ProbeResult
  pub last_probe_message : Text
  pub message : Text
  pub conditions : List Condition

pub record BackupStorage : Type 0 where
  pub metadata : ObjectMeta
  pub open metadata use *
  pub spec : BackupStorageSpec
  pub status : BackupStorageStatus

pub record BackupPolicySpec : Type 0 where
  pub source_ref : LocalObjectReference
  pub storage_refs : List LocalObjectReference
  pub schedule : BackupScheduleSpec
  pub retention_ref : Option LocalObjectReference
  pub notification_refs : List LocalObjectReference
  pub job_runtime : JobRuntimeSpec
  pub suspend : Bool

pub record BackupPolicyStatus : Type 0 where
  pub phase : ResourcePhase
  pub observed_generation : ℕ
  pub last_schedule_time : Option Time
  pub message : Text
  pub cron_job_names : List Text
  pub conditions : List Condition

pub record BackupPolicy : Type 0 where
  pub metadata : ObjectMeta
  pub open metadata use *
  pub spec : BackupPolicySpec
  pub status : BackupPolicyStatus

pub record RetentionPolicySpec : Type 0 where
  pub successful_snapshots : SuccessfulSnapshotRetentionSpec
  pub failed_executions : FailedExecutionRetentionSpec

pub record RetentionPolicyStatus : Type 0 where
  pub phase : ResourcePhase
  pub observed_generation : ℕ
  pub message : Text
  pub conditions : List Condition

pub record RetentionPolicy : Type 0 where
  pub metadata : ObjectMeta
  pub open metadata use *
  pub spec : RetentionPolicySpec
  pub status : RetentionPolicyStatus

pub record NotificationEndpointSpec : Type 0 where
  pub url : Text
  pub method : Text
  pub headers : TextMap
  pub secret_headers : List SecretHeaderReference
  pub timeout_seconds : ℤ
  pub insecure_skip_tls_verify : Bool

pub record NotificationEndpointStatus : Type 0 where
  pub phase : ResourcePhase
  pub observed_generation : ℕ
  pub message : Text
  pub conditions : List Condition

pub record NotificationEndpoint : Type 0 where
  pub metadata : ObjectMeta
  pub open metadata use *
  pub spec : NotificationEndpointSpec
  pub status : NotificationEndpointStatus
