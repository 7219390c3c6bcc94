-- ===== src/Api/Common.antt =====
-- api/v1alpha1/common_types.go: the types that the resources share. An optional pointer is an
-- `Option`, an omitted string is the empty text.
use dataprotection.Base.{List, Option, Bool, Text, ℤ}
use dataprotection.Kube.Meta.{Time, TextMap}
use dataprotection.Kube.Core.{EnvVar, Toleration, ResourceRequirements}

-- The phases that the controllers write; `unset` is the empty string of a new object.
pub data ResourcePhase : Type 0 where
  unset pending configured running succeeded failed paused : ResourcePhase

-- A probe result comes from a container's termination message, which can hold any text.
pub data ProbeResult : Type 0 where
  unset unknown succeeded failed : ProbeResult
  other : Text → ProbeResult

pub data NotificationDeliveryPhase : Type 0 where
  unset pending succeeded failed : NotificationDeliveryPhase

pub data StorageType : Type 0 where
  nfs minio : StorageType
  other : Text → StorageType

pub record SecretKeyReference : Type 0 where
  pub name : Text
  pub key : Text

pub record SecretParameterReference : Type 0 where
  pub name : Text
  pub secret_key_ref : SecretKeyReference

pub record SecretHeaderReference : Type 0 where
  pub name : Text
  pub secret_key_ref : SecretKeyReference

pub record ServiceReference : Type 0 where
  pub name : Text
  pub namespace : Text
  pub port : ℤ

pub record NamespacedObjectReference : Type 0 where
  pub api_version : Text
  pub kind : Text
  pub namespace : Text
  pub name : Text

pub record EndpointSpec : Type 0 where
  pub host : Text
  pub port : ℤ
  pub scheme : Text
  pub service_ref : Option ServiceReference
  pub username : Text
  pub username_from : Option SecretKeyReference
  pub password_from : Option SecretKeyReference

pub record BackupScheduleSpec : Type 0 where
  pub cron : Text
  pub suspend : Bool
  pub starting_deadline_seconds : Option ℤ
  pub concurrency_policy : Text

pub record JobRuntimeSpec : Type 0 where
  pub service_account_name : Text
  pub image_pull_policy : Text
  pub node_selector : TextMap
  pub tolerations : List Toleration
  pub resources : ResourceRequirements
  pub active_deadline_seconds : Option ℤ
  pub ttl_seconds_after_finished : Option ℤ
  pub priority_class_name : Text

pub record AddonParameterSpec : Type 0 where
  pub name : Text
  pub required : Bool
  pub secret : Bool
  pub description : Text
  pub default_value : Text

pub record AddonTemplateSpec : Type 0 where
  pub image : Text
  pub command : List Text
  pub args : List Text
  pub working_dir : Text
  pub env : List EnvVar

pub record MinIoStorageSpec : Type 0 where
  pub endpoint : Text
  pub bucket : Text
  pub prefix : Text
  pub region : Text
  pub insecure : Bool
  pub auto_create_bucket : Bool
  pub access_key_from : Option SecretKeyReference
  pub secret_key_from : Option SecretKeyReference

pub record NfsStorageSpec : Type 0 where
  pub server : Text
  pub path : Text

pub record NotificationDeliveryStatus : Type 0 where
  pub phase : NotificationDeliveryPhase
  pub attempts : ℤ
  pub last_attempt_time : Option Time
  pub last_delivered_time : Option Time
  pub message : Text

pub record SuccessfulSnapshotRetentionSpec : Type 0 where
  pub keep_last : ℤ

pub record FailedExecutionRetentionSpec : Type 0 where
  pub keep_last : ℤ
