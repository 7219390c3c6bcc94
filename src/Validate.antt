-- ===== src/Validate.antt =====
-- api/v1alpha1/validation.go: the ValidateBasic methods (RestoreImportSource's is in
-- `dataprotection.Import`). An error is its message: `none` is a nil error.
pub mod Names
pub mod Specs
pub use Names.{Distinct, distinct_names}
unfoldable pub use Names.{has_duplicate_names}
use dataprotection.Base.{
  ℕ, zero, List, [], ◌∷◌, ◌++◌, map, Option, none, some, Bool, true, false, not, ◌&&◌, ◌||◌, Text,
  codes, if◌then◌else◌, is_empty, is_blank, is_some, trim_space, ltb_ℤ, ℤ, pos, text_eq, text_lt,
}
use dataprotection.Base.Sort.{sort}
use dataprotection.Kube.Core.{LocalObjectReference}
use dataprotection.Platform.{Unicode}
use dataprotection.Naming.{build_cron_job_name}
use dataprotection.Api.Common.{
  StorageType, nfs, minio, other, SecretParameterReference, SecretHeaderReference,
  AddonParameterSpec, AddonTemplateSpec, BackupScheduleSpec, JobRuntimeSpec, NfsStorageSpec,
  MinIoStorageSpec,
}
use dataprotection.Api.Config.{
  BackupAddonSpec, BackupSourceSpec, BackupStorageSpec, BackupPolicySpec, RetentionPolicySpec,
  NotificationEndpointSpec,
}
use dataprotection.Api.Execution.{BackupJobSpec, RestoreJobSpec}
use dataprotection.Import.{validate_import}

-- `if err := ...; err != nil { return err }` before the rest.
abbrev pub or_else : Option Text → Option Text → Option Text
or_else (some err) rest = some err
or_else none rest = rest

abbrev pub is_negative : ℤ → Bool
is_negative n = ltb_ℤ n (pos 0)

unfoldable pub has_duplicate_local_object_reference_names : List LocalObjectReference → Bool
has_duplicate_local_object_reference_names refs = has_duplicate_names (map (λ ref. ref.name) refs)

unfoldable pub has_duplicate_secret_parameter_refs : List SecretParameterReference → Bool
has_duplicate_secret_parameter_refs refs = has_duplicate_names (map (λ ref. ref.name) refs)

unfoldable pub has_duplicate_secret_header_refs : List SecretHeaderReference → Bool
has_duplicate_secret_header_refs refs = has_duplicate_names (map (λ ref. ref.name) refs)

unfoldable pub has_duplicate_addon_parameters : List AddonParameterSpec → Bool
has_duplicate_addon_parameters params = has_duplicate_names (map (λ param. param.name) params)

unfoldable pub validate_template : AddonTemplateSpec → Text → Option Text
validate_template s field =
    if is_blank s.image then some (field ++ codes ".image is required") else none

-- The validation behind a pointer that may be nil.
unfoldable pub validate_restore_template : Option AddonTemplateSpec → Option Text
unfolding validate_template
validate_restore_template none = none
validate_restore_template (some t) = validate_template t (codes "spec.restoreTemplate")

unfoldable pub validate_addon : BackupAddonSpec → Option Text
validate_addon s = or_else (validate_template s.backup_template (codes "spec.backupTemplate")) (
    or_else (validate_restore_template s.restore_template) (
      if has_duplicate_addon_parameters s.parameters
      then some (codes "spec.parameters contains duplicate names")
      else none))

unfoldable pub validate_source : BackupSourceSpec → Option Text
validate_source s =
    if is_blank s.addon_ref.name
    then some (codes "spec.addonRef.name is required")
    else if not (is_some s.target_ref)
        && is_blank s.endpoint.host
        && not (is_some s.endpoint.service_ref)
    then some (codes "spec.targetRef or spec.endpoint.host/serviceRef is required")
    else if has_duplicate_secret_parameter_refs s.secret_refs
    then some (codes "spec.secretRefs contains duplicate names")
    else none

unfoldable pub validate_nfs : Option NfsStorageSpec → Option Text
validate_nfs none = some (codes "spec.nfs is required when spec.type=nfs")
validate_nfs (some s) =
    if is_blank s.server || is_blank s.path
    then some (codes "spec.nfs.server and spec.nfs.path are required")
    else none

unfoldable pub validate_minio : Option MinIoStorageSpec → Option Text
validate_minio none = some (codes "spec.minio is required when spec.type=minio")
validate_minio (some s) =
    if is_blank s.endpoint || is_blank s.bucket
    then some (codes "spec.minio.endpoint and spec.minio.bucket are required")
    else none

-- The `switch` on the type. The format verb %q quotes the text; `quote` stands for it.
unfoldable pub validate_backend :
    (quote : Text → Text) → BackupStorageSpec → StorageType → Option Text
unfolding validate_nfs validate_minio
validate_backend quote s nfs = validate_nfs s.nfs
validate_backend quote s minio = validate_minio s.minio
validate_backend quote s (other t) = some (codes "unsupported spec.type " ++ quote t)

unfoldable pub validate_storage : (quote : Text → Text) → BackupStorageSpec → Option Text
unfolding validate_backend
validate_storage quote s = validate_backend quote s s.type

unfoldable pub validate_job_runtime : JobRuntimeSpec → Option Text
validate_job_runtime s = elim s.ttl_seconds_after_finished [
  | none ↦ none
  | some ttl ↦
      if is_negative ttl
      then some (codes "spec.jobRuntime.ttlSecondsAfterFinished cannot be negative")
      else none
]

-- A reference that is given but blank.
abbrev pub names_nothing : Option LocalObjectReference → Bool
names_nothing none = false
names_nothing (some ref) = is_blank ref.name

unfoldable pub validate_policy : BackupPolicySpec → Option Text
validate_policy s =
    if is_blank s.source_ref.name
    then some (codes "spec.sourceRef.name is required")
    else if is_empty s.storage_refs
    then some (codes "spec.storageRefs requires at least one storage")
    else if has_duplicate_local_object_reference_names s.storage_refs
    then some (codes "spec.storageRefs contains duplicate names")
    else if names_nothing s.retention_ref
    then some (codes "spec.retentionRef.name cannot be empty")
    else if has_duplicate_local_object_reference_names s.notification_refs
    then some (codes "spec.notificationRefs contains duplicate names")
    else if is_blank s.schedule.cron && not s.suspend
    then some (codes "spec.schedule.cron is required unless the policy is suspended")
    else validate_job_runtime s.job_runtime

-- batchv1.ForbidConcurrent
abbrev pub forbid_concurrent : Text
forbid_concurrent = codes "Forbid"

unfoldable pub effective_concurrency_policy : BackupScheduleSpec → Text
effective_concurrency_policy s =
    if is_blank s.concurrency_policy then forbid_concurrent else s.concurrency_policy

unfoldable pub validate_backup_job : BackupJobSpec → Option Text
validate_backup_job s =
    if is_blank s.source_ref.name
    then some (codes "spec.sourceRef.name is required")
    else if is_blank s.storage_ref.name
    then some (codes "spec.storageRef.name is required")
    else if names_nothing s.retention_ref
    then some (codes "spec.retentionRef.name cannot be empty")
    else if has_duplicate_local_object_reference_names s.notification_refs
    then some (codes "spec.notificationRefs contains duplicate names")
    else validate_job_runtime s.job_runtime

-- The `switch` over the two restore sources.
unfoldable pub validate_restore_source : Unicode → RestoreJobSpec → Option Text
validate_restore_source u s =
    let snapshot_specified = not (is_blank s.snapshot_ref.name) in
    let import_specified = is_some s.import_source in
    if snapshot_specified && import_specified
    then some (codes "spec.snapshotRef and spec.importSource are mutually exclusive")
    else if not snapshot_specified && not import_specified
    then some (codes "one of spec.snapshotRef.name or spec.importSource must be set")
    else if import_specified
    then validate_import u s.import_source (codes "spec.importSource")
    else none

unfoldable pub validate_restore_job : Unicode → RestoreJobSpec → Option Text
unfolding validate_restore_source
validate_restore_job u s =
    if is_blank s.source_ref.name
    then some (codes "spec.sourceRef.name is required")
    else or_else (validate_restore_source u s) (
        if has_duplicate_local_object_reference_names s.notification_refs
        then some (codes "spec.notificationRefs contains duplicate names")
        else if has_duplicate_secret_parameter_refs s.secret_refs
        then some (codes "spec.secretRefs contains duplicate names")
        else validate_job_runtime s.job_runtime)

unfoldable pub validate_retention : RetentionPolicySpec → Option Text
validate_retention s =
    if is_negative s.successful_snapshots.keep_last
    then some (codes "spec.successfulSnapshots.keepLast cannot be negative")
    else if is_negative s.failed_executions.keep_last
    then some (codes "spec.failedExecutions.keepLast cannot be negative")
    else none

-- `parse_request_uri` stands for the error of url.ParseRequestURI, if any.
unfoldable pub validate_endpoint :
    (parse_request_uri : Text → Option Text) → NotificationEndpointSpec → Option Text
validate_endpoint parse_request_uri s =
    if is_blank s.url
    then some (codes "spec.url is required")
    else elim (parse_request_uri (trim_space s.url)) [
      | some err ↦ some (codes "spec.url is invalid: " ++ err)
      | none ↦
          if has_duplicate_secret_header_refs s.secret_headers
          then some (codes "spec.secretHeaders contains duplicate names")
          else if is_negative s.timeout_seconds
          then some (codes "spec.timeoutSeconds cannot be negative")
          else none
    ]

-- The trimmed storage names, blank ones left out.
unfoldable pub cron_job_names : Unicode → Text → List LocalObjectReference → List Text
cron_job_names u policy_name [] = []
cron_job_names u policy_name (ref ∷ refs) =
    let storage_name = trim_space ref.name in
    let rest = cron_job_names u policy_name refs in
    if is_empty storage_name
    then rest
    else build_cron_job_name u (policy_name ∷ storage_name ∷ codes "backup" ∷ []) ∷ rest

unfoldable pub predict_cron_job_names : Unicode → Text → List LocalObjectReference → List Text
unfolding cron_job_names
predict_cron_job_names u policy_name storage_refs =
    sort text_lt (cron_job_names u policy_name storage_refs)
