-- ===== src/Runtime/Merging.antt =====
-- controllers/runtime_helpers.go: what a restore job replaces of its source, and a backup job of its
-- policy.
use dataprotection.Base.{
  List, [], ◌∷◌, ◌||◌, Option, none, some, if◌then◌else◌, is_empty, is_blank, is_some,
}
use dataprotection.Kube.Meta.{TextMap, insert}
use dataprotection.Kube.Core.{LocalObjectReference}
use dataprotection.Api.Common.{
  SecretParameterReference, NamespacedObjectReference, EndpointSpec, JobRuntimeSpec,
}
use dataprotection.Api.Config.{BackupSource, BackupPolicy}
use dataprotection.Api.Execution.{RestoreJob}
use dataprotection.Platform.{Platform}
use dataprotection.Defaults.{default_job_active_deadline_seconds, default_job_ttl_seconds}
use dataprotection.Merge.{merge}

abbrev or_else {ℓ} : {A : Type ℓ} → Option A → Option A → Option A
or_else (some a) o = some a
or_else none o = o

unfoldable pub merge_restore_endpoint : BackupSource → RestoreJob → EndpointSpec
merge_restore_endpoint source job = elim job.spec.endpoint [
  | some endpoint ↦ endpoint
  | none ↦ source.spec.endpoint
]

unfoldable pub merge_restore_secret_refs : BackupSource → RestoreJob → List SecretParameterReference
merge_restore_secret_refs source job =
    if is_empty job.spec.secret_refs
    then source.spec.secret_refs
    else merge (λ ref. ref.name) source.spec.secret_refs (job.spec.secret_refs ∷ [])

-- `for key, value := range overlay { result[key] = value }`
unfoldable pub insert_all : TextMap → TextMap → TextMap
unfolding insert
insert_all [] result = result
insert_all ((key, value) ∷ overlay) result = insert_all overlay (insert key value result)

unfoldable pub copy_string_map : TextMap → TextMap
unfolding insert_all
copy_string_map values = insert_all values []

unfoldable pub merge_restore_parameters : BackupSource → RestoreJob → TextMap
unfolding insert_all
merge_restore_parameters source job =
    insert_all job.spec.parameters (insert_all source.spec.parameters [])

unfoldable pub merge_restore_target_ref :
    BackupSource → RestoreJob → Option NamespacedObjectReference
merge_restore_target_ref source job = or_else job.spec.target_ref source.spec.target_ref

unfoldable pub resolve_job_notification_refs :
    List LocalObjectReference → Option BackupPolicy → List LocalObjectReference
resolve_job_notification_refs (ref ∷ refs) policy = ref ∷ refs
resolve_job_notification_refs [] none = []
resolve_job_notification_refs [] (some policy) = policy.spec.notification_refs

module _ (p : Platform) where
  unfoldable pub default_job_runtime : JobRuntimeSpec → JobRuntimeSpec
  default_job_runtime runtime = record runtime {
    active_deadline_seconds =
        or_else runtime.active_deadline_seconds (some (default_job_active_deadline_seconds p));
    ttl_seconds_after_finished =
        or_else runtime.ttl_seconds_after_finished (some (default_job_ttl_seconds p));
  }

  -- The fields that the job's runtime sets, over those of the policy's.
  unfoldable pub overlay_runtime : JobRuntimeSpec → JobRuntimeSpec → JobRuntimeSpec
  overlay_runtime runtime merged = record {
    service_account_name =
        if is_blank runtime.service_account_name
        then merged.service_account_name
        else runtime.service_account_name;
    image_pull_policy =
        if is_empty runtime.image_pull_policy
        then merged.image_pull_policy
        else runtime.image_pull_policy;
    node_selector =
        if is_empty runtime.node_selector then merged.node_selector else runtime.node_selector;
    tolerations = if is_empty runtime.tolerations then merged.tolerations else runtime.tolerations;
    resources =
        if is_some runtime.resources.requests || is_some runtime.resources.limits
        then runtime.resources
        else merged.resources;
    active_deadline_seconds =
        or_else runtime.active_deadline_seconds merged.active_deadline_seconds;
    ttl_seconds_after_finished =
        or_else runtime.ttl_seconds_after_finished merged.ttl_seconds_after_finished;
    priority_class_name =
        if is_blank runtime.priority_class_name
        then merged.priority_class_name
        else runtime.priority_class_name;
  }

  unfoldable pub merge_job_runtime : JobRuntimeSpec → Option BackupPolicy → JobRuntimeSpec
  unfolding default_job_runtime overlay_runtime
  merge_job_runtime runtime none = default_job_runtime runtime
  merge_job_runtime runtime (some policy) =
      default_job_runtime (overlay_runtime runtime policy.spec.job_runtime)
