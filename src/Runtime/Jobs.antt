-- ===== src/Runtime/Jobs.antt =====
-- controllers/runtime_helpers.go and snapshot_controller.go: the native jobs and cron jobs. A
-- dereferenced nil pointer is `none`.
use dataprotection.Base.{
  List, [], ◌∷◌, ◌++◌, Option, none, some, ◌||◌, Text, codes, text_eq, if◌then◌else◌, trim_space, ℤ,
  pos,
}
use dataprotection.Base.Decimal.{itoa}
use dataprotection.Kube.Meta.{TextMap, insert, new_meta}
use dataprotection.Kube.Core.{LocalObjectReference, EnvVar, Volume, PodSpec}
use dataprotection.Kube.Batch.{JobSpec, JobStatus, Job, CronJob}
use dataprotection.Api.Common.{JobRuntimeSpec}
use dataprotection.Api.Config.{
  BackupAddon, BackupSource, BackupStorage, BackupPolicy, RetentionPolicy,
}
use dataprotection.Api.Execution.{BackupJob, RestoreJob, Snapshot}
use dataprotection.Platform.{Platform}
use dataprotection.Naming.{build_cron_job_name, build_job_name}
use dataprotection.Defaults.{
  default_job_backoff_limit, default_job_active_deadline_seconds, default_job_ttl_seconds,
  default_cron_job_successful_history_limit, default_cron_job_failed_history_limit,
}
use dataprotection.Retention.{effective_successful_keep_last}
use dataprotection.Validate.{effective_concurrency_policy}
use dataprotection.Runtime
use dataprotection.Runtime.Labels.{
  label, managed_resource_labels, notification_ref_names, build_series, build_backend_path,
  backup_policy_kind,
}
use dataprotection.Runtime.Merging.{
  default_job_runtime, merge_job_runtime, merge_restore_endpoint, merge_restore_secret_refs,
  merge_restore_parameters, merge_restore_target_ref, resolve_job_notification_refs,
}
use dataprotection.Runtime.Env.{
  env_var, build_storage_env, build_source_env, build_source_env_with_secret_refs, build_target_env,
  build_addon_parameter_env_from_map,
}
use dataprotection.Runtime.Origin
use dataprotection.Runtime.Origin.{ResolvedBackupExecution, ResolvedRestoreExecution}
use dataprotection.Runtime.Scripts.{build_nfs_cleanup_script, build_minio_cleanup_script}
use dataprotection.Runtime.Pods.{
  build_backup_pod_spec, build_restore_pod_spec, backend_volumes, storage_container,
  storage_volume_mounts, by_type, helper_image,
}

-- A job's specification with its labels and annotations.
pub record Rendered : Type 0 where
  pub spec : JobSpec
  pub labels : TextMap
  pub annotations : TextMap

abbrev pub new_status : JobStatus
new_status = record { conditions = []; active = 0; start_time = none }

-- A job that the API server does not know yet.
abbrev pub new_job : Text → Text → Rendered → Job
new_job name namespace r = record {
  metadata = new_meta name namespace r.labels r.annotations;
  spec = r.spec;
  status = new_status;
}

module _ (p : Platform) where
  -- singleExecutionJobSpec of a job with the labels and annotations on its pods.
  unfoldable pub single_execution_job_spec :
      Option ℤ → Option ℤ → TextMap → TextMap → PodSpec → JobSpec
  single_execution_job_spec deadline ttl labels annotations pod = record {
    parallelism = some (pos 1);
    completions = some (pos 1);
    active_deadline_seconds = deadline;
    backoff_limit = some (default_job_backoff_limit p);
    ttl_seconds_after_finished = ttl;
    template_labels = labels;
    template_annotations = annotations;
    pod_spec = pod;
  }

  -- The variables that describe a backup.
  unfoldable pub backup_env : Text → Text → Text → Text → ℤ → Text → List EnvVar
  backup_env execution_kind execution_name series backend_path keep_last requested_snapshot =
      env_var (codes "DP_OPERATION") (codes "backup")
      ∷ env_var (codes "DP_EXECUTION_KIND") execution_kind
      ∷ env_var (codes "DP_EXECUTION_NAME") execution_name
      ∷ env_var (codes "DP_EXECUTION_SLUG") (label p.unicode execution_name)
      ∷ env_var (codes "DP_SERIES") series
      ∷ env_var (codes "DP_BACKEND_PATH") backend_path
      ∷ env_var (codes "DP_KEEP_LAST") (itoa keep_last)
      ∷ env_var (codes "DP_WORKSPACE_OUTPUT") (codes "/workspace/output")
      ∷ env_var (codes "DP_STATUS_DIR") (codes "/workspace/status")
      ∷ env_var (codes "DP_REQUESTED_SNAPSHOT") (trim_space requested_snapshot)
      ∷ []

  unfoldable pub backup_labels : Text → Text → BackupSource → BackupAddon → BackupStorage → TextMap
  backup_labels execution_kind execution_name source addon storage =
      let labels = insert Runtime.addon_name_label (label p.unicode addon.name) (
        managed_resource_labels p.unicode execution_kind execution_name (codes "backup") source.name
          storage.name) in
      if text_eq execution_kind backup_policy_kind
      then insert Runtime.policy_name_label (label p.unicode execution_name) labels
      else labels

  -- The job around a pod, where there is one.
  unfoldable pub rendered_of : JobRuntimeSpec → TextMap → TextMap → Option PodSpec → Option Rendered
  unfolding single_execution_job_spec
  rendered_of runtime labels annotations none = none
  rendered_of runtime labels annotations (some pod) = some (record {
    spec =
        single_execution_job_spec runtime.active_deadline_seconds runtime.ttl_seconds_after_finished
          labels annotations pod;
    labels = labels;
    annotations = annotations;
  })

  unfoldable pub build_backup_job_spec :
      Text
      → Text
      → Text
      → Text
      → JobRuntimeSpec
      → List LocalObjectReference
      → BackupSource
      → BackupAddon
      → BackupStorage
      → ℤ
      → Text
      → Option Rendered
  unfolding rendered_of backup_env backup_labels
  build_backup_job_spec execution_kind execution_name series backend_path runtime0 notification_refs
        source addon storage keep_last requested_snapshot =
      let runtime = default_job_runtime p runtime0 in
      let labels = backup_labels execution_kind execution_name source addon storage in
      let annotations =
        (Runtime.series_annotation, series)
        ∷ (Runtime.backend_path_annotation, backend_path)
        ∷ (Runtime.notification_refs_annotation, notification_ref_names notification_refs)
        ∷ [] in
      let env =
        build_source_env p.unicode source
        ++ backup_env execution_kind execution_name series backend_path keep_last
            requested_snapshot in
      rendered_of runtime labels annotations
        (build_backup_pod_spec p runtime source addon storage env)

  unfoldable pub build_manual_backup_native_job : BackupJob → ResolvedBackupExecution → Option Job
  build_manual_backup_native_job job r =
      elim (build_backup_job_spec (codes "BackupJob") job.name r.series r.backend_path
        (merge_job_runtime p job.spec.job_runtime r.policy)
        (resolve_job_notification_refs job.spec.notification_refs r.policy) r.source r.addon
        r.storage r.keep_last job.spec.snapshot_name) [
          | none ↦ none
          | some rendered ↦ some (
              new_job (build_job_name p.unicode (job.name ∷ codes "backup" ∷ [])) job.namespace
                rendered)
        ]

  -- The job that a schedule starts.
  abbrev pub scheduled_job_spec :
      BackupPolicy
      → BackupSource
      → BackupAddon
      → BackupStorage
      → Option RetentionPolicy
      → Option Rendered
  scheduled_job_spec policy source addon storage retention =
      build_backup_job_spec backup_policy_kind policy.name
        (build_series p.unicode source storage.name policy.name [])
        (build_backend_path p.unicode source storage.name policy.name []) policy.spec.job_runtime
        policy.spec.notification_refs source addon storage
        (effective_successful_keep_last retention) []

  -- The cron job of a policy for one storage, around that job.
  unfoldable pub cron_job_of :
      BackupPolicy → BackupSource → BackupStorage → Option Rendered → Option CronJob
  cron_job_of policy source storage none = none
  cron_job_of policy source storage (some rendered) = some (record {
    metadata =
        new_meta (build_cron_job_name p.unicode (policy.name ∷ storage.name ∷ codes "backup" ∷ []))
          policy.namespace
          (managed_resource_labels p.unicode backup_policy_kind policy.name (codes "backup")
            source.name storage.name)
          [];
    spec = record {
      schedule = policy.spec.schedule.cron;
      suspend = policy.spec.suspend || policy.spec.schedule.suspend || source.spec.paused;
      concurrency_policy = effective_concurrency_policy policy.spec.schedule;
      starting_deadline_seconds = policy.spec.schedule.starting_deadline_seconds;
      successful_jobs_history_limit = some (default_cron_job_successful_history_limit p);
      failed_jobs_history_limit = some (default_cron_job_failed_history_limit p);
      job_labels = rendered.labels;
      job_annotations = rendered.annotations;
      job_spec = rendered.spec;
    };
    last_schedule_time = none;
  })

  unfoldable pub build_backup_cron_job :
      BackupPolicy
      → BackupSource
      → BackupAddon
      → BackupStorage
      → Option RetentionPolicy
      → Option CronJob
  unfolding cron_job_of
  build_backup_cron_job policy source addon storage retention =
      cron_job_of policy source storage (scheduled_job_spec policy source addon storage retention)

  unfoldable pub restore_env : Text → ResolvedRestoreExecution → List EnvVar
  restore_env series r =
      env_var (codes "DP_OPERATION") (codes "restore")
      ∷ env_var (codes "DP_WORKSPACE_INPUT") (codes "/workspace/input")
      ∷ env_var (codes "DP_STATUS_DIR") (codes "/workspace/status")
      ∷ env_var (codes "DP_SNAPSHOT") (Origin.snapshot_name r)
      ∷ env_var (codes "DP_BACKEND_PATH") (Origin.backend_path r)
      ∷ env_var (codes "DP_SERIES") series
      ∷ env_var (codes "DP_ARTIFACT_PATH") (Origin.artifact_path r)
      ∷ env_var (codes "DP_IMPORT_FORMAT") (Origin.artifact_format p.unicode r)
      ∷ []

  unfoldable pub build_restore_job_spec : RestoreJob → ResolvedRestoreExecution → Option Rendered
  unfolding single_execution_job_spec restore_env
  build_restore_job_spec job r =
      let runtime = default_job_runtime p job.spec.job_runtime in
      let labels = insert Runtime.addon_name_label (label p.unicode r.addon.name) (
        managed_resource_labels p.unicode (codes "RestoreJob") job.name (codes "restore")
          r.source.name r.storage.name) in
      elim (Origin.series p.unicode r) [
        | none ↦ none
        | some series ↦
            let fixed =
              (Runtime.series_annotation, series)
              ∷ (Runtime.backend_path_annotation, Origin.backend_path r)
              ∷ (
                Runtime.notification_refs_annotation,
                notification_ref_names job.spec.notification_refs,
              )
              ∷ [] in
            let annotations =
              if Origin.uses_snapshot r
              then fixed
              else insert Runtime.import_path_annotation (Origin.artifact_path r) fixed in
            let env =
              build_source_env_with_secret_refs p.unicode (merge_restore_endpoint r.source job)
                (merge_restore_secret_refs r.source job)
              ++ build_target_env (merge_restore_target_ref r.source job)
              ++ build_addon_parameter_env_from_map p.unicode
                  (merge_restore_parameters r.source job)
              ++ restore_env series r in
            elim (build_restore_pod_spec p runtime r env) [
              | none ↦ none
              | some pod ↦ some (record {
                spec =
                    single_execution_job_spec runtime.active_deadline_seconds
                      runtime.ttl_seconds_after_finished labels annotations pod;
                labels = labels;
                annotations = annotations;
              })
            ]
      ]

  unfoldable pub build_restore_native_job : RestoreJob → ResolvedRestoreExecution → Option Job
  build_restore_native_job job r = elim (build_restore_job_spec job r) [
    | none ↦ none
    | some rendered ↦ some (
        new_job (build_job_name p.unicode (job.name ∷ codes "restore" ∷ [])) job.namespace rendered)
  ]

  -- The pod of a cleanup has no runtime settings.
  abbrev cleanup_pod : BackupStorage → List EnvVar → List Volume → PodSpec
  cleanup_pod storage env volumes = record {
    restart_policy = codes "Never";
    service_account_name = codes "";
    priority_class_name = codes "";
    node_selector = [];
    tolerations = [];
    volumes = volumes;
    init_containers = [];
    containers =
        storage_container p (codes "artifact-cleanup") (helper_image p storage)
          (by_type storage.spec.type (build_nfs_cleanup_script p) (build_minio_cleanup_script p))
          env (storage_volume_mounts storage)
        ∷ [];
  }

  unfoldable pub build_snapshot_cleanup_job : Snapshot → BackupStorage → Option Job
  unfolding single_execution_job_spec
  build_snapshot_cleanup_job snapshot storage =
      let labels =
        managed_resource_labels p.unicode (codes "Snapshot") snapshot.name (codes "cleanup")
          snapshot.spec.source_ref.name storage.name in
      let annotations =
        (Runtime.series_annotation, snapshot.spec.series)
        ∷ (Runtime.backend_path_annotation, snapshot.spec.backend_path)
        ∷ [] in
      elim (build_storage_env storage) [
        | none ↦ none
        | some base ↦ elim (backend_volumes storage) [
          | none ↦ none
          | some volumes ↦
              let env =
                base
                ++ env_var (codes "DP_BACKEND_PATH") snapshot.spec.backend_path
                  ∷ env_var (codes "DP_SNAPSHOT") snapshot.spec.snapshot
                  ∷ [] in
              some (
                new_job (build_job_name p.unicode (snapshot.name ∷ codes "cleanup" ∷ []))
                  snapshot.namespace
                  (record {
                    spec =
                        single_execution_job_spec (some (default_job_active_deadline_seconds p))
                          (some (default_job_ttl_seconds p)) labels annotations
                          (cleanup_pod storage env volumes);
                    labels = labels;
                    annotations = annotations;
                  }))
        ]
      ]
