-- ===== src/Runtime/Rendering.antt =====
-- A storage that validates never makes the rendering of a job or of a cron job dereference a nil pointer.
use dataprotection.Base.{List, Option, none, some, is_some, true, Text, ◌≡◌, refl, ℤ}
use dataprotection.Kube.Meta.{TextMap}
use dataprotection.Kube.Core.{EnvVar, Volume, PodSpec, LocalObjectReference}
use dataprotection.Api.Common.{JobRuntimeSpec}
use dataprotection.Api.Config.{
  BackupSource, BackupAddon, BackupStorage, BackupPolicy, RetentionPolicy,
}
use dataprotection.Validate.{validate_storage}
use dataprotection.Platform.{Platform}
use dataprotection.Runtime.Merging.{default_job_runtime}
use dataprotection.Runtime.Env.{build_storage_env}
use dataprotection.Runtime.Pods.{backend_volumes, backup_pod_of, build_backup_pod_spec}
use dataprotection.Runtime.Jobs.{
  Rendered, rendered_of, build_backup_job_spec, scheduled_job_spec, cron_job_of,
  build_backup_cron_job,
}
use dataprotection.Runtime.Totality.{storage_env_total}

-- The value of an option that has one.
pub is_some-witness : {A : Type 0} (x : Option A) → is_some x ≡ true → (a : A) × (x ≡ some a)
is_some-witness (some a) h = (a, refl)
is_some-witness none h = cc

module _ (p : Platform) (quote : Text → Text) (storage : BackupStorage)
    (valid : validate_storage quote storage.spec ≡ none) where
  pod_of_total :
      (runtime : JobRuntimeSpec) (addon : BackupAddon) (env : List EnvVar)
      (base : Option (List EnvVar)) (backend : Option (List Volume))
      → is_some base ≡ true
      → is_some backend ≡ true
      → is_some (backup_pod_of p runtime addon storage env base backend) ≡ true
  unfolding backup_pod_of
  pod_of_total runtime addon env none backend h k = h
  pod_of_total runtime addon env (some base) none h k = k
  pod_of_total runtime addon env (some base) (some backend) h k = refl

  pod_total :
      (runtime : JobRuntimeSpec) (source : BackupSource) (addon : BackupAddon) (env : List EnvVar)
      → is_some (build_backup_pod_spec p runtime source addon storage env) ≡ true
  unfolding build_backup_pod_spec
  pod_total runtime source addon env =
      pod_of_total runtime addon _ (build_storage_env storage) (backend_volumes storage)
        (storage_env_total quote storage valid).0 (storage_env_total quote storage valid).1

  rendered_of_total :
      (runtime : JobRuntimeSpec) (labels annotations : TextMap) (pod : Option PodSpec)
      → is_some pod ≡ true
      → is_some (rendered_of p runtime labels annotations pod) ≡ true
  unfolding rendered_of
  rendered_of_total runtime labels annotations none h = h
  rendered_of_total runtime labels annotations (some pod) h = refl

  job_spec_total :
      (kind name series path : Text) (runtime : JobRuntimeSpec) (refs : List LocalObjectReference)
      (source : BackupSource) (addon : BackupAddon) (keep_last : ℤ) (requested : Text)
      → is_some (
          build_backup_job_spec p kind name series path runtime refs source addon storage keep_last
            requested)
        ≡ true
  unfolding build_backup_job_spec
  job_spec_total kind name series path runtime refs source addon keep_last requested =
      rendered_of_total (default_job_runtime p runtime) _ _ _
        (pod_total (default_job_runtime p runtime) source addon _)

  cron_job_of_total :
      (policy : BackupPolicy) (source : BackupSource) (rendered : Option Rendered)
      → is_some rendered ≡ true
      → is_some (cron_job_of p policy source storage rendered) ≡ true
  unfolding cron_job_of
  cron_job_of_total policy source (some rendered) h = refl
  cron_job_of_total policy source none h = h

  -- For a storage that validates, the cron job of a policy is rendered.
  pub build_backup_cron_job_total :
      (policy : BackupPolicy) (source : BackupSource) (addon : BackupAddon)
      (retention : Option RetentionPolicy)
      → is_some (build_backup_cron_job p policy source addon storage retention) ≡ true
  unfolding build_backup_cron_job
  build_backup_cron_job_total policy source addon retention =
      cron_job_of_total policy source (scheduled_job_spec p policy source addon storage retention)
        (job_spec_total _ _ _ _ _ _ source addon _ _)
