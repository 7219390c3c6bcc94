-- ===== src/Controllers/BackupJobs.antt =====
-- controllers/backupjob_controller.go, resolveBackupJobDependencies and resolveRetentionPolicy of
-- controllers/runtime_helpers.go, and backupNotificationType of controllers/notifications.go. The proofs are
-- in the modules below this one.
pub mod Native
pub mod Gate
use dataprotection.Base.{
  List, [], ◌∷◌, Option, none, some, Bool, true, false, not, ◌&&◌, ◌||◌, Text, codes, if◌then◌else◌,
  is_empty, is_some, trim_space, ltb,
}
use dataprotection.Kube.Meta.{ObjectMeta, Time, ConditionStatus, condition_true, condition_false}
use dataprotection.Kube.Core.{LocalObjectReference}
use dataprotection.Kube.Batch.{Job}
use dataprotection.Api.Common.{ResourcePhase, ProbeResult, NotificationDeliveryStatus}
use dataprotection.Api.Config.{
  BackupAddon, BackupSource, BackupStorage, BackupPolicy, RetentionPolicy,
}
use dataprotection.Api.Execution.{BackupJob}
use dataprotection.Platform.{Platform}
use dataprotection.Naming.{build_job_name}
use dataprotection.Validate.{validate_backup_job}
use dataprotection.Effects.{
  not_found, already_exists, error_text, Reply, ok, err, now, get_addon, get_source, get_storage,
  get_policy, get_retention, get_backup_job, get_job, create_job, patch_backup_job_status, Prog,
  ret, panic, request, ◌>>=◌, try, Outcome, done, failing, requeue_soon, unless_failed,
  ignore_not_found,
}
use dataprotection.Messages.{NotificationEvent}
use dataprotection.Notifications.{dispatch_notifications}
use dataprotection.Retention.{effective_successful_keep_last}
use dataprotection.Execution.{mark_condition}
use dataprotection.Execution.Observe.{TerminalBackupObservation, observe_terminal_backup_job}
use dataprotection.Runtime.{local_ref_name}
use dataprotection.Runtime.Labels.{build_series, build_backend_path}
use dataprotection.Runtime.Merging.{resolve_job_notification_refs}
use dataprotection.Runtime.Origin.{ResolvedBackupExecution}
use dataprotection.Runtime.Jobs.{build_manual_backup_native_job}
use dataprotection.Controllers.RestoreJobs.{phase_text, is_succeeded, is_delivered, unless_refused}

-- backupNotificationType of an observation, by its phase and the result of its storage probe
unfoldable pub backup_notification_type : ResourcePhase → ProbeResult → Text
backup_notification_type ResourcePhase.succeeded result = codes "BackupSucceeded"
backup_notification_type phase ProbeResult.failed = codes "StorageProbeFailed"
backup_notification_type phase result = codes "BackupFailed"

-- Without a name there is no policy to get.
unfoldable pub resolve_retention_policy : Text → Text → Prog (Reply (Option RetentionPolicy))
unfolding ◌>>=◌
resolve_retention_policy namespace [] = ret (ok none)
resolve_retention_policy namespace (c ∷ name) =
    try (request (get_retention namespace (c ∷ name))) λ policy. ret (ok (some policy))

-- The policy that a reference names, where its name is not blank.
unfoldable pub resolve_policy :
    Text → Option LocalObjectReference → Prog (Reply (Option BackupPolicy))
unfolding ◌>>=◌
resolve_policy namespace none = ret (ok none)
resolve_policy namespace (some ref) =
    if is_empty (trim_space ref.name)
    then ret (ok none)
    else (try (request (get_policy namespace ref.name)) λ policy. ret (ok (some policy)))

-- The name of the retention policy: the job's, or else the policy's.
unfoldable pub retention_name : BackupJob → Option BackupPolicy → Text
retention_name job none = local_ref_name job.spec.retention_ref
retention_name job (some policy) =
    let name = local_ref_name job.spec.retention_ref in
    if is_empty name then local_ref_name policy.spec.retention_ref else name

-- The start time and the generation that every reconciliation writes.
unfoldable pub start : BackupJob → Prog BackupJob
unfolding ◌>>=◌
start job = elim job.status.started_at [
  | some t ↦
      ret (record job { status = record job.status { observed_generation = job.generation } })
  | none ↦ request now >>= λ t. ret (record job {
    status = record job.status { observed_generation = job.generation; started_at = some t };
  })
]

unfoldable pub patch : BackupJob → BackupJob → Outcome → Prog Outcome
unfolding ◌>>=◌
patch base new outcome =
    request (patch_backup_job_status base new) >>= λ r. ret (unless_failed r outcome)

module _ (p : Platform) where
  unfoldable pub resolved_backup :
      BackupJob
      → BackupSource
      → BackupAddon
      → BackupStorage
      → Option BackupPolicy
      → Option RetentionPolicy
      → ResolvedBackupExecution
  resolved_backup job source addon storage policy retention = record {
    policy = policy;
    source = source;
    addon = addon;
    storage = storage;
    retention_policy = retention;
    series =
        build_series p.unicode source storage.name (local_ref_name job.spec.policy_ref) job.name;
    backend_path =
        build_backend_path p.unicode source storage.name (local_ref_name job.spec.policy_ref)
          job.name;
    keep_last = effective_successful_keep_last retention;
  }

  -- From the storage on.
  unfoldable pub resolve_storage :
      BackupJob → BackupSource → BackupAddon → Prog (Reply ResolvedBackupExecution)
  unfolding resolve_policy retention_name resolve_retention_policy resolved_backup ◌>>=◌
  resolve_storage job source addon =
      try (request (get_storage job.namespace job.spec.storage_ref.name)) λ storage.
        try (resolve_policy job.namespace job.spec.policy_ref) λ policy.
          try (resolve_retention_policy job.namespace (retention_name job policy))
            λ retention. ret (ok (resolved_backup job source addon storage policy retention))

  unfoldable pub resolve_backup_job_dependencies : BackupJob → Prog (Reply ResolvedBackupExecution)
  unfolding resolve_storage ◌>>=◌
  resolve_backup_job_dependencies job =
      try (request (get_source job.namespace job.spec.source_ref.name)) λ source.
        try (request (get_addon source.spec.addon_ref.name))
          λ addon. resolve_storage job source addon

  abbrev pub native_name : BackupJob → Text
  native_name job = build_job_name p.unicode (job.name ∷ codes "backup" ∷ [])

  -- A phase with its message and condition, written to the API server.
  unfoldable pub settle :
      BackupJob → BackupJob → ResourcePhase → ConditionStatus → Text → Text → Outcome → Prog Outcome
  unfolding mark_condition patch ◌>>=◌
  settle base job phase status reason message outcome =
      mark_condition p job.status.conditions status reason message job.generation >>= λ conditions.
      patch base
        (record job {
          status = record job.status { phase = phase; message = message; conditions = conditions };
        })
        outcome

  unfoldable pub create_native : BackupJob → BackupJob → Job → Reply ObjectMeta → Prog Outcome
  unfolding unless_refused settle ◌>>=◌
  create_native base job rendered (err e) = ret (failing (error_text e))
  create_native base job rendered (ok meta) =
      request (create_job (record rendered { metadata = meta }))
      >>= unless_refused (
          settle base job ResourcePhase.running condition_false (codes "Running")
            (codes "backup native job created") requeue_soon)

  unfoldable pub create : BackupJob → BackupJob → Option Job → Prog Outcome
  unfolding create_native
  create base job none = panic
  create base job (some rendered) =
      create_native base job rendered
        (p.set_controller_reference (codes "BackupJob") job.metadata rendered.metadata)

  unfoldable pub event_of :
      BackupJob
      → ResolvedBackupExecution
      → Job
      → TerminalBackupObservation
      → Time
      → NotificationEvent
  event_of job r native o t = record {
    type = backup_notification_type o.phase o.storage_probe_result;
    namespace = job.namespace;
    resource_kind = codes "BackupJob";
    resource_name = job.name;
    phase = phase_text o.phase;
    message = o.message;
    source_name = r.source.name;
    storage_name = r.storage.name;
    snapshot_name = o.snapshot_ref;
    native_job_name = native.name;
    series = r.series;
    timestamp = p.format_time t;
    attributes = [];
  }

  unfoldable pub send :
      BackupJob
      → ResolvedBackupExecution
      → Job
      → TerminalBackupObservation
      → List LocalObjectReference
      → Prog NotificationDeliveryStatus
  unfolding event_of ◌>>=◌
  send job r native o refs = request now >>= λ t.
      dispatch_notifications p job.namespace refs (event_of job r native o t) >>= λ x. ret x.0

  -- The event is sent unless it was delivered before; `refs` are the job's or the policy's.
  unfoldable pub notify :
      BackupJob
      → ResolvedBackupExecution
      → Job
      → TerminalBackupObservation
      → List LocalObjectReference
      → Prog NotificationDeliveryStatus
  unfolding send
  notify job r native o refs =
      if not (is_empty refs) && not (is_delivered job.status.notification.phase)
      then send job r native o refs
      else ret job.status.notification

  -- What an observation says of the job's status.
  abbrev pub observed :
      TerminalBackupObservation → NotificationDeliveryStatus → BackupJob → BackupJob
  observed o notification job = record job {
    status = record job.status {
      completed_at = o.completed_at;
      storage_probe_result = o.storage_probe_result;
      storage_probe_message = o.storage_probe_message;
      snapshot_ref = o.snapshot_ref;
      notification = notification;
    };
  }

  unfoldable pub finish :
      BackupJob → BackupJob → TerminalBackupObservation → NotificationDeliveryStatus → Prog Outcome
  unfolding settle
  finish base job o notification =
      settle base (observed o notification job) o.phase
        (if is_succeeded o.phase then condition_true else condition_false)
        (if is_succeeded o.phase then codes "Completed" else codes "Failed") o.message requeue_soon

  unfoldable pub with_observation :
      BackupJob
      → BackupJob
      → ResolvedBackupExecution
      → Job
      → Reply (Option TerminalBackupObservation)
      → Prog Outcome
  unfolding notify finish settle patch ◌>>=◌
  with_observation base job r native (err e) = ret (failing (error_text e))
  with_observation base job r native (ok (some o)) =
      notify job r native o (resolve_job_notification_refs job.spec.notification_refs r.policy)
      >>= finish base job o
  with_observation base job r native (ok none) =
      if ltb 0 native.status.active || is_some native.status.start_time
      then settle base job ResourcePhase.running condition_false (codes "Running")
          (codes "backup native job is running") requeue_soon
      else patch base
          (record job {
            status = record job.status {
              phase = ResourcePhase.pending;
              message = codes "waiting for backup native job to start";
            };
          })
          requeue_soon

  -- The reference to the policy that a snapshot keeps.
  abbrev pub policy_reference : Option BackupPolicy → Option LocalObjectReference
  policy_reference none = none
  policy_reference (some policy) = some (record { name = policy.name })

  unfoldable pub with_native :
      BackupJob → BackupJob → ResolvedBackupExecution → Reply Job → Prog Outcome
  unfolding create with_observation ◌>>=◌
  with_native base job r (err (not_found m)) =
      create base job (build_manual_backup_native_job p job r)
  with_native base job r (err e) = ret (failing (error_text e))
  with_native base job r (ok native) =
      observe_terminal_backup_job p native r.source r.storage (policy_reference r.policy)
        (some (record { name = job.name })) r.series r.keep_last
      >>= with_observation base
          (record job { status = record job.status { started_at = native.status.start_time } }) r
          native

  unfoldable pub when_active : BackupJob → BackupJob → ResolvedBackupExecution → Prog Outcome
  unfolding with_native ◌>>=◌
  when_active base job r =
      request (get_job job.namespace (native_name job))
      >>= with_native base
          (record job { status = record job.status { native_job_name = native_name job } }) r

  unfoldable pub when_resolved : BackupJob → BackupJob → ResolvedBackupExecution → Prog Outcome
  unfolding settle when_active
  when_resolved base job r =
      if r.source.spec.paused
      then settle base job ResourcePhase.paused condition_false (codes "Paused")
          (codes "backup source is paused") done
      else when_active base job r

  unfoldable pub with_resolved :
      BackupJob → BackupJob → Reply ResolvedBackupExecution → Prog Outcome
  unfolding settle when_resolved
  with_resolved base job (err e) =
      settle base job ResourcePhase.failed condition_false (codes "DependencyError") (error_text e)
        requeue_soon
  with_resolved base job (ok r) =
      when_resolved base (record job { status = record job.status { series = r.series } }) r

  unfoldable pub with_validation : BackupJob → BackupJob → Option Text → Prog Outcome
  unfolding settle with_resolved resolve_backup_job_dependencies ◌>>=◌
  with_validation base job (some message) =
      settle base job ResourcePhase.failed condition_false (codes "InvalidSpec") message done
  with_validation base job none = resolve_backup_job_dependencies job >>= with_resolved base job

  unfoldable pub with_backup_job : Reply BackupJob → Prog Outcome
  unfolding start with_validation ◌>>=◌
  with_backup_job (err e) = ret (ignore_not_found e)
  with_backup_job (ok base) =
      start base >>= λ job. with_validation base job (validate_backup_job job.spec)

  unfoldable pub reconcile : Text → Text → Prog Outcome
  unfolding with_backup_job ◌>>=◌
  reconcile namespace name = request (get_backup_job namespace name) >>= with_backup_job
