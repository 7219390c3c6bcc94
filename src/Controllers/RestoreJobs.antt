-- ===== src/Controllers/RestoreJobs.antt =====
-- controllers/restorejob_controller.go, and resolveRestoreJobDependencies of
-- controllers/runtime_helpers.go. The proofs are in the modules below this one.
pub mod Native
pub mod Gate
use dataprotection.Base.{
  ℕ, List, [], ◌∷◌, Option, none, some, Bool, true, false, not, ◌&&◌, ◌||◌, Text, codes,
  if◌then◌else◌, is_empty, is_some, trim_space, ltb,
}
use dataprotection.Kube.Meta.{
  ObjectMeta, Time, ConditionStatus, condition_true, condition_false, Condition,
}
use dataprotection.Kube.Core.{LocalObjectReference}
use dataprotection.Kube.Batch.{Job}
use dataprotection.Api.Common.{
  ResourcePhase, ProbeResult, NotificationDeliveryPhase, NotificationDeliveryStatus,
}
use dataprotection.Api.Config.{BackupAddon, BackupSource, BackupStorage}
use dataprotection.Api.Execution.{Snapshot, RestoreImportSource, RestoreJob}
use dataprotection.Platform.{Platform}
use dataprotection.Naming.{build_job_name}
use dataprotection.Import.{normalized_path}
use dataprotection.Validate.{validate_restore_job}
use dataprotection.Effects.{
  ApiError, not_found, already_exists, error_text, Reply, ok, err, now, get_addon, get_source,
  get_storage, get_snapshot, get_restore_job, get_job, create_job, patch_restore_job_status, Prog,
  ret, panic, request, ◌>>=◌, try, Outcome, done, failing, requeue_soon, unless_failed,
  ignore_not_found,
}
use dataprotection.Messages.{NotificationEvent}
use dataprotection.Notifications.{dispatch_notifications}
use dataprotection.Execution.{mark_condition}
use dataprotection.Execution.Observe.{TerminalRestoreObservation, observe_terminal_restore_job}
use dataprotection.Runtime.Origin
use dataprotection.Runtime.Origin.{ResolvedRestoreExecution}
use dataprotection.Runtime.Jobs.{build_restore_native_job}

-- string(phase)
unfoldable pub phase_text : ResourcePhase → Text
phase_text ResourcePhase.unset = codes ""
phase_text ResourcePhase.pending = codes "Pending"
phase_text ResourcePhase.configured = codes "Configured"
phase_text ResourcePhase.running = codes "Running"
phase_text ResourcePhase.succeeded = codes "Succeeded"
phase_text ResourcePhase.failed = codes "Failed"
phase_text ResourcePhase.paused = codes "Paused"

unfoldable pub notification_type : ResourcePhase → ProbeResult → Text
notification_type ResourcePhase.succeeded result = codes "RestoreSucceeded"
notification_type phase ProbeResult.failed = codes "StorageProbeFailed"
notification_type phase result = codes "RestoreFailed"

abbrev pub is_succeeded : ResourcePhase → Bool
is_succeeded ResourcePhase.succeeded = true
is_succeeded phase = false

abbrev pub is_delivered : NotificationDeliveryPhase → Bool
is_delivered NotificationDeliveryPhase.succeeded = true
is_delivered phase = false

-- The status with a phase and a message.
abbrev pub in_phase : ResourcePhase → Text → RestoreJob → RestoreJob
in_phase phase message job = record job {
  status = record job.status { phase = phase; message = message };
}

-- The storage that the artifact lies on, and what the restore starts from.
unfoldable pub resolve_origin :
    RestoreJob → BackupSource → BackupAddon → Text → Prog (Reply ResolvedRestoreExecution)
unfolding ◌>>=◌
resolve_origin job source addon [] = elim job.spec.import_source [
  | none ↦ panic
  | some i ↦ try (request (get_storage job.namespace i.storage_ref.name)) λ storage. ret (
      ok (record {
        source = source;
        addon = addon;
        storage = storage;
        snapshot = none;
        import_source = some (record i { path = normalized_path (some i) });
      }))
]
resolve_origin job source addon (c ∷ name) =
    try (request (get_snapshot job.namespace (c ∷ name))) λ snapshot.
      try (request (get_storage job.namespace snapshot.spec.storage_ref.name)) λ storage. ret (
        ok (record {
          source = source;
          addon = addon;
          storage = storage;
          snapshot = some snapshot;
          import_source = none;
        }))

unfoldable pub resolve_addon : RestoreJob → BackupSource → Prog (Reply ResolvedRestoreExecution)
unfolding resolve_origin ◌>>=◌
resolve_addon job source =
    try (request (get_addon source.spec.addon_ref.name))
      λ addon. resolve_origin job source addon (trim_space job.spec.snapshot_ref.name)

unfoldable pub resolve_restore_job_dependencies : RestoreJob → Prog (Reply ResolvedRestoreExecution)
unfolding resolve_addon ◌>>=◌
resolve_restore_job_dependencies job =
    try (request (get_source job.namespace job.spec.source_ref.name)) (resolve_addon job)

-- A snapshot that a restore may use.
unfoldable pub is_restorable : Snapshot → Bool
is_restorable s = is_succeeded s.status.phase && s.status.artifact_ready

unfoldable pub is_ready : ResolvedRestoreExecution → Bool
unfolding is_restorable
is_ready r = elim r.snapshot [ some s ↦ is_restorable s | none ↦ true ]

-- The start time and the generation that every reconciliation writes.
unfoldable pub start : RestoreJob → Prog RestoreJob
unfolding ◌>>=◌
start job = elim job.status.started_at [
  | some t ↦
      ret (record job { status = record job.status { observed_generation = job.generation } })
  | none ↦ request now >>= λ t. ret (record job {
    status = record job.status { observed_generation = job.generation; started_at = some t };
  })
]

unfoldable pub patch : RestoreJob → RestoreJob → Outcome → Prog Outcome
unfolding ◌>>=◌
patch base new outcome =
    request (patch_restore_job_status base new) >>= λ r. ret (unless_failed r outcome)

-- The answer to the creation of the native job decides whether to go on.
unfoldable pub unless_refused : Prog Outcome → Reply Unit → Prog Outcome
unless_refused next (ok _) = next
unless_refused next (err (already_exists m)) = next
unless_refused next (err e) = ret (failing (error_text e))

module _ (p : Platform) where
  abbrev pub native_name : RestoreJob → Text
  native_name job = build_job_name p.unicode (job.name ∷ codes "restore" ∷ [])

  -- A phase with its message and condition, written to the API server.
  unfoldable pub settle :
      RestoreJob
      → RestoreJob
      → ResourcePhase
      → ConditionStatus
      → Text
      → Text
      → Outcome
      → Prog Outcome
  unfolding mark_condition patch ◌>>=◌
  settle base job phase status reason message outcome =
      mark_condition p job.status.conditions status reason message job.generation >>= λ conditions.
      patch base
        (record job {
          status = record job.status { phase = phase; message = message; conditions = conditions };
        })
        outcome

  unfoldable pub create_native : RestoreJob → RestoreJob → Job → Reply ObjectMeta → Prog Outcome
  unfolding unless_refused settle ◌>>=◌
  create_native base job rendered (err e) = ret (failing (error_text e))
  create_native base job rendered (ok meta) =
      request (create_job (record rendered { metadata = meta }))
      >>= unless_refused (
          settle base job ResourcePhase.running condition_false (codes "Running")
            (codes "restore native job created") requeue_soon)

  unfoldable pub create : RestoreJob → RestoreJob → Option Job → Prog Outcome
  unfolding create_native
  create base job none = panic
  create base job (some rendered) =
      create_native base job rendered
        (p.set_controller_reference (codes "RestoreJob") job.metadata rendered.metadata)

  -- The event of a finished restore; without a series the source dereferences a nil pointer.
  unfoldable pub event_of :
      RestoreJob
      → ResolvedRestoreExecution
      → Job
      → TerminalRestoreObservation
      → Text
      → Time
      → NotificationEvent
  event_of job r native o series t = record {
    type = notification_type o.phase o.storage_probe_result;
    namespace = job.namespace;
    resource_kind = codes "RestoreJob";
    resource_name = job.name;
    phase = phase_text o.phase;
    message = o.message;
    source_name = r.source.name;
    storage_name = r.storage.name;
    snapshot_name = Origin.snapshot_name r;
    native_job_name = native.name;
    series = series;
    timestamp = p.format_time t;
    attributes = Origin.notification_attributes p.unicode r;
  }

  unfoldable pub send :
      RestoreJob
      → ResolvedRestoreExecution
      → Job
      → TerminalRestoreObservation
      → Option Text
      → Prog NotificationDeliveryStatus
  unfolding event_of ◌>>=◌
  send job r native o none = panic
  send job r native o (some series) = request now >>= λ t.
      dispatch_notifications p job.namespace job.spec.notification_refs
        (event_of job r native o series t)
      >>= λ x. ret x.0

  unfoldable pub notify :
      RestoreJob
      → ResolvedRestoreExecution
      → Job
      → TerminalRestoreObservation
      → Prog NotificationDeliveryStatus
  unfolding send
  notify job r native o =
      if not (is_empty job.spec.notification_refs)
        && not (is_delivered job.status.notification.phase)
      then send job r native o (Origin.series p.unicode r)
      else ret job.status.notification

  unfoldable pub finish :
      RestoreJob
      → RestoreJob
      → TerminalRestoreObservation
      → NotificationDeliveryStatus
      → Prog Outcome
  unfolding settle
  finish base job o notification =
      settle base
        (record job {
          status = record job.status {
            completed_at = o.completed_at;
            storage_probe_result = o.storage_probe_result;
            storage_probe_message = o.storage_probe_message;
            notification = notification;
          };
        })
        o.phase (if is_succeeded o.phase then condition_true else condition_false)
        (if is_succeeded o.phase then codes "Completed" else codes "Failed") o.message requeue_soon

  unfoldable pub with_observation :
      RestoreJob
      → RestoreJob
      → ResolvedRestoreExecution
      → Job
      → Reply (Option TerminalRestoreObservation)
      → Prog Outcome
  unfolding notify finish settle patch ◌>>=◌
  with_observation base job r native (err e) = ret (failing (error_text e))
  with_observation base job r native (ok (some o)) = notify job r native o >>= finish base job o
  with_observation base job r native (ok none) =
      if ltb 0 native.status.active || is_some native.status.start_time
      then settle base job ResourcePhase.running condition_false (codes "Running")
          (codes "restore native job is running") requeue_soon
      else patch base
          (in_phase ResourcePhase.pending (codes "waiting for restore native job to start") job)
          requeue_soon

  unfoldable pub with_native :
      RestoreJob → RestoreJob → ResolvedRestoreExecution → Reply Job → Prog Outcome
  unfolding create with_observation ◌>>=◌
  with_native base job r (err (not_found m)) = create base job (build_restore_native_job p job r)
  with_native base job r (err e) = ret (failing (error_text e))
  with_native base job r (ok native) =
      observe_terminal_restore_job p native r.storage
      >>= with_observation base
          (record job { status = record job.status { started_at = native.status.start_time } }) r
          native

  unfoldable pub when_ready : RestoreJob → RestoreJob → ResolvedRestoreExecution → Prog Outcome
  unfolding with_native ◌>>=◌
  when_ready base job r =
      request (get_job job.namespace (native_name job))
      >>= with_native base
          (record job { status = record job.status { native_job_name = native_name job } }) r

  unfoldable pub with_resolved :
      RestoreJob → RestoreJob → Reply ResolvedRestoreExecution → Prog Outcome
  unfolding settle when_ready
  with_resolved base job (err e) =
      settle base job ResourcePhase.failed condition_false (codes "DependencyError") (error_text e)
        requeue_soon
  with_resolved base job (ok r) =
      if is_ready r
      then when_ready base job r
      else settle base job ResourcePhase.failed condition_false (codes "SnapshotNotReady")
          (codes "snapshot is not ready for restore") done

  unfoldable pub with_validation : RestoreJob → RestoreJob → Option Text → Prog Outcome
  unfolding settle with_resolved resolve_restore_job_dependencies ◌>>=◌
  with_validation base job (some message) =
      settle base job ResourcePhase.failed condition_false (codes "InvalidSpec") message done
  with_validation base job none = resolve_restore_job_dependencies job >>= with_resolved base job

  unfoldable pub with_restore_job : Reply RestoreJob → Prog Outcome
  unfolding start with_validation ◌>>=◌
  with_restore_job (err e) = ret (ignore_not_found e)
  with_restore_job (ok base) =
      start base >>= λ job. with_validation base job (validate_restore_job p.unicode job.spec)

  unfoldable pub reconcile : Text → Text → Prog Outcome
  unfolding with_restore_job ◌>>=◌
  reconcile namespace name = request (get_restore_job namespace name) >>= with_restore_job
