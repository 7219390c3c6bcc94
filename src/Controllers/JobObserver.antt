-- ===== src/Controllers/JobObserver.antt =====
-- controllers/jobobserver_controller.go: the backups of the native jobs that cron jobs start. The proofs
-- are in the modules below this one.
pub mod Annotation
pub mod Scope
use dataprotection.Base.{
  List, [], ◌∷◌, Option, none, some, Bool, true, false, not, ◌&&◌, ◌||◌, Text, codes, text_eq,
  if◌then◌else◌, is_empty, trim_space, split, map, select,
}
use dataprotection.Kube.Meta.{Time, lookup, insert}
use dataprotection.Kube.Core.{LocalObjectReference}
use dataprotection.Kube.Batch.{Job}
use dataprotection.Api.Common.{ResourcePhase, NotificationDeliveryStatus}
use dataprotection.Api.Config.{BackupSource, BackupStorage, BackupPolicy, RetentionPolicy}
use dataprotection.Platform.{Platform}
use dataprotection.Effects.{
  error_text, Reply, ok, err, now, get_source, get_storage, get_policy, get_job, patch_job, Prog,
  ret, request, ◌>>=◌, Outcome, done, failing, requeue_soon, unless_failed, ignore_not_found,
}
use dataprotection.Messages.{NotificationEvent}
use dataprotection.Notifications.{Dispatched, dispatch_notifications}
use dataprotection.Retention.{effective_successful_keep_last}
use dataprotection.Execution.{job_terminal_state}
use dataprotection.Execution.Observe.{TerminalBackupObservation, observe_terminal_backup_job}
use dataprotection.Runtime
use dataprotection.Runtime.Labels.{label, backup_policy_kind, build_series}
use dataprotection.Controllers.RestoreJobs.{phase_text}
use dataprotection.Controllers.BackupJobs.{backup_notification_type, resolve_retention_policy}

abbrev pub notification_observed_annotation : Text
notification_observed_annotation = codes "dataprotection.archinfra.io/notification-phase"

unfoldable pub parse_notification_annotation : Text → List Text
parse_notification_annotation value =
    select (λ name. not (is_empty name)) (map trim_space (split value b','))

-- An error of the lookup counts as no retention policy.
abbrev pub or_none : Reply (Option RetentionPolicy) → Option RetentionPolicy
or_none (ok retention) = retention
or_none (err e) = none

unfoldable pub retention_of : Text → Reply BackupPolicy → Prog (Option RetentionPolicy)
unfolding resolve_retention_policy ◌>>=◌
retention_of namespace (err e) = ret none
retention_of namespace (ok policy) =
    resolve_retention_policy namespace (Runtime.local_ref_name policy.spec.retention_ref) >>= λ x.
    ret (or_none x)

unfoldable pub observed_retention : Text → Text → Prog (Option RetentionPolicy)
unfolding retention_of ◌>>=◌
observed_retention namespace [] = ret none
observed_retention namespace (c ∷ name) =
    request (get_policy namespace (c ∷ name)) >>= retention_of namespace

-- The reference to the policy that a snapshot keeps.
abbrev pub policy_reference : Text → Option LocalObjectReference
policy_reference [] = none
policy_reference (c ∷ name) = some (record { name = c ∷ name })

abbrev pub references : List Text → List LocalObjectReference
references names = map (λ name. record { name = name }) names

module _ (p : Platform) (native : Job) where
  abbrev pub policy_name : Text
  policy_name = lookup Runtime.policy_name_label native.labels

  -- The native jobs of scheduled backups that this operator manages.
  unfoldable pub is_observed : Bool
  is_observed =
      text_eq (lookup Runtime.managed_by_label native.labels) Runtime.managed_by_value
      && text_eq (lookup Runtime.operation_label native.labels) (label p.unicode (codes "backup"))
      && text_eq (lookup Runtime.execution_kind_label native.labels)
          (label p.unicode backup_policy_kind)

  unfoldable pub observed_series : BackupSource → BackupStorage → Text
  observed_series source storage =
      let series = lookup Runtime.series_annotation native.annotations in
      if is_empty series
      then build_series p.unicode source storage.name policy_name native.name
      else series

  unfoldable pub event_of :
      BackupSource → BackupStorage → Text → TerminalBackupObservation → Time → NotificationEvent
  event_of source storage series o t = record {
    type = backup_notification_type o.phase o.storage_probe_result;
    namespace = native.namespace;
    resource_kind = backup_policy_kind;
    resource_name = policy_name;
    phase = phase_text o.phase;
    message = o.message;
    source_name = source.name;
    storage_name = storage.name;
    snapshot_name = o.snapshot_ref;
    native_job_name = native.name;
    series = series;
    timestamp = p.format_time t;
    attributes = [];
  }

  -- The job with the annotation that says which phase was reported.
  abbrev pub annotated : ResourcePhase → Job
  annotated phase = record native {
    metadata = record native.metadata {
      annotations = insert notification_observed_annotation (phase_text phase) native.annotations;
    };
  }

  unfoldable pub after_dispatch : ResourcePhase → Dispatched → Prog Outcome
  unfolding ◌>>=◌
  after_dispatch phase (status, false) = ret done
  after_dispatch phase (status, true) =
      request (patch_job native (annotated phase)) >>= λ r. ret (unless_failed r done)

  -- The phase is the one of the native job; the event carries that of the observation.
  unfoldable pub send :
      ResourcePhase
      → BackupSource
      → BackupStorage
      → Text
      → TerminalBackupObservation
      → List Text
      → Prog Outcome
  unfolding after_dispatch event_of ◌>>=◌
  send phase source storage series o names = request now >>= λ t.
      dispatch_notifications p native.namespace (references names)
        (event_of source storage series o t)
      >>= after_dispatch phase

  unfoldable pub report :
      ResourcePhase → BackupSource → BackupStorage → Text → TerminalBackupObservation → Prog Outcome
  unfolding send
  report phase source storage series o =
      let names =
        parse_notification_annotation
          (lookup Runtime.notification_refs_annotation native.annotations) in
      if not (is_empty names)
        && not (
            text_eq (lookup notification_observed_annotation native.annotations) (phase_text phase))
      then send phase source storage series o names
      else ret done

  unfoldable pub with_observation :
      ResourcePhase
      → BackupSource
      → BackupStorage
      → Text
      → Reply (Option TerminalBackupObservation)
      → Prog Outcome
  unfolding report
  with_observation phase source storage series (err e) = ret (failing (error_text e))
  with_observation phase source storage series (ok none) = ret requeue_soon
  with_observation phase source storage series (ok (some o)) = report phase source storage series o

  unfoldable pub with_retention :
      ResourcePhase → BackupSource → BackupStorage → Option RetentionPolicy → Prog Outcome
  unfolding with_observation observed_series ◌>>=◌
  with_retention phase source storage retention =
      let series = observed_series source storage in
      observe_terminal_backup_job p native source storage (policy_reference policy_name) none series
        (effective_successful_keep_last retention)
      >>= with_observation phase source storage series

  unfoldable pub with_storage : ResourcePhase → BackupSource → Reply BackupStorage → Prog Outcome
  unfolding with_retention observed_retention ◌>>=◌
  with_storage phase source (err e) = ret (ignore_not_found e)
  with_storage phase source (ok storage) =
      observed_retention native.namespace policy_name >>= with_retention phase source storage

  unfoldable pub with_source : ResourcePhase → Reply BackupSource → Prog Outcome
  unfolding with_storage ◌>>=◌
  with_source phase (err e) = ret (ignore_not_found e)
  with_source phase (ok source) =
      request (get_storage native.namespace (lookup Runtime.storage_name_label native.labels))
      >>= with_storage phase source

  unfoldable pub when_ended : Option (ResourcePhase × Text) → Prog Outcome
  unfolding with_source ◌>>=◌
  when_ended none = ret requeue_soon
  when_ended (some (phase, message)) =
      if is_empty (lookup Runtime.source_name_label native.labels)
        || is_empty (lookup Runtime.storage_name_label native.labels)
      then ret done
      else (request (get_source native.namespace (lookup Runtime.source_name_label native.labels))
          >>= with_source phase)

unfoldable pub with_job : Platform → Reply Job → Prog Outcome
unfolding is_observed when_ended
with_job p (err e) = ret (ignore_not_found e)
with_job p (ok native) =
    if is_observed p native then when_ended p native (job_terminal_state native) else ret done

unfoldable pub reconcile : Platform → Text → Text → Prog Outcome
unfolding with_job ◌>>=◌
reconcile p namespace name = request (get_job namespace name) >>= with_job p
