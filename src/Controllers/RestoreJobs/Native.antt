-- ===== src/Controllers/RestoreJobs/Native.antt =====
-- What a restore job does with its native job: it is created only under the given condition, and it is
-- observed and reported without creating another.
use dataprotection.Base.{List, Option, none, some, is_some, ◌||◌, Text, codes, ltb, ◌≡◌}
use dataprotection.Base.Sort.{sort}
use dataprotection.Kube.Meta.{ObjectMeta, ConditionStatus, condition_false}
use dataprotection.Kube.Core.{Pod}
use dataprotection.Kube.Batch.{Job}
use dataprotection.Api.Common.{ResourcePhase, ProbeResult, NotificationDeliveryStatus}
use dataprotection.Api.Config.{BackupStorage}
use dataprotection.Api.Execution.{Snapshot, RestoreJob}
use dataprotection.Platform.{Platform}
use dataprotection.Summary.{StorageProbeSummary}
use dataprotection.Effects.{
  not_found, already_exists, conflict, other, Reply, ok, err, Request, get_snapshot,
  get_restore_job, create_job, Prog, ret, ◌>>=◌, after, Outcome, requeue_soon,
}
use dataprotection.Effects.Obeys.{
  Rely, Obeys, Within-Obeys, Obeys-bind, Obeys-if, Obeys-try, Good, Good-any,
}
use dataprotection.Notifications.{dispatch_notifications}
use dataprotection.Notifications.Requests.{Notifying, dispatch_notifications-Notifying}
use dataprotection.Retention.Safety.{IsRetry}
use dataprotection.Execution.{
  newer_pod, mark_condition, job_terminal_state, build_storage_observation_from_pod,
}
use dataprotection.Execution.Observe.{
  TerminalRestoreObservation, find_latest_job_pod, record_probe, update_backup_storage_probe,
  newest_pod, with_restore_pod, restore_observation, when_restore_terminal,
  observe_terminal_restore_job, failure_text,
}
use dataprotection.Runtime.Origin
use dataprotection.Runtime.Origin.{ResolvedRestoreExecution}
use dataprotection.Controllers.RestoreJobs.{
  patch, unless_refused, native_name, settle, create_native, create, event_of, send, notify, finish,
  with_observation, with_native, when_ready,
}

abbrev pub CreatesOnlyIf : Type 0 → Request → Type 0
CreatesOnlyIf P (create_job native) = P
CreatesOnlyIf P r = Unit

-- The restore job and the snapshots are as given; any other answer is possible.
abbrev pub StoreIs : RestoreJob → (Text → Text → Reply Snapshot) → Rely
StoreIs job snapshots (get_restore_job ns name) x = x ≡ ok job
StoreIs job snapshots (get_snapshot ns name) x = x ≡ snapshots ns name
StoreIs job snapshots r x = Unit

abbrev pub AnyOutcome : Outcome → Type 0
AnyOutcome o = Unit

module _ (p : Platform) (is_retry : IsRetry p.retry_on_conflict) (stored : RestoreJob)
    (snapshots : Text → Text → Reply Snapshot) (P : Type 0) where
  abbrev pub Gated : {A : Type 0} → (A → Type 0) → Prog A → Type 0
  Gated Q m = Obeys (StoreIs stored snapshots) (CreatesOnlyIf P) Q m

  abbrev pub Run : Prog Outcome → Type 0
  Run m = Gated AnyOutcome m

  patch-Run : (base new : RestoreJob) (o : Outcome) → Run (patch base new o)
  unfolding patch ◌>>=◌
  patch-Run base new o = (tt, λ x rx. tt)

  pub settle-Run :
      (base job : RestoreJob) (phase : ResourcePhase) (status : ConditionStatus)
      (reason message : Text) (o : Outcome)
      → Run (settle p base job phase status reason message o)
  unfolding settle mark_condition patch ◌>>=◌
  settle-Run base job phase status reason message o = (tt, λ t rt. (tt, λ x rx. tt))

  unless_refused-Run :
      (next : Prog Outcome) (x : Reply Unit) → Run next → Run (unless_refused next x)
  unfolding unless_refused
  unless_refused-Run next (ok u) h = h
  unless_refused-Run next (err (already_exists m)) h = h
  unless_refused-Run next (err (not_found m)) h = tt
  unless_refused-Run next (err (conflict m)) h = tt
  unless_refused-Run next (err (other m)) h = tt

  create_native-Run :
      (base job : RestoreJob) (rendered : Job) (x : Reply ObjectMeta)
      → P
      → Run (create_native p base job rendered x)
  unfolding create_native ◌>>=◌
  create_native-Run base job rendered (ok meta) h = (
    h,
    λ x rx. unless_refused-Run _ x (
        settle-Run base job ResourcePhase.running condition_false (codes "Running")
          (codes "restore native job created") requeue_soon),
  )
  create_native-Run base job rendered (err e) h = tt

  create-Run :
      (base job : RestoreJob) (rendered : Option Job) → P → Run (create p base job rendered)
  unfolding create
  create-Run base job none h = tt
  create-Run base job (some rendered) h = create_native-Run base job rendered _ h

  Notifying-creates_none : (q : Request) → Notifying q → CreatesOnlyIf P q
  Notifying-creates_none (create_job native) h = elim h [ ]
  Notifying-creates_none q h = tt

  abbrev AnyNotification : NotificationDeliveryStatus → Type 0
  AnyNotification n = Unit

  send-Gated :
      (job : RestoreJob) (r : ResolvedRestoreExecution) (native : Job)
      (o : TerminalRestoreObservation) (series : Option Text)
      → Gated AnyNotification (send p job r native o series)
  unfolding send ◌>>=◌
  send-Gated job r native o none = tt
  send-Gated job r native o (some series) = (
    tt,
    λ t rt.
        Obeys-bind (StoreIs stored snapshots) (CreatesOnlyIf P) (λ x. Unit) AnyNotification
          (dispatch_notifications p job.namespace job.spec.notification_refs
            (event_of p job r native o series t))
          _
          (Within-Obeys (StoreIs stored snapshots) Notifying (CreatesOnlyIf P) (λ x. Unit) _
            Notifying-creates_none (λ x. tt)
            (dispatch_notifications-Notifying p job.namespace job.spec.notification_refs
              (event_of p job r native o series t)))
          (λ x u. tt),
  )

  notify-Gated :
      (job : RestoreJob) (r : ResolvedRestoreExecution) (native : Job)
      (o : TerminalRestoreObservation)
      → Gated AnyNotification (notify p job r native o)
  unfolding notify
  notify-Gated job r native o =
      Obeys-if (StoreIs stored snapshots) (CreatesOnlyIf P) AnyNotification _ _
        (ret job.status.notification) (λ h. send-Gated job r native o (Origin.series p.unicode r))
        (λ h. tt)

  finish-Run :
      (base job : RestoreJob) (o : TerminalRestoreObservation) (n : NotificationDeliveryStatus)
      → Run (finish p base job o n)
  unfolding finish settle mark_condition patch ◌>>=◌
  finish-Run base job o n = (tt, λ t rt. (tt, λ x rx. tt))

  with_observation-Run :
      (base job : RestoreJob) (r : ResolvedRestoreExecution) (native : Job)
      (x : Reply (Option TerminalRestoreObservation))
      → Run (with_observation p base job r native x)
  unfolding with_observation patch ◌>>=◌
  with_observation-Run base job r native (err e) = tt
  with_observation-Run base job r native (ok (some o)) =
      Obeys-bind (StoreIs stored snapshots) (CreatesOnlyIf P) AnyNotification AnyOutcome
        (notify p job r native o) (finish p base job o) (notify-Gated job r native o)
        (λ n u. finish-Run base job o n)
  with_observation-Run base job r native (ok none) =
      Obeys-if (StoreIs stored snapshots) (CreatesOnlyIf P) AnyOutcome
        (ltb 0 native.status.active || is_some native.status.start_time) _ _
        (λ h.
          settle-Run base job ResourcePhase.running condition_false (codes "Running")
            (codes "restore native job is running") requeue_soon)
        (λ h. (tt, λ x rx. tt))

  abbrev AnyReply : Reply Unit → Type 0
  AnyReply x = Good (λ u. Unit) x

  with_storage-Gated :
      (result : ProbeResult) (message : Text) (x : Reply BackupStorage)
      (f : BackupStorage → Prog (Reply Unit))
      → ((s : BackupStorage) → Gated AnyReply (f s))
      → Gated AnyReply (after f x)
  with_storage-Gated result message (ok s) f h = h s
  with_storage-Gated result message (err e) f h = tt

  record_probe-Gated :
      (storage : BackupStorage) (probe : Option StorageProbeSummary)
      → Gated AnyReply (record_probe p storage probe)
  unfolding record_probe update_backup_storage_probe ◌>>=◌
  record_probe-Gated storage none = tt
  record_probe-Gated storage (some probe) =
      is_retry.keeps (StoreIs stored snapshots) (CreatesOnlyIf P) AnyReply _ (
        tt,
        λ x rx.
            with_storage-Gated probe.result probe.message x _
              (λ s. (tt, λ t rt. (tt, λ y ry. Good-any y))),
      )

  abbrev AnyObservation : Reply (Option TerminalRestoreObservation) → Type 0
  AnyObservation x = Unit

  with_restore_pod-Gated :
      (native : Job) (storage : BackupStorage) (phase : ResourcePhase) (message : Text)
      (x : Reply Pod)
      → Gated AnyObservation (with_restore_pod p native storage phase message x)
  unfolding with_restore_pod
  with_restore_pod-Gated native storage phase message (err (not_found m)) = tt
  with_restore_pod-Gated native storage phase message (err (already_exists m)) = tt
  with_restore_pod-Gated native storage phase message (err (conflict m)) = tt
  with_restore_pod-Gated native storage phase message (err (other m)) = tt
  with_restore_pod-Gated native storage phase message (ok pod) =
      let reports = build_storage_observation_from_pod p pod in
      Obeys-try (StoreIs stored snapshots) (CreatesOnlyIf P) (λ u. Unit) AnyObservation
        (record_probe p storage reports.0.0)
        (λ u. ret (
          ok (
            some (
              restore_observation p native phase (failure_text phase message reports.1)
                reports.0.0))))
        (record_probe-Gated storage reports.0.0) (λ u v. tt) (λ e. tt)

  list_pods-Gated : (native : Job) → Gated (λ x. Unit) (find_latest_job_pod native)
  unfolding find_latest_job_pod ◌>>=◌
  list_pods-Gated native = (tt, λ x rx. listed x)
    where
      listed :
          (x : Reply (List Pod))
          → Gated (λ y. Unit) (after (λ pods. ret (newest_pod native.name (sort newer_pod pods))) x)
      listed (ok pods) = tt
      listed (err e) = tt

  when_restore_terminal-Gated :
      (native : Job) (storage : BackupStorage) (state : Option (ResourcePhase × Text))
      → Gated AnyObservation (when_restore_terminal p native storage state)
  unfolding when_restore_terminal
  when_restore_terminal-Gated native storage none = tt
  when_restore_terminal-Gated native storage (some (phase, message)) =
      Obeys-bind (StoreIs stored snapshots) (CreatesOnlyIf P) (λ x. Unit) AnyObservation
        (find_latest_job_pod native) (with_restore_pod p native storage phase message)
        (list_pods-Gated native) (λ x u. with_restore_pod-Gated native storage phase message x)

  observe-Gated :
      (native : Job) (storage : BackupStorage)
      → Gated AnyObservation (observe_terminal_restore_job p native storage)
  unfolding observe_terminal_restore_job
  observe-Gated native storage =
      when_restore_terminal-Gated native storage (job_terminal_state native)

  with_native-Run :
      (base job : RestoreJob) (r : ResolvedRestoreExecution) (x : Reply Job)
      → P
      → Run (with_native p base job r x)
  unfolding with_native
  with_native-Run base job r (err (not_found m)) h = create-Run base job _ h
  with_native-Run base job r (err (already_exists m)) h = tt
  with_native-Run base job r (err (conflict m)) h = tt
  with_native-Run base job r (err (other m)) h = tt
  with_native-Run base job r (ok native) h =
      Obeys-bind (StoreIs stored snapshots) (CreatesOnlyIf P) AnyObservation AnyOutcome
        (observe_terminal_restore_job p native r.storage) _ (observe-Gated native r.storage)
        (λ x u.
          with_observation-Run base
            (record job { status = record job.status { started_at = native.status.start_time } }) r
            native x)

  pub when_ready-Run :
      (base job : RestoreJob) (r : ResolvedRestoreExecution) → P → Run (when_ready p base job r)
  unfolding when_ready ◌>>=◌
  when_ready-Run base job r h = (
    tt,
    λ x rx.
        with_native-Run base
          (record job { status = record job.status { native_job_name = native_name p job } }) r x h,
  )
