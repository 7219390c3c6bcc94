-- ===== src/Controllers/BackupJobs/Native.antt =====
-- What the reconciler of a backup job does with its native job.
use dataprotection.Base.{
  List, Option, none, some, false, ◌&&◌, ◌||◌, not, Text, codes, is_empty, is_some, ltb, ◌≡◌, refl,
  sym, ◌∙◌,
}
use dataprotection.Kube.Meta.{ObjectMeta, ConditionStatus, condition_false}
use dataprotection.Kube.Core.{LocalObjectReference}
use dataprotection.Kube.Batch.{Job}
use dataprotection.Api.Common.{ResourcePhase, NotificationDeliveryStatus}
use dataprotection.Api.Config.{BackupSource, BackupStorage}
use dataprotection.Api.Execution.{BackupJob}
use dataprotection.Platform.{Platform}
use dataprotection.Effects.{
  not_found, already_exists, conflict, other, Reply, ok, err, Request, Response, get_source,
  get_storage, get_job, get_backup_job, list_pods, create_job, patch_backup_job_status, Prog, ret,
  ◌>>=◌, Outcome, done, requeue_soon,
}
use dataprotection.Effects.Obeys.{
  Rely, Obeys, Obeys-bind, Obeys-if, Obeys-mono, Obeys-Within, Within-Obeys,
}
use dataprotection.Retention.Safety.{IsRetry}
use dataprotection.Notifications.{dispatch_notifications}
use dataprotection.Notifications.Requests.{Notifying, dispatch_notifications-Notifying}
use dataprotection.Execution.{mark_condition}
use dataprotection.Execution.Terminal.{IsComplete}
use dataprotection.Execution.Observe.{
  TerminalBackupObservation, snapshot_name_of, observe_terminal_backup_job,
}
use dataprotection.Execution.Observe.Success.{
  HasPods, PodsExist, AnyRequest, Promises, observe_terminal_backup_job-Kept,
}
use dataprotection.Execution.Observe.Requests.{Observing, observe_terminal_backup_job-Observing}
use dataprotection.Runtime.Merging.{resolve_job_notification_refs}
use dataprotection.Runtime.Origin.{ResolvedBackupExecution}
use dataprotection.Controllers.RestoreJobs.{is_delivered, unless_refused}
use dataprotection.Controllers.BackupJobs.{
  patch, native_name, settle, create_native, create, event_of, send, notify, finish,
  with_observation, policy_reference, with_native, when_active, when_resolved,
}

-- What the API server has: the backup job, the sources, the storages and the native jobs.
pub record Store : Type 0 where
  pub job : BackupJob
  pub sources : Text → Text → Reply BackupSource
  pub storages : Text → Text → Reply BackupStorage
  pub natives : Text → Text → Reply Job

-- The answers come from the store, and a native job has pods; any other answer is possible.
abbrev pub StoreIs : Store → Rely
StoreIs s (get_backup_job ns name) x = x ≡ ok s.job
StoreIs s (get_source ns name) x = x ≡ s.sources ns name
StoreIs s (get_storage ns name) x = x ≡ s.storages ns name
StoreIs s (get_job ns name) x = x ≡ s.natives ns name
StoreIs s (list_pods ns name) x = HasPods x
StoreIs s r x = Unit

-- A native job is created only if P holds, and a success that names a snapshot is reported only if C does.
abbrev pub OnlyIf : Type 0 → (Text → Type 0) → Request → Type 0
OnlyIf P C (create_job native) = P
OnlyIf P C (patch_backup_job_status base new) =
    new.status.phase ≡ ResourcePhase.succeeded → C new.status.snapshot_ref
OnlyIf P C r = Unit

abbrev pub AnyOutcome : Outcome → Type 0
AnyOutcome o = Unit

module _ (p : Platform) (is_retry : IsRetry p.retry_on_conflict) (s : Store) (P : Type 0)
    (C : Text → Type 0) where
  abbrev Gated : {A : Type 0} → (A → Type 0) → Prog A → Type 0
  Gated Q m = Obeys (StoreIs s) (OnlyIf P C) Q m

  abbrev Run : Prog Outcome → Type 0
  Run m = Gated AnyOutcome m

  pub settle-Run :
      (base job : BackupJob) (phase : ResourcePhase) (status : ConditionStatus)
      (reason message : Text) (o : Outcome)
      → (phase ≡ ResourcePhase.succeeded → C job.status.snapshot_ref)
      → Run (settle p base job phase status reason message o)
  unfolding settle mark_condition patch ◌>>=◌
  settle-Run base job phase status reason message o h = (tt, λ t rt. (h, λ x rx. tt))

  unless_refused-Run :
      (next : Prog Outcome) (x : Reply Unit) → Run next → Run (unless_refused next x)
  unfolding unless_refused
  unless_refused-Run next (ok u) h = h
  unless_refused-Run next (err (already_exists m)) h = h
  unless_refused-Run next (err (not_found m)) h = tt
  unless_refused-Run next (err (conflict m)) h = tt
  unless_refused-Run next (err (other m)) h = tt

  create_native-Run :
      (base job : BackupJob) (rendered : Job) (x : Reply ObjectMeta)
      → P
      → Run (create_native p base job rendered x)
  unfolding create_native ◌>>=◌
  create_native-Run base job rendered (ok meta) h = (
    h,
    λ x rx. unless_refused-Run _ x (
        settle-Run base job ResourcePhase.running condition_false (codes "Running")
          (codes "backup native job created") requeue_soon (λ e. cc)),
  )
  create_native-Run base job rendered (err e) h = tt

  create-Run : (base job : BackupJob) (rendered : Option Job) → P → Run (create p base job rendered)
  unfolding create
  create-Run base job none h = tt
  create-Run base job (some rendered) h = create_native-Run base job rendered _ h

  Notifying-OnlyIf : (q : Request) → Notifying q → OnlyIf P C q
  Notifying-OnlyIf (create_job native) h = elim h [ ]
  Notifying-OnlyIf (patch_backup_job_status base new) h = elim h [ ]
  Notifying-OnlyIf q h = tt

  Observing-OnlyIf : (q : Request) → Observing q → OnlyIf P C q
  Observing-OnlyIf (create_job native) h = elim h [ ]
  Observing-OnlyIf (patch_backup_job_status base new) h = elim h [ ]
  Observing-OnlyIf q h = tt

  store-PodsExist : (q : Request) (x : Response q) → StoreIs s q x → PodsExist q x
  store-PodsExist (list_pods ns name) x h = h
  store-PodsExist q x h = tt

  abbrev AnyNotification : NotificationDeliveryStatus → Type 0
  AnyNotification n = Unit

  send-Gated :
      (job : BackupJob) (r : ResolvedBackupExecution) (native : Job) (o : TerminalBackupObservation)
      (refs : List LocalObjectReference)
      → Gated AnyNotification (send p job r native o refs)
  unfolding send ◌>>=◌
  send-Gated job r native o refs = (
    tt,
    λ t rt.
        Obeys-bind (StoreIs s) (OnlyIf P C) (λ x. Unit) AnyNotification
          (dispatch_notifications p job.namespace refs (event_of p job r native o t)) _
          (Within-Obeys (StoreIs s) Notifying (OnlyIf P C) (λ x. Unit) _ Notifying-OnlyIf (λ x. tt)
            (dispatch_notifications-Notifying p job.namespace refs (event_of p job r native o t)))
          (λ x u. tt),
  )

  notify-Gated :
      (job : BackupJob) (r : ResolvedBackupExecution) (native : Job) (o : TerminalBackupObservation)
      (refs : List LocalObjectReference)
      → Gated AnyNotification (notify p job r native o refs)
  unfolding notify
  notify-Gated job r native o refs =
      Obeys-if (StoreIs s) (OnlyIf P C) AnyNotification
        (not (is_empty refs) && not (is_delivered job.status.notification.phase))
        (send p job r native o refs) (ret job.status.notification)
        (λ h. send-Gated job r native o refs) (λ h. tt)

  finish-Run :
      (base job : BackupJob) (o : TerminalBackupObservation) (n : NotificationDeliveryStatus)
      → (o.phase ≡ ResourcePhase.succeeded → C o.snapshot_ref)
      → Run (finish p base job o n)
  unfolding finish settle mark_condition patch ◌>>=◌
  finish-Run base job o n h = (tt, λ t rt. (h, λ x rx. tt))

  -- What is asked of an observation.
  abbrev Says : Reply (Option TerminalBackupObservation) → Type 0
  Says (err e) = Unit
  Says (ok none) = Unit
  Says (ok (some o)) = o.phase ≡ ResourcePhase.succeeded → C o.snapshot_ref

  with_observation-Run :
      (base job : BackupJob) (r : ResolvedBackupExecution) (native : Job)
      (x : Reply (Option TerminalBackupObservation))
      → Says x
      → Run (with_observation p base job r native x)
  unfolding with_observation patch ◌>>=◌
  with_observation-Run base job r native (err e) says = tt
  with_observation-Run base job r native (ok (some o)) says =
      let refs = resolve_job_notification_refs job.spec.notification_refs r.policy in
      Obeys-bind (StoreIs s) (OnlyIf P C) AnyNotification AnyOutcome (notify p job r native o refs)
        (finish p base job o) (notify-Gated job r native o refs)
        (λ n u. finish-Run base job o n says)
  with_observation-Run base job r native (ok none) says =
      Obeys-if (StoreIs s) (OnlyIf P C) AnyOutcome
        (ltb 0 native.status.active || is_some native.status.start_time) _ _
        (λ h.
          settle-Run base job ResourcePhase.running condition_false (codes "Running")
            (codes "backup native job is running") requeue_soon (λ e. cc))
        (λ h. ((λ e. cc), λ x rx. tt))

  abbrev observing :
      BackupJob → ResolvedBackupExecution → Job → Prog (Reply (Option TerminalBackupObservation))
  observing job r native =
      observe_terminal_backup_job p native r.source r.storage (policy_reference p r.policy)
        (some (record { name = job.name })) r.series r.keep_last

  abbrev Promised :
      BackupJob → ResolvedBackupExecution → Job → Reply (Option TerminalBackupObservation) → Type 0
  Promised job r native =
      Promises p native r.source r.storage (policy_reference p r.policy)
        (some (record { name = job.name })) r.series r.keep_last

  observe-Promises :
      (job : BackupJob) (r : ResolvedBackupExecution) (native : Job)
      → Gated (Promised job r native) (observing job r native)
  observe-Promises job r native =
      let policy_ref = policy_reference p r.policy in
      let job_ref : Option LocalObjectReference = some (record { name = job.name }) in
      Obeys-mono PodsExist (StoreIs s) Observing (OnlyIf P C) (Promised job r native)
        (observing job r native) store-PodsExist Observing-OnlyIf
        (Obeys-Within PodsExist AnyRequest Observing (Promised job r native)
          (observing job r native)
          (observe_terminal_backup_job-Kept p native r.source r.storage policy_ref job_ref r.series
            r.keep_last)
          (observe_terminal_backup_job-Observing p is_retry native r.source r.storage policy_ref
            job_ref r.series r.keep_last))

  with_native-Run :
      (base job : BackupJob) (r : ResolvedBackupExecution) (x : Reply Job)
      → P
      → ((native : Job)
          → x ≡ ok native
          → (ref : Text) → IsComplete native × (ref ≡ snapshot_name_of p native r.storage)
          → C ref)
      → Run (with_native p base job r x)
  unfolding with_native
  with_native-Run base job r (err (not_found m)) h c = create-Run base job _ h
  with_native-Run base job r (err (already_exists m)) h c = tt
  with_native-Run base job r (err (conflict m)) h c = tt
  with_native-Run base job r (err (other m)) h c = tt
  with_native-Run base job r (ok native) h c =
      let policy_ref = policy_reference p r.policy in
      let job_ref : Option LocalObjectReference = some (record { name = job.name }) in
      Obeys-bind (StoreIs s) (OnlyIf P C)
        (Promises p native r.source r.storage policy_ref job_ref r.series r.keep_last) AnyOutcome
        (observe_terminal_backup_job p native r.source r.storage policy_ref job_ref r.series
          r.keep_last)
        _ (observe-Promises job r native)
        (λ x promises.
          with_observation-Run base
            (record job { status = record job.status { started_at = native.status.start_time } }) r
            native x (says x promises))
    where
      says :
          (x : Reply (Option TerminalBackupObservation))
          → Promises p native r.source r.storage
              (policy_reference p r.policy)
              (some (record { name = job.name }))
              r.series
              r.keep_last
              x
          → Says x
      says (err e) k = tt
      says (ok none) k = tt
      says (ok (some o)) k = λ e. c native refl o.snapshot_ref (k e)

  pub when_resolved-Run :
      (base job : BackupJob) (r : ResolvedBackupExecution)
      → (r.source.spec.paused ≡ false → P)
      → ((native : Job)
          → s.natives job.namespace (native_name p job) ≡ ok native
          → (ref : Text) → IsComplete native × (ref ≡ snapshot_name_of p native r.storage)
          → C ref)
      → Run (when_resolved p base job r)
  unfolding when_resolved when_active ◌>>=◌
  when_resolved-Run base job r h c =
      Obeys-if (StoreIs s) (OnlyIf P C) AnyOutcome r.source.spec.paused _ (when_active p base job r)
        (λ e.
          settle-Run base job ResourcePhase.paused condition_false (codes "Paused")
            (codes "backup source is paused") done (λ g. cc))
        (λ e. (
          tt,
          λ x rx.
              with_native-Run base
                (record job { status = record job.status { native_job_name = native_name p job } })
                r x (h e) (λ native g. c native (sym rx ∙ g)),
        ))
