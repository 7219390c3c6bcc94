-- ===== src/Controllers/JobObserver/Scope.antt =====
-- For which native jobs the job observer acts, and what it writes on them.
use dataprotection.Base.{
  List, [], ◌∷◌, Option, none, some, true, false, not, ◌&&◌, ◌||◌, Text, is_empty, text_eq,
  text_eq_refl, ◌≡◌, refl, sym, subst,
}
use dataprotection.Kube.Meta.{lookup, entry, entry-insert}
use dataprotection.Kube.Batch.{Job}
use dataprotection.Api.Common.{ResourcePhase}
use dataprotection.Api.Config.{BackupSource, BackupStorage, BackupPolicy, RetentionPolicy}
use dataprotection.Platform.{Platform}
use dataprotection.Effects.{
  Reply, ok, err, Request, now, get_source, get_storage, get_policy, get_retention, get_snapshot,
  get_endpoint, get_job, list_snapshots, list_pods, get_secret, post_dispatch, create_snapshot,
  update_snapshot, update_snapshot_status, delete_snapshot, update_storage_status, patch_job, Prog,
  ret, ◌>>=◌, request, done,
}
use dataprotection.Effects.Obeys.{
  Rely, Obeys, Obeys-bind, Obeys-if, Obeys-after, Within-Obeys, Good-any,
}
use dataprotection.Retention.{effective_successful_keep_last}
use dataprotection.Retention.Safety.{IsRetry}
use dataprotection.Notifications.{Dispatched, dispatch_notifications}
use dataprotection.Notifications.Requests.{Notifying, dispatch_notifications-Notifying}
use dataprotection.Execution.{job_terminal_state}
use dataprotection.Execution.Observe.{TerminalBackupObservation, observe_terminal_backup_job}
use dataprotection.Execution.Observe.Requests.{Observing, observe_terminal_backup_job-Observing}
use dataprotection.Runtime
use dataprotection.Controllers.RestoreJobs.{phase_text}
use dataprotection.Controllers.RestoreJobs.Gate.{ok-inj}
use dataprotection.Controllers.BackupJobs.{resolve_retention_policy}
use dataprotection.Controllers.JobObserver.{
  notification_observed_annotation, parse_notification_annotation, or_none, retention_of,
  observed_retention, policy_reference, references, policy_name, is_observed, observed_series,
  event_of, annotated, after_dispatch, report, send, with_observation, with_retention, with_storage,
  with_source, when_ended, with_job, reconcile,
}

-- The native job is as given; any other answer is possible.
abbrev pub JobIs : Job → Rely
JobIs native (get_job ns name) x = x ≡ ok native
JobIs native r x = Unit

-- A native job of a scheduled backup that this operator manages, and that has ended.
abbrev pub IsEligible : Platform → Job → Type 0
IsEligible p native =
    (is_observed p native ≡ true)
    × (phase : ResourcePhase) × (message : Text) × (job_terminal_state native
        ≡ some (phase, message))

-- The new object is the job with one annotation set, to the phase in which the job has ended: all else of it,
-- its other annotations included, is as it was.
abbrev pub IsMarked : Job → Job → Job → Type 0
IsMarked native base new =
    (base ≡ native)
    × (new ≡ record native { metadata = record native.metadata { annotations = new.annotations } })
    × ((key : Text)
        → text_eq notification_observed_annotation key ≡ false
        → entry key new.annotations ≡ entry key native.annotations)
    × (phase : ResourcePhase) × (message : Text) × (job_terminal_state native
        ≡ some (phase, message))
    × (entry notification_observed_annotation new.annotations ≡ some (phase_text phase))

-- Reading is free; storages, snapshots and notifications are written for an eligible job only, and the job
-- itself is only marked.
abbrev pub OnlyEligible : Platform → Job → Request → Type 0
OnlyEligible p native now = Unit
OnlyEligible p native (get_source ns name) = Unit
OnlyEligible p native (get_storage ns name) = Unit
OnlyEligible p native (get_policy ns name) = Unit
OnlyEligible p native (get_retention ns name) = Unit
OnlyEligible p native (get_snapshot ns name) = Unit
OnlyEligible p native (get_endpoint ns name) = Unit
OnlyEligible p native (get_secret ns name) = Unit
OnlyEligible p native (get_job ns name) = Unit
OnlyEligible p native (list_snapshots ns) = Unit
OnlyEligible p native (list_pods ns name) = Unit
OnlyEligible p native (create_snapshot s) = IsEligible p native
OnlyEligible p native (update_snapshot s) = IsEligible p native
OnlyEligible p native (update_snapshot_status s) = IsEligible p native
OnlyEligible p native (delete_snapshot s) = IsEligible p native
OnlyEligible p native (update_storage_status s) = IsEligible p native
OnlyEligible p native (post_dispatch url r) = IsEligible p native
OnlyEligible p native (patch_job base new) = IsEligible p native × IsMarked native base new
OnlyEligible p native _ = ⊥

module _ (p : Platform) (is_retry : IsRetry p.retry_on_conflict) (native : Job)
    (phase : ResourcePhase) (message : Text) (seen : is_observed p native ≡ true)
    (ended : job_terminal_state native ≡ some (phase, message)) where
  abbrev Gated : {A : Type 0} → Prog A → Type 0
  Gated m = Obeys (JobIs native) (OnlyEligible p native) (λ a. Unit) m

  eligible : IsEligible p native
  eligible = (seen, phase, message, ended)

  Notifying-Eligible : (q : Request) → Notifying q → OnlyEligible p native q
  Notifying-Eligible now h = tt
  Notifying-Eligible (get_endpoint ns name) h = tt
  Notifying-Eligible (get_secret ns name) h = tt
  Notifying-Eligible (post_dispatch url r) h = eligible
  Notifying-Eligible q h = elim h [ ]

  Observing-Eligible : (q : Request) → Observing q → OnlyEligible p native q
  Observing-Eligible now h = tt
  Observing-Eligible (get_storage ns name) h = tt
  Observing-Eligible (get_snapshot ns name) h = tt
  Observing-Eligible (list_snapshots ns) h = tt
  Observing-Eligible (list_pods ns name) h = tt
  Observing-Eligible (create_snapshot s) h = eligible
  Observing-Eligible (update_snapshot s) h = eligible
  Observing-Eligible (update_snapshot_status s) h = eligible
  Observing-Eligible (delete_snapshot s) h = eligible
  Observing-Eligible (update_storage_status s) h = eligible
  Observing-Eligible q h = elim h [ ]

  marked :
      entry notification_observed_annotation (annotated p native phase).annotations
      ≡ some (phase_text phase)
  marked =
      rw
        (
          entry-insert notification_observed_annotation notification_observed_annotation
              (phase_text phase) native.annotations,
          text_eq_refl notification_observed_annotation,
        )
        refl

  unmarked :
      (key : Text)
      → text_eq notification_observed_annotation key ≡ false
      → entry key (annotated p native phase).annotations ≡ entry key native.annotations
  unmarked key h =
      rw
        (entry-insert notification_observed_annotation key (phase_text phase) native.annotations, h)
        refl

  after_dispatch-Gated : (x : Dispatched) → Gated (after_dispatch p native phase x)
  unfolding after_dispatch ◌>>=◌
  after_dispatch-Gated (status, false) = tt
  after_dispatch-Gated (status, true) =
      ((eligible, (refl, refl, unmarked, phase, message, ended, marked)), λ x rx. tt)

  send-Gated :
      (source : BackupSource) (storage : BackupStorage) (series : Text)
      (o : TerminalBackupObservation) (names : List Text)
      → Gated (send p native phase source storage series o names)
  unfolding send ◌>>=◌
  send-Gated source storage series o names = (
    tt,
    λ t rt.
        Obeys-bind (JobIs native) (OnlyEligible p native) (λ a. Unit) (λ a. Unit)
          (dispatch_notifications p native.namespace (references names)
            (event_of p native source storage series o t))
          (after_dispatch p native phase)
          (Within-Obeys (JobIs native) Notifying (OnlyEligible p native) (λ a. Unit) _
            Notifying-Eligible (λ a. tt)
            (dispatch_notifications-Notifying p native.namespace (references names)
              (event_of p native source storage series o t)))
          (λ x u. after_dispatch-Gated x),
  )

  with_observation-Gated :
      (source : BackupSource) (storage : BackupStorage) (series : Text)
      (x : Reply (Option TerminalBackupObservation))
      → Gated (with_observation p native phase source storage series x)
  unfolding with_observation report
  with_observation-Gated source storage series (err e) = tt
  with_observation-Gated source storage series (ok none) = tt
  with_observation-Gated source storage series (ok (some o)) =
      let names =
        parse_notification_annotation
          (lookup Runtime.notification_refs_annotation native.annotations) in
      Obeys-if (JobIs native) (OnlyEligible p native) (λ a. Unit)
        (not (is_empty names)
          && not (
              text_eq (lookup notification_observed_annotation native.annotations)
                (phase_text phase)))
        (send p native phase source storage series o names) (ret done)
        (λ h. send-Gated source storage series o names) (λ h. tt)

  with_retention-Gated :
      (source : BackupSource) (storage : BackupStorage) (retention : Option RetentionPolicy)
      → Gated (with_retention p native phase source storage retention)
  unfolding with_retention
  with_retention-Gated source storage retention =
      let series = observed_series p native source storage in
      let policy_ref = policy_reference (policy_name p native) in
      let keep = effective_successful_keep_last retention in
      Obeys-bind (JobIs native) (OnlyEligible p native) (λ a. Unit) (λ a. Unit)
        (observe_terminal_backup_job p native source storage policy_ref none series keep)
        (with_observation p native phase source storage series)
        (Within-Obeys (JobIs native) Observing (OnlyEligible p native) (λ a. Unit) _
          Observing-Eligible (λ a. tt)
          (observe_terminal_backup_job-Observing p is_retry native source storage policy_ref none
            series keep))
        (λ x u. with_observation-Gated source storage series x)

  resolve_retention_policy-Gated : (ns name : Text) → Gated (resolve_retention_policy ns name)
  unfolding resolve_retention_policy ◌>>=◌
  resolve_retention_policy-Gated ns [] = tt
  resolve_retention_policy-Gated ns (c ∷ name) = (
    tt,
    λ x rx.
        Obeys-after (JobIs native) (OnlyEligible p native) (λ a. Unit) (λ a. Unit)
          (λ policy. ret (ok (some policy))) (λ a u. tt) (λ e. tt) x (Good-any x),
  )

  retention_of-Gated : (ns : Text) (x : Reply BackupPolicy) → Gated (retention_of ns x)
  unfolding retention_of
  retention_of-Gated ns (err e) = tt
  retention_of-Gated ns (ok policy) =
      Obeys-bind (JobIs native) (OnlyEligible p native) (λ a. Unit) (λ a. Unit)
        (resolve_retention_policy ns (Runtime.local_ref_name policy.spec.retention_ref))
        (λ x. ret (or_none x))
        (resolve_retention_policy-Gated ns (Runtime.local_ref_name policy.spec.retention_ref))
        (λ x u. tt)

  observed_retention-Gated : (ns name : Text) → Gated (observed_retention ns name)
  unfolding observed_retention ◌>>=◌
  observed_retention-Gated ns [] = tt
  observed_retention-Gated ns (c ∷ name) = (tt, λ x rx. retention_of-Gated ns x)

  with_storage-Gated :
      (source : BackupSource) (x : Reply BackupStorage)
      → Gated (with_storage p native phase source x)
  unfolding with_storage
  with_storage-Gated source (err e) = tt
  with_storage-Gated source (ok storage) =
      Obeys-bind (JobIs native) (OnlyEligible p native) (λ a. Unit) (λ a. Unit)
        (observed_retention native.namespace (policy_name p native))
        (with_retention p native phase source storage)
        (observed_retention-Gated native.namespace (policy_name p native))
        (λ r u. with_retention-Gated source storage r)

  with_source-Gated : (x : Reply BackupSource) → Gated (with_source p native phase x)
  unfolding with_source ◌>>=◌
  with_source-Gated (err e) = tt
  with_source-Gated (ok source) = (tt, λ x rx. with_storage-Gated source x)

module _ (p : Platform) (is_retry : IsRetry p.retry_on_conflict) (native : Job) where
  when_ended-Gated :
      (state : Option (ResourcePhase × Text))
      → is_observed p native ≡ true
      → job_terminal_state native ≡ state
      → Obeys (JobIs native) (OnlyEligible p native) (λ a. Unit) (when_ended p native state)
  unfolding when_ended ◌>>=◌
  when_ended-Gated none seen ended = tt
  when_ended-Gated (some (phase, message)) seen ended =
      Obeys-if (JobIs native) (OnlyEligible p native) (λ a. Unit)
        (is_empty (lookup Runtime.source_name_label native.labels)
          || is_empty (lookup Runtime.storage_name_label native.labels))
        (ret done)
        (request (get_source native.namespace (lookup Runtime.source_name_label native.labels))
          >>= with_source p native phase)
        (λ h. tt)
        (λ h. (tt, λ x rx. with_source-Gated p is_retry native phase message seen ended x))

  with_job-Gated :
      (x : Reply Job)
      → x ≡ ok native
      → Obeys (JobIs native) (OnlyEligible p native) (λ a. Unit) (with_job p x)
  unfolding with_job
  with_job-Gated (err e) f = cc
  with_job-Gated (ok job) f =
      subst (λ j. Obeys (JobIs native) (OnlyEligible p native) (λ a. Unit) (with_job p (ok j)))
        (sym (ok-inj job native f))
        (Obeys-if (JobIs native) (OnlyEligible p native) (λ a. Unit) (is_observed p native)
          (when_ended p native (job_terminal_state native)) (ret done)
          (λ seen. when_ended-Gated (job_terminal_state native) seen refl) (λ h. tt))

-- With any retrying, and whatever the API server answers apart from the native job, the job observer writes storages and snapshots and
-- sends notifications only if the labels of the job say that it is a scheduled backup of this operator and
-- the job has ended. The job itself it writes only then, and only with one annotation set, which names
-- the phase in which the job has ended: its specification, labels, owners, other annotations and all else are
-- as they were. It writes nothing else.
pub reconcile-Eligible :
    (p : Platform) (native : Job) (namespace name : Text)
    → IsRetry p.retry_on_conflict
    → Obeys (JobIs native) (OnlyEligible p native) (λ a. Unit) (reconcile p namespace name)
unfolding reconcile ◌>>=◌
reconcile-Eligible p native namespace name is_retry =
    (tt, λ x rx. with_job-Gated p is_retry native x rx)
