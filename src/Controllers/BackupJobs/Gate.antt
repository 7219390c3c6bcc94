-- ===== src/Controllers/BackupJobs/Gate.antt =====
-- When the reconciler of a backup job creates a native job, and when it reports a success.
use dataprotection.Base.{
  [], ◌∷◌, Option, none, some, false, Text, codes, is_empty, trim_space, ◌≡◌, refl, sym, ◌∙◌, subst,
  Option-cases, inl, inr,
}
use dataprotection.Kube.Meta.{condition_false}
use dataprotection.Kube.Core.{LocalObjectReference}
use dataprotection.Kube.Batch.{Job}
use dataprotection.Api.Common.{ResourcePhase}
use dataprotection.Api.Config.{BackupAddon, BackupSource, BackupStorage}
use dataprotection.Api.Execution.{BackupJob}
use dataprotection.Platform.{Platform}
use dataprotection.Validate.{validate_backup_job}
use dataprotection.Effects.{
  error_text, Reply, ok, err, Prog, ret, ◌>>=◌, after, Outcome, done, requeue_soon,
}
use dataprotection.Effects.Obeys.{
  Obeys, Obeys-bind, Obeys-if, Obeys-after, Obeys-try, Good-any, Good,
}
use dataprotection.Retention.Safety.{IsRetry}
use dataprotection.Execution.Terminal.{IsComplete}
use dataprotection.Execution.Observe.{snapshot_name_of}
use dataprotection.Runtime.Origin.{ResolvedBackupExecution}
use dataprotection.Controllers.RestoreJobs.Gate.{ok-inj}
use dataprotection.Controllers.BackupJobs.{
  resolve_retention_policy, resolve_policy, retention_name, start, resolved_backup, resolve_storage,
  resolve_backup_job_dependencies, native_name, with_resolved, with_validation, with_backup_job,
  reconcile,
}
use dataprotection.Controllers.BackupJobs.Native.{
  Store, StoreIs, OnlyIf, AnyOutcome, settle-Run, when_resolved-Run,
}

-- The specification validates and the source is not paused.
abbrev pub MayBackup : Store → BackupJob → Type 0
MayBackup s job =
    (validate_backup_job job.spec ≡ none)
    × (source : BackupSource) × (s.sources job.namespace job.spec.source_ref.name ≡ ok source)
    × (source.spec.paused ≡ false)

-- The native job of the backup job has completed, and the snapshot is the one of that job on its storage.
abbrev pub HasCompleted : Platform → Store → BackupJob → Text → Type 0
HasCompleted p s job snapshot_ref =
    (native : Job) × (storage : BackupStorage) × (s.natives job.namespace (native_name p job)
      ≡ ok native)
    × (s.storages job.namespace job.spec.storage_ref.name ≡ ok storage)
    × IsComplete native
    × (snapshot_ref ≡ snapshot_name_of p native storage)

module _ (p : Platform) (is_retry : IsRetry p.retry_on_conflict) (s : Store) (P : Type 0)
    (C : Text → Type 0) where
  abbrev Gated : {A : Type 0} → (A → Type 0) → Prog A → Type 0
  Gated Q m = Obeys (StoreIs s) (OnlyIf P C) Q m

  abbrev Run : Prog Outcome → Type 0
  Run m = Gated AnyOutcome m

  -- What is known of a resolved execution: its source and storage are those of the store.
  abbrev ComesFrom : BackupJob → ResolvedBackupExecution → Type 0
  ComesFrom job r =
      (s.sources job.namespace job.spec.source_ref.name ≡ ok r.source)
      × (s.storages job.namespace job.spec.storage_ref.name ≡ ok r.storage)

  abbrev Resolves : BackupJob → Prog (Reply ResolvedBackupExecution) → Type 0
  Resolves job m = Gated (Good (ComesFrom job)) m

  after-Resolves :
      {A : Type 0} (job : BackupJob) (x : Reply A) (f : A → Prog (Reply ResolvedBackupExecution))
      → ((a : A) → x ≡ ok a → Resolves job (f a))
      → Resolves job (after f x)
  after-Resolves job (ok a) f h = h a refl
  after-Resolves job (err e) f h = tt

  resolve_policy-Gated :
      (ns : Text) (ref : Option LocalObjectReference)
      → Gated (Good (λ x. Unit)) (resolve_policy ns ref)
  unfolding resolve_policy ◌>>=◌
  resolve_policy-Gated ns none = tt
  resolve_policy-Gated ns (some ref) =
      Obeys-if (StoreIs s) (OnlyIf P C) (Good (λ x. Unit)) (is_empty (trim_space ref.name))
        (ret (ok none)) _ (λ h. tt)
        (λ h. (
          tt,
          λ x rx.
              Obeys-after (StoreIs s) (OnlyIf P C) (λ a. Unit) (Good (λ x. Unit)) _ (λ a u. tt)
                (λ e. tt) x (Good-any x),
        ))

  resolve_retention_policy-Gated :
      (ns name : Text) → Gated (Good (λ x. Unit)) (resolve_retention_policy ns name)
  unfolding resolve_retention_policy ◌>>=◌
  resolve_retention_policy-Gated ns [] = tt
  resolve_retention_policy-Gated ns (c ∷ name) = (
    tt,
    λ x rx.
        Obeys-after (StoreIs s) (OnlyIf P C) (λ a. Unit) (Good (λ x. Unit))
          (λ policy. ret (ok (some policy))) (λ a u. tt) (λ e. tt) x (Good-any x),
  )

  resolve_storage-Resolves :
      (job : BackupJob) (source : BackupSource) (addon : BackupAddon)
      → s.sources job.namespace job.spec.source_ref.name ≡ ok source
      → Resolves job (resolve_storage p job source addon)
  unfolding resolve_storage resolved_backup ◌>>=◌
  resolve_storage-Resolves job source addon e = (
    tt,
    λ x rx. after-Resolves job x _ (λ storage f.
        Obeys-try (StoreIs s) (OnlyIf P C) (λ u. Unit) (Good (ComesFrom job))
          (resolve_policy job.namespace job.spec.policy_ref) _
          (resolve_policy-Gated job.namespace job.spec.policy_ref)
          (λ policy u.
            Obeys-try (StoreIs s) (OnlyIf P C) (λ v. Unit) (Good (ComesFrom job))
              (resolve_retention_policy job.namespace (retention_name job policy))
              (λ retention. ret (ok (resolved_backup p job source addon storage policy retention)))
              (resolve_retention_policy-Gated job.namespace (retention_name job policy))
              (λ retention v. (e, sym rx ∙ f)) (λ m. tt))
          (λ m. tt)),
  )

  resolve-Resolves : (job : BackupJob) → Resolves job (resolve_backup_job_dependencies p job)
  unfolding resolve_backup_job_dependencies ◌>>=◌
  resolve-Resolves job = (
    tt,
    λ x rx. after-Resolves job x _ (λ source f. (
      tt,
      λ y ry.
          after-Resolves job y _
            (λ addon g. resolve_storage-Resolves job source addon (sym rx ∙ f)),
    )),
  )

  with_resolved-Run :
      (base job : BackupJob) (x : Reply ResolvedBackupExecution)
      → validate_backup_job job.spec ≡ none
      → (MayBackup s job → P)
      → ((ref : Text) → HasCompleted p s job ref → C ref)
      → Good (ComesFrom job) x
      → Run (with_resolved p base job x)
  unfolding with_resolved
  with_resolved-Run base job (err e) v k c g =
      settle-Run p is_retry s P C base job ResourcePhase.failed condition_false
        (codes "DependencyError") (error_text e) requeue_soon (λ h. cc)
  with_resolved-Run base job (ok r) v k c g =
      when_resolved-Run p is_retry s P C base
        (record job { status = record job.status { series = r.series } }) r
        (λ active. k (v, r.source, g.0, active))
        (λ native e ref done. c ref (native, r.storage, e, g.1, done.0, done.1))

  with_validation-Run :
      (base job : BackupJob) (v : Option Text)
      → validate_backup_job job.spec ≡ v
      → (MayBackup s job → P)
      → ((ref : Text) → HasCompleted p s job ref → C ref)
      → Run (with_validation p base job v)
  unfolding with_validation
  with_validation-Run base job (some m) e k c =
      settle-Run p is_retry s P C base job ResourcePhase.failed condition_false
        (codes "InvalidSpec") m done (λ h. cc)
  with_validation-Run base job none e k c =
      Obeys-bind (StoreIs s) (OnlyIf P C) (Good (ComesFrom job)) AnyOutcome
        (resolve_backup_job_dependencies p job) (with_resolved p base job) (resolve-Resolves job)
        (λ x g. with_resolved-Run base job x e k c g)

  abbrev Restarted : BackupJob → Type 0
  Restarted job = (job.spec ≡ s.job.spec) × (job.metadata ≡ s.job.metadata)

  start-Restarted : Gated Restarted (start s.job)
  unfolding start ◌>>=◌
  start-Restarted = elim (Option-cases s.job.status.started_at) [
    | inl e ↦ rw e (tt, λ t rt. (refl, refl))
    | inr (t, e) ↦ rw e (refl, refl)
  ]

  with_backup_job-Run :
      (x : Reply BackupJob)
      → x ≡ ok s.job
      → (MayBackup s s.job → P)
      → ((ref : Text) → HasCompleted p s s.job ref → C ref)
      → Run (with_backup_job p x)
  unfolding with_backup_job
  with_backup_job-Run (err e) f k c = cc
  with_backup_job-Run (ok base) f k c =
      subst (λ b. Run (with_backup_job p (ok b))) (sym (ok-inj base s.job f))
        (Obeys-bind (StoreIs s) (OnlyIf P C) Restarted AnyOutcome (start s.job)
          (λ job. with_validation p s.job job (validate_backup_job job.spec)) start-Restarted
          (λ job same.
            with_validation-Run s.job job _ refl (λ m. k (rw (sym same.0, sym same.1) m))
              (λ ref m. c ref (rw (sym same.0, sym same.1) m))))

-- Where a native job that is there has pods, and whatever else the API server answers, the reconciler of a
-- backup job creates a native job only if the specification of the backup job validates and its source
-- is not paused, and it reports a success only if the native job of the backup job has completed, together
-- with the name of the snapshot of that native job and storage.
pub reconcile-Justified :
    (p : Platform) (s : Store) (namespace name : Text)
    → IsRetry p.retry_on_conflict
    → Obeys
        (StoreIs s)
        (OnlyIf (MayBackup s s.job) (HasCompleted p s s.job))
        AnyOutcome
        (reconcile p namespace name)
unfolding reconcile ◌>>=◌
reconcile-Justified p s namespace name is_retry = (
  tt,
  λ x rx.
      with_backup_job-Run p is_retry s (MayBackup s s.job) (HasCompleted p s s.job) x rx (λ m. m)
        (λ ref m. m),
)
