-- ===== src/Controllers/RestoreJobs/Gate.antt =====
-- A native restore job is created only for a specification that validates, and from a snapshot only if
-- that snapshot may be restored.
use dataprotection.Base.{
  [], ◌∷◌, Option, none, some, true, Text, codes, is_empty, trim_space, ◌≡◌, refl, sym, ◌∙◌, subst,
  ◌⊎◌, inl, inr, Option-cases,
}
use dataprotection.Kube.Meta.{condition_false}
use dataprotection.Api.Common.{ResourcePhase}
use dataprotection.Api.Config.{BackupAddon, BackupSource}
use dataprotection.Api.Execution.{Snapshot, RestoreJob}
use dataprotection.Platform.{Platform}
use dataprotection.Validate.{validate_restore_job}
use dataprotection.Effects.{
  Reply, ok, err, Prog, ◌>>=◌, after, Outcome, done, error_text, requeue_soon,
}
use dataprotection.Effects.Obeys.{Obeys, Obeys-bind, Obeys-if, Good}
use dataprotection.Retention.Safety.{IsRetry}
use dataprotection.Runtime.Origin.{ResolvedRestoreExecution}
use dataprotection.Controllers.RestoreJobs.{
  resolve_origin, resolve_addon, resolve_restore_job_dependencies, is_restorable, is_ready, start,
  with_resolved, with_validation, with_restore_job, reconcile,
}
use dataprotection.Controllers.RestoreJobs.Native.{
  CreatesOnlyIf, StoreIs, AnyOutcome, settle-Run, when_ready-Run,
}

pub ok-inj : {A : Type 0} (a b : A) → ok a ≡ ok b → a ≡ b
ok-inj a b e = cc

-- The specification validates, and a snapshot that it names may be restored.
abbrev pub MayRestore : Platform → (Text → Text → Reply Snapshot) → RestoreJob → Type 0
MayRestore p snapshots job =
    (validate_restore_job p.unicode job.spec ≡ none)
    × ((is_empty (trim_space job.spec.snapshot_ref.name) ≡ true)
        ⊎ ((s : Snapshot) × (snapshots job.namespace (trim_space job.spec.snapshot_ref.name) ≡ ok s)
            × (is_restorable s ≡ true)))

module _ (p : Platform) (is_retry : IsRetry p.retry_on_conflict) (stored : RestoreJob)
    (snapshots : Text → Text → Reply Snapshot) (P : Type 0) where
  abbrev Gated : {A : Type 0} → (A → Type 0) → Prog A → Type 0
  Gated Q m = Obeys (StoreIs stored snapshots) (CreatesOnlyIf P) Q m

  abbrev Run : Prog Outcome → Type 0
  Run m = Gated AnyOutcome m

  -- What a resolved restore starts from.
  abbrev StartsFrom : RestoreJob → ResolvedRestoreExecution → Type 0
  StartsFrom job r =
      ((r.snapshot ≡ none) × (is_empty (trim_space job.spec.snapshot_ref.name) ≡ true))
      ⊎ ((s : Snapshot) × (r.snapshot ≡ some s)
          × (snapshots job.namespace (trim_space job.spec.snapshot_ref.name) ≡ ok s))

  abbrev Resolves : RestoreJob → Prog (Reply ResolvedRestoreExecution) → Type 0
  Resolves job m = Gated (Good (StartsFrom job)) m

  after-Resolves :
      {A : Type 0} (job : RestoreJob) (x : Reply A) (f : A → Prog (Reply ResolvedRestoreExecution))
      → ((a : A) → x ≡ ok a → Resolves job (f a))
      → Resolves job (after f x)
  after-Resolves job (ok a) f h = h a refl
  after-Resolves job (err e) f h = tt

  resolve_origin-Resolves :
      (job : RestoreJob) (source : BackupSource) (addon : BackupAddon) (name : Text)
      → name ≡ trim_space job.spec.snapshot_ref.name
      → Resolves job (resolve_origin job source addon name)
  unfolding resolve_origin ◌>>=◌
  resolve_origin-Resolves job source addon [] e = elim (Option-cases job.spec.import_source) [
    | inl f ↦ rw f tt
    | inr (i, f) ↦ rw f (
      tt,
      λ x rx.
          after-Resolves job x _ (λ storage g. inl (refl, subst (λ t. is_empty t ≡ true) e refl)),
    )
  ]
  resolve_origin-Resolves job source addon (c ∷ name) e = (
    tt,
    λ x rx. after-Resolves job x _ (λ s f. (
      tt,
      λ y ry. after-Resolves job y _ (λ storage g.
          inr (s, refl, subst (λ t. snapshots job.namespace t ≡ ok s) e (sym rx ∙ f))),
    )),
  )

  resolve-Resolves : (job : RestoreJob) → Resolves job (resolve_restore_job_dependencies job)
  unfolding resolve_restore_job_dependencies resolve_addon ◌>>=◌
  resolve-Resolves job = (
    tt,
    λ x rx. after-Resolves job x _ (λ source f. (
      tt,
      λ y ry. after-Resolves job y _ (λ addon g.
          resolve_origin-Resolves job source addon (trim_space job.spec.snapshot_ref.name) refl),
    )),
  )

  ready-origin :
      (job : RestoreJob) (r : ResolvedRestoreExecution)
      → StartsFrom job r
      → is_ready r ≡ true
      → (is_empty (trim_space job.spec.snapshot_ref.name) ≡ true)
        ⊎ ((s : Snapshot) × (snapshots job.namespace (trim_space job.spec.snapshot_ref.name) ≡ ok s)
            × (is_restorable s ≡ true))
  unfolding is_ready
  ready-origin job r (inl (e, f)) h = inl f
  ready-origin job r (inr (s, e, f)) h = inr (s, f, rw e at h)

  with_resolved-Run :
      (base job : RestoreJob) (x : Reply ResolvedRestoreExecution)
      → validate_restore_job p.unicode job.spec ≡ none
      → (MayRestore p snapshots job → P)
      → Good (StartsFrom job) x
      → Run (with_resolved p base job x)
  unfolding with_resolved
  with_resolved-Run base job (err e) v k g =
      settle-Run p is_retry stored snapshots P base job ResourcePhase.failed condition_false
        (codes "DependencyError") (error_text e) requeue_soon
  with_resolved-Run base job (ok r) v k g =
      Obeys-if (StoreIs stored snapshots) (CreatesOnlyIf P) AnyOutcome (is_ready r) _ _
        (λ h.
          when_ready-Run p is_retry stored snapshots P base job r (k (v, ready-origin job r g h)))
        (λ h.
          settle-Run p is_retry stored snapshots P base job ResourcePhase.failed condition_false
            (codes "SnapshotNotReady") (codes "snapshot is not ready for restore") done)

  with_validation-Run :
      (base job : RestoreJob) (v : Option Text)
      → validate_restore_job p.unicode job.spec ≡ v
      → (MayRestore p snapshots job → P)
      → Run (with_validation p base job v)
  unfolding with_validation
  with_validation-Run base job (some m) e k =
      settle-Run p is_retry stored snapshots P base job ResourcePhase.failed condition_false
        (codes "InvalidSpec") m done
  with_validation-Run base job none e k =
      Obeys-bind (StoreIs stored snapshots) (CreatesOnlyIf P) (Good (StartsFrom job)) AnyOutcome
        (resolve_restore_job_dependencies job) (with_resolved p base job) (resolve-Resolves job)
        (λ x g. with_resolved-Run base job x e k g)

  abbrev Restarted : RestoreJob → Type 0
  Restarted job = (job.spec ≡ stored.spec) × (job.namespace ≡ stored.namespace)

  start-Restarted : Gated Restarted (start stored)
  unfolding start ◌>>=◌
  start-Restarted = elim (Option-cases stored.status.started_at) [
    | inl e ↦ rw e (tt, λ t rt. (refl, refl))
    | inr (t, e) ↦ rw e (refl, refl)
  ]

  with_restore_job-Run :
      (x : Reply RestoreJob)
      → x ≡ ok stored
      → (MayRestore p snapshots stored → P)
      → Run (with_restore_job p x)
  unfolding with_restore_job
  with_restore_job-Run (err e) f k = cc
  with_restore_job-Run (ok base) f k =
      subst (λ b. Run (with_restore_job p (ok b))) (sym (ok-inj base stored f))
        (Obeys-bind (StoreIs stored snapshots) (CreatesOnlyIf P) Restarted AnyOutcome (start stored)
          (λ job. with_validation p stored job (validate_restore_job p.unicode job.spec))
          start-Restarted
          (λ job same.
            with_validation-Run stored job _ refl (λ m. k (rw (sym same.0, sym same.1) m))))

-- Whatever the API server answers apart from the restore job and the snapshots, the reconciler of a
-- restore job creates a native job only if the specification of the restore job validates, and, where
-- it names a snapshot, only if that snapshot has succeeded and its artifact is ready.
pub reconcile-Gated :
    (p : Platform) (stored : RestoreJob) (snapshots : Text → Text → Reply Snapshot)
    (namespace name : Text)
    → IsRetry p.retry_on_conflict
    → Obeys
        (StoreIs stored snapshots)
        (CreatesOnlyIf (MayRestore p snapshots stored))
        AnyOutcome
        (reconcile p namespace name)
unfolding reconcile ◌>>=◌
reconcile-Gated p stored snapshots namespace name is_retry = (
  tt,
  λ x rx.
      with_restore_job-Run p is_retry stored snapshots (MayRestore p snapshots stored) x rx
        (λ m. m),
)
