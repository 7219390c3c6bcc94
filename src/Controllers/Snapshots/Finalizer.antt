-- ===== src/Controllers/Snapshots/Finalizer.antt =====
-- A snapshot's finalizer goes only when its artifact has gone.
use dataprotection.Base.{
  List, [], ◌∷◌, Option, none, some, is_some, Bool, true, false, not, Text, codes, has_text,
  if◌then◌else◌, Option-cases, ◌≡◌, refl, sym, ap, ◌∙◌, subst, ◌⊎◌, inl, inr, arith, ◌++◌,
  text_eq_refl,
}
use dataprotection.Kube.Meta.{ObjectMeta}
use dataprotection.Kube.Batch.{Job}
use dataprotection.Api.Common.{ResourcePhase}
use dataprotection.Api.Config.{BackupStorage}
use dataprotection.Api.Execution.{Snapshot}
use dataprotection.Platform.{Platform, KeepsNames}
use dataprotection.Effects.{
  not_found, already_exists, conflict, other, Reply, ok, err, Request, get_snapshot, get_storage,
  get_job, create_job, patch_snapshot, Prog, ret, ◌>>=◌, Outcome, done,
}
use dataprotection.Effects.Obeys.{Rely, Obeys, Obeys-if, Good}
use dataprotection.Execution.{job_terminal_state}
use dataprotection.Execution.Terminal.{IsComplete, succeeded-IsComplete}
use dataprotection.Naming.{build_job_name}
use dataprotection.Runtime.Env.{build_storage_env}
use dataprotection.Runtime.Pods.{backend_volumes}
use dataprotection.Runtime.Jobs.{build_snapshot_cleanup_job}
use dataprotection.Controllers.RestoreJobs.Gate.{ok-inj}
use dataprotection.Controllers.Snapshots.{
  snapshot_storage_cleanup_finalizer, contains_finalizer, remove_finalizer, add_finalizer,
  has_artifact, patch, reconcile_live, after_cleanup, when_ended, create_owned, create_cleanup,
  with_cleanup_job, with_storage, reconcile_deleting, with_snapshot, reconcile,
}

-- What the API server holds: the snapshot that is reconciled, jobs and storages.
pub record Held : Type 0 where
  pub stored : Snapshot
  pub jobs : Text → Text → Reply Job
  pub storages : Text → Text → Reply BackupStorage

-- The snapshot, where it can be read, the jobs and the storages are those held; any other answer is possible.
abbrev pub HeldIs : Held → Rely
HeldIs held (get_snapshot ns name) x = Good (λ s. s ≡ held.stored) x
HeldIs held (get_job ns name) x = x ≡ held.jobs ns name
HeldIs held (get_storage ns name) x = x ≡ held.storages ns name
HeldIs held r x = Unit

module _ (p : Platform) (held : Held) where
  -- The snapshot is being deleted and has an artifact on a storage.
  abbrev pub HasDoomedArtifact : Type 0
  HasDoomedArtifact =
      (is_some held.stored.deletion_timestamp ≡ true) × (has_artifact held.stored ≡ true)

  abbrev pub cleanup_answer : Reply Job
  cleanup_answer =
      held.jobs held.stored.namespace
        (build_job_name p.unicode (held.stored.name ∷ codes "cleanup" ∷ []))

  -- The new object differs in its finalizers only, and keeps the one of the cleanup, or that may go: the
  -- snapshot is being deleted and has no artifact, or the cleanup job has completed.
  abbrev pub MayPatch : Snapshot → Type 0
  MayPatch new =
      (new ≡ record held.stored {
        metadata = record held.stored.metadata { finalizers = new.finalizers };
      })
      × ((contains_finalizer new ≡ true)
          ⊎ ((is_some held.stored.deletion_timestamp ≡ true)
              × ((has_artifact held.stored ≡ false)
                  ⊎ ((job : Job) × (cleanup_answer ≡ ok job) × IsComplete job))))

  -- The job is the cleanup job, under the name by which it is read, which is not there yet.
  abbrev pub IsCleanup : Job → Type 0
  IsCleanup job =
      (m : Text) × (cleanup_answer ≡ err (not_found m))
      × (job.name ≡ build_job_name p.unicode (held.stored.name ∷ codes "cleanup" ∷ []))
      × (job.namespace ≡ held.stored.namespace)
      × (storage : BackupStorage) × (held.storages held.stored.namespace
            held.stored.spec.storage_ref.name
          ≡ ok storage)
      × (rendered : Job) × (build_snapshot_cleanup_job p held.stored storage ≡ some rendered)
      × (job.spec ≡ rendered.spec)

  -- Reading, patching the snapshot where that may be, and creating its cleanup job.
  abbrev pub KeepsArtifacts : Request → Type 0
  KeepsArtifacts (patch_snapshot base new) = (base ≡ held.stored) × MayPatch new
  KeepsArtifacts (get_snapshot ns name) = Unit
  KeepsArtifacts (get_storage ns name) = Unit
  KeepsArtifacts (get_job ns name) = Unit
  KeepsArtifacts (create_job job) = HasDoomedArtifact × IsCleanup job
  KeepsArtifacts _ = ⊥

abbrev pub AnyOutcome : Outcome → Type 0
AnyOutcome o = Unit

has_text-append : (t : Text) (ts : List Text) → has_text t (ts ++ t ∷ []) ≡ true
unfolding has_text
has_text-append t [] = ground (arith, text_eq_refl t)
has_text-append t (s ∷ ts) = ground (arith, has_text-append t ts)

abbrev IsNamed : Platform → Snapshot → Option Job → Type 0
IsNamed p s none = Unit
IsNamed p s (some job) =
    (job.name ≡ build_job_name p.unicode (s.name ∷ codes "cleanup" ∷ []))
    × (job.namespace ≡ s.namespace)

build_snapshot_cleanup_job-IsNamed :
    (p : Platform) (s : Snapshot) (storage : BackupStorage)
    → IsNamed p s (build_snapshot_cleanup_job p s storage)
unfolding build_snapshot_cleanup_job
build_snapshot_cleanup_job-IsNamed p s storage = elim (Option-cases (build_storage_env storage)) [
  | inl e ↦ rw (build_snapshot_cleanup_job, IsNamed, e) tt
  | inr (base, e) ↦
      rw (build_snapshot_cleanup_job, IsNamed, e)
        (elim (Option-cases (backend_volumes storage)) [
          | inl f ↦ rw f tt
          | inr (volumes, f) ↦ rw f (refl, refl)
        ])
]

not-true : (b : Bool) → not b ≡ true → b ≡ false
not-true true h = cc
not-true false h = refl

not-false : (b : Bool) → not b ≡ false → b ≡ true
not-false true h = refl
not-false false h = cc

module _ (p : Platform) (keeps_names : KeepsNames p) (held : Held) where
  abbrev s : Snapshot
  s = held.stored

  abbrev Safe : Prog Outcome → Type 0
  Safe m = Obeys (HeldIs held) (KeepsArtifacts p held) AnyOutcome m

  abbrev SafeIf :
      (b : Bool) (m n : Prog Outcome)
      → (b ≡ true → Safe m)
      → (b ≡ false → Safe n)
      → Safe (if b then m else n)
  SafeIf = Obeys-if (HeldIs held) (KeepsArtifacts p held) AnyOutcome

  patch-Safe : (new : Snapshot) → MayPatch p held new → Safe (patch s new)
  unfolding patch ◌>>=◌
  patch-Safe new h = ((refl, h), λ x rx. tt)

  remove-Safe :
      is_some s.deletion_timestamp ≡ true
      → (has_artifact s ≡ false) ⊎ ((job : Job) × (cleanup_answer p held ≡ ok job) × IsComplete job)
      → Safe (patch s (remove_finalizer s))
  unfolding remove_finalizer
  remove-Safe d h = patch-Safe _ (refl, inr (d, h))

  reconcile_live-Safe : Safe (reconcile_live s)
  unfolding reconcile_live add_finalizer contains_finalizer
  reconcile_live-Safe =
      SafeIf _ (patch s (add_finalizer s)) (ret done)
        (λ h.
          patch-Safe (add_finalizer s)
            (refl, inl (has_text-append snapshot_storage_cleanup_finalizer s.finalizers)))
        (λ h. tt)

  after_cleanup-Safe :
      (job : Job) (phase : ResourcePhase) (message : Text)
      → (phase ≡ ResourcePhase.succeeded → Safe (patch s (remove_finalizer s)))
      → Safe (after_cleanup s job phase message)
  unfolding after_cleanup
  after_cleanup-Safe job ResourcePhase.succeeded message h = h refl
  after_cleanup-Safe job ResourcePhase.failed message h = tt
  after_cleanup-Safe job ResourcePhase.unset message h = tt
  after_cleanup-Safe job ResourcePhase.pending message h = tt
  after_cleanup-Safe job ResourcePhase.configured message h = tt
  after_cleanup-Safe job ResourcePhase.running message h = tt
  after_cleanup-Safe job ResourcePhase.paused message h = tt

  when_ended-Safe :
      (job : Job) (state : Option (ResourcePhase × Text))
      → ((m : Text)
          → state ≡ some (ResourcePhase.succeeded, m)
          → Safe (patch s (remove_finalizer s)))
      → Safe (when_ended s job state)
  unfolding when_ended
  when_ended-Safe job none h = tt
  when_ended-Safe job (some (phase, m)) h =
      after_cleanup-Safe job phase m (λ e. h m (ap (λ q. some (q, m)) e))

  create_owned-Safe :
      (rendered : Job) (r : Reply ObjectMeta)
      → HasDoomedArtifact p held
      → ((meta : ObjectMeta) → r ≡ ok meta → IsCleanup p held (record rendered { metadata = meta }))
      → Safe (create_owned p rendered r)
  unfolding create_owned ◌>>=◌
  create_owned-Safe rendered (ok meta) d h = ((d, h meta refl), λ x rx. tt)
  create_owned-Safe rendered (err e) d h = tt

  -- What SetControllerReference makes of the rendered job is the cleanup job.
  IsCleanup-owned :
      (m : Text) (storage : BackupStorage) (rendered : Job) (r : Reply ObjectMeta)
      (meta : ObjectMeta)
      → cleanup_answer p held ≡ err (not_found m)
      → held.storages s.namespace s.spec.storage_ref.name ≡ ok storage
      → build_snapshot_cleanup_job p s storage ≡ some rendered
      → Good (λ n. (n.name ≡ rendered.name) × (n.namespace ≡ rendered.namespace)) r
      → r ≡ ok meta
      → IsCleanup p held (record rendered { metadata = meta })
  IsCleanup-owned m storage rendered (err e) meta gone stored built g f = cc
  IsCleanup-owned m storage rendered (ok n) meta gone stored built g f =
      let named = subst (IsNamed p s) built (build_snapshot_cleanup_job-IsNamed p s storage) in
      let same =
        subst (λ (q : ObjectMeta). (q.name ≡ rendered.name) × (q.namespace ≡ rendered.namespace))
          (ok-inj n meta f) g in
      (m, gone, same.0 ∙ named.0, same.1 ∙ named.1, storage, stored, rendered, built, refl)

  create_cleanup-Safe :
      (m : Text) (storage : BackupStorage) (rendered : Option Job)
      → HasDoomedArtifact p held
      → cleanup_answer p held ≡ err (not_found m)
      → held.storages s.namespace s.spec.storage_ref.name ≡ ok storage
      → build_snapshot_cleanup_job p s storage ≡ rendered
      → Safe (create_cleanup p s rendered)
  unfolding create_cleanup
  create_cleanup-Safe m storage none d gone stored built = tt
  create_cleanup-Safe m storage (some rendered) d gone stored built =
      create_owned-Safe rendered _ d (λ meta f.
        IsCleanup-owned m storage rendered _ meta gone stored built
          (keeps_names (codes "Snapshot") s.metadata rendered.metadata) f)

  with_cleanup_job-Safe :
      (storage : BackupStorage) (x : Reply Job)
      → HasDoomedArtifact p held
      → held.storages s.namespace s.spec.storage_ref.name ≡ ok storage
      → x ≡ cleanup_answer p held
      → Safe (with_cleanup_job p s storage x)
  unfolding with_cleanup_job
  with_cleanup_job-Safe storage (ok job) d stored e =
      when_ended-Safe job (job_terminal_state job)
        (λ m f. remove-Safe d.0 (inr (job, sym e, succeeded-IsComplete job m f)))
  with_cleanup_job-Safe storage (err (not_found m)) d stored e =
      create_cleanup-Safe m storage _ d (sym e) stored refl
  with_cleanup_job-Safe storage (err (already_exists m)) d stored e = tt
  with_cleanup_job-Safe storage (err (conflict m)) d stored e = tt
  with_cleanup_job-Safe storage (err (other m)) d stored e = tt

  with_storage-Safe :
      (x : Reply BackupStorage)
      → HasDoomedArtifact p held
      → x ≡ held.storages s.namespace s.spec.storage_ref.name
      → Safe (with_storage p s x)
  unfolding with_storage ◌>>=◌
  with_storage-Safe (ok storage) d e = (tt, λ x rx. with_cleanup_job-Safe storage x d (sym e) rx)
  with_storage-Safe (err m) d e = tt

  reconcile_deleting-Safe : is_some s.deletion_timestamp ≡ true → Safe (reconcile_deleting p s)
  unfolding reconcile_deleting ◌>>=◌
  reconcile_deleting-Safe d =
      SafeIf (not (contains_finalizer s)) (ret done) _ (λ h. tt)
        (λ h.
          SafeIf (not (has_artifact s)) _ _ (λ k. remove-Safe d (inl (not-true (has_artifact s) k)))
            (λ k. (tt, λ x rx. with_storage-Safe x (d, not-false (has_artifact s) k) rx)))

  with_snapshot-Safe : (x : Reply Snapshot) → Good (λ t. t ≡ s) x → Safe (with_snapshot p x)
  unfolding with_snapshot
  with_snapshot-Safe (ok t) e =
      subst (λ u. Safe (with_snapshot p (ok u))) (sym e)
        (SafeIf (is_some s.deletion_timestamp) _ _ reconcile_deleting-Safe
          (λ h. reconcile_live-Safe))
  with_snapshot-Safe (err m) e = tt

  -- If SetControllerReference keeps the name and the namespace of an object, then, whatever the API server answers
  -- apart from the snapshot, the jobs and the storages that it holds, the snapshot reconciler changes nothing of the snapshot but its finalizers, and it keeps the finalizer of the
  -- cleanup unless the snapshot is being deleted and either has no artifact or has a cleanup job that
  -- completed. It creates a job only if the snapshot is being deleted, has an artifact, and has no cleanup
  -- job; this is then the job that is rendered for the cleanup of the snapshot, in its namespace and
  -- under the name by which it is looked up. Its other requests read.
  pub reconcile-KeepsArtifacts : (namespace name : Text) → Safe (reconcile p namespace name)
  unfolding reconcile ◌>>=◌
  reconcile-KeepsArtifacts namespace name = (tt, λ x rx. with_snapshot-Safe x rx)
