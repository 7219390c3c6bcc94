-- ===== src/Controllers/Snapshots.antt =====
-- controllers/snapshot_controller.go: the finalizer that keeps a snapshot until its artifact is
-- removed from the storage. The proofs are in the module below this one.
pub mod Finalizer
use dataprotection.Base.{
  List, [], ◌∷◌, ◌++◌, Option, none, some, Bool, true, false, not, ◌&&◌, ◌||◌, Text, codes, text_eq,
  has_text, if◌then◌else◌, is_blank, is_some, select,
}
use dataprotection.Kube.Meta.{ObjectMeta, Time}
use dataprotection.Kube.Batch.{Job}
use dataprotection.Api.Common.{ResourcePhase}
use dataprotection.Api.Config.{BackupStorage}
use dataprotection.Api.Execution.{Snapshot}
use dataprotection.Platform.{Platform}
use dataprotection.Naming.{build_job_name}
use dataprotection.Effects.{
  ApiError, not_found, already_exists, error_text, Reply, ok, err, get_snapshot, get_storage,
  get_job, create_job, patch_snapshot, Prog, ret, panic, request, ◌>>=◌, Outcome, done, failing,
  requeue_soon, requeue_failing, unless_failed, ignore_not_found,
}
use dataprotection.Execution.{job_terminal_state}
use dataprotection.Runtime.Jobs.{build_snapshot_cleanup_job}

abbrev pub snapshot_storage_cleanup_finalizer : Text
snapshot_storage_cleanup_finalizer = codes "dataprotection.archinfra.io/storage-cleanup"

unfoldable pub contains_finalizer : Snapshot → Bool
contains_finalizer s = has_text snapshot_storage_cleanup_finalizer s.finalizers

-- controllerutil.RemoveFinalizer
unfoldable pub remove_finalizer : Snapshot → Snapshot
remove_finalizer s = record s {
  metadata = record s.metadata {
    finalizers = select (λ f. not (text_eq f snapshot_storage_cleanup_finalizer)) s.finalizers;
  };
}

-- controllerutil.AddFinalizer, where the finalizer is not there yet
unfoldable pub add_finalizer : Snapshot → Snapshot
add_finalizer s = record s {
  metadata = record s.metadata {
    finalizers = s.finalizers ++ snapshot_storage_cleanup_finalizer ∷ [];
  };
}

-- There is an artifact on a storage.
unfoldable pub has_artifact : Snapshot → Bool
has_artifact s =
    s.status.artifact_ready
    && not (is_blank s.spec.storage_ref.name)
    && not (is_blank s.spec.backend_path)
    && not (is_blank s.spec.snapshot)

unfoldable pub patch : Snapshot → Snapshot → Prog Outcome
unfolding ◌>>=◌
patch base new = request (patch_snapshot base new) >>= λ r. ret (unless_failed r done)

unfoldable pub reconcile_live : Snapshot → Prog Outcome
unfolding patch contains_finalizer
reconcile_live s =
    if s.status.artifact_ready && not (contains_finalizer s)
    then patch s (add_finalizer s)
    else ret done

-- The answer to the creation of the cleanup job.
unfoldable pub after_create : Reply Unit → Outcome
after_create (ok _) = requeue_soon
after_create (err (already_exists m)) = requeue_soon
after_create (err e) = failing (error_text e)

-- A cleanup job that ended.
unfoldable pub after_cleanup : Snapshot → Job → ResourcePhase → Text → Prog Outcome
unfolding patch
after_cleanup s job ResourcePhase.succeeded message = patch s (remove_finalizer s)
after_cleanup s job phase message =
    ret
      (requeue_failing (codes "snapshot cleanup job " ++ job.name ++ codes " failed: " ++ message))

unfoldable pub when_ended : Snapshot → Job → Option (ResourcePhase × Text) → Prog Outcome
unfolding after_cleanup
when_ended s job none = ret requeue_soon
when_ended s job (some (phase, message)) = after_cleanup s job phase message

module _ (p : Platform) where
  abbrev pub cleanup_name : Snapshot → Text
  cleanup_name s = build_job_name p.unicode (s.name ∷ codes "cleanup" ∷ [])

  unfoldable pub create_owned : Job → Reply ObjectMeta → Prog Outcome
  unfolding ◌>>=◌
  create_owned rendered (err e) = ret (failing (error_text e))
  create_owned rendered (ok meta) =
      request (create_job (record rendered { metadata = meta })) >>= λ r. ret (after_create r)

  unfoldable pub create_cleanup : Snapshot → Option Job → Prog Outcome
  unfolding create_owned
  create_cleanup s none = panic
  create_cleanup s (some rendered) =
      create_owned rendered
        (p.set_controller_reference (codes "Snapshot") s.metadata rendered.metadata)

  unfoldable pub with_cleanup_job : Snapshot → BackupStorage → Reply Job → Prog Outcome
  unfolding create_cleanup when_ended
  with_cleanup_job s storage (err (not_found m)) =
      create_cleanup s (build_snapshot_cleanup_job p s storage)
  with_cleanup_job s storage (err e) = ret (failing (error_text e))
  with_cleanup_job s storage (ok job) = when_ended s job (job_terminal_state job)

  unfoldable pub with_storage : Snapshot → Reply BackupStorage → Prog Outcome
  unfolding with_cleanup_job ◌>>=◌
  with_storage s (err e) = ret (requeue_failing (error_text e))
  with_storage s (ok storage) =
      request (get_job s.namespace (cleanup_name s)) >>= with_cleanup_job s storage

  unfoldable pub reconcile_deleting : Snapshot → Prog Outcome
  unfolding with_storage patch contains_finalizer ◌>>=◌
  reconcile_deleting s =
      if not (contains_finalizer s)
      then ret done
      else if not (has_artifact s)
      then patch s (remove_finalizer s)
      else request (get_storage s.namespace s.spec.storage_ref.name) >>= with_storage s

  unfoldable pub with_snapshot : Reply Snapshot → Prog Outcome
  unfolding reconcile_live reconcile_deleting
  with_snapshot (err e) = ret (ignore_not_found e)
  with_snapshot (ok s) =
      if is_some s.deletion_timestamp then reconcile_deleting s else reconcile_live s

  unfoldable pub reconcile : Text → Text → Prog Outcome
  unfolding with_snapshot ◌>>=◌
  reconcile namespace name = request (get_snapshot namespace name) >>= with_snapshot
