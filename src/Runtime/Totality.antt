-- ===== src/Runtime/Totality.antt =====
-- A storage that validates never makes the rendering of a job dereference a nil pointer.
use dataprotection.Base.{is_some, true, Text, ◌≡◌, refl, none}
use dataprotection.Api.Common.{StorageType, nfs, minio, other}
use dataprotection.Api.Config.{BackupStorageSpec, BackupStorage}
use dataprotection.Validate.{validate_storage}
use dataprotection.Validate.Specs.{HasBackend, validate_storage_iff}
use dataprotection.Runtime.Env.{storage_env_of, build_storage_env}
use dataprotection.Runtime.Pods.{volumes_of, backend_volumes}

env-HasBackend :
    (s : BackupStorageSpec) (t : StorageType)
    → HasBackend s t
    → is_some (storage_env_of t s.nfs s.minio) ≡ true
unfolding storage_env_of
env-HasBackend s nfs (n, e, h, k) = rw e refl
env-HasBackend s minio (m, e, h, k) = rw e refl
env-HasBackend s (other t) h = absurd h

volumes-HasBackend :
    (s : BackupStorageSpec) (t : StorageType) → HasBackend s t → is_some (volumes_of t s.nfs) ≡ true
unfolding volumes_of
volumes-HasBackend s nfs (n, e, h, k) = rw e refl
volumes-HasBackend s minio h = refl
volumes-HasBackend s (other t) h = absurd h

-- For a storage that validates, the environment and the volumes of the containers that work on it are
-- built without dereferencing a nil pointer.
pub storage_env_total :
    (quote : Text → Text) (storage : BackupStorage)
    → validate_storage quote storage.spec ≡ none
    → (is_some (build_storage_env storage) ≡ true) × (is_some (backend_volumes storage) ≡ true)
unfolding build_storage_env backend_volumes
storage_env_total quote storage h =
    let backend = (validate_storage_iff quote storage.spec).0 h in
    (
      env-HasBackend storage.spec storage.spec.type backend,
      volumes-HasBackend storage.spec storage.spec.type backend,
    )
