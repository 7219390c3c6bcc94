-- ===== src/Validate/Specs.antt =====
-- What a nil error of a ValidateBasic method promises.
use dataprotection.Base.{
  List, map, Option, none, some, true, false, Text, codes, ◌≡◌, ◌↔◌, inl, inr, refl, is_empty,
  is_blank, All, arith, Bool-cases, Option-cases, join,
}
use dataprotection.Base.FilePath.{slash}
use dataprotection.Platform.{Unicode}
use dataprotection.Api.Common.{StorageType, nfs, minio, other, NfsStorageSpec, MinIoStorageSpec}
use dataprotection.Api.Config.{BackupStorageSpec, BackupPolicySpec}
use dataprotection.Api.Execution.{RestoreImportSource, RestoreJobSpec}
use dataprotection.Import.{normalized_path, validate_import}
use dataprotection.Import.Safety.{IsPlainName, validate_import_safe}
use dataprotection.Validate.Names.{Distinct, distinct_names, has_duplicate_names_iff}
use dataprotection.Validate.{
  or_else, names_nothing, has_duplicate_local_object_reference_names, validate_nfs, validate_minio,
  validate_backend, validate_storage, validate_policy, validate_restore_source,
  validate_restore_job,
}

-- An import source whose normalized path is plain names below the storage root.
pub record IsSafeImport (s : RestoreImportSource) : Type 0 where
  pub names : List Text
  pub some_name : is_empty names ≡ false
  pub plain : All IsPlainName names
  pub path : normalized_path (some s) ≡ join names slash

-- Exactly one of the two restore sources.
pub data RestoresFrom (s : RestoreJobSpec) : Type 0 where
  snapshot : is_blank s.snapshot_ref.name ≡ false → s.import_source ≡ none → RestoresFrom s
  import :
      (i : RestoreImportSource)
      → is_blank s.snapshot_ref.name ≡ true
      → s.import_source ≡ some i
      → IsSafeImport i
      → RestoresFrom s

or_else-none : (a b : Option Text) → or_else a b ≡ none → (a ≡ none) × (b ≡ none)
or_else-none none b h = (refl, h)
or_else-none (some e) b h = cc

restore_source_none :
    (u : Unicode) (s : RestoreJobSpec)
    → s.import_source ≡ none
    → validate_restore_source u s ≡ none
    → is_blank s.snapshot_ref.name ≡ false
unfolding validate_restore_source
restore_source_none u s e h = ground arith

restore_source_some :
    (u : Unicode) (s : RestoreJobSpec) (i : RestoreImportSource)
    → s.import_source ≡ some i
    → validate_restore_source u s ≡ none
    → (is_blank s.snapshot_ref.name ≡ true)
      × (validate_import u (some i) (codes "spec.importSource") ≡ none)
unfolding validate_restore_source
restore_source_some u s i e h = (ground arith, ground arith)

restore_job_source :
    (u : Unicode) (s : RestoreJobSpec)
    → validate_restore_job u s ≡ none
    → validate_restore_source u s ≡ none
unfolding validate_restore_job
restore_job_source u s h = elim (Bool-cases (is_blank s.source_ref.name)) [
  | inl e ↦ cc (rw e at h)
  | inr e ↦ (or_else-none (validate_restore_source u s) _ (rw e at h)).0
]

-- A restore job that validates names exactly one source: a snapshot and no import source, or an
-- import source and no snapshot, and then the import path stays below the storage root.
pub validate_restore_job-RestoresFrom :
    (u : Unicode) (s : RestoreJobSpec) → validate_restore_job u s ≡ none → RestoresFrom s
validate_restore_job-RestoresFrom u s h =
    let source = restore_job_source u s h in
    elim (Option-cases s.import_source) [
      | inl e ↦ snapshot (restore_source_none u s e source) e
      | inr (i, e) ↦
          let (blank, ok) = restore_source_some u s i e source in
          let (names, some_name, plain, path) =
            validate_import_safe u i (codes "spec.importSource") ok in
          import i blank e
            (record { names = names; some_name = some_name; plain = plain; path = path })
    ]

-- The block that the type asks for is there, and its two required fields are not blank.
abbrev pub HasBackend : BackupStorageSpec → StorageType → Type 0
HasBackend s nfs =
    (n : NfsStorageSpec) × (s.nfs ≡ some n)
    × (is_blank n.server ≡ false)
    × (is_blank n.path ≡ false)
HasBackend s minio =
    (m : MinIoStorageSpec) × (s.minio ≡ some m)
    × (is_blank m.endpoint ≡ false)
    × (is_blank m.bucket ≡ false)
HasBackend s (other t) = ⊥

validate_nfs_iff :
    (o : Option NfsStorageSpec)
    → (validate_nfs o ≡ none) ↔ (
        (n : NfsStorageSpec) × (o ≡ some n)
        × (is_blank n.server ≡ false)
        × (is_blank n.path ≡ false))
unfolding validate_nfs
validate_nfs_iff none = (λ h. cc, λ (n, e, p, q). cc)
validate_nfs_iff (some n) =
    (λ h. (n, refl, ground arith, ground arith), λ (m, e, p, q). ground arith)

validate_minio_iff :
    (o : Option MinIoStorageSpec)
    → (validate_minio o ≡ none) ↔ (
        (m : MinIoStorageSpec) × (o ≡ some m)
        × (is_blank m.endpoint ≡ false)
        × (is_blank m.bucket ≡ false))
unfolding validate_minio
validate_minio_iff none = (λ h. cc, λ (m, e, p, q). cc)
validate_minio_iff (some n) =
    (λ h. (n, refl, ground arith, ground arith), λ (m, e, p, q). ground arith)

validate_backend_iff :
    (quote : Text → Text) (s : BackupStorageSpec) (t : StorageType)
    → (validate_backend quote s t ≡ none) ↔ HasBackend s t
unfolding validate_backend
validate_backend_iff quote s nfs = validate_nfs_iff s.nfs
validate_backend_iff quote s minio = validate_minio_iff s.minio
validate_backend_iff quote s (other t) = (λ h. cc, λ h. absurd h)

-- A storage validates exactly when it has the block of its type with its required fields not blank;
-- a storage of any other type never does.
pub validate_storage_iff :
    (quote : Text → Text) (s : BackupStorageSpec)
    → (validate_storage quote s ≡ none) ↔ HasBackend s s.type
unfolding validate_storage
validate_storage_iff quote s = validate_backend_iff quote s s.type

-- What the validator promises of a policy.
pub record IsSchedulable (s : BackupPolicySpec) : Type 0 where
  pub some_storage : is_empty s.storage_refs ≡ false
  pub distinct_storages : Distinct (distinct_names (map (λ ref. ref.name) s.storage_refs))
  pub distinct_notifications : Distinct (distinct_names (map (λ ref. ref.name) s.notification_refs))
  pub source : is_blank s.source_ref.name ≡ false
  pub retention : names_nothing s.retention_ref ≡ false
  pub cron : s.suspend ≡ false → is_blank s.schedule.cron ≡ false

-- A policy that validates has a source, at least one storage, pairwise different storages and
-- pairwise different notification endpoints (compared as trimmed names, blank ones left out), no
-- blank retention reference, and a schedule unless its `suspend` field is set.
pub validate_policy-IsSchedulable :
    (s : BackupPolicySpec) → validate_policy s ≡ none → IsSchedulable s
unfolding validate_policy has_duplicate_local_object_reference_names
validate_policy-IsSchedulable s h = record {
  some_storage = ground arith;
  distinct_storages =
      (has_duplicate_names_iff (map (λ ref. ref.name) s.storage_refs)).0 (ground arith);
  distinct_notifications =
      (has_duplicate_names_iff (map (λ ref. ref.name) s.notification_refs)).0 (ground arith);
  source = ground arith;
  retention = ground arith;
  cron = λ e. ground arith;
}
