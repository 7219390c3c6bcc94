-- ===== src/Runtime/Origin.antt =====
-- controllers/runtime_helpers.go: what a restore job was resolved to, and the methods of
-- `resolvedRestoreExecution`. Its receiver is never nil where the controllers call them.
use dataprotection.Base.{
  [], ◌∷◌, ◌++◌, Option, none, some, Bool, Text, codes, if◌then◌else◌, is_empty, is_some,
  trim_space, join, ℤ,
}
use dataprotection.Base.FilePath.{join_path}
use dataprotection.Kube.Meta.{TextMap}
use dataprotection.Api.Config.{
  BackupAddon, BackupSource, BackupStorage, BackupPolicy, RetentionPolicy,
}
use dataprotection.Api.Execution.{Snapshot, RestoreImportSource}
use dataprotection.Platform.{Unicode}
use dataprotection.Import.{
  normalized_path, effective_format, effective_snapshot_name, format_archive,
}
use dataprotection.Runtime.Labels.{label}

pub record ResolvedBackupExecution : Type 0 where
  pub policy : Option BackupPolicy
  pub source : BackupSource
  pub addon : BackupAddon
  pub storage : BackupStorage
  pub retention_policy : Option RetentionPolicy
  pub series : Text
  pub backend_path : Text
  pub keep_last : ℤ

pub record ResolvedRestoreExecution : Type 0 where
  pub source : BackupSource
  pub addon : BackupAddon
  pub storage : BackupStorage
  pub snapshot : Option Snapshot
  pub import_source : Option RestoreImportSource

unfoldable pub uses_snapshot : ResolvedRestoreExecution → Bool
uses_snapshot r = is_some r.snapshot

unfoldable pub artifact_path : ResolvedRestoreExecution → Text
artifact_path r = elim r.snapshot [
  | some s ↦
      join_path (s.spec.backend_path ∷ codes "snapshots" ∷ (s.spec.snapshot ++ codes ".tgz") ∷ [])
  | none ↦ normalized_path r.import_source
]

unfoldable pub artifact_format : Unicode → ResolvedRestoreExecution → Text
unfolding uses_snapshot
artifact_format u r = if uses_snapshot r then format_archive else effective_format u r.import_source

unfoldable pub backend_path : ResolvedRestoreExecution → Text
unfolding artifact_path
backend_path r = elim r.snapshot [ some s ↦ s.spec.backend_path | none ↦ artifact_path r ]

-- The series of an import that names none.
unfoldable pub import_series : Unicode → ResolvedRestoreExecution → Text
import_series u r =
    join
      (codes "import"
        ∷ codes "source"
        ∷ label u r.source.namespace
        ∷ label u r.source.name
        ∷ codes "storage"
        ∷ label u r.storage.name
        ∷ [])
      (codes "/")

abbrev or_text : Text → Text → Text
or_text text fallback = if is_empty text then fallback else text

-- With neither a snapshot nor an import the source dereferences a nil pointer.
unfoldable pub series : Unicode → ResolvedRestoreExecution → Option Text
unfolding import_series
series u r = elim r.snapshot [
  | some s ↦ some s.spec.series
  | none ↦ elim r.import_source [
    | some i ↦ some (or_text (trim_space i.series) (import_series u r))
    | none ↦ none
  ]
]

unfoldable pub snapshot_name : ResolvedRestoreExecution → Text
snapshot_name r = elim r.snapshot [
  | some s ↦ s.spec.snapshot
  | none ↦ trim_space (effective_snapshot_name r.import_source)
]

unfoldable pub notification_attributes : Unicode → ResolvedRestoreExecution → TextMap
unfolding uses_snapshot artifact_path artifact_format
notification_attributes u r =
    if uses_snapshot r
    then []
    else (codes "restoreSource", codes "importSource")
      ∷ (codes "importPath", artifact_path r)
      ∷ (codes "importFormat", artifact_format u r)
      ∷ []
