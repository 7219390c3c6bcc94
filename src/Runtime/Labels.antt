-- ===== src/Runtime/Labels.antt =====
-- controllers/runtime_helpers.go and common.go: the labels of the objects that the controllers
-- create, the series of a backup and its path on the storage, the annotation of notifications.
use dataprotection.Base.{
  List, [], ◌∷◌, ◌++◌, map, not, Text, codes, text_eq, text_lt, if◌then◌else◌, is_empty, trim_space,
  join, select,
}
use dataprotection.Base.Sort.{sort}
use dataprotection.Kube.Meta.{TextMap, insert}
use dataprotection.Kube.Core.{LocalObjectReference}
use dataprotection.Api.Config.{BackupSource}
use dataprotection.Platform.{Unicode}
use dataprotection.Naming.{build_label_value}
use dataprotection.Runtime

abbrev pub backup_policy_kind : Text
backup_policy_kind = codes "BackupPolicy"

-- The names of the endpoints, sorted.
unfoldable pub notification_ref_names : List LocalObjectReference → Text
notification_ref_names refs =
    join
      (sort text_lt (select (λ name. not (is_empty name)) (map (λ ref. trim_space ref.name) refs)))
      (codes ",")

module _ (u : Unicode) where
  abbrev pub label : Text → Text
  label name = build_label_value u (name ∷ [])

  -- A map literal stands in the order of the source.
  unfoldable pub managed_resource_labels : Text → Text → Text → Text → Text → TextMap
  managed_resource_labels execution_kind execution_name operation source_name storage_name =
      let labels =
        (Runtime.managed_by_label, Runtime.managed_by_value)
        ∷ (Runtime.operation_label, label operation)
        ∷ (Runtime.execution_kind_label, label execution_kind)
        ∷ (Runtime.execution_name_label, label execution_name)
        ∷ (Runtime.source_name_label, label source_name)
        ∷ (Runtime.storage_name_label, label storage_name)
        ∷ [] in
      if text_eq execution_kind backup_policy_kind
      then insert Runtime.policy_name_label (label execution_name) labels
      else labels

  -- The policy, or the job that was started by hand.
  abbrev pub origin_parts : Text → Text → List Text
  origin_parts policy_name manual_name =
      if is_empty policy_name
      then codes "manual" ∷ label manual_name ∷ []
      else codes "policy" ∷ label policy_name ∷ []

  unfoldable pub build_series : BackupSource → Text → Text → Text → Text
  build_series source storage_name policy_name manual_name =
      join
        ((codes "source" ∷ label source.namespace ∷ label source.name ∷ [])
          ++ origin_parts policy_name manual_name
          ++ (codes "storage" ∷ label storage_name ∷ []))
        (codes "/")

  unfoldable pub build_backend_path : BackupSource → Text → Text → Text → Text
  build_backend_path source storage_name policy_name manual_name =
      join
        ((codes "series" ∷ label source.namespace ∷ label source.name ∷ [])
          ++ origin_parts policy_name manual_name
          ++ (codes "storage" ∷ label storage_name ∷ []))
        (codes "/")
