-- ===== src/Runtime.antt =====
-- controllers/runtime_helpers.go: from the resources of an execution to the native job that runs it.
-- `Labels` has the labels, series and paths, `Merging` the overlay of a restore job and of a policy,
-- `Env` the environment of the containers, `Origin` what a restore starts from, `Scripts` the scripts
-- of the storage containers, and `Pods` the pods and jobs. This module has the keys of labels and
-- annotations, and small helpers.
pub mod Labels
pub mod Env
pub mod EnvNames
pub mod Merging
pub mod Origin
pub mod Scripts
pub mod Pods
pub mod Jobs
pub mod Totality
pub mod Rendering
use dataprotection.Base.{
  List, [], ◌∷◌, Option, none, some, Bool, true, false, Text, codes, trim_space,
}
use dataprotection.Kube.Core.{LocalObjectReference}

abbrev pub managed_by_label : Text
managed_by_label = codes "dataprotection.archinfra.io/managed-by"

abbrev pub operation_label : Text
operation_label = codes "dataprotection.archinfra.io/operation"

abbrev pub execution_kind_label : Text
execution_kind_label = codes "dataprotection.archinfra.io/execution-kind"

abbrev pub execution_name_label : Text
execution_name_label = codes "dataprotection.archinfra.io/execution-name"

abbrev pub source_name_label : Text
source_name_label = codes "dataprotection.archinfra.io/source-name"

abbrev pub storage_name_label : Text
storage_name_label = codes "dataprotection.archinfra.io/storage-name"

abbrev pub policy_name_label : Text
policy_name_label = codes "dataprotection.archinfra.io/policy-name"

abbrev pub addon_name_label : Text
addon_name_label = codes "dataprotection.archinfra.io/addon-name"

abbrev pub series_annotation : Text
series_annotation = codes "dataprotection.archinfra.io/series"

abbrev pub backend_path_annotation : Text
backend_path_annotation = codes "dataprotection.archinfra.io/backend-path"

abbrev pub import_path_annotation : Text
import_path_annotation = codes "dataprotection.archinfra.io/import-path"

abbrev pub notification_refs_annotation : Text
notification_refs_annotation = codes "dataprotection.archinfra.io/notification-refs"

abbrev pub managed_by_value : Text
managed_by_value = codes "data-protection-operator"

unfoldable pub local_ref_name : Option LocalObjectReference → Text
local_ref_name none = []
local_ref_name (some ref) = trim_space ref.name

unfoldable pub bool_string : Bool → Text
bool_string true = codes "true"
bool_string false = codes "false"
