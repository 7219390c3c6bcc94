-- ===== src/Import.antt =====
-- api/v1alpha1/restorejob_types.go: the methods of RestoreImportSource, and its validation in
-- validation.go. A nil receiver is `none`. The proofs are in the modules below this one.
pub mod Safety
use dataprotection.Base.{
  ℕ, List, [], ◌∷◌, ◌++◌, map, Option, none, some, Bool, true, false, not, ◌&&◌, ◌||◌, Text, codes,
  text_eq, ◌==◌, if◌then◌else◌, is_empty, is_blank, trim_space, trim_prefix, trim_suffix,
  has_prefix, has_suffix, replace_all, ◌≡◌, refl,
}
use dataprotection.Base.FilePath.{clean, is_abs, last_name, dot, dot_dot}
use dataprotection.Platform.{Unicode}
use dataprotection.Api.Execution.{RestoreImportSource}

abbrev pub format_auto : Text
format_auto = codes "auto"

abbrev pub format_archive : Text
format_archive = codes "archive"

abbrev pub format_filesystem : Text
format_filesystem = codes "filesystem"

-- strings.TrimSpace(strings.ReplaceAll(s.Path, "\\", "/"))
unfoldable pub raw_path : RestoreImportSource → Text
raw_path s = trim_space (replace_all s.path b'\\' (codes "/"))

-- The result of Clean without the forms of "the root itself".
abbrev pub below_root : Text → Text
below_root cleaned = if text_eq cleaned dot then [] else trim_prefix cleaned (codes "./")

unfoldable pub normalized_path : Option RestoreImportSource → Text
unfolding raw_path
normalized_path none = []
normalized_path (some s) =
    let value = raw_path s in if is_empty value then [] else below_root (clean value)

module _ (u : Unicode) where
  -- strings.ToLower(strings.TrimSpace(s.Format))
  unfoldable pub lower_format : RestoreImportSource → Text
  lower_format s = map u.to_lower (trim_space s.format)

  unfoldable pub effective_format : Option RestoreImportSource → Text
  unfolding lower_format
  effective_format none = format_auto
  effective_format (some s) =
      let format = lower_format s in
      if is_empty format || text_eq format format_auto
      then format_auto
      else if text_eq format format_archive
      then format_archive
      else if text_eq format format_filesystem
      then format_filesystem
      else format

-- The `switch` over the archive suffixes.
unfoldable pub trim_archive_suffix : Text → Text
trim_archive_suffix base =
    if has_suffix base (codes ".tar.gz")
    then trim_suffix base (codes ".tar.gz")
    else if has_suffix base (codes ".tgz")
    then trim_suffix base (codes ".tgz")
    else if has_suffix base (codes ".tar")
    then trim_suffix base (codes ".tar")
    else base

unfoldable pub effective_snapshot_name : Option RestoreImportSource → Text
unfolding trim_archive_suffix normalized_path
effective_snapshot_name none = []
effective_snapshot_name (some s) =
    let name = trim_space s.snapshot in
    let base = trim_archive_suffix (last_name (normalized_path (some s))) in
    if not (is_empty name) then name else if text_eq base dot then [] else base

-- The three formats that the `switch` at the end of ValidateBasic accepts.
unfoldable pub is_known_format : Text → Bool
is_known_format format =
    text_eq format format_auto || text_eq format format_archive || text_eq format format_filesystem

-- RestoreImportSource.ValidateBasic; `none` is a nil error, else the message stands.
unfoldable pub validate_import : Unicode → Option RestoreImportSource → Text → Option Text
validate_import u none field = some (field ++ codes " is required")
validate_import u (some s) field =
    let raw = raw_path s in
    let normalized = normalized_path (some s) in
    if is_blank s.storage_ref.name
    then some (field ++ codes ".storageRef.name is required")
    else if is_empty raw
    then some (field ++ codes ".path is required")
    else if is_abs raw
    then some (field ++ codes ".path must be relative to the storage root")
    else if is_empty normalized
    then some (field ++ codes ".path is required")
    else if text_eq normalized dot_dot || has_prefix normalized (codes "../")
    then some (field ++ codes ".path must stay within the storage root")
    else if is_known_format (effective_format u (some s))
    then none
    else some (field ++ codes ".format must be one of auto, archive, filesystem")
