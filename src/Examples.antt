-- ===== src/Examples.antt =====
-- The theorems at concrete inputs: names, paths, commands, lists of snapshots and answers of the API
-- server for which their hypotheses hold.
mod Data
mod Cluster
mod Controllers
mod Series
use dataprotection.Base.{
  Among, ℕ, List, [], ◌∷◌, ◌++◌, Option, none, some, Bool, true, false, Text, codes, is_empty,
  is_some, map, join, length, select, All, ◌≤◌, ◌≡◌, ◌≢◌, ◌↔◌, refl, ℤ, pos, arith, replace_all,
  is_blank, has_text, text_eq, split, trim_prefix,
}
use dataprotection.Base.FilePath.{slash, is_abs, clean, clean_loop, back_up}
use dataprotection.Base.Utf8.{IsAscii, len, width}
use dataprotection.Base.Sort.{sort}
use mathlib.Core.List.{Perm}
use dataprotection.Api.Execution.{Snapshot, RestoreImportSource}
use dataprotection.Effects.{Reply, ok, err, not_found}
use dataprotection.Effects.Obeys.{Obeys}
use dataprotection.Platform.{ascii_tables, ascii_tables-IsStandard}
use dataprotection.Naming.{build_dns_label_name, build_label_value, sanitize_name, full_name}
use dataprotection.Naming.Bounds.{len-build_dns_label_name-le}
use dataprotection.Naming.Label.{IsLabel, sanitize_name-IsLabel, full_name-IsLabel}
use dataprotection.Naming.Hash.{build_dns_label_name-IsLabel}
use dataprotection.Naming.Fixed.{NoDouble, sanitize_name_fixed, build_label_value_fixed}
use dataprotection.Shell.{shell_quote, command_line}
use dataprotection.Shell.Words.{words}
use dataprotection.Shell.Quoting.{words-shell_quote, words-command_line}
use dataprotection.Import.{
  validate_import, normalized_path, raw_path, is_known_format, effective_format,
}
use dataprotection.Import.Safety.{IsPlainName, validate_import_safe}
use dataprotection.Merge.{merge}
use dataprotection.Merge.LastWins.{last_of, concatenated, last_of-merge, merge-Distinct}
use dataprotection.Validate.{
  has_duplicate_local_object_reference_names, has_duplicate_secret_parameter_refs,
  validate_job_runtime, validate_backend, validate_nfs, validate_restore_job, validate_storage,
  validate_policy,
}
use dataprotection.Validate.Names.{
  has_duplicate_names, distinct_names, Distinct, has_duplicate_names_iff,
}
use dataprotection.Validate.Specs.{
  RestoresFrom, HasBackend, IsSchedulable, validate_restore_job-RestoresFrom, validate_storage_iff,
  validate_policy-IsSchedulable,
}
use dataprotection.Retention.{
  sort_snapshots_newest_first, in_series, is_newer, reconcile_snapshot_series,
}
use dataprotection.Retention.Order.{Arranges, sort_snapshots_newest_first-Arranges}
use dataprotection.Retention.Safety.{
  IsRetry, Lists, Retains, AnyReply, reconcile_snapshot_series-Retains,
}
use dataprotection.Runtime.Env.{env_key}
use dataprotection.Runtime.EnvNames.{IsEnvChar, env_key-All}
use dataprotection.Execution.{job_terminal_state}
use dataprotection.Execution.Terminal.{Says, job_terminal_state-Says}
use dataprotection.Controllers.Snapshots.{snapshot_storage_cleanup_finalizer, reconcile}
use dataprotection.Controllers.Snapshots.Finalizer.{
  Held, HeldIs, KeepsArtifacts, AnyOutcome, reconcile-KeepsArtifacts,
}
use dataprotection.Runtime.Env.{build_storage_env}
use dataprotection.Runtime.Pods.{backend_volumes}
use dataprotection.Runtime.Totality.{storage_env_total}
use dataprotection.Execution.Observe.{observe_terminal_backup_job}
use dataprotection.Execution.Observe.Success.{
  PodsExist, AnyRequest, Promises, observe_terminal_backup_job-Kept,
}
use dataprotection.Controllers.RestoreJobs
use dataprotection.Controllers.RestoreJobs.Native
use dataprotection.Controllers.RestoreJobs.Native.{StoreIs, CreatesOnlyIf}
use dataprotection.Controllers.RestoreJobs.Gate.{MayRestore, reconcile-Gated}
use Data.{
  snapshot, platform-KeepsNames, storage, source, restore_job, nightly_parts, import_source,
  policy_spec, restore_spec, storage_spec, two_snapshots, finished_job, platform, two_vars, one_var,
  env_name, apart, immediate, immediate-IsRetry,
}

-- A snapshot that is being deleted, whose cleanup job is not there yet.
abbrev doomed : Held
doomed = record {
  stored = record (snapshot (codes "a") 10) {
    metadata = record (snapshot (codes "a") 10).metadata {
      finalizers = snapshot_storage_cleanup_finalizer ∷ [];
      deletion_timestamp = some 20;
    };
  };
  jobs = λ ns name. err (not_found (codes "no such job"));
  storages = λ ns name. ok storage;
}

reconcile-KeepsArtifacts_example :
    Obeys
      (HeldIs doomed)
      (KeepsArtifacts platform doomed)
      AnyOutcome
      (reconcile platform (codes "prod") (codes "a"))
reconcile-KeepsArtifacts_example =
    reconcile-KeepsArtifacts platform platform-KeepsNames doomed (codes "prod") (codes "a")

reconcile_snapshot_series-Retains_example :
    Obeys
      (Lists two_snapshots (λ s. Among s two_snapshots))
      (Retains 1 (codes "prod") (codes "s") (codes "b") two_snapshots (λ s. Among s two_snapshots))
      AnyReply
      (reconcile_snapshot_series immediate (codes "prod") (codes "s") (pos 1) (codes "b"))
unfolding sort_snapshots_newest_first sort in_series text_eq is_newer
reconcile_snapshot_series-Retains_example =
    reconcile_snapshot_series-Retains immediate immediate-IsRetry 1 (codes "prod") (codes "s")
      (codes "b") two_snapshots (λ s. Among s two_snapshots) (omega arith) (omega arith)

validate_import_safe_example :
    (names : List Text) × (is_empty names ≡ false)
    × All IsPlainName names
    × (normalized_path (some import_source) ≡ join names slash)
unfolding validate_import is_blank raw_path replace_all is_abs normalized_path text_eq clean join
    split trim_prefix is_known_format effective_format
validate_import_safe_example =
    validate_import_safe ascii_tables import_source (codes "spec.importSource") refl

words-command_line_example :
    words (command_line (codes "pg_dump" ∷ []) (codes "it's" ∷ []))
    ≡ some (codes "pg_dump" ∷ codes "it's" ∷ [])
words-command_line_example = words-command_line (codes "pg_dump" ∷ []) (codes "it's" ∷ []) refl

words-shell_quote_example : words (shell_quote (codes "it's; rm")) ≡ some (codes "it's; rm" ∷ [])
words-shell_quote_example = words-shell_quote (codes "it's; rm")

build_dns_label_name-IsLabel_example : IsLabel (build_dns_label_name ascii_tables 12 nightly_parts)
build_dns_label_name-IsLabel_example =
    build_dns_label_name-IsLabel ascii_tables ascii_tables-IsStandard 12 nightly_parts (omega arith)
      (omega arith)

len-build_dns_label_name-le_example : len (build_dns_label_name ascii_tables 12 nightly_parts) ≤ 12
len-build_dns_label_name-le_example = len-build_dns_label_name-le ascii_tables 12 nightly_parts

last_of-merge_example :
    last_of env_name (codes "A") (merge env_name two_vars (one_var ∷ []))
    ≡ last_of env_name (codes "A") (two_vars ++ concatenated env_name (one_var ∷ []))
last_of-merge_example = last_of-merge env_name (codes "A") two_vars (one_var ∷ [])

merge-Distinct_example : Distinct (map env_name (merge env_name two_vars (one_var ∷ [])))
unfolding text_eq
merge-Distinct_example =
    merge-Distinct env_name two_vars (one_var ∷ [])
      ((apart (codes "A") (codes "B") refl, tt), (tt, tt))

sort_snapshots_newest_first-Arranges_example :
    Arranges two_snapshots (sort_snapshots_newest_first two_snapshots)
sort_snapshots_newest_first-Arranges_example = sort_snapshots_newest_first-Arranges two_snapshots

validate_restore_job-RestoresFrom_example : RestoresFrom restore_spec
unfolding validate_restore_job is_blank validate_import raw_path replace_all is_abs normalized_path
    text_eq clean join split trim_prefix is_known_format effective_format
    has_duplicate_local_object_reference_names has_duplicate_names
    has_duplicate_secret_parameter_refs validate_job_runtime back_up clean_loop
validate_restore_job-RestoresFrom_example =
    validate_restore_job-RestoresFrom ascii_tables restore_spec refl

validate_storage_iff_example :
    (validate_storage (λ t. t) storage_spec ≡ none) ↔ HasBackend storage_spec storage_spec.type
validate_storage_iff_example = validate_storage_iff (λ t. t) storage_spec

validate_policy-IsSchedulable_example : IsSchedulable policy_spec
unfolding validate_policy is_blank has_duplicate_local_object_reference_names has_duplicate_names
    has_text text_eq validate_job_runtime
validate_policy-IsSchedulable_example = validate_policy-IsSchedulable policy_spec refl

has_duplicate_names_iff_example :
    (has_duplicate_names nightly_parts ≡ false) ↔ Distinct (distinct_names nightly_parts)
has_duplicate_names_iff_example = has_duplicate_names_iff nightly_parts

job_terminal_state-Says_example :
    Says finished_job.status.conditions (job_terminal_state finished_job)
job_terminal_state-Says_example = job_terminal_state-Says finished_job

sanitize_name-IsLabel_example : IsLabel (sanitize_name ascii_tables (codes "My_DB.prod"))
sanitize_name-IsLabel_example =
    sanitize_name-IsLabel ascii_tables ascii_tables-IsStandard (codes "My_DB.prod") (omega arith)

full_name-IsLabel_example : IsLabel (full_name ascii_tables nightly_parts)
full_name-IsLabel_example =
    full_name-IsLabel ascii_tables ascii_tables-IsStandard nightly_parts (omega arith)

build_label_value_fixed_example : build_label_value ascii_tables (codes "db-1" ∷ []) ≡ codes "db-1"
unfolding len width
build_label_value_fixed_example =
    build_label_value_fixed ascii_tables ascii_tables-IsStandard (codes "db-1")
      (record {
        chars = (refl, (refl, (refl, (refl, tt))));
        nonempty = refl;
        first = refl;
        last = refl;
      })
      (λ h. refl, (λ h. cc, (λ h. refl, (λ h. tt, tt)))) (omega arith)

env_key-All_example :
    All IsEnvChar (env_key ascii_tables (codes "DP_PARAM_") (codes "retention-days"))
env_key-All_example =
    env_key-All ascii_tables (codes "DP_PARAM_") (codes "retention-days")
      (refl, (refl, (refl, (refl, (refl, (refl, (refl, (refl, (refl, tt)))))))))

observe_terminal_backup_job-Kept_example :
    Obeys PodsExist AnyRequest
      (Promises platform finished_job source storage none none (codes "s") (pos 3))
      (observe_terminal_backup_job platform finished_job source storage none none
        (codes "s")
        (pos 3))
observe_terminal_backup_job-Kept_example =
    observe_terminal_backup_job-Kept platform finished_job source storage none none (codes "s")
      (pos 3)

reconcile-Gated_example :
    Obeys
      (StoreIs restore_job (λ ns name. err (not_found name)))
      (CreatesOnlyIf (MayRestore platform (λ ns name. err (not_found name)) restore_job))
      Native.AnyOutcome
      (RestoreJobs.reconcile platform (codes "prod") (codes "back"))
reconcile-Gated_example =
    reconcile-Gated platform restore_job (λ ns name. err (not_found name)) (codes "prod")
      (codes "back") immediate-IsRetry

storage_env_total_example :
    (is_some (build_storage_env storage) ≡ true) × (is_some (backend_volumes storage) ≡ true)
unfolding validate_storage validate_backend validate_nfs is_blank
storage_env_total_example = storage_env_total (λ t. t) storage refl
