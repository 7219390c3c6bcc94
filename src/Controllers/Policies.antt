-- ===== src/Controllers/Policies.antt =====
-- controllers/backuppolicy_controller.go, resolvePolicyDependencies of controllers/runtime_helpers.go and
-- createOrUpdateWithRetry of controllers/common.go. The proofs are in the modules below this one.
pub mod Loops
pub mod Schedules
pub mod Latest
pub mod Totality
use dataprotection.Base.{
  List, [], ◌∷◌, Option, none, some, Bool, true, false, not, ◌||◌, Text, codes, text_eq, text_lt,
  ltb, if◌then◌else◌, any,
}
use dataprotection.Base.Sort.{sort}
use dataprotection.Kube.Meta.{
  Time, TextMap, ObjectMeta, ConditionStatus, condition_true, condition_false,
}
use dataprotection.Kube.Core.{LocalObjectReference}
use dataprotection.Kube.Batch.{CronJob}
use dataprotection.Api.Common.{ResourcePhase}
use dataprotection.Api.Config.{
  BackupAddon, BackupSource, BackupStorage, BackupPolicy, RetentionPolicy,
}
use dataprotection.Platform.{Platform}
use dataprotection.Validate.{validate_policy}
use dataprotection.Effects.{
  ApiError, not_found, error_text, Reply, ok, err, get_addon, get_source, get_storage, get_policy,
  get_endpoint, list_cron_jobs, create_or_update_cron_job, delete_cron_job, patch_policy_status,
  Prog, ret, panic, request, ◌>>=◌, try, after, Outcome, done, failing, requeue_soon, unless_failed,
  ignore_not_found,
}
use dataprotection.Execution.{mark_condition}
use dataprotection.Runtime
use dataprotection.Runtime.Labels.{label, backup_policy_kind}
use dataprotection.Runtime.Merging.{copy_string_map}
use dataprotection.Runtime.Jobs.{build_backup_cron_job}
use dataprotection.Controllers.BackupJobs.{resolve_retention_policy}

-- What resolvePolicyDependencies returns.
pub record ResolvedPolicy : Type 0 where
  pub source : BackupSource
  pub addon : BackupAddon
  pub storages : List BackupStorage
  pub retention : Option RetentionPolicy

unfoldable pub get_storages : Text → List LocalObjectReference → Prog (Reply (List BackupStorage))
unfolding ◌>>=◌
get_storages namespace [] = ret (ok [])
get_storages namespace (ref ∷ refs) =
    try (request (get_storage namespace ref.name))
      λ storage. try (get_storages namespace refs) λ storages. ret (ok (storage ∷ storages))

unfoldable pub resolve_policy_dependencies : BackupPolicy → Prog (Reply ResolvedPolicy)
unfolding get_storages resolve_retention_policy ◌>>=◌
resolve_policy_dependencies policy =
    try (request (get_source policy.namespace policy.spec.source_ref.name)) λ source.
      try (request (get_addon source.spec.addon_ref.name)) λ addon.
        try (get_storages policy.namespace policy.spec.storage_refs) λ storages.
          try
            (resolve_retention_policy policy.namespace
              (Runtime.local_ref_name policy.spec.retention_ref))
            λ retention. ret (
              ok (record {
                source = source;
                addon = addon;
                storages = storages;
                retention = retention;
              }))

-- The loop over the notification endpoints of the policy.
unfoldable pub check_endpoints : Text → List LocalObjectReference → Prog (Reply Unit)
unfolding ◌>>=◌
check_endpoints namespace [] = ret (ok tt)
check_endpoints namespace (ref ∷ refs) =
    try (request (get_endpoint namespace ref.name)) λ endpoint. check_endpoints namespace refs

-- The mutation that CreateOrUpdate is given: the labels, annotations and specification of the rendered cron job
-- are put on the current one, which is the stored one, or a new one with nothing but its name and namespace.
unfoldable pub copied_cron_job : CronJob → CronJob → CronJob
unfolding copy_string_map
copied_cron_job template current = record current {
  metadata = record current.metadata {
    labels = copy_string_map template.labels;
    annotations = copy_string_map template.annotations;
  };
  spec = template.spec;
}

-- Whether a name is a key of the set that the names make up.
abbrev pub is_among : Text → List Text → Bool
is_among name names = any (λ n. text_eq n name) names

-- The later of the last schedule times, in the order of the list.
unfoldable pub later : Option Time → Option Time → Option Time
later latest none = latest
later none (some t) = some t
later (some l) (some t) = if ltb l t then some t else some l

unfoldable pub latest_loop : Option Time → List CronJob → List Text → Option Time
unfolding later
latest_loop latest [] names = latest
latest_loop latest (item ∷ items) names =
    latest_loop (if is_among item.name names then later latest item.last_schedule_time else latest)
      items names

unfoldable pub latest_cron_schedule_time : List CronJob → List Text → Option Time
unfolding latest_loop
latest_cron_schedule_time items names = latest_loop none items names

-- The deletion of a cron job whose answer "not found" is no failure.
unfoldable pub unless_gone : Prog (Reply Unit) → Reply Unit → Prog (Reply Unit)
unless_gone rest (ok _) = rest
unless_gone rest (err (not_found m)) = rest
unless_gone rest (err e) = ret (err e)

-- The cron jobs that exist and are not desired are deleted.
unfoldable pub delete_stale : List Text → List CronJob → Prog (Reply Unit)
unfolding unless_gone ◌>>=◌
delete_stale desired [] = ret (ok tt)
delete_stale desired (item ∷ items) =
    let rest = delete_stale desired items in
    if is_among item.name desired
    then rest
    else (request (delete_cron_job item) >>= unless_gone rest)

module _ (p : Platform) where
  unfoldable pub patch : BackupPolicy → BackupPolicy → Outcome → Prog Outcome
  unfolding ◌>>=◌
  patch base new outcome =
      request (patch_policy_status base new) >>= λ r. ret (unless_failed r outcome)

  -- A phase with its message and condition, written to the API server.
  unfoldable pub settle :
      BackupPolicy
      → BackupPolicy
      → ResourcePhase
      → ConditionStatus
      → Text
      → Text
      → Outcome
      → Prog Outcome
  unfolding mark_condition patch ◌>>=◌
  settle base policy phase status reason message outcome =
      mark_condition p policy.status.conditions status reason message policy.generation
      >>= λ conditions.
          patch base
            (record policy {
              status = record policy.status {
                phase = phase;
                message = message;
                conditions = conditions;
              };
            })
            outcome

  unfoldable pub create_or_update_with_retry : Text → Text → (CronJob → CronJob) → Prog (Reply Unit)
  create_or_update_with_retry namespace name mutate =
      p.retry_on_conflict (request (create_or_update_cron_job namespace name mutate))

  -- The body of the loop over the storages: the name of the cron job of one storage.
  unfoldable pub owned_cron_job : BackupPolicy → CronJob → Reply ObjectMeta → Prog (Reply Text)
  unfolding create_or_update_with_retry copied_cron_job ◌>>=◌
  owned_cron_job policy rendered (err e) = ret (err e)
  owned_cron_job policy rendered (ok meta) =
      let cron_job : CronJob = record rendered { metadata = meta } in
      try (create_or_update_with_retry cron_job.namespace cron_job.name (copied_cron_job cron_job))
        λ u. ret (ok cron_job.name)

  unfoldable pub schedule_storage : BackupPolicy → Option CronJob → Prog (Reply Text)
  unfolding owned_cron_job
  schedule_storage policy none = panic
  schedule_storage policy (some rendered) =
      owned_cron_job policy rendered
        (p.set_controller_reference backup_policy_kind policy.metadata rendered.metadata)

  unfoldable pub schedule_loop :
      BackupPolicy → ResolvedPolicy → List BackupStorage → Prog (Reply (List Text))
  unfolding schedule_storage ◌>>=◌
  schedule_loop policy r [] = ret (ok [])
  schedule_loop policy r (storage ∷ storages) =
      try
        (schedule_storage policy
          (build_backup_cron_job p policy r.source r.addon storage r.retention))
        λ name. try (schedule_loop policy r storages) λ names. ret (ok (name ∷ names))

  -- The labels by which the cron jobs of a policy are listed.
  abbrev pub policy_labels : BackupPolicy → TextMap
  policy_labels policy =
      (Runtime.managed_by_label, Runtime.managed_by_value)
      ∷ (Runtime.execution_kind_label, label p.unicode backup_policy_kind)
      ∷ (Runtime.policy_name_label, label p.unicode policy.name)
      ∷ (Runtime.operation_label, label p.unicode (codes "backup"))
      ∷ []

  abbrev pub is_suspended : BackupPolicy → BackupSource → Bool
  is_suspended policy source =
      source.spec.paused || policy.spec.suspend || policy.spec.schedule.suspend

  -- The policy with the cron jobs that it has and their last schedule.
  abbrev pub scheduled : BackupPolicy → List CronJob → List Text → BackupPolicy
  scheduled policy existing sorted = record policy {
    status = record policy.status {
      cron_job_names = sorted;
      last_schedule_time = latest_cron_schedule_time existing sorted;
    };
  }

  unfoldable pub finish :
      BackupPolicy → BackupPolicy → BackupSource → List CronJob → List Text → Prog Outcome
  unfolding settle latest_cron_schedule_time
  finish base policy source existing names =
      let new = scheduled policy existing (sort text_lt names) in
      if is_suspended policy source
      then settle base new ResourcePhase.paused condition_false (codes "Paused")
          (codes "backup policy is suspended") done
      else settle base new ResourcePhase.configured condition_true (codes "Configured")
          (codes "backup policy is configured") done

  unfoldable pub after_deletions :
      BackupPolicy
      → BackupPolicy
      → BackupSource
      → List CronJob
      → List Text
      → Reply Unit
      → Prog Outcome
  unfolding finish
  after_deletions base policy source existing names (err e) = ret (failing (error_text e))
  after_deletions base policy source existing names (ok u) =
      finish base policy source existing names

  unfoldable pub with_existing :
      BackupPolicy → BackupPolicy → BackupSource → List Text → Reply (List CronJob) → Prog Outcome
  unfolding delete_stale after_deletions ◌>>=◌
  with_existing base policy source names (err e) = ret (failing (error_text e))
  with_existing base policy source names (ok existing) =
      delete_stale names existing >>= after_deletions base policy source existing names

  unfoldable pub with_scheduled :
      BackupPolicy → BackupPolicy → BackupSource → Reply (List Text) → Prog Outcome
  unfolding with_existing ◌>>=◌
  with_scheduled base policy source (err e) = ret (failing (error_text e))
  with_scheduled base policy source (ok names) =
      request (list_cron_jobs policy.namespace (policy_labels policy))
      >>= with_existing base policy source names

  unfoldable pub with_endpoints :
      BackupPolicy → BackupPolicy → ResolvedPolicy → Reply Unit → Prog Outcome
  unfolding settle schedule_loop with_scheduled ◌>>=◌
  with_endpoints base policy r (err e) =
      settle base policy ResourcePhase.failed condition_false (codes "NotificationEndpointError")
        (error_text e) requeue_soon
  with_endpoints base policy r (ok u) =
      schedule_loop policy r r.storages >>= with_scheduled base policy r.source

  unfoldable pub with_resolved : BackupPolicy → BackupPolicy → Reply ResolvedPolicy → Prog Outcome
  unfolding settle check_endpoints with_endpoints ◌>>=◌
  with_resolved base policy (err e) =
      settle base policy ResourcePhase.failed condition_false (codes "DependencyError")
        (error_text e) requeue_soon
  with_resolved base policy (ok r) =
      check_endpoints policy.namespace policy.spec.notification_refs
      >>= with_endpoints base policy r

  unfoldable pub with_validation : BackupPolicy → BackupPolicy → Option Text → Prog Outcome
  unfolding settle resolve_policy_dependencies with_resolved ◌>>=◌
  with_validation base policy (some message) =
      settle base policy ResourcePhase.failed condition_false (codes "InvalidSpec") message done
  with_validation base policy none =
      resolve_policy_dependencies policy >>= with_resolved base policy

  unfoldable pub with_policy : Reply BackupPolicy → Prog Outcome
  unfolding with_validation
  with_policy (err e) = ret (ignore_not_found e)
  with_policy (ok base) =
      with_validation base
        (record base { status = record base.status { observed_generation = base.generation } })
        (validate_policy base.spec)

  unfoldable pub reconcile : Text → Text → Prog Outcome
  unfolding with_policy ◌>>=◌
  reconcile namespace name = request (get_policy namespace name) >>= with_policy
