-- ===== src/Controllers/Policies/Totality.antt =====
-- The reconciler of a policy always comes to an outcome where the storages validate.
use dataprotection.Base.{
  List, [], ◌∷◌, Option, none, some, is_some, true, Text, codes, text_lt, All, ◌≡◌,
}
use dataprotection.Base.Sort.{sort}
use dataprotection.Kube.Meta.{ObjectMeta, ConditionStatus, condition_true, condition_false}
use dataprotection.Kube.Core.{LocalObjectReference}
use dataprotection.Kube.Batch.{CronJob}
use dataprotection.Api.Common.{ResourcePhase}
use dataprotection.Api.Config.{BackupSource, BackupStorage, BackupPolicy}
use dataprotection.Platform.{Platform}
use dataprotection.Validate.{validate_storage, validate_policy}
use dataprotection.Effects.{
  not_found, already_exists, conflict, other, error_text, Reply, ok, err, Request, get_storage,
  create_or_update_cron_job, delete_cron_job, Prog, ret, request, ◌>>=◌, after, Outcome, done,
  requeue_soon, run,
}
use dataprotection.Effects.Obeys.{Rely, Good, Good-any}
use dataprotection.Effects.Run.{Oracle}
use dataprotection.Effects.Ends.{
  Ends, run-Ends, Ends-bind, Ends-after, Ends-try, Ends-if, IsBoundedRetry,
}
use dataprotection.Execution.{mark_condition}
use dataprotection.Runtime
use dataprotection.Runtime.Jobs.{build_backup_cron_job}
use dataprotection.Runtime.Rendering.{build_backup_cron_job_total}
use dataprotection.Controllers.BackupJobs.{resolve_retention_policy}
use dataprotection.Controllers.Policies.{
  ResolvedPolicy, get_storages, resolve_policy_dependencies, check_endpoints, copied_cron_job,
  is_among, unless_gone, delete_stale, patch, settle, create_or_update_with_retry, owned_cron_job,
  schedule_storage, schedule_loop, is_suspended, scheduled, finish, after_deletions, with_existing,
  with_scheduled, with_endpoints, with_resolved, with_validation, with_policy, reconcile,
}

-- Every storage that is read validates.
abbrev pub StoragesValidate : (Text → Text) → Rely
StoragesValidate quote (get_storage ns name) x = Good (λ s. validate_storage quote s.spec ≡ none) x
StoragesValidate quote r x = Unit

module _ (p : Platform) (quote : Text → Text) (is_retry : IsBoundedRetry p.retry_on_conflict) where
  abbrev Has : {A : Type 0} → (A → Type 0) → Prog A → Type 0
  Has Q m = Ends (StoragesValidate quote) Q m

  abbrev Any : {A : Type 0} → A → Type 0
  Any a = Unit

  abbrev Valid : BackupStorage → Type 0
  Valid s = validate_storage quote s.spec ≡ none

  settle-Ends :
      (base policy : BackupPolicy) (phase : ResourcePhase) (status : ConditionStatus)
      (reason message : Text) (o : Outcome)
      → Has Any (settle p base policy phase status reason message o)
  unfolding settle mark_condition patch ◌>>=◌
  settle-Ends base policy phase status reason message o = λ t rt x rx. tt

  owned_cron_job-Ends :
      (policy : BackupPolicy) (rendered : CronJob) (x : Reply ObjectMeta)
      → Has Any (owned_cron_job p policy rendered x)
  unfolding owned_cron_job create_or_update_with_retry
  owned_cron_job-Ends policy rendered (err e) = tt
  owned_cron_job-Ends policy rendered (ok meta) =
      let c : CronJob = record rendered { metadata = meta } in
      Ends-try (StoragesValidate quote) Any Any
        (create_or_update_with_retry p meta.namespace meta.name (copied_cron_job c))
        (λ u. ret (ok meta.name))
        (is_retry.ends (StoragesValidate quote) (Good Any)
          (request (create_or_update_cron_job meta.namespace meta.name (copied_cron_job c)))
          (λ x rx. Good-any x))
        (λ u v. tt) (λ e. tt)

  schedule_storage-Ends :
      (policy : BackupPolicy) (rendered : Option CronJob)
      → is_some rendered ≡ true
      → Has Any (schedule_storage p policy rendered)
  unfolding schedule_storage
  schedule_storage-Ends policy (some rendered) h = owned_cron_job-Ends policy rendered _
  schedule_storage-Ends policy none h = cc

  schedule_loop-Ends :
      (policy : BackupPolicy) (r : ResolvedPolicy) (storages : List BackupStorage)
      → All Valid storages
      → Has Any (schedule_loop p policy r storages)
  unfolding schedule_loop
  schedule_loop-Ends policy r [] h = tt
  schedule_loop-Ends policy r (storage ∷ storages) h =
      Ends-bind (StoragesValidate quote) Any Any
        (schedule_storage p policy
          (build_backup_cron_job p policy r.source r.addon storage r.retention))
        _
        (schedule_storage-Ends policy _
          (build_backup_cron_job_total p quote storage h.0 policy r.source r.addon r.retention))
        (λ x u.
          Ends-after (StoragesValidate quote) Any Any _
            (λ name v.
              Ends-bind (StoragesValidate quote) Any Any (schedule_loop p policy r storages)
                (after (λ names. ret (ok (name ∷ names))))
                (schedule_loop-Ends policy r storages h.1)
                (λ y w.
                  Ends-after (StoragesValidate quote) Any Any (λ names. ret (ok (name ∷ names)))
                    (λ names z. tt) (λ e. tt) y (Good-any y)))
            (λ e. tt) x (Good-any x))

  unless_gone-Ends :
      (rest : Prog (Reply Unit)) (x : Reply Unit) → Has Any rest → Has Any (unless_gone rest x)
  unfolding unless_gone
  unless_gone-Ends rest (ok u) h = h
  unless_gone-Ends rest (err (not_found m)) h = h
  unless_gone-Ends rest (err (already_exists m)) h = tt
  unless_gone-Ends rest (err (conflict m)) h = tt
  unless_gone-Ends rest (err (other m)) h = tt

  delete_stale-Ends :
      (names : List Text) (items : List CronJob) → Has Any (delete_stale names items)
  unfolding delete_stale ◌>>=◌
  delete_stale-Ends names [] = tt
  delete_stale-Ends names (item ∷ items) =
      Ends-if (StoragesValidate quote) Any (is_among item.name names) (delete_stale names items)
        (request (delete_cron_job item) >>= unless_gone (delete_stale names items))
        (delete_stale-Ends names items)
        (λ x rx. unless_gone-Ends _ x (delete_stale-Ends names items))

  finish-Ends :
      (base policy : BackupPolicy) (source : BackupSource) (existing : List CronJob)
      (names : List Text)
      → Has Any (finish p base policy source existing names)
  unfolding finish
  finish-Ends base policy source existing names =
      let new = scheduled p policy existing (sort text_lt names) in
      Ends-if (StoragesValidate quote) Any (is_suspended p policy source) _ _
        (settle-Ends base new ResourcePhase.paused condition_false (codes "Paused")
          (codes "backup policy is suspended") done)
        (settle-Ends base new ResourcePhase.configured condition_true (codes "Configured")
          (codes "backup policy is configured") done)

  after_deletions-Ends :
      (base policy : BackupPolicy) (source : BackupSource) (existing : List CronJob)
      (names : List Text) (x : Reply Unit)
      → Has Any (after_deletions p base policy source existing names x)
  unfolding after_deletions
  after_deletions-Ends base policy source existing names (ok u) =
      finish-Ends base policy source existing names
  after_deletions-Ends base policy source existing names (err e) = tt

  with_existing-Ends :
      (base policy : BackupPolicy) (source : BackupSource) (names : List Text)
      (x : Reply (List CronJob))
      → Has Any (with_existing p base policy source names x)
  unfolding with_existing
  with_existing-Ends base policy source names (err e) = tt
  with_existing-Ends base policy source names (ok existing) =
      Ends-bind (StoragesValidate quote) Any Any (delete_stale names existing)
        (after_deletions p base policy source existing names) (delete_stale-Ends names existing)
        (λ x u. after_deletions-Ends base policy source existing names x)

  with_scheduled-Ends :
      (base policy : BackupPolicy) (source : BackupSource) (x : Reply (List Text))
      → Has Any (with_scheduled p base policy source x)
  unfolding with_scheduled ◌>>=◌
  with_scheduled-Ends base policy source (err e) = tt
  with_scheduled-Ends base policy source (ok names) =
      λ x rx. with_existing-Ends base policy source names x

  with_endpoints-Ends :
      (base policy : BackupPolicy) (r : ResolvedPolicy) (x : Reply Unit)
      → All Valid r.storages
      → Has Any (with_endpoints p base policy r x)
  unfolding with_endpoints
  with_endpoints-Ends base policy r (err e) h =
      settle-Ends base policy ResourcePhase.failed condition_false
        (codes "NotificationEndpointError") (error_text e) requeue_soon
  with_endpoints-Ends base policy r (ok u) h =
      Ends-bind (StoragesValidate quote) Any Any (schedule_loop p policy r r.storages)
        (with_scheduled p base policy r.source) (schedule_loop-Ends policy r r.storages h)
        (λ x v. with_scheduled-Ends base policy r.source x)

  check_endpoints-Ends :
      (ns : Text) (refs : List LocalObjectReference) → Has Any (check_endpoints ns refs)
  unfolding check_endpoints ◌>>=◌
  check_endpoints-Ends ns [] = tt
  check_endpoints-Ends ns (ref ∷ refs) = λ x rx.
      Ends-after (StoragesValidate quote) Any Any (λ endpoint. check_endpoints ns refs)
        (λ a u. check_endpoints-Ends ns refs) (λ e. tt) x (Good-any x)

  with_resolved-Ends :
      (base policy : BackupPolicy) (x : Reply ResolvedPolicy)
      → Good (λ r. All Valid r.storages) x
      → Has Any (with_resolved p base policy x)
  unfolding with_resolved
  with_resolved-Ends base policy (err e) h =
      settle-Ends base policy ResourcePhase.failed condition_false (codes "DependencyError")
        (error_text e) requeue_soon
  with_resolved-Ends base policy (ok r) h =
      Ends-bind (StoragesValidate quote) Any Any
        (check_endpoints policy.namespace policy.spec.notification_refs)
        (with_endpoints p base policy r)
        (check_endpoints-Ends policy.namespace policy.spec.notification_refs)
        (λ x u. with_endpoints-Ends base policy r x h)

  get_storages-Ends :
      (ns : Text) (refs : List LocalObjectReference) → Has (Good (All Valid)) (get_storages ns refs)
  unfolding get_storages ◌>>=◌
  get_storages-Ends ns [] = tt
  get_storages-Ends ns (ref ∷ refs) = λ x rx.
      Ends-after (StoragesValidate quote) Valid (Good (All Valid)) _
        (λ storage v.
          Ends-try (StoragesValidate quote) (All Valid) (Good (All Valid)) (get_storages ns refs)
            (λ storages. ret (ok (storage ∷ storages))) (get_storages-Ends ns refs)
            (λ storages vs. (v, vs)) (λ e. tt))
        (λ e. tt) x rx

  resolve_retention_policy-Ends :
      (ns name : Text) → Has (Good Any) (resolve_retention_policy ns name)
  unfolding resolve_retention_policy ◌>>=◌
  resolve_retention_policy-Ends ns [] = tt
  resolve_retention_policy-Ends ns (c ∷ name) = λ x rx.
      Ends-after (StoragesValidate quote) Any (Good Any) (λ policy. ret (ok (some policy)))
        (λ a u. tt) (λ e. tt) x (Good-any x)

  resolve-Ends :
      (policy : BackupPolicy)
      → Has (Good (λ r. All Valid r.storages)) (resolve_policy_dependencies policy)
  unfolding resolve_policy_dependencies ◌>>=◌
  resolve-Ends policy = λ x rx.
      Ends-after (StoragesValidate quote) Any (Good (λ r. All Valid r.storages)) _
        (λ source u y ry.
          Ends-after (StoragesValidate quote) Any (Good (λ r. All Valid r.storages)) _
            (λ addon v.
              Ends-try (StoragesValidate quote) (All Valid) (Good (λ r. All Valid r.storages))
                (get_storages policy.namespace policy.spec.storage_refs) _
                (get_storages-Ends policy.namespace policy.spec.storage_refs)
                (λ storages h.
                  Ends-try (StoragesValidate quote) Any (Good (λ r. All Valid r.storages))
                    (resolve_retention_policy policy.namespace
                      (Runtime.local_ref_name policy.spec.retention_ref))
                    (λ retention. ret (
                      ok (record {
                        source = source;
                        addon = addon;
                        storages = storages;
                        retention = retention;
                      })))
                    (resolve_retention_policy-Ends policy.namespace
                      (Runtime.local_ref_name policy.spec.retention_ref))
                    (λ retention w. h) (λ e. tt))
                (λ e. tt))
            (λ e. tt) y (Good-any y))
        (λ e. tt) x (Good-any x)

  with_validation-Ends :
      (base policy : BackupPolicy) (v : Option Text) → Has Any (with_validation p base policy v)
  unfolding with_validation
  with_validation-Ends base policy (some m) =
      settle-Ends base policy ResourcePhase.failed condition_false (codes "InvalidSpec") m done
  with_validation-Ends base policy none =
      Ends-bind (StoragesValidate quote) (Good (λ r. All Valid r.storages)) Any
        (resolve_policy_dependencies policy) (with_resolved p base policy) (resolve-Ends policy)
        (with_resolved-Ends base policy)

  with_policy-Ends : (x : Reply BackupPolicy) → Has Any (with_policy p x)
  unfolding with_policy
  with_policy-Ends (err e) = tt
  with_policy-Ends (ok base) =
      with_validation-Ends base
        (record base { status = record base.status { observed_generation = base.generation } })
        (validate_policy base.spec)

-- The reconciler of a policy comes to an outcome, without dereferencing a nil pointer, whatever it is answered,
-- if every storage that it reads validates and the retrying is bounded.
pub reconcile-Returns :
    (p : Platform) (quote : Text → Text) (o : Oracle) (namespace name : Text)
    → IsBoundedRetry p.retry_on_conflict
    → ((r : Request) → StoragesValidate quote r (o r))
    → (outcome : Outcome) × (run o (reconcile p namespace name) ≡ some outcome)
unfolding reconcile ◌>>=◌
reconcile-Returns p quote o namespace name is_retry valid =
    let h : Ends (StoragesValidate quote) (λ u. Unit) (reconcile p namespace name) =
      λ x rx. with_policy-Ends p quote is_retry x in
    let r = run-Ends (StoragesValidate quote) (λ u. Unit) o (reconcile p namespace name) valid h in
    (r.0, r.1)
