-- ===== src/Controllers/Policies/Schedules.antt =====
-- Which cron jobs the reconciler of a policy writes, deletes and records.
use dataprotection.Base.{
  List, [], ◌∷◌, Option, none, some, Text, codes, text_lt, map, All, Among, ◌≡◌, refl, sym, ap, ◌∙◌,
  subst, inl, inr,
}
use dataprotection.Base.Sort.{sort}
use dataprotection.Kube.Meta.{ConditionStatus, condition_true, condition_false}
use dataprotection.Kube.Core.{LocalObjectReference}
use dataprotection.Kube.Batch.{CronJob}
use dataprotection.Api.Common.{ResourcePhase}
use dataprotection.Api.Config.{BackupSource, BackupStorage, BackupPolicy}
use dataprotection.Platform.{Platform, KeepsNames}
use dataprotection.Validate.{predict_cron_job_names, validate_policy}
use dataprotection.Effects.{
  error_text, Reply, ok, err, Prog, ret, ◌>>=◌, after, Outcome, done, requeue_soon,
}
use dataprotection.Effects.Obeys.{
  Obeys, Obeys-bind, Obeys-if, Obeys-after, Obeys-try, Good, Good-any,
}
use dataprotection.Retention.Safety.{IsRetry}
use dataprotection.Execution.{mark_condition}
use dataprotection.Runtime
use dataprotection.Controllers.RestoreJobs.Gate.{ok-inj}
use dataprotection.Controllers.BackupJobs.{resolve_retention_policy}
use dataprotection.Controllers.Policies.{
  ResolvedPolicy, get_storages, resolve_policy_dependencies, check_endpoints, delete_stale, patch,
  settle, schedule_loop, is_suspended, scheduled, finish, after_deletions, with_existing,
  with_scheduled, with_endpoints, with_resolved, with_validation, with_policy, reconcile,
}
use dataprotection.Controllers.Policies.Loops.{
  PolicyIs, IsPlain, cron_name, desired, Schedules, desired-predicted, storage_names,
  schedule_loop-Gated, delete_stale-Gated,
}

-- Every element is among the list that it makes up.
All-Among-map :
    {A B : Type 0} (f : A → B) (xs : List A) (P : B → Type 0)
    → ((b : B) → Among b (map f xs) → P b)
    → All (λ x. P (f x)) xs
All-Among-map f [] P h = tt
All-Among-map f (x ∷ xs) P h = (h (f x) (inl refl), All-Among-map f xs P (λ b a. h b (inr a)))

All-Among :
    {A B : Type 0} (f : A → B) (xs : List A) (ys : List B)
    → map f xs ≡ ys
    → All (λ x. Among (f x) ys) xs
All-Among f xs ys e =
    subst (λ zs. All (λ x. Among (f x) zs) xs) e
      (All-Among-map f xs (λ b. Among b (map f xs)) (λ b a. a))

module _ (p : Platform) (is_retry : IsRetry p.retry_on_conflict) (keeps_names : KeepsNames p)
    (stored policy : BackupPolicy) where
  abbrev Gated : {A : Type 0} → (A → Type 0) → Prog A → Type 0
  Gated Q m = Obeys (PolicyIs stored) (Schedules p policy) Q m

  abbrev AnyOutcome : Outcome → Type 0
  AnyOutcome o = Unit

  abbrev Run : Prog Outcome → Type 0
  Run m = Gated AnyOutcome m

  abbrev Names : List BackupStorage → Reply (List Text) → Type 0
  Names storages x = Good (λ names. names ≡ map (cron_name p policy) (storage_names storages)) x

  failing-Run :
      (base q : BackupPolicy) (status : ConditionStatus) (reason message : Text) (o : Outcome)
      → Run (settle p base q ResourcePhase.failed status reason message o)
  unfolding settle mark_condition patch ◌>>=◌
  failing-Run base q status reason message o = (tt, λ t rt. ((λ h. elim (h refl) [ ]), λ x rx. tt))

  settle-Run :
      (base q : BackupPolicy) (phase : ResourcePhase) (status : ConditionStatus)
      (reason message : Text) (o : Outcome)
      → q.status.cron_job_names
        ≡ predict_cron_job_names p.unicode policy.name policy.spec.storage_refs
      → Run (settle p base q phase status reason message o)
  unfolding settle mark_condition patch ◌>>=◌
  settle-Run base q phase status reason message o e = (tt, λ t rt. ((λ h. e), λ x rx. tt))

  module _ (plain : All IsPlain policy.spec.storage_refs) where
    sorted-predicted :
        (names : List Text)
        → names ≡ desired p policy
        → sort text_lt names ≡ predict_cron_job_names p.unicode policy.name policy.spec.storage_refs
    sorted-predicted names e = ap (sort text_lt) e ∙ desired-predicted p policy plain

    finish-Run :
        (base : BackupPolicy) (source : BackupSource) (existing : List CronJob) (names : List Text)
        → names ≡ desired p policy
        → Run (finish p base policy source existing names)
    unfolding finish
    finish-Run base source existing names e =
        Obeys-if (PolicyIs stored) (Schedules p policy) AnyOutcome (is_suspended p policy source) _
          _
          (λ h.
            settle-Run base (scheduled p policy existing (sort text_lt names)) ResourcePhase.paused
              condition_false (codes "Paused") (codes "backup policy is suspended") done
              (sorted-predicted names e))
          (λ h.
            settle-Run base (scheduled p policy existing (sort text_lt names))
              ResourcePhase.configured condition_true (codes "Configured")
              (codes "backup policy is configured") done (sorted-predicted names e))

    after_deletions-Run :
        (base : BackupPolicy) (source : BackupSource) (existing : List CronJob) (names : List Text)
        (x : Reply Unit)
        → names ≡ desired p policy
        → Run (after_deletions p base policy source existing names x)
    unfolding after_deletions
    after_deletions-Run base source existing names (ok u) e =
        finish-Run base source existing names e
    after_deletions-Run base source existing names (err m) e = tt

    with_existing-Run :
        (base : BackupPolicy) (source : BackupSource) (names : List Text) (x : Reply (List CronJob))
        → names ≡ desired p policy
        → Run (with_existing p base policy source names x)
    unfolding with_existing
    with_existing-Run base source names (err m) e = tt
    with_existing-Run base source names (ok existing) e =
        Obeys-bind (PolicyIs stored) (Schedules p policy) (λ u. Unit) AnyOutcome
          (delete_stale names existing) (after_deletions p base policy source existing names)
          (delete_stale-Gated p is_retry keeps_names stored policy names existing e)
          (λ x u. after_deletions-Run base source existing names x e)

    with_scheduled-Run :
        (base : BackupPolicy) (source : BackupSource) (x : Reply (List Text))
        → Good (λ names. names ≡ desired p policy) x
        → Run (with_scheduled p base policy source x)
    unfolding with_scheduled ◌>>=◌
    with_scheduled-Run base source (err m) e = tt
    with_scheduled-Run base source (ok names) e =
        (tt, λ x rx. with_existing-Run base source names x e)

    abbrev Resolved : Reply ResolvedPolicy → Type 0
    Resolved x =
        Good (λ r. storage_names r.storages ≡ map (λ ref. ref.name) policy.spec.storage_refs) x

    after-Resolved :
        {A : Type 0} (x : Reply A) (f : A → Prog (Reply ResolvedPolicy))
        → ((a : A) → Gated Resolved (f a))
        → Gated Resolved (after f x)
    after-Resolved (ok a) f h = h a
    after-Resolved (err e) f h = tt

    get_storages-Gated :
        (ns : Text) (refs : List LocalObjectReference)
        → Gated
            (Good (λ storages. storage_names storages ≡ map (λ ref. ref.name) refs))
            (get_storages ns refs)
    unfolding get_storages ◌>>=◌
    get_storages-Gated ns [] = refl
    get_storages-Gated ns (ref ∷ refs) = (
      tt,
      λ x rx.
          Obeys-after (PolicyIs stored) (Schedules p policy) (λ s. s.name ≡ ref.name)
            (Good (λ storages. storage_names storages ≡ map (λ ref. ref.name) (ref ∷ refs))) _
            (λ storage e.
              Obeys-try (PolicyIs stored) (Schedules p policy)
                (λ storages. storage_names storages ≡ map (λ ref. ref.name) refs)
                (Good (λ storages. storage_names storages ≡ map (λ ref. ref.name) (ref ∷ refs)))
                (get_storages ns refs) (λ storages. ret (ok (storage ∷ storages)))
                (get_storages-Gated ns refs) (λ storages f. rw (e, f) refl) (λ m. tt))
            (λ m. tt) x rx,
    )

    resolve_retention_policy-Gated :
        (ns name : Text) → Gated (Good (λ x. Unit)) (resolve_retention_policy ns name)
    unfolding resolve_retention_policy ◌>>=◌
    resolve_retention_policy-Gated ns [] = tt
    resolve_retention_policy-Gated ns (c ∷ name) = (
      tt,
      λ x rx.
          Obeys-after (PolicyIs stored) (Schedules p policy) (λ a. Unit) (Good (λ x. Unit))
            (λ retention. ret (ok (some retention))) (λ a u. tt) (λ e. tt) x (Good-any x),
    )

    check_endpoints-Gated :
        (ns : Text) (refs : List LocalObjectReference) → Gated (λ u. Unit) (check_endpoints ns refs)
    unfolding check_endpoints ◌>>=◌
    check_endpoints-Gated ns [] = tt
    check_endpoints-Gated ns (ref ∷ refs) = (
      tt,
      λ x rx.
          Obeys-after (PolicyIs stored) (Schedules p policy) (λ a. Unit) (λ u. Unit)
            (λ endpoint. check_endpoints ns refs) (λ a u. check_endpoints-Gated ns refs) (λ e. tt) x
            (Good-any x),
    )

    resolve-Resolved : Gated Resolved (resolve_policy_dependencies policy)
    unfolding resolve_policy_dependencies ◌>>=◌
    resolve-Resolved = (
      tt,
      λ x rx. after-Resolved x _ (λ source. (
        tt,
        λ y ry. after-Resolved y _ (λ addon.
            Obeys-try (PolicyIs stored) (Schedules p policy)
              (λ storages. storage_names storages ≡ map (λ ref. ref.name) policy.spec.storage_refs)
              Resolved (get_storages policy.namespace policy.spec.storage_refs) _
              (get_storages-Gated policy.namespace policy.spec.storage_refs)
              (λ storages e.
                Obeys-try (PolicyIs stored) (Schedules p policy) (λ u. Unit) Resolved
                  (resolve_retention_policy policy.namespace
                    (Runtime.local_ref_name policy.spec.retention_ref))
                  (λ retention. ret (
                    ok (record {
                      source = source;
                      addon = addon;
                      storages = storages;
                      retention = retention;
                    })))
                  (resolve_retention_policy-Gated policy.namespace
                    (Runtime.local_ref_name policy.spec.retention_ref))
                  (λ retention u. e) (λ m. tt))
              (λ m. tt)),
      )),
    )

    all_desired :
        (refs : List LocalObjectReference) (names : List Text)
        → names ≡ map (λ ref. ref.name) refs
        → map (cron_name p policy) names ≡ map (λ ref. cron_name p policy ref.name) refs
    all_desired refs names e = ap (map (cron_name p policy)) e ∙ map_map refs
      where
        map_map :
            (rs : List LocalObjectReference)
            → map (cron_name p policy) (map (λ ref. ref.name) rs)
              ≡ map (λ ref. cron_name p policy ref.name) rs
        map_map [] = refl
        map_map (r ∷ rs) = ap (λ ns. cron_name p policy r.name ∷ ns) (map_map rs)

    with_endpoints-Run :
        (base : BackupPolicy) (r : ResolvedPolicy) (x : Reply Unit)
        → storage_names r.storages ≡ map (λ ref. ref.name) policy.spec.storage_refs
        → Run (with_endpoints p base policy r x)
    unfolding with_endpoints
    with_endpoints-Run base r (err m) e =
        failing-Run base policy condition_false (codes "NotificationEndpointError") (error_text m)
          requeue_soon
    with_endpoints-Run base r (ok u) e =
        Obeys-bind (PolicyIs stored) (Schedules p policy) (Names r.storages) AnyOutcome
          (schedule_loop p policy r r.storages) (with_scheduled p base policy r.source)
          (schedule_loop-Gated p is_retry keeps_names stored policy r r.storages (
            All-Among (cron_name p policy) (storage_names r.storages) (desired p policy)
              (all_desired policy.spec.storage_refs _ e)))
          (λ x named. with_scheduled-Run base r.source x (as_desired x named))
      where
        as_desired :
            (x : Reply (List Text))
            → Names r.storages x
            → Good (λ names. names ≡ desired p policy) x
        as_desired (ok names) h = h ∙ all_desired policy.spec.storage_refs _ e
        as_desired (err m) h = tt

    with_resolved-Run :
        (base : BackupPolicy) (x : Reply ResolvedPolicy)
        → Resolved x
        → Run (with_resolved p base policy x)
    unfolding with_resolved
    with_resolved-Run base (err m) e =
        failing-Run base policy condition_false (codes "DependencyError") (error_text m)
          requeue_soon
    with_resolved-Run base (ok r) e =
        Obeys-bind (PolicyIs stored) (Schedules p policy) (λ u. Unit) AnyOutcome
          (check_endpoints policy.namespace policy.spec.notification_refs)
          (with_endpoints p base policy r)
          (check_endpoints-Gated policy.namespace policy.spec.notification_refs)
          (λ x u. with_endpoints-Run base r x e)

    with_validation-Run :
        (base : BackupPolicy) (v : Option Text) → Run (with_validation p base policy v)
    unfolding with_validation
    with_validation-Run base (some m) =
        failing-Run base policy condition_false (codes "InvalidSpec") m done
    with_validation-Run base none =
        Obeys-bind (PolicyIs stored) (Schedules p policy) Resolved AnyOutcome
          (resolve_policy_dependencies policy) (with_resolved p base policy) resolve-Resolved
          (with_resolved-Run base)

with_policy-Run :
    (p : Platform) (is_retry : IsRetry p.retry_on_conflict) (keeps_names : KeepsNames p)
    (stored : BackupPolicy)
    → All IsPlain stored.spec.storage_refs
    → (x : Reply BackupPolicy) → x ≡ ok stored
    → Obeys (PolicyIs stored) (Schedules p stored) (λ o. Unit) (with_policy p x)
unfolding with_policy
with_policy-Run p is_retry keeps_names stored plain (err e) f = cc
with_policy-Run p is_retry keeps_names stored plain (ok base) f =
    subst (λ b. Obeys (PolicyIs stored) (Schedules p stored) (λ o. Unit) (with_policy p (ok b)))
      (sym (ok-inj base stored f))
      (with_validation-Run p is_retry keeps_names stored
        (record stored {
          status = record stored.status { observed_generation = stored.generation };
        })
        plain stored (validate_policy stored.spec))

-- With plain references, any retrying, and a SetControllerReference that keeps names and namespaces, and whatever
-- the API server answers apart from the policy and the names of the storages, the reconciler of a policy writes only cron jobs of the policy's storages, in the policy's namespace.
-- Such a write sets the labels, the annotations and the specification, which has the policy's schedule, and keeps all
-- else of the stored or new cron job; so it adds no owner reference. The reconciler deletes only cron jobs that
-- are not of these, and, where it records a phase other than `Failed`, it records exactly the cron job names that
-- `PredictCronJobNames` gives.
pub reconcile-Schedules :
    (p : Platform) (stored : BackupPolicy) (namespace name : Text)
    → IsRetry p.retry_on_conflict
    → KeepsNames p
    → All IsPlain stored.spec.storage_refs
    → Obeys (PolicyIs stored) (Schedules p stored) (λ o. Unit) (reconcile p namespace name)
unfolding reconcile ◌>>=◌
reconcile-Schedules p stored namespace name is_retry keeps_names plain =
    (tt, λ x rx. with_policy-Run p is_retry keeps_names stored plain x rx)
