-- ===== src/Controllers/Policies/Loops.antt =====
-- The loops of the reconciler of a policy: which cron jobs they write and delete.
use dataprotection.Base.{
  List, [], ◌∷◌, Option, none, some, false, Text, codes, text_lt, is_empty, trim_space, map, All,
  Among, ◌≡◌, refl, sym, ap, ◌∙◌, subst,
}
use dataprotection.Base.Sort.{sort}
use dataprotection.Kube.Meta.{ObjectMeta}
use dataprotection.Kube.Core.{LocalObjectReference}
use dataprotection.Kube.Batch.{CronJob}
use dataprotection.Api.Common.{ResourcePhase}
use dataprotection.Api.Config.{
  BackupAddon, BackupSource, BackupStorage, BackupPolicy, RetentionPolicy,
}
use dataprotection.Platform.{Platform, KeepsNames}
use dataprotection.Naming.{build_cron_job_name}
use dataprotection.Validate.{cron_job_names, predict_cron_job_names}
use dataprotection.Effects.{
  not_found, already_exists, conflict, other, Reply, ok, err, Request, get_storage, get_policy,
  create_or_update_cron_job, delete_cron_job, patch_policy_status, Prog, ret, request, ◌>>=◌,
  Outcome,
}
use dataprotection.Effects.Obeys.{Rely, Obeys, Obeys-if, Obeys-try, Good, Good-any}
use dataprotection.Retention.Safety.{IsRetry}
use dataprotection.Runtime.Labels.{backup_policy_kind}
use dataprotection.Runtime.Jobs.{Rendered, cron_job_of, build_backup_cron_job, scheduled_job_spec}
use dataprotection.Controllers.Policies.{
  ResolvedPolicy, copied_cron_job, is_among, unless_gone, delete_stale, create_or_update_with_retry,
  owned_cron_job, schedule_storage, schedule_loop,
}

-- The policy is as given, and a storage that is read has the name asked for.
abbrev pub PolicyIs : BackupPolicy → Rely
PolicyIs policy (get_policy ns name) x = x ≡ ok policy
PolicyIs policy (get_storage ns name) x = Good (λ s. s.name ≡ name) x
PolicyIs policy r x = Unit

-- The names of the references are not blank and have no space around them.
abbrev pub IsPlain : LocalObjectReference → Type 0
IsPlain ref = (trim_space ref.name ≡ ref.name) × (is_empty ref.name ≡ false)

module _ (p : Platform) (policy : BackupPolicy) where
  abbrev pub cron_name : Text → Text
  cron_name storage_name =
      build_cron_job_name p.unicode (policy.name ∷ storage_name ∷ codes "backup" ∷ [])

  -- The cron job of each storage of the policy.
  abbrev pub desired : List Text
  desired = map (λ ref. cron_name ref.name) policy.spec.storage_refs

  -- The mutation puts fixed labels and annotations and a fixed specification, with the schedule of the policy, on
  -- any cron job, and keeps all else of it.
  abbrev pub IsReschedule : (CronJob → CronJob) → Type 0
  IsReschedule mutate =
      (template : CronJob) × (template.spec.schedule ≡ policy.spec.schedule.cron)
      × ((c : CronJob)
          → mutate c ≡ record c {
            metadata = record c.metadata {
              labels = template.labels;
              annotations = template.annotations;
            };
            spec = template.spec;
          })

  -- A cron job that is written is one of the policy's, in its namespace; one that is deleted is none of the
  -- policy's; and a status whose phase is not `Failed` names the predicted ones.
  abbrev pub Schedules : Request → Type 0
  Schedules (create_or_update_cron_job namespace name mutate) =
      Among name desired × (namespace ≡ policy.namespace) × IsReschedule mutate
  Schedules (delete_cron_job c) = is_among c.name desired ≡ false
  Schedules (patch_policy_status base new) =
      (new.status.phase ≡ ResourcePhase.failed → ⊥)
      → new.status.cron_job_names
        ≡ predict_cron_job_names p.unicode policy.name policy.spec.storage_refs
  Schedules r = Unit

  cron_job_names-plain :
      (refs : List LocalObjectReference)
      → All IsPlain refs
      → cron_job_names p.unicode policy.name refs ≡ map (λ ref. cron_name ref.name) refs
  unfolding cron_job_names
  cron_job_names-plain [] h = refl
  cron_job_names-plain (ref ∷ refs) h =
      rw (h.0.0, h.0.1) (ap (λ ns. cron_name ref.name ∷ ns) (cron_job_names-plain refs h.1))

  pub desired-predicted :
      All IsPlain policy.spec.storage_refs
      → sort text_lt desired ≡ predict_cron_job_names p.unicode policy.name policy.spec.storage_refs
  unfolding predict_cron_job_names
  desired-predicted h = ap (sort text_lt) (sym (cron_job_names-plain policy.spec.storage_refs h))

abbrev MaybeNamed : Platform → BackupPolicy → Text → Option CronJob → Type 0
MaybeNamed p policy storage_name none = Unit
MaybeNamed p policy storage_name (some c) =
    (c.name ≡ cron_name p policy storage_name)
    × (c.namespace ≡ policy.namespace)
    × (c.spec.schedule ≡ policy.spec.schedule.cron)

cron_job_of-Named :
    (p : Platform) (policy : BackupPolicy) (source : BackupSource) (storage : BackupStorage)
    (rendered : Option Rendered)
    → MaybeNamed p policy storage.name (cron_job_of p policy source storage rendered)
unfolding cron_job_of
cron_job_of-Named p policy source storage none = tt
cron_job_of-Named p policy source storage (some rendered) = (refl, refl, refl)

build_backup_cron_job-Named :
    (p : Platform) (policy : BackupPolicy) (source : BackupSource) (addon : BackupAddon)
    (storage : BackupStorage) (retention : Option RetentionPolicy)
    → MaybeNamed p policy storage.name
        (build_backup_cron_job p policy source addon storage retention)
unfolding build_backup_cron_job
build_backup_cron_job-Named p policy source addon storage retention =
    cron_job_of-Named p policy source storage
      (scheduled_job_spec p policy source addon storage retention)

abbrev pub storage_names : List BackupStorage → List Text
storage_names storages = map (λ s. s.name) storages

module _ (p : Platform) (is_retry : IsRetry p.retry_on_conflict) (keeps_names : KeepsNames p)
    (stored policy : BackupPolicy) where
  abbrev Gated : {A : Type 0} → (A → Type 0) → Prog A → Type 0
  Gated Q m = Obeys (PolicyIs stored) (Schedules p policy) Q m

  abbrev AnyOutcome : Outcome → Type 0
  AnyOutcome o = Unit

  abbrev Run : Prog Outcome → Type 0
  Run m = Gated AnyOutcome m

  write-Gated :
      (namespace name : Text) (mutate : CronJob → CronJob)
      → Schedules p policy (create_or_update_cron_job namespace name mutate)
      → Gated (Good (λ u. Unit)) (create_or_update_with_retry p namespace name mutate)
  unfolding create_or_update_with_retry
  write-Gated namespace name mutate h =
      is_retry.keeps (PolicyIs stored) (Schedules p policy) (Good (λ u. Unit))
        (request (create_or_update_cron_job namespace name mutate)) (h, λ x rx. Good-any x)

  abbrev NamedFor : Text → Reply Text → Type 0
  NamedFor storage_name x = Good (λ name. name ≡ cron_name p policy storage_name) x

  -- The cron job is written under its name, which is returned.
  owned_cron_job-Gated :
      (storage_name : Text) (rendered : CronJob) (x : Reply ObjectMeta)
      → Good (λ m. (m.name ≡ rendered.name) × (m.namespace ≡ rendered.namespace)) x
      → Among (cron_name p policy storage_name) (desired p policy)
      → MaybeNamed p policy storage_name (some rendered)
      → Gated (NamedFor storage_name) (owned_cron_job p policy rendered x)
  unfolding owned_cron_job copied_cron_job
  owned_cron_job-Gated storage_name rendered (err e) g among same = tt
  owned_cron_job-Gated storage_name rendered (ok meta) g among same =
      let cron_job : CronJob = record rendered { metadata = meta } in
      let named = g.0 ∙ same.0 in
      Obeys-try (PolicyIs stored) (Schedules p policy) (λ u. Unit) (NamedFor storage_name)
        (create_or_update_with_retry p meta.namespace meta.name (copied_cron_job cron_job))
        (λ u. ret (ok meta.name))
        (write-Gated meta.namespace meta.name (copied_cron_job cron_job) (
          subst (λ n. Among n (desired p policy)) (sym named) among,
          g.1 ∙ same.1,
          (copied_cron_job cron_job cron_job, same.2, λ c. refl),
        ))
        (λ u v. named) (λ e. tt)

  schedule_storage-Gated :
      (storage_name : Text) (rendered : Option CronJob)
      → MaybeNamed p policy storage_name rendered
      → Among (cron_name p policy storage_name) (desired p policy)
      → Gated (NamedFor storage_name) (schedule_storage p policy rendered)
  unfolding schedule_storage
  schedule_storage-Gated storage_name none named among = tt
  schedule_storage-Gated storage_name (some rendered) named among =
      owned_cron_job-Gated storage_name rendered _
        (keeps_names backup_policy_kind policy.metadata rendered.metadata) among named

  abbrev Names : List BackupStorage → Reply (List Text) → Type 0
  Names storages x = Good (λ names. names ≡ map (cron_name p policy) (storage_names storages)) x

  pub schedule_loop-Gated :
      (r : ResolvedPolicy) (storages : List BackupStorage)
      → All (λ n. Among (cron_name p policy n) (desired p policy)) (storage_names storages)
      → Gated (Names storages) (schedule_loop p policy r storages)
  unfolding schedule_loop
  schedule_loop-Gated r [] h = refl
  schedule_loop-Gated r (storage ∷ storages) h =
      Obeys-try (PolicyIs stored) (Schedules p policy)
        (λ name. name ≡ cron_name p policy storage.name) (Names (storage ∷ storages))
        (schedule_storage p policy
          (build_backup_cron_job p policy r.source r.addon storage r.retention))
        _
        (schedule_storage-Gated storage.name _
          (build_backup_cron_job-Named p policy r.source r.addon storage r.retention) h.0)
        (λ name e.
          Obeys-try (PolicyIs stored) (Schedules p policy)
            (λ names. names ≡ map (cron_name p policy) (storage_names storages))
            (Names (storage ∷ storages)) (schedule_loop p policy r storages)
            (λ names. ret (ok (name ∷ names))) (schedule_loop-Gated r storages h.1)
            (λ names f. rw (e, f) refl) (λ m. tt))
        (λ m. tt)

  unless_gone-Gated :
      (rest : Prog (Reply Unit)) (x : Reply Unit)
      → Gated (λ u. Unit) rest
      → Gated (λ u. Unit) (unless_gone rest x)
  unfolding unless_gone
  unless_gone-Gated rest (ok u) h = h
  unless_gone-Gated rest (err (not_found m)) h = h
  unless_gone-Gated rest (err (already_exists m)) h = tt
  unless_gone-Gated rest (err (conflict m)) h = tt
  unless_gone-Gated rest (err (other m)) h = tt

  delete_and : CronJob → Prog (Reply Unit) → Prog (Reply Unit)
  delete_and item rest = request (delete_cron_job item) >>= unless_gone rest

  pub delete_stale-Gated :
      (names : List Text) (items : List CronJob)
      → names ≡ desired p policy
      → Gated (λ u. Unit) (delete_stale names items)
  unfolding delete_stale ◌>>=◌
  delete_stale-Gated names [] e = tt
  delete_stale-Gated names (item ∷ items) e =
      let rest = delete_stale-Gated names items e in
      Obeys-if (PolicyIs stored) (Schedules p policy) (λ u. Unit) (is_among item.name names)
        (delete_stale names items) _ (λ h. rest)
        (λ h. (subst (λ ns. is_among item.name ns ≡ false) e h, λ x rx. unless_gone-Gated _ x rest))
