-- ===== src/Examples/Controllers.antt =====
-- The theorems on the controllers, the notifications and the gateway at concrete inputs.
use dataprotection.Base.{
  is_blank, join, text_eq, List, [], ◌∷◌, ◌++◌, Option, none, some, true, false, pos, Text, codes,
  trim_space, is_space, trim, trim_left, text_lt, ◌≡◌, ◌↔◌, refl,
}
use dataprotection.Base.Sort.{sort}
use dataprotection.Kube.Meta.{Time, lookup}
use dataprotection.Naming.{build_label_value, build_dns_label_name, sanitize_step}
use dataprotection.Base.Utf8.{len}
use dataprotection.Kube.Core.{LocalObjectReference}
use dataprotection.Kube.Batch.{CronJob, Job}
use dataprotection.Api.Common.{ResourcePhase}
use dataprotection.Api.Config.{
  BackupAddon, BackupSource, BackupStorage, RetentionPolicy, NotificationEndpoint,
}
use dataprotection.Messages.{NotificationDispatchRequest}
use dataprotection.Validate.{
  validate_storage, validate_backend, validate_nfs, validate_source, validate_addon,
  validate_endpoint, validate_retention,
}
use dataprotection.Validate.Specs.{HasBackend}
use dataprotection.Effects.{
  Request, Outcome, now, get_addon, get_source, get_storage, get_endpoint, get_retention,
  patch_addon_status, patch_source_status, patch_storage_status, patch_retention_status,
  patch_endpoint_status, run, trace, ◌>>=◌,
}
use dataprotection.Effects.Obeys.{Obeys}
use dataprotection.Notifications.{
  post_method, dispatch_notifications, resolve_notification_targets, resolve_target,
  secret_headers_loop, target_of, with_targets, with_answer, gateway_url,
}
use dataprotection.Notifications.Delivered.{ReachedAll, dispatch_notifications-Reached}
use dataprotection.Gateway.{decoded, handle_notification_dispatch, result_of}
use dataprotection.Gateway.Reports.{full_answer, handle_notification_dispatch-Reports}
use dataprotection.Runtime
use dataprotection.Runtime.Merging.{insert_all}
use dataprotection.Runtime.Labels.{notification_ref_names}
use dataprotection.Controllers.BackupJobs
use dataprotection.Controllers.BackupJobs.Native
use dataprotection.Controllers.BackupJobs.Gate.{MayBackup, HasCompleted, reconcile-Justified}
use dataprotection.Controllers.Configuration.{
  reconcile_addon, reconcile_source, reconcile_storage, reconcile_endpoint, reconcile_retention,
}
use dataprotection.Controllers.Configuration.Verdicts.{
  IsUsable, addon_requests, reconcile_storage-Reports, reconcile_source-Reports,
  reconcile_configuration-Reports,
}
use dataprotection.Controllers.Policies
use dataprotection.Controllers.Policies.{latest_cron_schedule_time}
use dataprotection.Controllers.Policies.Loops.{PolicyIs, Schedules}
use dataprotection.Controllers.Policies.Schedules.{reconcile-Schedules}
use dataprotection.Controllers.Policies.Latest.{
  IsGreatest, schedule_times, latest_cron_schedule_time-Greatest,
}
use dataprotection.Controllers.JobObserver
use dataprotection.Controllers.JobObserver.Scope.{JobIs, OnlyEligible, reconcile-Eligible}
use dataprotection.Controllers.Policies.Totality.{StoragesValidate, reconcile-Returns}
use dataprotection.Effects.Ends.{IsBoundedRetry}
use dataprotection.Controllers.JobObserver.{parse_notification_annotation}
use dataprotection.Controllers.JobObserver.Annotation.{endpoint_names, parse-notification_ref_names}
use dataprotection.Examples.Data.{
  immediate, platform, platform-KeepsNames, immediate-IsRetry, storage, source, finished_job,
}
use dataprotection.Examples.Cluster.{
  addon, policy, retention, endpoint, event, store, network, cluster, cluster-IsConnected,
}

reconcile-Justified_example :
    Obeys
      (Native.StoreIs store)
      (Native.OnlyIf (MayBackup store store.job) (HasCompleted platform store store.job))
      Native.AnyOutcome
      (BackupJobs.reconcile platform (codes "prod") (codes "b1"))
reconcile-Justified_example =
    reconcile-Justified platform store (codes "prod") (codes "b1") immediate-IsRetry

reconcile-Schedules_example :
    Obeys
      (PolicyIs policy)
      (Schedules platform policy)
      (λ o. Unit)
      (Policies.reconcile platform (codes "prod") (codes "nightly"))
unfolding trim_space trim trim_left is_space
reconcile-Schedules_example =
    reconcile-Schedules platform policy (codes "prod") (codes "nightly") immediate-IsRetry
      platform-KeepsNames ((refl, refl), ((refl, refl), tt))

-- A cron job that was started at a time.
abbrev started : Text → Option Time → CronJob
started name t = record {
  metadata = record storage.metadata { name = name };
  spec = record {
    schedule = codes "";
    suspend = false;
    concurrency_policy = codes "";
    starting_deadline_seconds = none;
    successful_jobs_history_limit = none;
    failed_jobs_history_limit = none;
    job_labels = [];
    job_annotations = [];
    job_spec = finished_job.spec;
  };
  last_schedule_time = t;
}

latest_cron_schedule_time-Greatest_example :
    IsGreatest
      (schedule_times
        (started (codes "a") (some 5) ∷ started (codes "b") (some 9) ∷ [])
        (codes "a" ∷ []))
      (latest_cron_schedule_time
        (started (codes "a") (some 5) ∷ started (codes "b") (some 9) ∷ [])
        (codes "a" ∷ []))
latest_cron_schedule_time-Greatest_example =
    latest_cron_schedule_time-Greatest
      (started (codes "a") (some 5) ∷ started (codes "b") (some 9) ∷ []) (codes "a" ∷ [])

abbrev two_endpoints : List LocalObjectReference
two_endpoints = record { name = codes "slack" } ∷ record { name = codes " mail" } ∷ []

no_comma : {A : Type 0} {a : A} → (a ≡ a) × ((a ≡ a) × ((a ≡ a) × ((a ≡ a) × ((a ≡ a) × Unit {0}))))
no_comma = (refl, (refl, (refl, (refl, (refl, tt)))))

parse-notification_ref_names_example :
    parse_notification_annotation (notification_ref_names two_endpoints)
    ≡ sort text_lt (endpoint_names two_endpoints)
parse-notification_ref_names_example =
    parse-notification_ref_names two_endpoints (no_comma, (no_comma, tt))

reconcile_storage-Reports_example :
    (new : BackupStorage) × (trace network
        (reconcile_storage platform (λ t. t) (λ t. none) (codes "prod") (codes "nas"))
      ≡ get_storage (codes "prod") (codes "nas") ∷ now ∷ patch_storage_status storage new ∷ [])
    × ((new.status.phase ≡ ResourcePhase.configured) ↔ HasBackend storage.spec storage.spec.type)
    × (new.status.observed_generation ≡ storage.generation)
    × (new.spec ≡ storage.spec)
    × (new.metadata ≡ storage.metadata)
reconcile_storage-Reports_example =
    reconcile_storage-Reports platform (λ t. t) (λ t. none) network (codes "prod") (codes "nas")
      storage refl

reconcile_source-Reports_example :
    (new : BackupSource) × (trace network
        (reconcile_source platform (λ t. t) (λ t. none) (codes "prod") (codes "db"))
      ≡ get_source (codes "prod") (codes "db")
        ∷ now
        ∷ (addon_requests source (validate_source source.spec)
            ++ now ∷ patch_source_status source new ∷ []))
    × ((new.status.phase ≡ ResourcePhase.configured)
        ↔ IsUsable network source (validate_source source.spec))
    × (new.status.observed_generation ≡ source.generation)
    × (new.status.last_validated_time ≡ some (network now))
    × (new.spec ≡ source.spec)
    × (new.metadata ≡ source.metadata)
reconcile_source-Reports_example =
    reconcile_source-Reports platform (λ t. t) (λ t. none) network (codes "prod") (codes "db")
      source refl

reconcile_configuration-Reports_example :
    ((new : BackupAddon) × (trace network
          (reconcile_addon platform (λ t. t) (λ t. none) (codes "x"))
        ≡ get_addon (codes "x") ∷ now ∷ patch_addon_status addon new ∷ [])
      × ((new.status.phase ≡ ResourcePhase.configured) ↔ (validate_addon addon.spec ≡ none))
      × (new.status.observed_generation ≡ addon.generation)
      × (new.spec ≡ addon.spec))
    × ((new : NotificationEndpoint) × (trace network
            (reconcile_endpoint platform (λ t. t) (λ t. none) (codes "prod") (codes "x"))
          ≡ get_endpoint (codes "prod") (codes "x") ∷ now ∷ patch_endpoint_status endpoint new ∷ [])
        × ((new.status.phase ≡ ResourcePhase.configured)
            ↔ (validate_endpoint (λ t. none) endpoint.spec ≡ none))
        × (new.status.observed_generation ≡ endpoint.generation)
        × (new.spec ≡ endpoint.spec))
    × ((new : RetentionPolicy) × (trace network
            (reconcile_retention platform (λ t. t) (λ t. none) (codes "prod") (codes "x"))
          ≡ get_retention (codes "prod") (codes "x")
            ∷ now
            ∷ patch_retention_status retention new
            ∷ [])
        × ((new.status.phase ≡ ResourcePhase.configured)
            ↔ (validate_retention retention.spec ≡ none))
        × (new.status.observed_generation ≡ retention.generation)
        × (new.spec ≡ retention.spec))
reconcile_configuration-Reports_example =
    reconcile_configuration-Reports platform (λ t. t) (λ t. none) network (codes "prod") (codes "x")
      addon endpoint retention refl refl refl

abbrev one_target : NotificationDispatchRequest
one_target = record {
  event = event;
  targets =
      record {
        name = codes "hook";
        url = codes "http://hook";
        method = codes "";
        headers = [];
        timeout_seconds = pos 10;
        insecure_skip_tls_verify = false;
      }
      ∷ [];
}

handle_notification_dispatch-Reports_example :
    run cluster (handle_notification_dispatch post_method (decoded one_target))
    ≡ some (full_answer cluster one_target.event one_target.targets)
handle_notification_dispatch-Reports_example =
    handle_notification_dispatch-Reports cluster one_target

abbrev one_endpoint : List LocalObjectReference
one_endpoint = record { name = codes "hook" } ∷ []

dispatch_notifications-Reached_example :
    ReachedAll cluster event
      (run cluster (resolve_notification_targets (codes "prod") one_endpoint))
unfolding dispatch_notifications resolve_notification_targets resolve_target secret_headers_loop
    target_of with_targets with_answer gateway_url insert_all result_of ◌>>=◌
dispatch_notifications-Reached_example =
    dispatch_notifications-Reached platform cluster event (codes "prod") one_endpoint
      cluster-IsConnected refl

-- A native job of a scheduled backup, which has ended.
abbrev observed_job : Job
observed_job = record finished_job {
  metadata = record finished_job.metadata {
    labels =
        (Runtime.managed_by_label, Runtime.managed_by_value)
        ∷ (Runtime.operation_label, codes "backup")
        ∷ (Runtime.execution_kind_label, codes "backuppolicy")
        ∷ (Runtime.source_name_label, codes "db")
        ∷ (Runtime.storage_name_label, codes "nas")
        ∷ [];
    annotations = (Runtime.notification_refs_annotation, codes "hook") ∷ [];
  };
}

-- The job is one that the job observer observes.
observed_job-is_observed : JobObserver.is_observed platform observed_job ≡ true
unfolding JobObserver.is_observed text_eq lookup build_label_value build_dns_label_name len join
    trim_space sanitize_step
observed_job-is_observed = refl

reconcile-Eligible_example :
    Obeys
      (JobIs observed_job)
      (OnlyEligible platform observed_job)
      (λ a. Unit)
      (JobObserver.reconcile platform (codes "prod") (codes "cleanup"))
reconcile-Eligible_example =
    reconcile-Eligible platform observed_job (codes "prod") (codes "cleanup") immediate-IsRetry

immediate-IsBoundedRetry : IsBoundedRetry immediate
immediate-IsBoundedRetry = record { ends = λ R Q m h. h }

network-StoragesValidate : (r : Request) → StoragesValidate (λ t. t) r (network r)
unfolding validate_storage validate_backend validate_nfs is_blank trim_space trim trim_left is_space
network-StoragesValidate (get_storage ns name) = refl
network-StoragesValidate r = tt

reconcile-Returns_example :
    (outcome : Outcome) × (run network
        (Policies.reconcile platform (codes "prod") (codes "nightly"))
      ≡ some outcome)
reconcile-Returns_example =
    reconcile-Returns platform (λ t. t) network (codes "prod") (codes "nightly")
      immediate-IsBoundedRetry network-StoragesValidate
