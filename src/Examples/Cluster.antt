-- ===== src/Examples/Cluster.antt =====
-- An API server, a clock and a network for the examples of the controllers.
use dataprotection.Base.{[], ◌∷◌, none, some, false, codes, pos, refl, sym, subst, ℕ}
use dataprotection.Kube.Meta.{new_meta}
use dataprotection.Api.Common.{ResourcePhase, ProbeResult}
use dataprotection.Api.Config.{BackupAddon, BackupPolicy, NotificationEndpoint, RetentionPolicy}
use dataprotection.Api.Execution.{BackupJob}
use dataprotection.Messages.{
  NotificationEvent, NotificationDispatchResponse, Sent, unsent, answered,
}
use dataprotection.Effects.{
  ok, now, get_addon, get_source, get_storage, get_policy, get_retention, get_snapshot,
  get_endpoint, get_job, get_backup_job, get_restore_job, list_snapshots, list_pods, list_cron_jobs,
  get_secret, post_dispatch, post_event,
}
use dataprotection.Effects.Run.{Oracle}
use dataprotection.Gateway.{Body, plain, encoded, Answer}
use dataprotection.Gateway.Reports.{full_answer, handle_notification_dispatch-Reports}
use dataprotection.Notifications.Delivered.{Carries, IsConnected}
use dataprotection.Controllers.BackupJobs.Native.{Store}
use dataprotection.Examples.Data.{
  policy_spec, runtime, snapshot, storage, source, finished_job, restore_job,
}

abbrev pub addon : BackupAddon
addon = record {
  metadata = new_meta (codes "postgres") (codes "") [] [];
  spec = record {
    display_name = codes "";
    version = codes "";
    supported_kinds = [];
    parameters = [];
    backup_template = record {
      image = codes "postgres:16";
      command = codes "backup" ∷ [];
      args = [];
      env = [];
      working_dir = codes "";
    };
    restore_template = none;
  };
  status = record {
    phase = ResourcePhase.unset;
    observed_generation = 0;
    message = codes "";
    conditions = [];
  };
}

abbrev pub policy : BackupPolicy
policy = record {
  metadata = new_meta (codes "nightly") (codes "prod") [] [];
  spec = policy_spec;
  status = record {
    phase = ResourcePhase.unset;
    observed_generation = 0;
    last_schedule_time = none;
    message = codes "";
    cron_job_names = [];
    conditions = [];
  };
}

abbrev pub retention : RetentionPolicy
retention = record {
  metadata = new_meta (codes "week") (codes "prod") [] [];
  spec = record {
    successful_snapshots = record { keep_last = pos 7 };
    failed_executions = record { keep_last = pos 1 };
  };
  status = record {
    phase = ResourcePhase.unset;
    observed_generation = 0;
    message = codes "";
    conditions = [];
  };
}

abbrev pub endpoint : NotificationEndpoint
endpoint = record {
  metadata = new_meta (codes "hook") (codes "prod") [] [];
  spec = record {
    url = codes "http://hook";
    method = codes "";
    headers = [];
    secret_headers = [];
    timeout_seconds = pos 0;
    insecure_skip_tls_verify = false;
  };
  status = record {
    phase = ResourcePhase.unset;
    observed_generation = 0;
    message = codes "";
    conditions = [];
  };
}

abbrev pub event : NotificationEvent
event = record {
  type = codes "BackupSucceeded";
  namespace = codes "prod";
  resource_kind = codes "BackupJob";
  resource_name = codes "b1";
  phase = codes "Succeeded";
  message = codes "done";
  source_name = codes "db";
  storage_name = codes "nas";
  snapshot_name = codes "s1";
  native_job_name = codes "j1";
  series = codes "s";
  timestamp = codes "2024-01-01T00:00:00Z";
  attributes = [];
}

abbrev pub backup_job : BackupJob
backup_job = record {
  metadata = new_meta (codes "b1") (codes "prod") [] [];
  spec = record {
    policy_ref = none;
    source_ref = record { name = codes "db" };
    storage_ref = record { name = codes "nas" };
    retention_ref = none;
    notification_refs = [];
    job_runtime = runtime;
    snapshot_name = codes "";
    reason = codes "";
  };
  status = record {
    phase = ResourcePhase.unset;
    observed_generation = 0;
    started_at = none;
    completed_at = none;
    message = codes "";
    native_job_name = codes "";
    series = codes "";
    snapshot_ref = codes "";
    storage_probe_result = ProbeResult.unset;
    storage_probe_message = codes "";
    notification = restore_job.status.notification;
    conditions = [];
  };
}

abbrev pub store : Store
store = record {
  job = backup_job;
  sources = λ ns name. ok source;
  storages = λ ns name. ok storage;
  natives = λ ns name. ok finished_job;
}

-- Everything is there, every target answers, and the gateway cannot be reached.
abbrev pub network : Oracle
network now = 7
network (get_addon name) = ok addon
network (get_source ns name) = ok source
network (get_storage ns name) = ok storage
network (get_policy ns name) = ok policy
network (get_retention ns name) = ok retention
network (get_snapshot ns name) = ok (snapshot name 10)
network (get_endpoint ns name) = ok endpoint
network (get_job ns name) = ok finished_job
network (get_backup_job ns name) = ok backup_job
network (get_restore_job ns name) = ok restore_job
network (list_snapshots ns) = ok []
network (list_pods ns name) = ok []
network (list_cron_jobs ns labels) = ok []
network (get_secret ns name) = ok []
network (post_dispatch url r) = unsent (codes "connection refused")
network (post_event d) = answered 200 (codes "200 OK") tt
network _ = ok tt

abbrev sent_as : (code : ℕ) → Body → Sent NotificationDispatchResponse
sent_as code (plain message) = unsent message
sent_as code (encoded response) = answered code (codes "") response

-- The same with the gateway at its place.
abbrev pub cluster : Oracle
cluster (post_dispatch url r) =
    sent_as (full_answer network r.event r.targets).code
      (full_answer network r.event r.targets).body
cluster r = network r

sent_as-Carries : (a : Answer) → Carries (some a) (sent_as a.code a.body)
sent_as-Carries a = sent a.code a.body
  where
    sent :
        (code : ℕ) (body : Body)
        → Carries (some (record { code = code; body = body })) (sent_as code body)
    sent code (plain message) = tt
    sent code (encoded response) = (refl, refl)

pub cluster-IsConnected : IsConnected cluster
cluster-IsConnected url r =
    subst (λ a. Carries a (cluster (post_dispatch url r)))
      (sym (handle_notification_dispatch-Reports cluster r))
      (sent_as-Carries (full_answer cluster r.event r.targets))
