-- ===== src/Examples/Data.antt =====
-- The inputs of the examples.
use dataprotection.Base.{
  refl, List, [], ◌∷◌, none, some, true, false, Text, codes, pos, text_eq, text_eq_iff, ◌≡◌, ◌≢◌,
}
use dataprotection.Kube.Meta.{Time, new_meta, condition_true}
use dataprotection.Kube.Core.{EnvVar, PodSpec}
use dataprotection.Kube.Batch.{Job, job_complete}
use dataprotection.Api.Common.{
  ResourcePhase, ProbeResult, NotificationDeliveryPhase, StorageType, JobRuntimeSpec,
}
use dataprotection.Api.Config.{BackupStorage, BackupSource, BackupPolicySpec, BackupStorageSpec}
use dataprotection.Api.Execution.{RestoreJob, RestoreImportSource, RestoreJobSpec, Snapshot}
use dataprotection.Platform.{KeepsNames, Platform, ascii_tables}
use dataprotection.Effects.{Reply, ok, Prog}
use dataprotection.Retention.Safety.{IsRetry}
use dataprotection.Runtime.Env.{env_var}

abbrev pub nightly_parts : List Text
nightly_parts = codes "nightly_Backup" ∷ codes "nas.1" ∷ codes "backup" ∷ []

abbrev pub import_source : RestoreImportSource
import_source = record {
  storage_ref = record { name = codes "nas" };
  path = codes "dumps//2024/../db.tgz";
  format = codes " Archive";
  series = codes "";
  snapshot = codes "";
}

abbrev pub runtime : JobRuntimeSpec
runtime = record {
  service_account_name = codes "";
  image_pull_policy = codes "";
  node_selector = [];
  tolerations = [];
  resources = record { requests = none; limits = none };
  active_deadline_seconds = none;
  ttl_seconds_after_finished = none;
  priority_class_name = codes "";
}

abbrev pub policy_spec : BackupPolicySpec
policy_spec = record {
  source_ref = record { name = codes "db" };
  storage_refs = record { name = codes "nas" } ∷ record { name = codes "s3" } ∷ [];
  schedule = record {
    cron = codes "0 2 * * *";
    suspend = false;
    starting_deadline_seconds = none;
    concurrency_policy = codes "";
  };
  retention_ref = none;
  notification_refs = [];
  job_runtime = runtime;
  suspend = false;
}

abbrev pub restore_spec : RestoreJobSpec
restore_spec = record {
  source_ref = record { name = codes "db" };
  snapshot_ref = record { name = codes "" };
  import_source = some import_source;
  target_ref = none;
  endpoint = none;
  parameters = [];
  secret_refs = [];
  notification_refs = [];
  job_runtime = runtime;
  reason = codes "";
}

abbrev pub storage_spec : BackupStorageSpec
storage_spec = record {
  type = StorageType.nfs;
  nfs = some (record { server = codes "10.0.0.1"; path = codes "/export" });
  minio = none;
}

abbrev pub snapshot : Text → Time → Snapshot
snapshot name t = record {
  metadata = new_meta name (codes "prod") [] [];
  spec = record {
    series = codes "s";
    source_ref = record { name = codes "db" };
    storage_ref = record { name = codes "nas" };
    policy_ref = none;
    backup_job_ref = none;
    native_job_name = codes "job";
    backend_path = codes "series/db";
    snapshot = name;
    checksum = codes "";
    size = pos 10;
  };
  status = record {
    phase = ResourcePhase.succeeded;
    observed_generation = 0;
    started_at = none;
    completed_at = some t;
    message = codes "";
    latest = true;
    artifact_ready = true;
    conditions = [];
  };
}

abbrev pub two_snapshots : List Snapshot
two_snapshots = snapshot (codes "a") 10 ∷ snapshot (codes "b") 20 ∷ []

abbrev pod : PodSpec
pod = record {
  restart_policy = codes "Never";
  service_account_name = codes "";
  priority_class_name = codes "";
  node_selector = [];
  tolerations = [];
  volumes = [];
  init_containers = [];
  containers = [];
}

abbrev pub finished_job : Job
finished_job = record {
  metadata = new_meta (codes "cleanup") (codes "prod") [] [];
  spec = record {
    parallelism = some (pos 1);
    completions = some (pos 1);
    active_deadline_seconds = none;
    backoff_limit = none;
    ttl_seconds_after_finished = none;
    template_labels = [];
    template_annotations = [];
    pod_spec = pod;
  };
  status = record {
    conditions =
        record {
          type = job_complete;
          status = condition_true;
          message = codes "";
          last_transition_time = 5;
        }
        ∷ [];
    active = 0;
    start_time = some 1;
  };
}

abbrev pub immediate : Prog (Reply Unit) → Prog (Reply Unit)
immediate m = m

pub immediate-IsRetry : IsRetry immediate
immediate-IsRetry = record { keeps = λ R G Q m h. h }

abbrev pub platform : Platform
platform = record {
  unicode = ascii_tables;
  getenv = λ key. codes "";
  marshal = λ s. some (codes "{}");
  unmarshal = λ t. none;
  format_time = λ t. codes "2024-01-01T00:00:00Z";
  set_status_condition = λ cs c. c ∷ cs;
  set_controller_reference = λ kind owner m. ok m;
  retry_on_conflict = immediate;
}

abbrev pub two_vars : List EnvVar
two_vars = env_var (codes "A") (codes "1") ∷ env_var (codes "B") (codes "2") ∷ []

abbrev pub one_var : List EnvVar
one_var = env_var (codes "A") (codes "3") ∷ []

abbrev pub env_name : EnvVar → Text
env_name e = e.name

-- Texts that the test tells apart are different.
pub apart : (s t : Text) → text_eq s t ≡ false → s ≢ t
apart s t h e = cc ((text_eq_iff s t).1 e)

abbrev pub storage : BackupStorage
storage = record {
  metadata = new_meta (codes "nas") (codes "prod") [] [];
  spec = storage_spec;
  status = record {
    phase = ResourcePhase.configured;
    observed_generation = 1;
    last_validated_time = none;
    last_probe_time = none;
    last_probe_result = ProbeResult.unset;
    last_probe_message = codes "";
    message = codes "";
    conditions = [];
  };
}

abbrev pub source : BackupSource
source = record {
  metadata = new_meta (codes "db") (codes "prod") [] [];
  spec = record {
    addon_ref = record { name = codes "postgres" };
    target_ref = none;
    endpoint = record {
      host = codes "db";
      port = pos 5432;
      scheme = codes "";
      service_ref = none;
      username = codes "";
      username_from = none;
      password_from = none;
    };
    parameters = [];
    secret_refs = [];
    paused = false;
  };
  status = record {
    phase = ResourcePhase.configured;
    observed_generation = 1;
    last_validated_time = none;
    message = codes "";
    conditions = [];
  };
}

abbrev pub restore_job : RestoreJob
restore_job = record {
  metadata = new_meta (codes "back") (codes "prod") [] [];
  spec = restore_spec;
  status = record {
    phase = ResourcePhase.unset;
    observed_generation = 0;
    started_at = none;
    completed_at = none;
    message = codes "";
    native_job_name = codes "";
    storage_probe_result = ProbeResult.unset;
    storage_probe_message = codes "";
    notification = record {
      phase = NotificationDeliveryPhase.unset;
      attempts = pos 0;
      last_attempt_time = none;
      last_delivered_time = none;
      message = codes "";
    };
    conditions = [];
  };
}

pub platform-KeepsNames : KeepsNames platform
platform-KeepsNames kind owner meta = (refl, refl)
