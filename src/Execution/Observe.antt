-- ===== src/Execution/Observe.antt =====
-- controllers/execution_helpers.go and common.go: what a controller does once a native job has ended.
-- The proofs are in the module below this one.
pub mod Success
pub mod Requests
use dataprotection.Base.{
  ℕ, List, [], ◌∷◌, ◌++◌, Option, none, some, Bool, true, false, Text, codes, if◌then◌else◌,
  is_empty, trim_space, ℤ, pos,
}
use dataprotection.Base.Sort.{sort}
use dataprotection.Kube.Meta.{Time, TextMap, condition_true, new_meta}
use dataprotection.Kube.Core.{Pod, LocalObjectReference}
use dataprotection.Kube.Batch.{Job}
use dataprotection.Api.Common.{ResourcePhase, ProbeResult}
use dataprotection.Api.Config.{BackupSource, BackupStorage}
use dataprotection.Api.Execution.{Snapshot, SnapshotSpec}
use dataprotection.Platform.{Platform}
use dataprotection.Summary.{StorageProbeSummary, ArtifactSummary}
use dataprotection.Naming.{build_snapshot_name}
use dataprotection.Effects.{
  not_found, Reply, ok, err, now, get_snapshot, get_storage, list_pods, create_snapshot,
  update_snapshot, update_snapshot_status, update_storage_status, Prog, ret, request, ◌>>=◌, try,
}
use dataprotection.Retention.{reconcile_snapshot_series}
use dataprotection.Runtime
use dataprotection.Runtime.Labels.{label}
use dataprotection.Execution.{
  or_message, job_terminal_state, job_completed_at, newer_pod, mark_condition,
  build_storage_observation_from_pod,
}

pub record TerminalBackupObservation : Type 0 where
  pub phase : ResourcePhase
  pub message : Text
  pub completed_at : Option Time
  pub storage_probe_result : ProbeResult
  pub storage_probe_message : Text
  pub snapshot_ref : Text

pub record TerminalRestoreObservation : Type 0 where
  pub phase : ResourcePhase
  pub message : Text
  pub completed_at : Option Time
  pub storage_probe_result : ProbeResult
  pub storage_probe_message : Text

unfoldable pub phase_message : ResourcePhase → Text
phase_message ResourcePhase.configured = codes "resource specification is configured"
phase_message ResourcePhase.running = codes "resource is actively running"
phase_message ResourcePhase.succeeded = codes "request completed successfully"
phase_message ResourcePhase.failed = codes "resource reconciliation failed"
phase_message ResourcePhase.paused = codes "resource is suspended"
phase_message phase = codes "resource is pending reconciliation"

unfoldable pub newest_pod : Text → List Pod → Reply Pod
newest_pod name [] = err (not_found (codes "pods \"" ++ name ++ codes "\" not found"))
newest_pod name (pod ∷ pods) = ok pod

unfoldable pub find_latest_job_pod : Job → Prog (Reply Pod)
unfolding newest_pod ◌>>=◌
find_latest_job_pod job =
    try (request (list_pods job.namespace job.name))
      λ pods. ret (newest_pod job.name (sort newer_pod pods))

-- The probe of a storage that an observation starts with.
abbrev pub probe_result : Option StorageProbeSummary → ProbeResult
probe_result none = ProbeResult.unset
probe_result (some probe) = probe.result

abbrev pub probe_message : Option StorageProbeSummary → Text
probe_message none = codes ""
probe_message (some probe) = probe.message

-- The result of an observation that no container reported.
unfoldable pub settled_result : ProbeResult → ResourcePhase → ProbeResult
settled_result ProbeResult.unset ResourcePhase.succeeded = ProbeResult.succeeded
settled_result ProbeResult.unset phase = ProbeResult.unknown
settled_result result phase = result

-- The message of a failed job with that of its pod.
unfoldable pub failure_text : ResourcePhase → Text → Text → Text
failure_text ResourcePhase.failed message pod_message = message ++ codes "; " ++ pod_message
failure_text phase message pod_message = message

-- A snapshot that does not exist yet.
abbrev pub blank_snapshot : Text → Text → TextMap → TextMap → SnapshotSpec → Snapshot
blank_snapshot name namespace labels annotations spec = record {
  metadata = new_meta name namespace labels annotations;
  spec = spec;
  status = record {
    phase = ResourcePhase.unset;
    observed_generation = 0;
    started_at = none;
    completed_at = none;
    message = codes "";
    latest = false;
    artifact_ready = false;
    conditions = [];
  };
}

-- What a snapshot says of its artifact.
unfoldable pub snapshot_spec :
    Job
    → BackupSource
    → BackupStorage
    → Option LocalObjectReference
    → Option LocalObjectReference
    → Text
    → ArtifactSummary
    → SnapshotSpec
snapshot_spec job source storage policy_ref backup_job_ref series artifact = record {
  series = series;
  source_ref = record { name = source.name };
  storage_ref = record { name = storage.name };
  policy_ref = policy_ref;
  backup_job_ref = backup_job_ref;
  native_job_name = job.name;
  backend_path = artifact.backend_path;
  snapshot = artifact.snapshot;
  checksum = artifact.checksum;
  size = artifact.size;
}

module _ (p : Platform) where
  unfoldable pub update_backup_storage_probe : Text → Text → ProbeResult → Text → Prog (Reply Unit)
  unfolding phase_message ◌>>=◌
  update_backup_storage_probe namespace name result message = p.retry_on_conflict (
      try (request (get_storage namespace name)) λ storage. request now >>= λ t. request (
        update_storage_status (record storage {
          status = record storage.status {
            observed_generation = storage.generation;
            last_probe_time = some t;
            last_probe_result = result;
            last_probe_message =
                or_message (trim_space message) (phase_message storage.status.phase);
          };
        })))

  -- The update of the storage, where a probe was reported.
  unfoldable pub record_probe : BackupStorage → Option StorageProbeSummary → Prog (Reply Unit)
  unfolding update_backup_storage_probe
  record_probe storage none = ret (ok tt)
  record_probe storage (some probe) =
      update_backup_storage_probe storage.namespace storage.name probe.result probe.message

  unfoldable pub create_or_update_snapshot :
      Snapshot → (Snapshot → Snapshot) → Reply Snapshot → Prog (Reply Unit)
  create_or_update_snapshot new fill (ok current) = request (update_snapshot (fill current))
  create_or_update_snapshot new fill (err (not_found m)) = request (create_snapshot (fill new))
  create_or_update_snapshot new fill (err e) = ret (err e)

  -- The body that is retried: the status of a snapshot whose artifact is ready.
  unfoldable pub mark_ready : Job → Text → Prog (Reply Unit)
  unfolding mark_condition ◌>>=◌
  mark_ready job name = try (request (get_snapshot job.namespace name)) λ latest.
      mark_condition p latest.status.conditions condition_true (codes "ArtifactReady")
        (codes "snapshot artifact is ready") latest.generation
      >>= λ conditions. request (
          update_snapshot_status (record latest {
            status = record {
              phase = ResourcePhase.succeeded;
              observed_generation = latest.generation;
              started_at = job.status.start_time;
              completed_at = job_completed_at job;
              message = codes "snapshot artifact is ready";
              latest = true;
              artifact_ready = true;
              conditions = conditions;
            };
          }))

  abbrev pub snapshot_name_of : Job → BackupStorage → Text
  snapshot_name_of job storage =
      build_snapshot_name p.unicode (job.name ∷ storage.name ∷ codes "snapshot" ∷ [])

  module _ (job : Job) (source : BackupSource) (storage : BackupStorage)
      (policy_ref backup_job_ref : Option LocalObjectReference) (series : Text)
      (artifact : ArtifactSummary) where
    -- The snapshot as it is created.
    abbrev pub new_snapshot : Snapshot
    new_snapshot =
        blank_snapshot (snapshot_name_of job storage) job.namespace
          ((Runtime.managed_by_label, Runtime.managed_by_value)
            ∷ (Runtime.operation_label, codes "snapshot")
            ∷ (Runtime.source_name_label, label p.unicode source.name)
            ∷ (Runtime.storage_name_label, label p.unicode storage.name)
            ∷ [])
          ((Runtime.series_annotation, series)
            ∷ (Runtime.backend_path_annotation, artifact.backend_path)
            ∷ [])
          (snapshot_spec job source storage policy_ref backup_job_ref series artifact)

    abbrev pub with_spec : Snapshot → Snapshot
    with_spec s = record s {
      spec = snapshot_spec job source storage policy_ref backup_job_ref series artifact;
    }

    -- The snapshot itself, created or brought up to date.
    unfoldable pub write_snapshot : Prog (Reply Unit)
    unfolding snapshot_spec create_or_update_snapshot ◌>>=◌
    write_snapshot =
        request (get_snapshot job.namespace (snapshot_name_of job storage))
        >>= create_or_update_snapshot new_snapshot with_spec

  unfoldable pub apply_retention : Job → Text → ℤ → Text → Prog (Reply Text)
  unfolding ◌>>=◌
  apply_retention job series keep_last name =
      try (reconcile_snapshot_series p.retry_on_conflict job.namespace series keep_last name)
        λ _. ret (ok name)

  unfoldable pub register_snapshot : Job → Text → ℤ → Text → Prog (Reply Text)
  unfolding mark_ready apply_retention ◌>>=◌
  register_snapshot job series keep_last name =
      try (p.retry_on_conflict (mark_ready job name)) λ _. apply_retention job series keep_last name

  unfoldable pub persist_snapshot :
      Job
      → BackupSource
      → BackupStorage
      → Option LocalObjectReference
      → Option LocalObjectReference
      → Text
      → ArtifactSummary
      → ℤ
      → Prog (Reply Text)
  unfolding write_snapshot register_snapshot ◌>>=◌
  persist_snapshot job source storage policy_ref backup_job_ref series artifact keep_last =
      try (write_snapshot job source storage policy_ref backup_job_ref series artifact)
        λ _. register_snapshot job series keep_last (snapshot_name_of job storage)

  module _ (job : Job) (source : BackupSource) (storage : BackupStorage)
      (policy_ref backup_job_ref : Option LocalObjectReference) (series : Text)
      (keep_last : ℤ) where
    -- The observation of a job whose artifact is registered, or that failed.
    unfoldable pub backup_observation :
        ResourcePhase → Text → Option StorageProbeSummary → Text → TerminalBackupObservation
    unfolding settled_result
    backup_observation phase message probe snapshot_ref = record {
      phase = phase;
      message = message;
      completed_at = job_completed_at job;
      storage_probe_result = settled_result (probe_result probe) phase;
      storage_probe_message = probe_message probe;
      snapshot_ref = snapshot_ref;
    }

    abbrev pub Observed : Type 0
    Observed = Reply (Option TerminalBackupObservation)

    unfoldable pub with_artifact :
        Option StorageProbeSummary → Option ArtifactSummary → Prog Observed
    unfolding persist_snapshot backup_observation ◌>>=◌
    with_artifact probe none = ret (
        ok (
          some (record {
            phase = ResourcePhase.failed;
            message = codes "job completed but artifact summary is missing";
            completed_at = job_completed_at job;
            storage_probe_result = probe_result probe;
            storage_probe_message = probe_message probe;
            snapshot_ref = codes "";
          })))
    with_artifact probe (some artifact) =
        try
          (persist_snapshot job source storage policy_ref backup_job_ref series artifact keep_last)
          λ name. ret (
            ok (
              some (
                backup_observation ResourcePhase.succeeded (codes "job completed successfully")
                  probe name)))

    unfoldable pub with_reports :
        ResourcePhase
        → Text
        → Option StorageProbeSummary
        → Option ArtifactSummary
        → Text
        → Prog Observed
    unfolding with_artifact backup_observation
    with_reports ResourcePhase.succeeded message probe artifact pod_message =
        with_artifact probe artifact
    with_reports phase message probe artifact pod_message =
        ret (ok (some (backup_observation phase (failure_text phase message pod_message) probe [])))

    unfoldable pub with_pod : ResourcePhase → Text → Reply Pod → Prog Observed
    unfolding with_reports record_probe ◌>>=◌
    with_pod phase message (err (not_found m)) =
        ret (ok (some (backup_observation phase message none [])))
    with_pod phase message (err e) = ret (err e)
    with_pod phase message (ok pod) =
        let ((probe, artifact), pod_message) = build_storage_observation_from_pod p pod in
        try (record_probe storage probe) λ _. with_reports phase message probe artifact pod_message

    unfoldable pub when_terminal : Option (ResourcePhase × Text) → Prog Observed
    unfolding with_pod find_latest_job_pod ◌>>=◌
    when_terminal none = ret (ok none)
    when_terminal (some (phase, message)) = find_latest_job_pod job >>= with_pod phase message

    unfoldable pub observe_terminal_backup_job : Prog Observed
    unfolding when_terminal
    observe_terminal_backup_job = when_terminal (job_terminal_state job)

  unfoldable pub restore_observation :
      Job → ResourcePhase → Text → Option StorageProbeSummary → TerminalRestoreObservation
  unfolding settled_result
  restore_observation job phase message probe = record {
    phase = phase;
    message = message;
    completed_at = job_completed_at job;
    storage_probe_result = settled_result (probe_result probe) phase;
    storage_probe_message = probe_message probe;
  }

  unfoldable pub with_restore_pod :
      Job
      → BackupStorage
      → ResourcePhase
      → Text
      → Reply Pod
      → Prog (Reply (Option TerminalRestoreObservation))
  unfolding record_probe restore_observation ◌>>=◌
  with_restore_pod job storage phase message (err (not_found m)) =
      ret (ok (some (restore_observation job phase message none)))
  with_restore_pod job storage phase message (err e) = ret (err e)
  with_restore_pod job storage phase message (ok pod) =
      let ((probe, _), pod_message) = build_storage_observation_from_pod p pod in
      try (record_probe storage probe) λ _.
        ret
          (ok (some (restore_observation job phase (failure_text phase message pod_message) probe)))

  unfoldable pub when_restore_terminal :
      Job
      → BackupStorage
      → Option (ResourcePhase × Text)
      → Prog (Reply (Option TerminalRestoreObservation))
  unfolding with_restore_pod find_latest_job_pod ◌>>=◌
  when_restore_terminal job storage none = ret (ok none)
  when_restore_terminal job storage (some (phase, message)) =
      find_latest_job_pod job >>= with_restore_pod job storage phase message

  unfoldable pub observe_terminal_restore_job :
      Job → BackupStorage → Prog (Reply (Option TerminalRestoreObservation))
  unfolding when_restore_terminal
  observe_terminal_restore_job job storage =
      when_restore_terminal job storage (job_terminal_state job)
