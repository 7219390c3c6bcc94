-- ===== src/Execution/Observe/Requests.antt =====
-- The requests that the observation of a native job makes: it reads, and it writes storages and snapshots.
use dataprotection.Base.{
  List, ℕ, suc, [], ◌∷◌, ℤ, Bool, Option, none, some, Text, text_eq, ltb_ℤ, leb_ℤ, pos, int32, ◌&&◌,
}
use dataprotection.Base.Sort.{sort}
use dataprotection.Kube.Core.{Pod, LocalObjectReference}
use dataprotection.Kube.Batch.{Job}
use dataprotection.Api.Common.{ResourcePhase}
use dataprotection.Api.Config.{BackupSource, BackupStorage}
use dataprotection.Api.Execution.{Snapshot}
use dataprotection.Platform.{Platform}
use dataprotection.Summary.{StorageProbeSummary, ArtifactSummary}
use dataprotection.Effects.{
  not_found, already_exists, conflict, other, Reply, ok, err, Request, now, get_storage,
  get_snapshot, list_snapshots, list_pods, create_snapshot, update_snapshot, update_snapshot_status,
  delete_snapshot, update_storage_status, Prog, ret, ◌>>=◌,
}
use dataprotection.Effects.Obeys.{
  Anything, Within, Within-bind, Within-after, Within-try, Within-if,
}
use dataprotection.Retention.{
  same_bool, unless_gone, delete_quietly, set_latest, series_loop, reconcile_snapshot_series,
}
use dataprotection.Retention.Safety.{IsRetry}
use dataprotection.Execution.{job_terminal_state, newer_pod, build_storage_observation_from_pod}
use dataprotection.Execution.Observe.{
  TerminalBackupObservation, newest_pod, find_latest_job_pod, update_backup_storage_probe,
  record_probe, create_or_update_snapshot, mark_ready, snapshot_name_of, new_snapshot, with_spec,
  write_snapshot, apply_retention, register_snapshot, persist_snapshot, with_artifact, with_reports,
  with_pod, when_terminal, observe_terminal_backup_job,
}

abbrev pub Observing : Request → Type 0
Observing now = Unit
Observing (get_storage ns name) = Unit
Observing (get_snapshot ns name) = Unit
Observing (list_snapshots ns) = Unit
Observing (list_pods ns name) = Unit
Observing (create_snapshot s) = Unit
Observing (update_snapshot s) = Unit
Observing (update_snapshot_status s) = Unit
Observing (delete_snapshot s) = Unit
Observing (update_storage_status s) = Unit
Observing _ = ⊥

abbrev Observes : {A : Type 0} → Prog A → Type 0
Observes m = Within Observing m

unless_gone-Observing :
    (rest : Prog (Reply Unit)) (x : Reply Unit) → Observes rest → Observes (unless_gone rest x)
unfolding unless_gone
unless_gone-Observing rest (ok u) h = h
unless_gone-Observing rest (err (not_found m)) h = h
unless_gone-Observing rest (err (already_exists m)) h = tt
unless_gone-Observing rest (err (conflict m)) h = tt
unless_gone-Observing rest (err (other m)) h = tt

set_latest-Observing : (ns name : Text) (latest : Bool) → Observes (set_latest ns name latest)
unfolding set_latest ◌>>=◌
set_latest-Observing ns name latest =
    (tt, λ x rx. Within-after Observing _ (λ s. (tt, λ y ry. tt)) x)

create_or_update_snapshot-Observing :
    (p : Platform) (new : Snapshot) (fill : Snapshot → Snapshot) (x : Reply Snapshot)
    → Observes (create_or_update_snapshot p new fill x)
unfolding create_or_update_snapshot
create_or_update_snapshot-Observing p new fill (ok current) = (tt, λ x rx. tt)
create_or_update_snapshot-Observing p new fill (err (not_found m)) = (tt, λ x rx. tt)
create_or_update_snapshot-Observing p new fill (err (already_exists m)) = tt
create_or_update_snapshot-Observing p new fill (err (conflict m)) = tt
create_or_update_snapshot-Observing p new fill (err (other m)) = tt

find_latest_job_pod-Observing : (native : Job) → Observes (find_latest_job_pod native)
unfolding find_latest_job_pod ◌>>=◌
find_latest_job_pod-Observing native = (
  tt,
  λ x rx.
      Within-after Observing (λ pods. ret (newest_pod native.name (sort newer_pod pods)))
        (λ pods. tt) x,
)

module _ (retry : Prog (Reply Unit) → Prog (Reply Unit)) (is_retry : IsRetry retry) where
  retry-Observing : (m : Prog (Reply Unit)) → Observes m → Observes (retry m)
  retry-Observing m h = is_retry.keeps Anything Observing (λ a. Unit) m h

  series_loop-Observing :
      (ns : Text) (keep_last : ℤ) (latest_name : Text) (index : ℕ) (items : List Snapshot)
      → Observes (series_loop retry ns keep_last latest_name index items)
  unfolding series_loop delete_quietly ◌>>=◌
  series_loop-Observing ns k latest_name index [] = tt
  series_loop-Observing ns k latest_name index (s ∷ rest) =
      let next = series_loop-Observing ns k latest_name (suc index) rest in
      Within-if Observing (ltb_ℤ (pos 0) k && leb_ℤ k (int32 index)) _ _
        (tt, λ x rx. unless_gone-Observing _ x next)
        (Within-if Observing (same_bool s.status.latest (text_eq s.name latest_name)) _ _ next (
          Within-try Observing (retry (set_latest ns s.name (text_eq s.name latest_name))) _
            (retry-Observing _ (set_latest-Observing ns s.name _)) (λ u. next)))

  reconcile_snapshot_series-Observing :
      (ns series : Text) (keep_last : ℤ) (latest_name : Text)
      → Observes (reconcile_snapshot_series retry ns series keep_last latest_name)
  unfolding reconcile_snapshot_series ◌>>=◌
  reconcile_snapshot_series-Observing ns series k latest_name =
      (tt, λ x rx. Within-after Observing _ (λ items. series_loop-Observing ns k latest_name 0 _) x)

module _ (p : Platform) (is_retry : IsRetry p.retry_on_conflict) where
  record_probe-Observing :
      (storage : BackupStorage) (probe : Option StorageProbeSummary)
      → Observes (record_probe p storage probe)
  unfolding record_probe update_backup_storage_probe ◌>>=◌
  record_probe-Observing storage none = tt
  record_probe-Observing storage (some probe) =
      retry-Observing p.retry_on_conflict is_retry _
        (tt, λ x rx. Within-after Observing _ (λ s. (tt, λ t rt. (tt, λ y ry. tt))) x)

  mark_ready-Observing : (native : Job) (name : Text) → Observes (mark_ready p native name)
  unfolding mark_ready ◌>>=◌
  mark_ready-Observing native name =
      (tt, λ x rx. Within-after Observing _ (λ s. (tt, λ t rt. (tt, λ y ry. tt))) x)

  module _ (native : Job) (source : BackupSource) (storage : BackupStorage)
      (policy_ref backup_job_ref : Option LocalObjectReference) (series : Text)
      (keep_last : ℤ) where
    write_snapshot-Observing :
        (artifact : ArtifactSummary)
        → Observes
            (write_snapshot p native source storage policy_ref backup_job_ref series artifact)
    unfolding write_snapshot ◌>>=◌
    write_snapshot-Observing artifact = (
      tt,
      λ x rx.
          create_or_update_snapshot-Observing p
            (new_snapshot p native source storage policy_ref backup_job_ref series artifact)
            (with_spec p native source storage policy_ref backup_job_ref series artifact) x,
    )

    persist_snapshot-Observing :
        (artifact : ArtifactSummary)
        → Observes (
            persist_snapshot p native source storage policy_ref backup_job_ref series artifact
              keep_last)
    unfolding persist_snapshot register_snapshot apply_retention ◌>>=◌
    persist_snapshot-Observing artifact =
        let name = snapshot_name_of p native storage in
        Within-try Observing
          (write_snapshot p native source storage policy_ref backup_job_ref series artifact) _
          (write_snapshot-Observing artifact)
          (λ u.
            Within-try Observing (p.retry_on_conflict (mark_ready p native name)) _
              (retry-Observing p.retry_on_conflict is_retry _ (mark_ready-Observing native name))
              (λ v.
                Within-try Observing
                  (reconcile_snapshot_series p.retry_on_conflict native.namespace series keep_last
                    name)
                  _
                  (reconcile_snapshot_series-Observing p.retry_on_conflict is_retry native.namespace
                    series keep_last name)
                  (λ w. tt)))

    abbrev Step : Prog (Reply (Option TerminalBackupObservation)) → Type 0
    Step m = Observes m

    with_artifact-Observing :
        (probe : Option StorageProbeSummary) (artifact : Option ArtifactSummary)
        → Step (
            with_artifact p native source storage policy_ref backup_job_ref series keep_last probe
              artifact)
    unfolding with_artifact
    with_artifact-Observing probe none = tt
    with_artifact-Observing probe (some artifact) =
        Within-try Observing
          (persist_snapshot p native source storage policy_ref backup_job_ref series artifact
            keep_last)
          _ (persist_snapshot-Observing artifact) (λ name. tt)

    with_reports-Observing :
        (phase : ResourcePhase) (message : Text) (probe : Option StorageProbeSummary)
        (artifact : Option ArtifactSummary) (pod_message : Text)
        → Step (
            with_reports p native source storage policy_ref backup_job_ref series keep_last phase
              message probe artifact pod_message)
    unfolding with_reports
    with_reports-Observing ResourcePhase.succeeded message probe artifact pod_message =
        with_artifact-Observing probe artifact
    with_reports-Observing ResourcePhase.unset message probe artifact pod_message = tt
    with_reports-Observing ResourcePhase.pending message probe artifact pod_message = tt
    with_reports-Observing ResourcePhase.configured message probe artifact pod_message = tt
    with_reports-Observing ResourcePhase.running message probe artifact pod_message = tt
    with_reports-Observing ResourcePhase.failed message probe artifact pod_message = tt
    with_reports-Observing ResourcePhase.paused message probe artifact pod_message = tt

    with_pod-Observing :
        (phase : ResourcePhase) (message : Text) (x : Reply Pod)
        → Step (
            with_pod p native source storage policy_ref backup_job_ref series keep_last phase
              message x)
    unfolding with_pod
    with_pod-Observing phase message (err (not_found m)) = tt
    with_pod-Observing phase message (err (already_exists m)) = tt
    with_pod-Observing phase message (err (conflict m)) = tt
    with_pod-Observing phase message (err (other m)) = tt
    with_pod-Observing phase message (ok pod) =
        let reports = build_storage_observation_from_pod p pod in
        Within-try Observing (record_probe p storage reports.0.0) _
          (record_probe-Observing storage reports.0.0)
          (λ u. with_reports-Observing phase message reports.0.0 reports.0.1 reports.1)

    when_terminal-Observing :
        (state : Option (ResourcePhase × Text))
        → Step
            (when_terminal p native source storage policy_ref backup_job_ref series keep_last state)
    unfolding when_terminal
    when_terminal-Observing none = tt
    when_terminal-Observing (some (phase, message)) =
        Within-bind Observing (find_latest_job_pod native) _ (find_latest_job_pod-Observing native)
          (with_pod-Observing phase message)

    pub observe_terminal_backup_job-Observing : Within Observing (
        observe_terminal_backup_job p native source storage policy_ref backup_job_ref series
          keep_last)
    unfolding observe_terminal_backup_job
    observe_terminal_backup_job-Observing = when_terminal-Observing (job_terminal_state native)
