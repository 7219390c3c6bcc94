-- ===== src/Execution/Observe/Success.antt =====
-- When a controller observes that a backup succeeded.
use dataprotection.Base.{
  List, [], ◌∷◌, Option, none, some, Text, ◌≡◌, refl, ap, ◌∙◌, codes, ℤ, inl, inr, Bool-cases,
}
use dataprotection.Base.Sort.{sort, insert}
use dataprotection.Kube.Core.{Pod, LocalObjectReference}
use dataprotection.Kube.Batch.{Job}
use dataprotection.Api.Common.{ResourcePhase}
use dataprotection.Api.Config.{BackupSource, BackupStorage}
use dataprotection.Platform.{Platform}
use dataprotection.Summary.{StorageProbeSummary, ArtifactSummary}
use dataprotection.Effects.{
  not_found, already_exists, conflict, other, Reply, ok, err, Request, list_pods, Prog, ret, ◌>>=◌,
  try, after,
}
use dataprotection.Effects.Obeys.{Rely, Obeys, Obeys-any, Obeys-try, Obeys-bind, Good, Good-any}
use dataprotection.Execution.{job_terminal_state, newer_pod, build_storage_observation_from_pod}
use dataprotection.Retention.{reconcile_snapshot_series}
use dataprotection.Execution.Terminal.{IsComplete, succeeded-IsComplete}
use dataprotection.Execution.Observe.{
  TerminalBackupObservation, newest_pod, find_latest_job_pod, record_probe, snapshot_name_of,
  persist_snapshot, write_snapshot, register_snapshot, apply_retention, mark_ready,
  backup_observation, with_artifact, with_reports, with_pod, when_terminal,
  observe_terminal_backup_job,
}

abbrev pub AnyRequest : Request → Type 0
AnyRequest r = Unit

abbrev IsFound : Reply Pod → Type 0
IsFound (err (not_found m)) = ⊥
IsFound x = Unit

-- The list of the pods of a job has a pod, where it could be read.
abbrev pub HasPods : Reply (List Pod) → Type 0
HasPods (ok []) = ⊥
HasPods (ok (pod ∷ pods)) = Unit
HasPods (err (not_found m)) = ⊥
HasPods (err e) = Unit

abbrev pub PodsExist : Rely
PodsExist (list_pods ns name) x = HasPods x
PodsExist r x = Unit

newest-insert :
    (name : Text) (x : Pod) (ys : List Pod) → IsFound (newest_pod name (insert newer_pod x ys))
unfolding newest_pod insert
newest-insert name x [] = tt
newest-insert name x (y ∷ ys) = elim (Bool-cases (newer_pod y x)) [
  | inl h ↦ rw h tt
  | inr h ↦ rw h tt
]

newest-sort :
    (name : Text) (x : Pod) (ys : List Pod) → IsFound (newest_pod name (sort newer_pod (x ∷ ys)))
unfolding sort
newest-sort name x ys = newest-insert name x (sort newer_pod ys)

after_list :
    (name : Text) (x : Reply (List Pod))
    → HasPods x
    → Obeys PodsExist AnyRequest IsFound
        (after (λ pods. ret (newest_pod name (sort newer_pod pods))) x)
after_list name (ok []) h = absurd h
after_list name (ok (pod ∷ pods)) h = newest-sort name pod pods
after_list name (err (not_found m)) h = absurd h
after_list name (err (already_exists m)) h = tt
after_list name (err (conflict m)) h = tt
after_list name (err (other m)) h = tt

find_latest_job_pod-IsFound :
    (job : Job) → Obeys PodsExist AnyRequest IsFound (find_latest_job_pod job)
unfolding find_latest_job_pod ◌>>=◌
find_latest_job_pod-IsFound job = (tt, after_list job.name)

module _ (p : Platform) (job : Job) (source : BackupSource) (storage : BackupStorage)
    (policy_ref backup_job_ref : Option LocalObjectReference) (series : Text) (keep_last : ℤ) where
  -- A success is that of a completed job, and names the registered snapshot.
  abbrev pub Promises : Reply (Option TerminalBackupObservation) → Type 0
  Promises (err e) = Unit
  Promises (ok none) = Unit
  Promises (ok (some o)) =
      o.phase ≡ ResourcePhase.succeeded
      → IsComplete job × (o.snapshot_ref ≡ snapshot_name_of p job storage)

  abbrev Kept : Prog (Reply (Option TerminalBackupObservation)) → Type 0
  Kept m = Obeys PodsExist AnyRequest Promises m

  abbrev Named : Prog (Reply Text) → Type 0
  Named m = Obeys PodsExist AnyRequest (Good (λ name. name ≡ snapshot_name_of p job storage)) m

  -- A step whose answer is not looked at.
  then-Named :
      (m : Prog (Reply Unit)) (f : Unit → Prog (Reply Text))
      → ((u : Unit) → Named (f u))
      → Named (try m f)
  then-Named m f h =
      Obeys-try PodsExist AnyRequest (λ u. Unit)
        (Good (λ name. name ≡ snapshot_name_of p job storage)) m f
        (Obeys-any PodsExist (Good (λ u. Unit)) Good-any m) (λ u v. h u) (λ e. tt)

  persist_snapshot-Named :
      (artifact : ArtifactSummary)
      → Named (
          persist_snapshot p job source storage policy_ref backup_job_ref series artifact keep_last)
  unfolding persist_snapshot register_snapshot apply_retention
  persist_snapshot-Named artifact =
      let name = snapshot_name_of p job storage in
      then-Named (write_snapshot p job source storage policy_ref backup_job_ref series artifact)
        (λ u. register_snapshot p job series keep_last name)
        (λ u.
          then-Named (p.retry_on_conflict (mark_ready p job name))
            (λ v. apply_retention p job series keep_last name)
            (λ v.
              then-Named
                (reconcile_snapshot_series p.retry_on_conflict job.namespace series keep_last name)
                (λ w. ret (ok name)) (λ w. refl)))

  abbrev success :
      Option StorageProbeSummary → Text → Prog (Reply (Option TerminalBackupObservation))
  success probe name = ret (
      ok (
        some (
          backup_observation p job source storage policy_ref backup_job_ref series keep_last
            ResourcePhase.succeeded (codes "job completed successfully") probe name)))

  with_artifact-Kept :
      (probe : Option StorageProbeSummary) (artifact : Option ArtifactSummary)
      → IsComplete job
      → Kept (
          with_artifact p job source storage policy_ref backup_job_ref series keep_last probe
            artifact)
  unfolding with_artifact backup_observation
  with_artifact-Kept probe none c = λ e. cc
  with_artifact-Kept probe (some artifact) c =
      Obeys-try PodsExist AnyRequest (λ name. name ≡ snapshot_name_of p job storage) Promises
        (persist_snapshot p job source storage policy_ref backup_job_ref series artifact keep_last)
        (success probe) (persist_snapshot-Named artifact) (λ name same e. (c, same)) (λ e. tt)

  with_reports-Kept :
      (phase : ResourcePhase) (message : Text) (probe : Option StorageProbeSummary)
      (artifact : Option ArtifactSummary) (pod_message : Text)
      → (phase ≡ ResourcePhase.succeeded → IsComplete job)
      → Kept (
          with_reports p job source storage policy_ref backup_job_ref series keep_last phase message
            probe artifact pod_message)
  unfolding with_reports backup_observation
  with_reports-Kept ResourcePhase.succeeded message probe artifact pod_message c =
      with_artifact-Kept probe artifact (c refl)
  with_reports-Kept ResourcePhase.failed message probe artifact pod_message c = λ e. cc
  with_reports-Kept ResourcePhase.unset message probe artifact pod_message c = λ e. cc
  with_reports-Kept ResourcePhase.pending message probe artifact pod_message c = λ e. cc
  with_reports-Kept ResourcePhase.configured message probe artifact pod_message c = λ e. cc
  with_reports-Kept ResourcePhase.running message probe artifact pod_message c = λ e. cc
  with_reports-Kept ResourcePhase.paused message probe artifact pod_message c = λ e. cc

  with_pod-Kept :
      (phase : ResourcePhase) (message : Text) (x : Reply Pod)
      → (phase ≡ ResourcePhase.succeeded → IsComplete job)
      → IsFound x
      → Kept
          (with_pod p job source storage policy_ref backup_job_ref series keep_last phase message x)
  unfolding with_pod
  with_pod-Kept phase message (err (not_found m)) c h = absurd h
  with_pod-Kept phase message (err (already_exists m)) c h = tt
  with_pod-Kept phase message (err (conflict m)) c h = tt
  with_pod-Kept phase message (err (other m)) c h = tt
  with_pod-Kept phase message (ok pod) c h =
      let reports = build_storage_observation_from_pod p pod in
      Obeys-try PodsExist AnyRequest (λ u. Unit) Promises (record_probe p storage reports.0.0)
        (λ u.
          with_reports p job source storage policy_ref backup_job_ref series keep_last phase message
            reports.0.0 reports.0.1 reports.1)
        (Obeys-any PodsExist (Good (λ u. Unit)) Good-any (record_probe p storage reports.0.0))
        (λ u v. with_reports-Kept phase message reports.0.0 reports.0.1 reports.1 c) (λ e. tt)

  when_terminal-Kept :
      (state : Option (ResourcePhase × Text))
      → job_terminal_state job ≡ state
      → Kept (when_terminal p job source storage policy_ref backup_job_ref series keep_last state)
  unfolding when_terminal
  when_terminal-Kept none e = tt
  when_terminal-Kept (some (phase, message)) e =
      Obeys-bind PodsExist AnyRequest IsFound Promises (find_latest_job_pod job) _
        (find_latest_job_pod-IsFound job)
        (λ x h.
          with_pod-Kept phase message x
            (λ f. succeeded-IsComplete job message (e ∙ ap (λ q. some (q, message)) f)) h)

  -- While the pods of a native job are there, a backup is observed to have succeeded only if its job has
  -- completed, and then the observation names the snapshot of that job and storage, whatever else the
  -- API server answers.
  pub observe_terminal_backup_job-Kept :
      Kept (
        observe_terminal_backup_job p job source storage policy_ref backup_job_ref series keep_last)
  unfolding observe_terminal_backup_job
  observe_terminal_backup_job-Kept = when_terminal-Kept (job_terminal_state job) refl
