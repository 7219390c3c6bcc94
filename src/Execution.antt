-- ===== src/Execution.antt =====
-- controllers/execution_helpers.go and common.go: what a native job and its pods report.
pub mod Terminal
pub mod Observe
use dataprotection.Base.{
  ℕ, zero, List, [], ◌∷◌, ◌++◌, Option, none, some, Bool, true, false, ◌&&◌, not, Text, codes,
  text_eq, text_lt, ltb, ◌==◌, if◌then◌else◌, is_empty, is_blank, trim_space, join, split, map,
  select, ℤ, pos,
}
use dataprotection.Base.Sort.{sort}
use dataprotection.Base.Decimal.{itoa}
use dataprotection.Kube.Meta.{
  Time, ConditionStatus, condition_true, condition_false, condition_unknown, Condition,
}
use dataprotection.Kube.Core.{Pod, ContainerStatus, ContainerStateTerminated, ContainerStateWaiting}
use dataprotection.Kube.Batch.{
  JobConditionType, job_complete, job_failed, other_condition, JobCondition, Job,
}
use dataprotection.Api.Common.{ResourcePhase}
use dataprotection.Platform.{Platform}
use dataprotection.Summary.{PodExecutionSummary, StorageProbeSummary, ArtifactSummary}
use dataprotection.Effects.{now, Prog, ret, request, ◌>>=◌}

abbrev pub is_true : ConditionStatus → Bool
is_true condition_true = true
is_true condition_false = false
is_true condition_unknown = false

abbrev pub or_message : Text → Text → Text
or_message message fallback = if is_empty message then fallback else message

-- The phase and message that a condition decides, where it is one that ends the job.
unfoldable pub terminal_condition : JobConditionType → Bool → Text → Option (ResourcePhase × Text)
terminal_condition job_complete true message =
    some (
      ResourcePhase.succeeded,
      or_message (trim_space message) (codes "job completed successfully"),
    )
terminal_condition job_failed true message =
    some (ResourcePhase.failed, or_message (trim_space message) (codes "job execution failed"))
terminal_condition type status message = none

abbrev pub first {ℓ} : {A : Type ℓ} → Option A → Option A → Option A
first (some a) o = some a
first none o = o

unfoldable pub terminal_state_of : List JobCondition → Option (ResourcePhase × Text)
unfolding terminal_condition
terminal_state_of [] = none
terminal_state_of (c ∷ cs) =
    first (terminal_condition c.type (is_true c.status) c.message) (terminal_state_of cs)

-- The third result of the source says whether there are the other two.
unfoldable pub job_terminal_state : Job → Option (ResourcePhase × Text)
job_terminal_state job = terminal_state_of job.status.conditions

abbrev later : Option Time → Time → Option Time
later none t = some t
later (some latest) t = some (if ltb latest t then t else latest)

-- A condition that is neither completion nor failure is skipped.
unfoldable pub completed_at_step : JobConditionType → Option Time → Time → Option Time
completed_at_step job_complete latest t = later latest t
completed_at_step job_failed latest t = later latest t
completed_at_step (other_condition type) latest t = latest

unfoldable pub completed_at_loop : Option Time → List JobCondition → Option Time
unfolding completed_at_step
completed_at_loop latest [] = latest
completed_at_loop latest (c ∷ cs) =
    completed_at_loop (completed_at_step c.type latest c.last_transition_time) cs

unfoldable pub job_completed_at : Job → Option Time
unfolding completed_at_loop
job_completed_at job = completed_at_loop none job.status.conditions

-- The parts between semicolons, sorted.
unfoldable pub trim_job_failure_message : Text → Text
trim_job_failure_message message =
    join (sort text_lt (select (λ part. not (is_empty part)) (map trim_space (split message b';'))))
      (codes "; ")

unfoldable pub newer_pod : Pod → Pod → Bool
newer_pod i j =
    if i.creation_timestamp == j.creation_timestamp
    then text_lt j.name i.name
    else ltb j.creation_timestamp i.creation_timestamp

-- " (reason)" behind the words on a container.
abbrev with_reason : Text → Text → Text
with_reason words reason = words ++ codes " (" ++ reason ++ codes ")"

unfoldable pub waiting_failure : Text → Text → Option ContainerStateWaiting → List Text
waiting_failure prefix name none = []
waiting_failure prefix name (some w) =
    with_reason (prefix ++ codes " " ++ name ++ codes " waiting")
      (or_message (trim_space w.reason) (codes "waiting"))
    ∷ []

unfoldable pub terminated_failure : Text → Text → ContainerStateTerminated → ℤ → List Text
terminated_failure prefix name t (pos zero) = []
terminated_failure prefix name t code =
    with_reason (prefix ++ codes " " ++ name ++ codes " exited " ++ itoa code)
      (or_message (trim_space t.reason) (codes "terminated"))
    ∷ []

-- A terminated container is not asked whether it waits.
unfoldable pub failure_of :
    Text → Text → Option ContainerStateTerminated → Option ContainerStateWaiting → List Text
unfolding waiting_failure terminated_failure
failure_of prefix name (some t) waiting = terminated_failure prefix name t t.exit_code
failure_of prefix name none waiting = waiting_failure prefix name waiting

unfoldable pub failures_loop : Text → List ContainerStatus → List Text
unfolding failure_of
failures_loop prefix [] = []
failures_loop prefix (s ∷ statuses) =
    failure_of prefix s.name s.terminated s.waiting ++ failures_loop prefix statuses

unfoldable pub collect_container_failures : List ContainerStatus → Bool → List Text
unfolding failures_loop
collect_container_failures statuses init =
    failures_loop (if init then codes "init" else codes "container") statuses

unfoldable pub latest_container_failure_message : Pod → Text
unfolding collect_container_failures
latest_container_failure_message pod =
    let failures =
      collect_container_failures pod.init_container_statuses true
      ++ collect_container_failures pod.container_statuses false in
    if is_empty failures
    then codes "latest pod " ++ pod.name ++ codes " phase=" ++ pod.phase
    else codes "latest pod " ++ pod.name ++ codes ": " ++ join failures (codes "; ")

module _ (p : Platform) where
  -- markCondition, for the condition `Ready`
  unfoldable pub mark_condition :
      List Condition → ConditionStatus → Text → Text → ℕ → Prog (List Condition)
  unfolding ◌>>=◌
  mark_condition conditions status reason message generation = do
    t ← request now
    ret (
        p.set_status_condition conditions (record {
          type = codes "Ready";
          status = status;
          reason = reason;
          message = message;
          observed_generation = generation;
          last_transition_time = t;
        }))

  -- An error of the decoder counts as no summary, as both callers have it.
  unfoldable pub parse_json_termination_message : Text → Option PodExecutionSummary
  parse_json_termination_message raw =
      let message = trim_space raw in if is_empty message then none else p.unmarshal message

  -- What the message of a terminated container decodes to.
  unfoldable pub summary_of : Option ContainerStateTerminated → Option PodExecutionSummary
  unfolding parse_json_termination_message
  summary_of none = none
  summary_of (some t) = parse_json_termination_message t.message

  abbrev probe_of : Option PodExecutionSummary → Option StorageProbeSummary
  probe_of none = none
  probe_of (some summary) = summary.storage_probe

  abbrev artifact_of : Option PodExecutionSummary → Option ArtifactSummary
  artifact_of none = none
  artifact_of (some summary) = summary.artifact

  -- The last probe that an init container `storage-preflight` reports.
  unfoldable pub init_probe :
      Option StorageProbeSummary → List ContainerStatus → Option StorageProbeSummary
  unfolding summary_of
  init_probe probe [] = probe
  init_probe probe (s ∷ statuses) =
      init_probe
        (if text_eq s.name (codes "storage-preflight")
          then first (probe_of (summary_of s.terminated)) probe
          else probe)
        statuses

  -- The first probe, unless there is one already, and the last artifact of the containers.
  unfoldable pub container_reports :
      Option StorageProbeSummary
      → Option ArtifactSummary
      → List ContainerStatus
      → Option StorageProbeSummary × Option ArtifactSummary
  unfolding summary_of
  container_reports probe artifact [] = (probe, artifact)
  container_reports probe artifact (s ∷ statuses) =
      let summary = summary_of s.terminated in
      container_reports (first probe (probe_of summary)) (first (artifact_of summary) artifact)
        statuses

  unfoldable pub build_storage_observation_from_pod :
      Pod → (Option StorageProbeSummary × Option ArtifactSummary) × Text
  unfolding init_probe container_reports
  build_storage_observation_from_pod pod = (
    container_reports (init_probe none pod.init_container_statuses) none pod.container_statuses,
    if text_eq pod.phase (codes "Succeeded")
        then codes "latest pod " ++ pod.name ++ codes " completed successfully"
        else latest_container_failure_message pod,
  )
