-- ===== src/Kube/Batch.antt =====
-- batchv1: jobs and cron jobs.
use dataprotection.Base.{ℕ, List, Option, Bool, Text, ℤ}
use dataprotection.Kube.Meta.{Time, TextMap, ObjectMeta, ConditionStatus}
use dataprotection.Kube.Core.{PodSpec}

pub data JobConditionType : Type 0 where
  job_complete job_failed : JobConditionType
  other_condition : Text → JobConditionType

pub record JobCondition : Type 0 where
  pub type : JobConditionType
  pub status : ConditionStatus
  pub message : Text
  pub last_transition_time : Time

pub record JobStatus : Type 0 where
  pub conditions : List JobCondition
  pub active : ℕ
  pub start_time : Option Time

pub record JobSpec : Type 0 where
  pub parallelism : Option ℤ
  pub completions : Option ℤ
  pub active_deadline_seconds : Option ℤ
  pub backoff_limit : Option ℤ
  pub ttl_seconds_after_finished : Option ℤ
  pub template_labels : TextMap
  pub template_annotations : TextMap
  pub pod_spec : PodSpec

pub record Job : Type 0 where
  pub metadata : ObjectMeta
  pub open metadata use *
  pub spec : JobSpec
  pub status : JobStatus

pub record CronJobSpec : Type 0 where
  pub schedule : Text
  pub suspend : Bool
  pub concurrency_policy : Text
  pub starting_deadline_seconds : Option ℤ
  pub successful_jobs_history_limit : Option ℤ
  pub failed_jobs_history_limit : Option ℤ
  pub job_labels : TextMap
  pub job_annotations : TextMap
  pub job_spec : JobSpec

pub record CronJob : Type 0 where
  pub metadata : ObjectMeta
  pub open metadata use *
  pub spec : CronJobSpec
  pub last_schedule_time : Option Time
