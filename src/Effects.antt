-- ===== src/Effects.antt =====
-- The program's dealings with the API server, the clock and the notification gateway: a controller
-- is a program that makes requests, one after another, and goes on with each answer. What answers
-- is no code of the repository: theorems speak of every answer, or of the answers that a rely
-- condition allows.
pub mod Obeys
pub mod Run
pub mod Ends
use dataprotection.Base.{ℕ, List, [], ◌∷◌, Option, none, some, Bool, true, false, Text}
use dataprotection.Kube.Meta.{Time, TextMap}
use dataprotection.Kube.Core.{Pod}
use dataprotection.Kube.Batch.{Job, CronJob}
use dataprotection.Messages.{
  Delivery, NotificationDispatchRequest, NotificationDispatchResponse, Sent,
}
use dataprotection.Api.Config.{
  BackupAddon, BackupSource, BackupStorage, BackupPolicy, RetentionPolicy, NotificationEndpoint,
}
use dataprotection.Api.Execution.{BackupJob, Snapshot, RestoreJob}

-- The errors that the code tells apart, each with its message.
pub data ApiError : Type 0 where
  not_found already_exists conflict other : Text → ApiError

abbrev pub error_text : ApiError → Text
error_text (not_found m) = m
error_text (already_exists m) = m
error_text (conflict m) = m
error_text (other m) = m

-- apierrors.IsNotFound and IsAlreadyExists
abbrev pub is_not_found : ApiError → Bool
is_not_found (not_found m) = true
is_not_found _ = false

abbrev pub is_already_exists : ApiError → Bool
is_already_exists (already_exists m) = true
is_already_exists _ = false

pub data Reply (A : Type 0) : Type 0 where
  ok : A → Reply A
  err : ApiError → Reply A

-- A patch carries the object before and after, as client.MergeFrom does.
pub data Request : Type 0 where
  now : Request
  get_addon : (name : Text) → Request
  get_source get_storage get_policy get_retention get_snapshot get_endpoint get_job get_backup_job
        get_restore_job :
      (namespace name : Text) → Request
  list_snapshots : (namespace : Text) → Request
  list_pods : (namespace job_name : Text) → Request
  list_cron_jobs : (namespace : Text) → TextMap → Request
  create_job : Job → Request
  create_snapshot update_snapshot update_snapshot_status delete_snapshot : Snapshot → Request
  patch_snapshot : (base new : Snapshot) → Request
  update_storage_status : BackupStorage → Request
  patch_addon_status : (base new : BackupAddon) → Request
  patch_source_status : (base new : BackupSource) → Request
  patch_storage_status : (base new : BackupStorage) → Request
  patch_policy_status : (base new : BackupPolicy) → Request
  patch_retention_status : (base new : RetentionPolicy) → Request
  patch_endpoint_status : (base new : NotificationEndpoint) → Request
  patch_backup_job_status : (base new : BackupJob) → Request
  patch_restore_job_status : (base new : RestoreJob) → Request
  -- controllerutil.CreateOrUpdate: the stored cron job of that name, or a new one, is mutated and written.
  create_or_update_cron_job : (namespace name : Text) → (mutate : CronJob → CronJob) → Request
  delete_cron_job : CronJob → Request
  patch_job : (base new : Job) → Request
  -- The data of a secret.
  get_secret : (namespace name : Text) → Request
  -- POST to the notification gateway, and to a target of a notification.
  post_dispatch : (url : Text) → NotificationDispatchRequest → Request
  post_event : Delivery → Request

abbrev pub Response : Request → Type 0
Response now = Time
Response (get_addon name) = Reply BackupAddon
Response (get_source ns name) = Reply BackupSource
Response (get_storage ns name) = Reply BackupStorage
Response (get_policy ns name) = Reply BackupPolicy
Response (get_retention ns name) = Reply RetentionPolicy
Response (get_snapshot ns name) = Reply Snapshot
Response (get_endpoint ns name) = Reply NotificationEndpoint
Response (get_job ns name) = Reply Job
Response (get_backup_job ns name) = Reply BackupJob
Response (get_restore_job ns name) = Reply RestoreJob
Response (list_snapshots ns) = Reply (List Snapshot)
Response (list_pods ns name) = Reply (List Pod)
Response (list_cron_jobs ns labels) = Reply (List CronJob)
Response (get_secret ns name) = Reply TextMap
Response (post_dispatch url r) = Sent NotificationDispatchResponse
Response (post_event d) = Sent Unit
Response _ = Reply Unit

pub data Prog (A : Type 0) : Type 0 where
  ret : A → Prog A
  -- A nil pointer is dereferenced, and the run ends.
  panic : Prog A
  call : (r : Request) → (Response r → Prog A) → Prog A

abbrev pub request : (r : Request) → Prog (Response r)
request r = call r ret

infixl 5 ◌>>=◌ ◌>>◌
unfoldable pub ◌>>=◌ : {A B : Type 0} → Prog A → (A → Prog B) → Prog B
ret a >>= f = f a
panic >>= f = panic
call r k >>= f = call r (λ x. k x >>= f)

abbrev pub ◌>>◌ : {A B : Type 0} → Prog A → Prog B → Prog B
m >> n = m >>= λ _. n

-- `if err != nil { return err }` before the rest.
abbrev pub after : {A B : Type 0} → (A → Prog (Reply B)) → Reply A → Prog (Reply B)
after f (ok a) = f a
after f (err e) = ret (err e)

abbrev pub try : {A B : Type 0} → Prog (Reply A) → (A → Prog (Reply B)) → Prog (Reply B)
try m f = m >>= after f

-- (ctrl.Result, error): when to come back, and the message of an error.
pub record Outcome : Type 0 where
  pub requeue_after : Option ℕ
  pub error : Option Text

abbrev pub done : Outcome
done = record { requeue_after = none; error = none }

abbrev pub failing : Text → Outcome
failing message = record { requeue_after = none; error = some message }

-- `requeueSoon`: thirty seconds
abbrev pub requeue_soon : Outcome
requeue_soon = record { requeue_after = some 30; error = none }

abbrev pub requeue_failing : Text → Outcome
requeue_failing message = record { requeue_after = some 30; error = some message }

-- `if err := r.Patch(...); err != nil && !apierrors.IsNotFound(err) { return ctrl.Result{}, err }`
unfoldable pub unless_failed : Reply Unit → Outcome → Outcome
unless_failed (ok _) after = after
unless_failed (err (not_found m)) after = after
unless_failed (err e) after = failing (error_text e)

-- client.IgnoreNotFound(err), as the result of a reconciliation
unfoldable pub ignore_not_found : ApiError → Outcome
ignore_not_found (not_found m) = done
ignore_not_found e = failing (error_text e)

-- The result of a program when every request is answered by the oracle; a panic has none.
abbrev pub run : {A : Type 0} → ((r : Request) → Response r) → Prog A → Option A
run o (ret a) = some a
run o panic = none
run o (call r k) = run o (k (o r))

-- The requests of a run, in order.
abbrev pub trace : {A : Type 0} → ((r : Request) → Response r) → Prog A → List Request
trace o (ret a) = []
trace o panic = []
trace o (call r k) = r ∷ trace o (k (o r))
