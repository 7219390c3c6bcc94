-- ===== src/Messages.antt =====
-- The messages that controllers/notifications.go and notification_gateway.go exchange as JSON, and what
-- their HTTP requests carry.
use dataprotection.Base.{ℕ, List, Bool, Text, ℤ}
use dataprotection.Kube.Meta.{TextMap}

pub record NotificationEvent : Type 0 where
  pub type : Text
  pub namespace : Text
  pub resource_kind : Text
  pub resource_name : Text
  pub phase : Text
  pub message : Text
  pub source_name : Text
  pub storage_name : Text
  pub snapshot_name : Text
  pub native_job_name : Text
  pub series : Text
  pub timestamp : Text
  pub attributes : TextMap

pub record NotificationTarget : Type 0 where
  pub name : Text
  pub url : Text
  pub method : Text
  pub headers : TextMap
  pub timeout_seconds : ℤ
  pub insecure_skip_tls_verify : Bool

pub record NotificationDispatchRequest : Type 0 where
  pub event : NotificationEvent
  pub targets : List NotificationTarget

pub record NotificationDispatchResult : Type 0 where
  pub name : Text
  pub success : Bool
  pub message : Text

pub record NotificationDispatchResponse : Type 0 where
  pub success : Bool
  pub message : Text
  pub results : List NotificationDispatchResult

-- One HTTP request with an event: the headers are set in the order of the list.
pub record Delivery : Type 0 where
  pub method : Text
  pub url : Text
  pub headers : TextMap
  pub timeout_seconds : ℤ
  pub insecure : Bool
  pub event : NotificationEvent

-- The outcome of an HTTP request: an error before there is an answer, or the answer's status code and
-- status line with what its body decodes to.
pub data Sent (A : Type 0) : Type 0 where
  unsent : Text → Sent A
  answered : (code : ℕ) (status : Text) → A → Sent A
