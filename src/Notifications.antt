-- ===== src/Notifications.antt =====
-- controllers/notifications.go: an event is posted to the gateway with the targets that the endpoints of
-- the namespace and their secrets make up. The proofs are in the modules below this one.
pub mod Requests
pub mod Delivered
use dataprotection.Base.{
  ℕ, List, [], ◌∷◌, ◌++◌, Option, none, some, Bool, true, false, not, ◌||◌, Text, codes, leb,
  if◌then◌else◌, is_empty, ℤ, pos, leb_ℤ,
}
use dataprotection.Kube.Meta.{Time, TextMap, entry, insert}
use dataprotection.Kube.Core.{LocalObjectReference}
use dataprotection.Api.Common.{
  NotificationDeliveryPhase, NotificationDeliveryStatus, SecretHeaderReference,
}
use dataprotection.Api.Config.{NotificationEndpoint}
use dataprotection.Messages.{
  NotificationEvent, NotificationTarget, NotificationDispatchRequest, NotificationDispatchResponse,
  Delivery, Sent, unsent, answered,
}
use dataprotection.Platform.{Platform}
use dataprotection.Defaults.{default_notification_gateway_url}
use dataprotection.Effects.{
  ApiError, other, error_text, Reply, ok, err, now, get_endpoint, get_secret, post_dispatch,
  post_event, Prog, ret, request, ◌>>=◌, try,
}
use dataprotection.Runtime.Merging.{insert_all}

abbrev pub post_method : Text
post_method = codes "POST"

-- The value of a header that comes from a secret.
unfoldable pub header_value : Text → SecretHeaderReference → Option Text → Reply Text
header_value namespace h (some value) = ok value
header_value namespace h none = err (
    other (
      codes "notification secret "
      ++ namespace
      ++ codes "/"
      ++ h.secret_key_ref.name
      ++ codes " key "
      ++ h.secret_key_ref.key
      ++ codes " not found"))

unfoldable pub secret_headers_loop :
    Text → TextMap → List SecretHeaderReference → Prog (Reply TextMap)
unfolding header_value ◌>>=◌
secret_headers_loop namespace headers [] = ret (ok headers)
secret_headers_loop namespace headers (h ∷ hs) =
    try (request (get_secret namespace h.secret_key_ref.name)) λ secret.
      try (ret (header_value namespace h (entry h.secret_key_ref.key secret)))
        λ value. secret_headers_loop namespace (insert h.name value headers) hs

abbrev pub or_post : Text → Text
or_post method = if is_empty method then post_method else method

-- A timeout that is not positive is ten seconds.
abbrev pub or_ten : ℤ → ℤ
or_ten seconds = if leb_ℤ seconds (pos 0) then pos 10 else seconds

unfoldable pub target_of : NotificationEndpoint → TextMap → NotificationTarget
target_of endpoint headers = record {
  name = endpoint.name;
  url = endpoint.spec.url;
  method = or_post endpoint.spec.method;
  headers = headers;
  timeout_seconds = or_ten endpoint.spec.timeout_seconds;
  insecure_skip_tls_verify = endpoint.spec.insecure_skip_tls_verify;
}

unfoldable pub resolve_target : Text → LocalObjectReference → Prog (Reply NotificationTarget)
unfolding secret_headers_loop target_of insert_all ◌>>=◌
resolve_target namespace ref = try (request (get_endpoint namespace ref.name)) λ endpoint.
    try
      (secret_headers_loop namespace (insert_all endpoint.spec.headers [])
        endpoint.spec.secret_headers)
      λ headers. ret (ok (target_of endpoint headers))

-- The loop appends to the targets; the list is built in the same order.
unfoldable pub resolve_notification_targets :
    Text → List LocalObjectReference → Prog (Reply (List NotificationTarget))
unfolding resolve_target ◌>>=◌
resolve_notification_targets namespace [] = ret (ok [])
resolve_notification_targets namespace (ref ∷ refs) = try (resolve_target namespace ref) λ target.
    try (resolve_notification_targets namespace refs) λ targets. ret (ok (target ∷ targets))

-- The status, and whether the error is nil.
abbrev pub Dispatched : Type 0
Dispatched = NotificationDeliveryStatus × Bool

abbrev pub empty_status : NotificationDeliveryStatus
empty_status = record {
  phase = NotificationDeliveryPhase.unset;
  attempts = pos 0;
  last_attempt_time = none;
  last_delivered_time = none;
  message = [];
}

abbrev pub failed_status : Time → Text → NotificationDeliveryStatus
failed_status t message = record {
  phase = NotificationDeliveryPhase.failed;
  attempts = pos 1;
  last_attempt_time = some t;
  last_delivered_time = none;
  message = message;
}

unfoldable pub dispatch_failed : Text → Prog Dispatched
unfolding ◌>>=◌
dispatch_failed message = request now >>= λ t. ret (failed_status t message, false)

-- An answer of the gateway that counts as a failure.
abbrev pub is_refused : ℕ → NotificationDispatchResponse → Bool
is_refused code response = leb 300 code || not response.success

unfoldable pub with_answer : Sent NotificationDispatchResponse → Prog Dispatched
unfolding dispatch_failed ◌>>=◌
with_answer (unsent message) = dispatch_failed message
with_answer (answered code status response) = request now >>= λ attempted.
    if is_refused code response
    then ret (
      failed_status attempted (
          if is_empty response.message
          then codes "notification gateway returned " ++ status
          else response.message),
      false,
    )
    else (request now >>= λ delivered. ret (
      record {
        phase = NotificationDeliveryPhase.succeeded;
        attempts = pos 1;
        last_attempt_time = some attempted;
        last_delivered_time = some delivered;
        message = response.message;
      },
      true,
    ))

module _ (p : Platform) where
  unfoldable pub gateway_url : Text
  gateway_url =
      let raw = p.getenv (codes "DP_NOTIFICATION_GATEWAY_URL") in
      if is_empty raw then default_notification_gateway_url p else raw

  unfoldable pub with_targets :
      NotificationEvent → Reply (List NotificationTarget) → Prog Dispatched
  unfolding dispatch_failed with_answer gateway_url ◌>>=◌
  with_targets event (err e) = dispatch_failed (error_text e)
  with_targets event (ok targets) =
      request (
        post_dispatch (gateway_url ++ codes "/dispatch")
          (record { event = event; targets = targets }))
      >>= with_answer

  unfoldable pub dispatch_notifications :
      Text → List LocalObjectReference → NotificationEvent → Prog Dispatched
  unfolding with_targets resolve_notification_targets ◌>>=◌
  dispatch_notifications namespace [] event = ret (empty_status, true)
  dispatch_notifications namespace (ref ∷ refs) event =
      resolve_notification_targets namespace (ref ∷ refs) >>= with_targets event

-- The request for a target: `deliverToTarget`, which the gateway repeats with a default method.
abbrev pub delivery_of : Text → NotificationTarget → NotificationEvent → Delivery
delivery_of method target event = record {
  method = method;
  url = target.url;
  headers = (codes "Content-Type", codes "application/json") ∷ target.headers;
  timeout_seconds = or_ten target.timeout_seconds;
  insecure = target.insecure_skip_tls_verify;
  event = event;
}

-- `none` is a nil error.
unfoldable pub delivery_error : NotificationTarget → Sent Unit → Option Text
delivery_error target (unsent message) = some message
delivery_error target (answered code status _) =
    if leb 300 code
    then some (codes "target " ++ target.name ++ codes " returned " ++ status)
    else none

unfoldable pub deliver_to_target : NotificationTarget → NotificationEvent → Prog (Option Text)
unfolding delivery_error ◌>>=◌
deliver_to_target target event =
    request (post_event (delivery_of target.method target event)) >>= λ x.
    ret (delivery_error target x)
