-- ===== src/Notifications/Requests.antt =====
-- The requests that the dispatch of a notification makes: it reads the clock, endpoints and secrets, and
-- posts to the gateway.
use dataprotection.Base.{List, [], ◌∷◌, Text}
use dataprotection.Kube.Meta.{TextMap, entry, insert}
use dataprotection.Kube.Core.{LocalObjectReference}
use dataprotection.Api.Common.{SecretHeaderReference}
use dataprotection.Messages.{
  NotificationEvent, NotificationTarget, NotificationDispatchResponse, Sent, unsent, answered,
}
use dataprotection.Platform.{Platform}
use dataprotection.Effects.{
  Request, Reply, ok, err, now, get_endpoint, get_secret, post_dispatch, ret, ◌>>=◌, try,
}
use dataprotection.Effects.Obeys.{Within, Within-bind, Within-after, Within-try, Within-if}
use dataprotection.Runtime.Merging.{insert_all}
use dataprotection.Notifications.{
  header_value, secret_headers_loop, target_of, resolve_target, resolve_notification_targets,
  dispatch_failed, is_refused, with_answer, with_targets, dispatch_notifications,
}

abbrev pub Notifying : Request → Type 0
Notifying now = Unit
Notifying (get_endpoint ns name) = Unit
Notifying (get_secret ns name) = Unit
Notifying (post_dispatch url r) = Unit
Notifying _ = ⊥

secret_headers_loop-Notifying :
    (ns : Text) (headers : TextMap) (hs : List SecretHeaderReference)
    → Within Notifying (secret_headers_loop ns headers hs)
unfolding secret_headers_loop ◌>>=◌
secret_headers_loop-Notifying ns headers [] = tt
secret_headers_loop-Notifying ns headers (h ∷ hs) = (
  tt,
  λ x rx.
      Within-after Notifying _
        (λ secret.
          Within-after Notifying (λ value. secret_headers_loop ns (insert h.name value headers) hs)
            (λ value. secret_headers_loop-Notifying ns (insert h.name value headers) hs)
            (header_value ns h (entry h.secret_key_ref.key secret)))
        x,
)

resolve_target-Notifying :
    (ns : Text) (ref : LocalObjectReference) → Within Notifying (resolve_target ns ref)
unfolding resolve_target ◌>>=◌
resolve_target-Notifying ns ref = (
  tt,
  λ x rx.
      Within-after Notifying _
        (λ endpoint.
          Within-try Notifying _ (λ headers. ret (ok (target_of endpoint headers)))
            (secret_headers_loop-Notifying ns (insert_all endpoint.spec.headers [])
              endpoint.spec.secret_headers)
            (λ headers. tt))
        x,
)

resolve_notification_targets-Notifying :
    (ns : Text) (refs : List LocalObjectReference)
    → Within Notifying (resolve_notification_targets ns refs)
unfolding resolve_notification_targets
resolve_notification_targets-Notifying ns [] = tt
resolve_notification_targets-Notifying ns (ref ∷ refs) =
    Within-try Notifying (resolve_target ns ref)
      (λ target. try (resolve_notification_targets ns refs) λ targets. ret (ok (target ∷ targets)))
      (resolve_target-Notifying ns ref)
      (λ target.
        Within-try Notifying (resolve_notification_targets ns refs)
          (λ targets. ret (ok (target ∷ targets))) (resolve_notification_targets-Notifying ns refs)
          (λ targets. tt))

with_answer-Notifying : (x : Sent NotificationDispatchResponse) → Within Notifying (with_answer x)
unfolding with_answer dispatch_failed ◌>>=◌
with_answer-Notifying (unsent m) = (tt, λ t rt. tt)
with_answer-Notifying (answered code status response) =
    (tt, λ t rt. Within-if Notifying (is_refused code response) _ _ tt (tt, λ d rd. tt))

with_targets-Notifying :
    (p : Platform) (event : NotificationEvent) (x : Reply (List NotificationTarget))
    → Within Notifying (with_targets p event x)
unfolding with_targets dispatch_failed ◌>>=◌
with_targets-Notifying p event (err e) = (tt, λ t rt. tt)
with_targets-Notifying p event (ok targets) = (tt, λ x rx. with_answer-Notifying x)

pub dispatch_notifications-Notifying :
    (p : Platform) (ns : Text) (refs : List LocalObjectReference) (event : NotificationEvent)
    → Within Notifying (dispatch_notifications p ns refs event)
unfolding dispatch_notifications
dispatch_notifications-Notifying p ns [] event = tt
dispatch_notifications-Notifying p ns (ref ∷ refs) event =
    Within-bind Notifying (resolve_notification_targets ns (ref ∷ refs)) (with_targets p event)
      (resolve_notification_targets-Notifying ns (ref ∷ refs)) (with_targets-Notifying p event)
