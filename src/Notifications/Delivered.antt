-- ===== src/Notifications/Delivered.antt =====
-- What a status that says `Succeeded` means, with the gateway at the other end.
use dataprotection.Base.{
  ℕ, List, [], ◌∷◌, ◌++◌, Option, none, some, Bool, true, false, Text, codes, All, all, all-All,
  ◌≡◌, sym, ap, ◌∙◌, subst, Bool-cases, inl, inr,
}
use dataprotection.Kube.Core.{LocalObjectReference}
use dataprotection.Api.Common.{NotificationDeliveryPhase}
use dataprotection.Messages.{
  NotificationEvent, NotificationTarget, NotificationDispatchRequest, NotificationDispatchResponse,
  Sent, unsent, answered,
}
use dataprotection.Platform.{Platform}
use dataprotection.Effects.{Reply, ok, err, post_dispatch, ◌>>=◌, run}
use dataprotection.Effects.Run.{Oracle, run_on, run-bind}
use dataprotection.Effects.Obeys.{some-inj}
use dataprotection.Notifications.{
  post_method, resolve_notification_targets, Dispatched, dispatch_failed, is_refused, with_answer,
  gateway_url, with_targets, dispatch_notifications,
}
use dataprotection.Gateway.{decoded, encoded, Answer, handle_notification_dispatch}
use dataprotection.Gateway.Reports.{is_reached, full_answer, handle_notification_dispatch-Reports}

-- What comes back when the gateway gives an answer: that answer, or a failure on the way.
abbrev pub Carries : Option Answer → Sent NotificationDispatchResponse → Type 0
Carries a (unsent message) = Unit
Carries none (answered code status response) = ⊥
Carries (some a) (answered code status response) = (a.code ≡ code) × (a.body ≡ encoded response)

-- The dispatch requests go to the gateway.
abbrev pub IsConnected : Oracle → Type 0
IsConnected o =
    (url : Text) (r : NotificationDispatchRequest)
    → Carries (run o (handle_notification_dispatch post_method (decoded r)))
        (o (post_dispatch url r))

abbrev Succeeds : Option Dispatched → Type 0
Succeeds none = ⊥
Succeeds (some (status, b)) = status.phase ≡ NotificationDeliveryPhase.succeeded

abbrev is_failed : NotificationDeliveryPhase → Bool
is_failed NotificationDeliveryPhase.failed = true
is_failed phase = false

failed-ne-succeeded : NotificationDeliveryPhase.failed ≡ NotificationDeliveryPhase.succeeded → ⊥
failed-ne-succeeded e = cc

unset-ne-succeeded : NotificationDeliveryPhase.unset ≡ NotificationDeliveryPhase.succeeded → ⊥
unset-ne-succeeded e = cc

-- An answer that is no failure: sent, below 300, and a success.
abbrev pub Accepted : Sent NotificationDispatchResponse → Type 0
Accepted (unsent message) = ⊥
Accepted (answered code status response) = is_refused code response ≡ false

with_answer-Accepted :
    (o : Oracle) (x : Sent NotificationDispatchResponse)
    → Succeeds (run o (with_answer x))
    → Accepted x
unfolding with_answer dispatch_failed ◌>>=◌
with_answer-Accepted o (unsent m) h = elim (failed-ne-succeeded h) [ ]
with_answer-Accepted o (answered code status response) h =
    elim (Bool-cases (is_refused code response)) [
      | inl e ↦ elim (failed-ne-succeeded (rw e at h)) [ ]
      | inr e ↦ e
    ]

true-ne-false : true ≡ false → ⊥
true-ne-false e = cc

full_answer-reached :
    (o : Oracle) (event : NotificationEvent) (targets : List NotificationTarget) (code : ℕ)
    (response : NotificationDispatchResponse)
    → (full_answer o event targets).code ≡ code
    → is_refused code response ≡ false
    → all (is_reached o event) targets ≡ true
full_answer-reached o event targets code response e h =
    elim (Bool-cases (all (is_reached o event) targets)) [
      | inl g ↦ g
      | inr g ↦
          elim (true-ne-false (subst (λ c. is_refused c response ≡ false) (sym (rw g at e)) h)) [ ]
    ]

-- The targets that were resolved, each reached with a status below 300.
abbrev pub ReachedAll :
    Oracle → NotificationEvent → Option (Reply (List NotificationTarget)) → Type 0
ReachedAll o event none = ⊥
ReachedAll o event (some (err e)) = ⊥
ReachedAll o event (some (ok targets)) = All (λ target. is_reached o event target ≡ true) targets

module _ (p : Platform) (o : Oracle) (connected : IsConnected o) (event : NotificationEvent) where
  carried-reached :
      (targets : List NotificationTarget) (a : Option Answer)
      (x : Sent NotificationDispatchResponse)
      → a ≡ some (full_answer o event targets)
      → Carries a x
      → Accepted x
      → all (is_reached o event) targets ≡ true
  carried-reached targets a (unsent m) e c h = elim h [ ]
  carried-reached targets none (answered code status response) e c h = elim c [ ]
  carried-reached targets (some a) (answered code status response) e c h =
      full_answer-reached o event targets code response
        (sym (ap (λ x. x.code) (some-inj _ _ e)) ∙ c.0) h

  with_targets-Reached :
      (x : Reply (List NotificationTarget))
      → Succeeds (run o (with_targets p event x))
      → ReachedAll o event (some x)
  unfolding with_targets dispatch_failed ◌>>=◌
  with_targets-Reached (err e) h = elim (failed-ne-succeeded h) [ ]
  with_targets-Reached (ok targets) h =
      let r : NotificationDispatchRequest = record { event = event; targets = targets } in
      let url = gateway_url p ++ codes "/dispatch" in
      all-All _ targets (
        carried-reached targets _ (o (post_dispatch url r))
          (handle_notification_dispatch-Reports o r) (connected url r) (with_answer-Accepted o _ h))

  bound-Reached :
      (x : Option (Reply (List NotificationTarget)))
      → Succeeds (run_on o (with_targets p event) x)
      → ReachedAll o event x
  bound-Reached none h = elim h [ ]
  bound-Reached (some x) h = with_targets-Reached x h

  dispatch-Reached :
      (namespace : Text) (ref : LocalObjectReference) (refs : List LocalObjectReference)
      → Succeeds (run o (dispatch_notifications p namespace (ref ∷ refs) event))
      → ReachedAll o event (run o (resolve_notification_targets namespace (ref ∷ refs)))
  unfolding dispatch_notifications
  dispatch-Reached namespace ref refs h = bound-Reached _ (
      subst Succeeds
        (run-bind o (resolve_notification_targets namespace (ref ∷ refs)) (with_targets p event)) h)

-- With the gateway's handler at the other end of the dispatch requests, which may be lost, a notification
-- that is recorded as succeeded has reached all its targets: every endpoint and secret that it refers to was
-- there, and every target's server answered with a status below 300.
pub dispatch_notifications-Reached :
    (p : Platform) (o : Oracle) (event : NotificationEvent) (namespace : Text)
    (refs : List LocalObjectReference)
    → IsConnected o
    → Succeeds (run o (dispatch_notifications p namespace refs event))
    → ReachedAll o event (run o (resolve_notification_targets namespace refs))
unfolding dispatch_notifications
dispatch_notifications-Reached p o event namespace [] connected h = elim (unset-ne-succeeded h) [ ]
dispatch_notifications-Reached p o event namespace (ref ∷ refs) connected h =
    dispatch-Reached p o connected event namespace ref refs h
