-- ===== src/Gateway/Reports.antt =====
-- What the gateway answers: a report for each target, and a status code that says whether all were reached.
use dataprotection.Base.{
  List, [], ◌∷◌, ◌++◌, some, Bool, true, false, ◌&&◌, codes, ltb, leb, text_eq, if◌then◌else◌, map,
  all, ◌≡◌, refl, sym, ap, ◌∙◌, arith, Bool-cases, inl, inr, append-nil, append_assoc,
}
use dataprotection.Messages.{
  NotificationEvent, NotificationTarget, NotificationDispatchRequest, NotificationDispatchResult,
  Sent, unsent, answered,
}
use dataprotection.Effects.{post_event, ret, run}
use dataprotection.Effects.Run.{Oracle, run_on, run-bind}
use dataprotection.Notifications.{post_method, or_post, delivery_of, delivery_error}
use dataprotection.Gateway.{
  decoded, encoded, Answer, deliver_notification, result_of, deliver_loop, answer_of,
  dispatch_decoded, handle_notification_dispatch,
}

-- The status code of an accepted request is below 300.
abbrev pub accepts : Sent Unit → Bool
accepts (unsent message) = false
accepts (answered code status u) = ltb code 300

delivery_error-success :
    (target : NotificationTarget) (x : Sent Unit)
    → (result_of target (delivery_error target x)).success ≡ accepts x
unfolding result_of delivery_error
delivery_error-success target (unsent m) = refl
delivery_error-success target (answered code status u) = elim (Bool-cases (leb 300 code)) [
  | inl h ↦ rw h (ground arith)
  | inr h ↦ rw h (ground arith)
]

and-true : (b : Bool) → (b && true) ≡ b
and-true true = refl
and-true false = refl

and_assoc : (a b c : Bool) → ((a && b) && c) ≡ (a && (b && c))
and_assoc true b c = refl
and_assoc false b c = refl

if_else_false : (r s : Bool) → (if r then s else false) ≡ (s && r)
if_else_false true true = refl
if_else_false true false = refl
if_else_false false true = refl
if_else_false false false = refl

ap2 : {A B C : Type 0} (f : A → B → C) {a a' : A} {b b' : B} → a ≡ a' → b ≡ b' → f a b ≡ f a' b'
ap2 f e g = rw (e, g) refl

module _ (o : Oracle) (event : NotificationEvent) where
  -- What the target's server answers.
  abbrev pub answer_to : NotificationTarget → Sent Unit
  answer_to target = o (post_event (delivery_of (or_post target.method) target event))

  abbrev pub is_reached : NotificationTarget → Bool
  is_reached target = accepts (answer_to target)

  abbrev pub report_of : NotificationTarget → NotificationDispatchResult
  report_of target = result_of target (delivery_error target (answer_to target))

  reported :
      (success : Bool) (target : NotificationTarget)
      → (if (report_of target).success then success else false) ≡ (success && is_reached target)
  reported success target =
      ap (λ r. if r then success else false) (delivery_error-success target (answer_to target))
      ∙ if_else_false (is_reached target) success

  loop_result :
      (success : Bool) (results : List NotificationDispatchResult)
      (targets : List NotificationTarget)
      → run o (deliver_loop event success results targets)
        ≡ some (success && all is_reached targets, results ++ map report_of targets)
  unfolding deliver_loop deliver_notification
  loop_result success results [] =
      rw (append-nil results) (ap (λ b. some (b, results)) (sym (and-true success)))
  loop_result success results (target ∷ targets) =
      loop_result (if (report_of target).success then success else false)
        (results ++ report_of target ∷ []) targets
      ∙ ap some (
          ap2 (λ b rs. (b, rs))
            (ap (λ b. b && all is_reached targets) (reported success target)
              ∙ and_assoc success (is_reached target) (all is_reached targets))
            (append_assoc results (report_of target ∷ []) (map report_of targets)))

  -- What the gateway is to answer.
  abbrev pub full_answer : List NotificationTarget → Answer
  full_answer targets =
      if all is_reached targets
      then record {
        code = 200;
        body = encoded (record {
          success = true;
          message = codes "all notifications delivered";
          results = map report_of targets;
        });
      }
      else record {
        code = 502;
        body = encoded (record {
          success = false;
          message = codes "one or more notifications failed";
          results = map report_of targets;
        });
      }

  answer_of-full :
      (b : Bool) (targets : List NotificationTarget)
      → all is_reached targets ≡ b
      → answer_of (b, map report_of targets) ≡ full_answer targets
  unfolding answer_of
  answer_of-full true targets e = rw e refl
  answer_of-full false targets e = rw e refl

-- Whatever the targets answer, the gateway answers a well-formed POST with code 200 if every target was
-- reached with a status below 300, and with code 502 otherwise, and with one report for each target, in
-- the order of the targets.
pub handle_notification_dispatch-Reports :
    (o : Oracle) (r : NotificationDispatchRequest)
    → run o (handle_notification_dispatch post_method (decoded r))
      ≡ some (full_answer o r.event r.targets)
unfolding handle_notification_dispatch dispatch_decoded text_eq
handle_notification_dispatch-Reports o r =
    run-bind o (deliver_loop r.event true [] r.targets) (λ x. ret (answer_of x))
    ∙ ap (run_on o (λ x. ret (answer_of x))) (loop_result o r.event true [] r.targets)
    ∙ ap some (answer_of-full o r.event _ r.targets refl)
