-- ===== src/Gateway.antt =====
-- notification_gateway.go: the handler of /dispatch, which delivers an event to each target in turn. The
-- decoder of the body is no code of the repository: the handler is given its result. The proofs are in
-- the module below this one.
pub mod Reports
use dataprotection.Base.{
  ℕ, List, [], ◌∷◌, ◌++◌, Option, none, some, Bool, true, false, not, Text, codes, text_eq,
  if◌then◌else◌,
}
use dataprotection.Messages.{
  NotificationEvent, NotificationTarget, NotificationDispatchRequest, NotificationDispatchResult,
  NotificationDispatchResponse,
}
use dataprotection.Effects.{post_event, Prog, ret, request, ◌>>=◌}
use dataprotection.Notifications.{post_method, or_post, delivery_of, delivery_error}

-- What the decoder makes of the body.
pub data Decoded : Type 0 where
  malformed : Text → Decoded
  decoded : NotificationDispatchRequest → Decoded

pub data Body : Type 0 where
  plain : Text → Body
  encoded : NotificationDispatchResponse → Body

pub record Answer : Type 0 where
  pub code : ℕ
  pub body : Body

unfoldable pub deliver_notification : NotificationTarget → NotificationEvent → Prog (Option Text)
unfolding delivery_error ◌>>=◌
deliver_notification target event =
    request (post_event (delivery_of (or_post target.method) target event)) >>= λ x.
    ret (delivery_error target x)

unfoldable pub result_of : NotificationTarget → Option Text → NotificationDispatchResult
result_of target (some message) = record { name = target.name; success = false; message = message }
result_of target none = record { name = target.name; success = true; message = codes "delivered" }

-- The loop over the targets: `success` and `results` are those of the response so far.
unfoldable pub deliver_loop :
    NotificationEvent
    → Bool
    → List NotificationDispatchResult
    → List NotificationTarget
    → Prog (Bool × List NotificationDispatchResult)
unfolding deliver_notification result_of ◌>>=◌
deliver_loop event success results [] = ret (success, results)
deliver_loop event success results (target ∷ targets) =
    deliver_notification target event >>= λ error.
    deliver_loop event (if (result_of target error).success then success else false)
      (results ++ result_of target error ∷ []) targets

unfoldable pub answer_of : Bool × List NotificationDispatchResult → Answer
answer_of (true, results) = record {
  code = 200;
  body =
      encoded (record {
        success = true;
        message = codes "all notifications delivered";
        results = results;
      });
}
answer_of (false, results) = record {
  code = 502;
  body = encoded (record {
    success = false;
    message = codes "one or more notifications failed";
    results = results;
  });
}

unfoldable pub dispatch_decoded : Decoded → Prog Answer
unfolding deliver_loop answer_of ◌>>=◌
dispatch_decoded (malformed message) = ret (record { code = 400; body = plain message })
dispatch_decoded (decoded r) = deliver_loop r.event true [] r.targets >>= λ x. ret (answer_of x)

unfoldable pub handle_notification_dispatch : (method : Text) → Decoded → Prog Answer
unfolding dispatch_decoded
handle_notification_dispatch method body =
    if text_eq method post_method
    then dispatch_decoded body
    else ret (record { code = 405; body = plain (codes "method not allowed") })
