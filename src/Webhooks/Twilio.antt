-- ===== src/Webhooks/Twilio.antt =====
-- api/webhooks/twilio_webhook.py. The check of a signature is Twilio's
-- `RequestValidator(token).validate(url, data, signature)`, a parameter.
pub mod Laws
pub mod Reaches
use notifyfork.Common.{
  ℕ, String, Bool, true, not, ◌||◌, Option, none, some, List, [], ◌∷◌, ◌++◌, if◌then◌else◌, ◌==◌,
}
use notifyfork.Python.Dict.{Dict, get, get_or}
use notifyfork.Python.Result.{Error, Result, ok, err}
use notifyfork.Python.Text.{lower}
use notifyfork.Application.Interfaces.Database.{Orm}
use notifyfork.Webhooks.Delivery.{UuidText, Update}
use notifyfork.Webhooks.Answer.{Answer, detail, View, filled, one_of, find_notification_id}
use Prim.Native.String

-- The form of the POST, its absolute URI, and the header with the signature.
pub record Request : Type 0 where
  pub form : Dict String
  pub uri : String
  pub signature : Option String

abbrev pub delivered_statuses : List String
delivered_statuses = "delivered" ∷ "read" ∷ []

abbrev pub failed_statuses : List String
failed_statuses = "failed" ∷ "undelivered" ∷ []

-- `f"{value}"` of an optional text.
unfoldable pub shown : Option String → String
shown none = "None"
shown (some text) = text

unfoldable pub failure_reason : Option String → Option String → Option String
unfolding filled shown
failure_reason error_code error_message =
    if filled error_code
    then some (
        String.◌++◌ "Twilio ["
          (String.◌++◌ (shown error_code) (String.◌++◌ "]: " (shown error_message))))
    else none

unfoldable pub message_status : Request → String
unfolding lower get get_or
message_status request = lower (get_or (get "MessageStatus" request.form) "")

-- `_validate_signature`: without a token in the settings, every request is taken.
unfoldable pub signed_by_twilio :
    (String → String → Dict String → String → Bool) → Option String → Request → Bool
unfolding get_or
signed_by_twilio validate none request = true
signed_by_twilio validate (some token) request =
    if token == ""
    then true
    else validate token request.uri request.form (get_or request.signature "")

unfoldable pub status_update : Request → String → Update
unfolding message_status failure_reason one_of get
status_update request notification_id = record {
  notification_id = notification_id;
  provider = "twilio_sms";
  delivered = one_of delivered_statuses (message_status request);
  reason = failure_reason (get "ErrorCode" request.form) (get "ErrorMessage" request.form);
}

-- After the look-up.
unfoldable pub queue_status : Request → Result (Option String) → View
unfolding status_update
queue_status request (err e) queue = (err e, queue)
queue_status request (ok none) queue = (ok (detail 200 "unknown message"), queue)
queue_status request (ok (some id)) queue =
    (ok (detail 200 "accepted"), queue ++ status_update request id ∷ [])

module _ {V DB : Type 0} (orm : Orm V DB) (uuids : UuidText)
    (validate : String → String → Dict String → String → Bool) (token : Option String) where
  -- `TwilioStatusWebhookView.post`
  unfoldable pub post_status : Request → DB → View
  unfolding signed_by_twilio message_status filled one_of find_notification_id queue_status get
      get_or
  post_status request db queue =
      if not (signed_by_twilio validate token request)
      then (ok (detail 403 "Invalid signature"), queue)
      else if not (filled (get "MessageSid" request.form)) || (message_status request == "")
      then (ok (detail 400 "Missing MessageSid or MessageStatus"), queue)
      else if not (one_of (delivered_statuses ++ failed_statuses) (message_status request))
      then (ok (detail 200 "intermediate status, ignored"), queue)
      else queue_status request
          (find_notification_id orm uuids (get_or (get "MessageSid" request.form) "") db) queue
