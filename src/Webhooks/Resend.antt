-- ===== src/Webhooks/Resend.antt =====
-- api/webhooks/resend_webhook.py. `base64.b64decode` of the secret, which may raise, and the base64
-- text of the HMAC-SHA256 of the signed content are parameters, over a type of keys.
pub mod Laws
pub mod Signature
pub mod Reaches
use notifyfork.Common.{
  ℕ, String, Bool, true, false, not, ◌&&◌, Option, none, some, List, [], ◌∷◌, ◌++◌, if◌then◌else◌,
  ◌==◌,
}
use notifyfork.Python.Dict.{get_or}
use notifyfork.Python.Json.{
  Json, null, text, array, object, no_fields, json_get, json_true, given_true, json_str,
}
use notifyfork.Python.Result.{Error, type_error, Result, ok, err, ◌>>=◌}
use notifyfork.Python.Template.{Str}
use notifyfork.Python.Text.{words, after_comma, removeprefix, is_ascii}
use notifyfork.Application.Interfaces.Database.{Orm}
use notifyfork.Webhooks.Delivery.{UuidText, Update}
use notifyfork.Webhooks.Answer.{Answer, detail, View, filled, one_of, find_notification_id}
use notifyfork.Webhooks.SendGrid.{reason_text}
use Prim.Native.String

-- `request.data`, which raises for a body that DRF cannot parse; `request.body.decode()`; and the
-- Svix headers.
pub record Request : Type 0 where
  pub parsed : Result Json
  pub body : Result String
  pub svix_id : Option String
  pub svix_timestamp : Option String
  pub svix_signature : Option String

abbrev pub delivered_types : List String
delivered_types = "email.delivered" ∷ []

abbrev pub failed_types : List String
failed_types = "email.bounced" ∷ "email.complained" ∷ "email.delivery_delayed" ∷ []

-- `[part.split(",", 1)[1] for part in svix_signature.split() if "," in part]`
unfoldable pub after_commas : List String → List String
unfolding after_comma
after_commas [] = []
after_commas (part ∷ parts) =
    let rest = after_commas parts in
    elim (after_comma part) [ none ↦ rest | some signature ↦ signature ∷ rest ]

-- `hmac.compare_digest`, which raises for a text that is not ASCII; `expected` is base64.
unfoldable pub compare_digest : String → String → Result Bool
unfolding is_ascii
compare_digest expected candidate =
    if is_ascii candidate
    then ok (expected == candidate)
    else err (type_error "comparing strings with non-ASCII characters is not supported")

-- `any(hmac.compare_digest(expected, candidate) for candidate in candidates)`
unfoldable pub any_match : String → List String → Result Bool
unfolding compare_digest
any_match expected [] = ok false
any_match expected (candidate ∷ candidates) =
    let rest = any_match expected candidates in
    compare_digest expected candidate >>= λ same. if same then ok true else rest

module _ {Key : Type 0} (b64decode : String → Result Key) (digest : Key → String → String) where
  -- The part of `_validate_signature` after its guards.
  unfoldable pub matches_digest : String → String → String → String → Result String → Result Bool
  unfolding after_commas words any_match removeprefix
  matches_digest secret id timestamp signature body = do
    key ← b64decode (removeprefix "whsec_" secret)
    content ← body
    any_match
        (digest key
          (String.◌++◌ id (String.◌++◌ "." (String.◌++◌ timestamp (String.◌++◌ "." content)))))
        (after_commas (words signature))

  -- `_validate_signature`
  unfoldable pub signed_by_resend : Option String → Request → Result Bool
  unfolding filled matches_digest get_or
  signed_by_resend none request = ok true
  signed_by_resend (some secret) request =
      if secret == ""
      then ok true
      else if filled request.svix_id
          && filled request.svix_timestamp
          && filled request.svix_signature
      then matches_digest secret (get_or request.svix_id "") (get_or request.svix_timestamp "")
          (get_or request.svix_signature "") request.body
      else ok false

-- `request.data.get("data") or {}`
unfoldable pub or_empty : Option Json → Json
unfolding given_true
or_empty none = object no_fields
or_empty (some j) = if json_true j then j else object no_fields

-- `event_type in {...}` hashes the value: a list or a dict raises. A value that is no text is in no
-- set of texts, like the empty text.
unfoldable pub hashed_type : Option Json → Result String
hashed_type none = ok ""
hashed_type (some (text t)) = ok t
hashed_type (some (array js)) = err (type_error "unhashable type: 'list'")
hashed_type (some (object fs)) = err (type_error "unhashable type: 'dict'")
hashed_type (some _) = ok ""

module _ ⦃j : Str Json⦄ where
  unfoldable pub resend_update : String → Option Json → String → Update
  unfolding one_of reason_text
  resend_update event_type reason notification_id =
      let good = one_of delivered_types event_type in
      record {
        notification_id = notification_id;
        provider = "resend_email";
        delivered = good;
        reason = (if good then none else reason_text reason);
      }

  -- After the look-up.
  unfoldable pub queue_event : String → Option Json → Result (Option String) → View
  unfolding resend_update
  queue_event event_type reason (err e) queue = (err e, queue)
  queue_event event_type reason (ok none) queue = (ok (detail 200 "unknown message"), queue)
  queue_event event_type reason (ok (some id)) queue =
      (ok (detail 200 "accepted"), queue ++ resend_update event_type reason id ∷ [])

  module _ {V DB : Type 0} (orm : Orm V DB) (uuids : UuidText) where
    -- After the test of `email_id`.
    unfoldable pub queue_typed : Result String → Json → Option Json → DB → View
    unfolding one_of json_str find_notification_id queue_event
    queue_typed (err e) email_id reason db queue = (err e, queue)
    queue_typed (ok event_type) email_id reason db queue =
        if one_of (delivered_types ++ failed_types) event_type
        then queue_event event_type reason (find_notification_id orm uuids (json_str email_id) db)
            queue
        else (ok (detail 200 "intermediate event, ignored"), queue)

    -- The fields `type`, `data.email_id` and `data.reason`, once read.
    unfoldable pub queue_fields : Result (Option Json × Option Json × Option Json) → DB → View
    unfolding given_true hashed_type queue_typed
    queue_fields (err e) db queue = (err e, queue)
    queue_fields (ok (event_type, none, reason)) db queue =
        (ok (detail 400 "Missing data.email_id"), queue)
    queue_fields (ok (event_type, some email_id, reason)) db queue =
        if json_true email_id
        then queue_typed (hashed_type event_type) email_id reason db queue
        else (ok (detail 400 "Missing data.email_id"), queue)

    unfoldable pub read_fields : Result Json → Result (Option Json × Option Json × Option Json)
    unfolding json_get or_empty
    read_fields parsed = do
      event ← parsed
      event_type ← json_get "type" event
      given ← json_get "data" event
      email_id ← json_get "email_id" (or_empty given)
      reason ← json_get "reason" (or_empty given)
      ok (event_type, email_id, reason)

    unfoldable pub answer_signed : Result Bool → Request → DB → View
    unfolding queue_fields read_fields
    answer_signed (err e) request db queue = (err e, queue)
    answer_signed (ok false) request db queue = (ok (detail 403 "Invalid signature"), queue)
    answer_signed (ok true) request db queue = queue_fields (read_fields request.parsed) db queue

    -- `ResendEventWebhookView.post`
    unfoldable pub post_event :
        {Key : Type 0}
        → (String → Result Key)
        → (Key → String → String)
        → Option String
        → Request
        → DB
        → View
    unfolding signed_by_resend answer_signed
    post_event b64decode digest secret request db queue =
        answer_signed (signed_by_resend b64decode digest secret request) request db queue
