-- ===== src/Webhooks/SendGrid.antt =====
-- api/webhooks/sendgrid_webhook.py. The check of a signature is SendGrid's `EventWebhook`, a
-- parameter that may raise.
pub mod Events
pub mod Laws
pub mod Posts
use notifyfork.Common.{
  ℕ, ◌+◌, String, Bool, true, false, not, Option, none, some, List, [], ◌∷◌, ◌++◌, if◌then◌else◌,
  ◌==◌,
}
use notifyfork.Python.Dict.{get_or}
use notifyfork.Python.Json.{
  Json, Fields, no_fields, field, text, array, object, json_get, items_list, given_true,
  text_column,
}
use notifyfork.Python.Result.{
  Error, value_error, attribute_error, type_error, Result, ok, err, ◌>>=◌,
}
use notifyfork.Python.Template.{Str}
use notifyfork.Python.Text.{lower, split, first_part}
use notifyfork.Application.Interfaces.Database.{Orm}
use notifyfork.Webhooks.Delivery.{UuidText, Update}
use notifyfork.Webhooks.Answer.{Answer, detail, accepted, View, one_of, find_notification_id}

-- `request.data`, which raises for a body that DRF cannot parse; `json.loads(request.body)`; the
-- body itself, and the headers of the signature.
pub record Request : Type 0 where
  pub parsed : Result Json
  pub loaded : Result Json
  pub raw : String
  pub signature : Option String
  pub timestamp : Option String

abbrev pub delivered_events : List String
delivered_events = "delivered" ∷ []

abbrev pub failed_events : List String
failed_events = "bounce" ∷ "dropped" ∷ "spamreport" ∷ []

-- A method of `event.get(key, "")` that only a text has.
unfoldable pub text_or_raise : String → Option Json → Result String
text_or_raise method none = ok ""
text_or_raise method (some (text t)) = ok t
text_or_raise method (some _) = err (attribute_error method)

unfoldable pub text_field : String → String → Json → Result String
unfolding json_get text_or_raise
text_field key method event = json_get key event >>= λ value. text_or_raise method value

-- A value of `reason`: the text that the database keeps of it. One that is not true is `none`, since
-- the task takes its own text in place of any such value.
unfoldable pub reason_text : ⦃j : Str Json⦄ → Option Json → Option String
unfolding given_true text_column
reason_text value = if given_true value then text_column value else none

-- `event.get("reason") or event.get("type")`
unfoldable pub reason_or_type : ⦃j : Str Json⦄ → Json → Result (Option String)
unfolding json_get given_true reason_text
reason_or_type event = do
  reason ← json_get "reason" event
  kind ← json_get "type" event
  ok (reason_text (if given_true reason then reason else kind))

unfoldable pub answers_true : Result Bool → Bool
answers_true (ok answer) = answer
answers_true (err e) = false

-- `_validate_signature`, where an exception counts as a wrong signature.
unfoldable pub signed_by_sendgrid :
    (String → String → String → String → Result Bool) → Option String → Request → Bool
unfolding get_or answers_true
signed_by_sendgrid verify none request = true
signed_by_sendgrid verify (some key) request =
    if key == ""
    then true
    else answers_true
        (verify key request.raw (get_or request.signature "") (get_or request.timestamp ""))

unfoldable pub event_update : String → Option String → Option String → Option Update
unfolding one_of
event_update event_type reason none = none
event_update event_type reason (some id) = some (record {
  notification_id = id;
  provider = "sendgrid_email";
  delivered = one_of delivered_events event_type;
  reason = reason;
})

module _ ⦃j : Str Json⦄ {V DB : Type 0} (orm : Orm V DB) (uuids : UuidText) where
  -- The rest of the loop's body once the fields are read: `none` for `continue`.
  unfoldable pub final_update : String → String → Option String → DB → Result (Option Update)
  unfolding one_of find_notification_id event_update
  final_update event_type message reason db =
      if not (one_of (delivered_events ++ failed_events) event_type)
      then ok none
      else do id ← find_notification_id orm uuids message db; ok (event_update event_type reason id)

  -- One pass of the loop over the events.
  unfoldable pub read_event : Json → DB → Result (Option Update)
  unfolding text_field lower split first_part reason_or_type final_update
  read_event event db = do
    event_type ← text_field "event" "lower" event
    message ← text_field "sg_message_id" "split" event
    reason ← reason_or_type event
    final_update (lower event_type) (first_part (split b'.' message)) reason db

  unfoldable pub queue_events : List Json → DB → ℕ → View
  unfolding read_event
  queue_events [] db queued queue = (ok (accepted queued), queue)
  queue_events (event ∷ es) db queued queue = elim (read_event event db) [
    | err e ↦ (err e, queue)
    | ok o ↦ elim o [
      | none ↦ queue_events es db queued queue
      | some u ↦ queue_events es db (queued + 1) (queue ++ u ∷ [])
    ]
  ]

  -- `for event in events`: of a dict it goes over the keys, of a text over the characters, and these
  -- are texts, which have no `get`.
  unfoldable pub queue_all : Json → DB → View
  unfolding queue_events items_list
  queue_all (array js) db queue = queue_events (items_list js) db 0 queue
  queue_all (object no_fields) db queue = (ok (accepted 0), queue)
  queue_all (object (field k v fs)) db queue = (err (attribute_error "get"), queue)
  queue_all (text t) db queue =
      if t == "" then (ok (accepted 0), queue) else (err (attribute_error "get"), queue)
  queue_all _ db queue = (err (type_error "not iterable"), queue)

  -- The events that the `try` gives; where it catches, the view answers 400.
  unfoldable pub queue_loaded : Result Json → DB → View
  unfolding queue_all
  queue_loaded (ok events) db queue = queue_all events db queue
  queue_loaded (err (value_error why)) db queue = (ok (detail 400 "Invalid JSON"), queue)
  queue_loaded (err (type_error why)) db queue = (ok (detail 400 "Invalid JSON"), queue)
  queue_loaded (err e) db queue = (err e, queue)

  -- `request.data if isinstance(request.data, list) else json.loads(request.body)`
  unfoldable pub queue_parsed : Result Json → Result Json → DB → View
  unfolding queue_loaded queue_all
  queue_parsed (err e) loaded db queue = queue_loaded (err e) db queue
  queue_parsed (ok (array js)) loaded db queue = queue_all (array js) db queue
  queue_parsed (ok _) loaded db queue = queue_loaded loaded db queue

  -- `SendGridEventWebhookView.post`
  unfoldable pub post_events :
      (String → String → String → String → Result Bool) → Option String → Request → DB → View
  unfolding signed_by_sendgrid queue_parsed
  post_events verify key request db queue =
      if not (signed_by_sendgrid verify key request)
      then (ok (detail 403 "Invalid signature"), queue)
      else queue_parsed request.parsed request.loaded db queue
