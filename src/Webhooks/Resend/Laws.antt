-- ===== src/Webhooks/Resend/Laws.antt =====
-- What a POST of Resend queues.
use notifyfork.Common.{
  String, ◌≡◌, ◌⊎◌, refl, Bool, true, false, Option, none, some, List, [], ◌∷◌, ◌++◌, Bool-cases,
  inl, inr,
}
use notifyfork.Python.Json.{Json, json_true, json_str}
use notifyfork.Python.Result.{Result, ok, err}
use notifyfork.Python.Template.{Str}
use notifyfork.Application.Interfaces.Database.{
  NotificationRow, Found, does_not_exist, found, multiple_objects, Orm,
}
use notifyfork.Webhooks.Delivery.{UuidText, Update}
use notifyfork.Webhooks.Answer.{Answer, detail, one_of, text_of_found, find_notification_id}
use notifyfork.Webhooks.Resend.{
  Request, delivered_types, failed_types, signed_by_resend, hashed_type, resend_update, queue_event,
  queue_typed, queue_fields, read_fields, answer_signed, post_event,
}

module _ ⦃j : Str Json⦄ {V DB Key : Type 0} (orm : Orm V DB) (uuids : UuidText)
    (b64decode : String → Result Key) (digest : Key → String → String) (secret : Option String)
    (request : Request) (db : DB) where
  -- A signed event of a final type, for a message that one stored notification was sent as.
  pub record Confirms (row : NotificationRow V) (name : String) (reason : Option Json)
      : Type 0 where
    pub signed : signed_by_resend b64decode digest secret request ≡ ok true
    pub event_type : Option Json
    pub email_id : Json
    pub fields : read_fields orm uuids request.parsed ≡ ok (event_type, some email_id, reason)
    pub given : json_true email_id ≡ true
    pub typed : hashed_type event_type ≡ ok name
    pub final : one_of (delivered_types ++ failed_types) name ≡ true
    pub stored : orm.aget_message (json_str email_id) db ≡ found row

  -- What a POST does to the queue, on each of its branches.
  abbrev pub Queues : List Update → Result Answer × List Update → Type 0
  Queues queue r =
      (r.1 ≡ queue)
      ⊎ ((row : NotificationRow V) × (name : String) × (reason : Option Json) × Confirms row name
            reason
          × (r ≡ (
            ok (detail 200 "accepted"),
            queue ++ resend_update name reason (uuids.to_text row.id) ∷ [],
          )))

  -- A confirmed event is accepted, and queues the update of that notification.
  pub post_event_of_Confirms :
      (row : NotificationRow V) (name : String) (reason : Option Json) (queue : List Update)
      → Confirms row name reason
      → post_event orm uuids b64decode digest secret request db queue ≡ (
        ok (detail 200 "accepted"),
        queue ++ resend_update name reason (uuids.to_text row.id) ∷ [],
      )
  unfolding post_event find_notification_id
  post_event_of_Confirms row name reason queue h = rw (
    h.signed, answer_signed, h.fields, queue_fields, h.given, h.typed, queue_typed, h.final,
    h.stored, text_of_found, queue_event,
  )

  by_found :
      (name : String) (reason : Option Json) (queue : List Update) (f : Found V)
      → ((row : NotificationRow V) → f ≡ found row → Confirms row name reason)
      → Queues queue (queue_event name reason (text_of_found uuids f) queue)
  unfolding text_of_found queue_event
  by_found name reason queue does_not_exist h = inl refl
  by_found name reason queue (found row) h = inr (row, name, reason, h row refl, refl)
  by_found name reason queue multiple_objects h = inl refl

  module _ (queue : List Update)
      (signed : signed_by_resend b64decode digest secret request ≡ ok true) where
    by_type :
        (event_type : Option Json) (email_id : Json) (reason : Option Json) (r : Result String)
        → read_fields orm uuids request.parsed ≡ ok (event_type, some email_id, reason)
        → json_true email_id ≡ true
        → hashed_type event_type ≡ r
        → Queues queue (queue_typed orm uuids r email_id reason db queue)
    unfolding queue_typed find_notification_id
    by_type event_type email_id reason (err e) fields given typed = inl refl
    by_type event_type email_id reason (ok name) fields given typed =
        elim (Bool-cases (one_of (delivered_types ++ failed_types) name)) [
          | inr early ↦ inl (rw early)
          | inl final ↦ rw final (
              by_found name reason queue (orm.aget_message (json_str email_id) db) (λ row stored.
                record {
                  signed = signed;
                  event_type = event_type;
                  email_id = email_id;
                  fields = fields;
                  given = given;
                  typed = typed;
                  final = final;
                  stored = stored;
                }))
        ]

    by_fields :
        (r : Result (Option Json × Option Json × Option Json))
        → read_fields orm uuids request.parsed ≡ r
        → Queues queue (queue_fields orm uuids r db queue)
    unfolding queue_fields
    by_fields (err e) fields = inl refl
    by_fields (ok (event_type, none, reason)) fields = inl refl
    by_fields (ok (event_type, some email_id, reason)) fields =
        elim (Bool-cases (json_true email_id)) [
          | inr missing ↦ inl (rw missing)
          | inl given ↦
              rw given
                (by_type event_type email_id reason (hashed_type event_type) fields given refl)
        ]

  by_signed :
      (queue : List Update) (r : Result Bool)
      → signed_by_resend b64decode digest secret request ≡ r
      → Queues queue (answer_signed orm uuids r request db queue)
  unfolding answer_signed
  by_signed queue (err e) signed = inl refl
  by_signed queue (ok false) signed = inl refl
  by_signed queue (ok true) signed =
      by_fields queue signed (read_fields orm uuids request.parsed) refl

  -- A POST of Resend changes the queue only where it is a signed event of a final type for a stored
  -- notification, and then by one update of that notification: any other POST, whatever it answers
  -- or raises, leaves the queue as it was.
  pub post_event-Queues :
      (queue : List Update)
      → Queues queue (post_event orm uuids b64decode digest secret request db queue)
  unfolding post_event
  post_event-Queues queue = by_signed queue (signed_by_resend b64decode digest secret request) refl
