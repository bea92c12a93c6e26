-- ===== src/Webhooks/Twilio/Laws.antt =====
-- What a POST of Twilio queues.
use notifyfork.Common.{
  String, ◌≡◌, ◌⊎◌, refl, Bool, true, false, Option, none, some, List, [], ◌∷◌, ◌++◌, arith, ◌==◌,
  eq_iff, Bool-cases, inl, inr,
}
use notifyfork.Python.Dict.{Dict, get, get_or}
use notifyfork.Python.Result.{Result, ok}
use notifyfork.Application.Interfaces.Database.{
  NotificationRow, Found, does_not_exist, found, multiple_objects, Orm,
}
use notifyfork.Webhooks.Delivery.{UuidText, Update}
use notifyfork.Webhooks.Answer.{Answer, detail, filled, one_of, text_of_found, find_notification_id}
use notifyfork.Webhooks.Twilio.{
  Request, delivered_statuses, failed_statuses, message_status, signed_by_twilio, status_update,
  queue_status, post_status,
}

module _ {V DB : Type 0} (orm : Orm V DB) (uuids : UuidText)
    (validate : String → String → Dict String → String → Bool) (token : Option String)
    (request : Request) (db : DB) where
  -- A signed report of a final status, for a message that one stored notification was sent as.
  pub record Confirms (row : NotificationRow V) : Type 0 where
    pub signed : signed_by_twilio validate token request ≡ true
    pub sid : String
    pub named : get "MessageSid" request.form ≡ some sid
    pub sid_filled : (sid == "") ≡ false
    pub final : one_of (delivered_statuses ++ failed_statuses) (message_status request) ≡ true
    pub stored : orm.aget_message sid db ≡ found row

  abbrev pub update_for : NotificationRow V → Update
  update_for row = status_update request (uuids.to_text row.id)

  -- What the POST does to the queue, on each of its branches.
  abbrev pub Queues : List Update → Result Answer × List Update → Type 0
  Queues queue r =
      (r.1 ≡ queue)
      ⊎ ((row : NotificationRow V) × Confirms row
          × (r ≡ (ok (detail 200 "accepted"), queue ++ update_for row ∷ [])))

  final_not_empty :
      (status : String)
      → one_of (delivered_statuses ++ failed_statuses) status ≡ true
      → (status == "") ≡ false
  unfolding one_of
  final_not_empty status h = elim (Bool-cases (status == "")) [
    | inl empty ↦ cc (rw ((eq_iff status "").0 empty, one_of) at h)
    | inr some_text ↦ some_text
  ]

  -- A confirmed report is accepted, and queues the update of that notification.
  pub post_status_of_Confirms :
      (row : NotificationRow V) (queue : List Update)
      → Confirms row
      → post_status orm uuids validate token request db queue
        ≡ (ok (detail 200 "accepted"), queue ++ update_for row ∷ [])
  unfolding post_status filled find_notification_id
  post_status_of_Confirms row queue h =
      let not_empty = final_not_empty (message_status request) h.final in
      rw
        (h.signed, h.named, h.sid_filled, not_empty, h.final, h.stored, text_of_found, queue_status)

  by_found :
      (queue : List Update) (f : Found V)
      → ((row : NotificationRow V) → f ≡ found row → Confirms row)
      → Queues queue (queue_status request (text_of_found uuids f) queue)
  unfolding text_of_found queue_status
  by_found queue does_not_exist h = inl refl
  by_found queue (found row) h = inr (row, h row refl, refl)
  by_found queue multiple_objects h = inl refl

  by_sid :
      (queue : List Update) (sid : Option String)
      → get "MessageSid" request.form ≡ sid
      → signed_by_twilio validate token request ≡ true
      → one_of (delivered_statuses ++ failed_statuses) (message_status request) ≡ true
      → filled sid ≡ true
      → Queues queue
          (queue_status request (find_notification_id orm uuids (get_or sid "") db) queue)
  unfolding filled find_notification_id get_or
  by_sid queue none named signed final h = cc
  by_sid queue (some sid) named signed final h =
      by_found queue (orm.aget_message sid db) (λ row stored. record {
        signed = signed;
        sid = sid;
        named = named;
        sid_filled = ground arith;
        final = final;
        stored = stored;
      })

  -- A POST changes the queue only where it confirms the delivery, or the failure, of a stored
  -- notification, and then by one update of that notification: any other POST, whatever it answers
  -- or raises, leaves the queue as it was.
  pub post_status-Queues :
      (queue : List Update) → Queues queue (post_status orm uuids validate token request db queue)
  unfolding post_status status_update
  post_status-Queues queue = elim (Bool-cases (signed_by_twilio validate token request)) [
    | inr forged ↦ inl (rw (forged))
    | inl signed ↦ elim (Bool-cases (filled (get "MessageSid" request.form))) [
      | inr missing ↦ inl (rw (signed, missing))
      | inl named ↦
          elim (Bool-cases
            (one_of (delivered_statuses ++ failed_statuses) (message_status request))) [
              | inl final ↦
                  rw (signed, named, final_not_empty (message_status request) final, final)
                    (by_sid queue (get "MessageSid" request.form) refl signed final named)
              | inr early ↦ inl (elim (Bool-cases (message_status request == "")) [
                | inl empty ↦ rw (signed, named, empty)
                | inr some_text ↦ rw (signed, named, some_text, early)
              ])
            ]
    ]
  ]
