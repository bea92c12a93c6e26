-- ===== src/System/Queue.antt =====
-- Every update that a webhook queues is for a stored notification that was sent.
use mathlib.Core.Option.{some-injective}
use notifyfork.Common.{
  ℕ, String, ◌≡◌, refl, sym, ap, ◌∙◌, Bool, Option, some, List, All, All-append, inl, inr,
}
use notifyfork.Python.Dict.{Dict}
use notifyfork.Python.Json.{Json}
use notifyfork.Python.Result.{Error, Result}
use notifyfork.Python.Template.{Str}
use notifyfork.Application.Interfaces.Database.{NotificationRow, found, Orm, OrmLaws}
use notifyfork.Webhooks.Delivery.{UuidText, Update}
use notifyfork.Webhooks.Delivery.Laws.{updated}
use notifyfork.Webhooks.Twilio.{post_status, status_update}
use notifyfork.Webhooks.Twilio.Laws.{post_status-Queues}
use notifyfork.Webhooks.SendGrid.{
  signed_by_sendgrid, queue_events, queue_all, queue_loaded, queue_parsed, post_events,
}
use notifyfork.Webhooks.SendGrid.Posts.{post_events-Selects}
use notifyfork.Webhooks.SendGrid.Laws.{Selects}
use notifyfork.Webhooks.Resend.{post_event, resend_update}
use notifyfork.Webhooks.Resend.Laws.{post_event-Queues}
use notifyfork.System.Rows.{HasMessage, Change, kept, created, closed}
use notifyfork.Webhooks.Twilio
use notifyfork.Webhooks.SendGrid
use notifyfork.Webhooks.Resend

module _ {V : Type 0} where
  -- A row with a message id keeps one, whatever a step does.
  Change-HasMessage :
      {o o' : Option (NotificationRow V)} (row : NotificationRow V)
      → Change o o'
      → o ≡ some row
      → HasMessage row
      → (row' : NotificationRow V) × (o' ≡ some row') × HasMessage row'
  Change-HasMessage row kept e h = (row, e, h)
  Change-HasMessage row (created x) e h = cc
  Change-HasMessage row (closed {row = old} u x y) e h =
      let same : old.provider_message_id ≡ row.provider_message_id =
        ap (λ r. r.provider_message_id) (some-injective old row e) in
      (updated u old, refl, (λ missing. h (sym same ∙ missing)))

module _ {V DB : Type 0} (orm : Orm V DB) (uuids : UuidText) where
  -- The update is for a stored notification with a message id.
  pub record Names (db : DB) (u : Update) : Type 0 where
    pub uid : ℕ
    pub row : NotificationRow V
    pub named : uuids.of_text u.notification_id ≡ some uid
    pub stored : orm.aget uid db ≡ some row
    pub message : HasMessage row

  pub Names-Change :
      (db db' : DB)
      → ((j : ℕ) → Change (orm.aget j db) (orm.aget j db'))
      → (u : Update) → Names db u
      → Names db' u
  Names-Change db db' h u n =
      let (row, stored, message) = Change-HasMessage n.row (h n.uid) n.stored n.message in
      record { uid = n.uid; row = row; named = n.named; stored = stored; message = message }

  module _ (laws : OrmLaws orm) (db : DB) where
    Names-found :
        (u : Update) (m : String) (row : NotificationRow V)
        → u.notification_id ≡ uuids.to_text row.id
        → orm.aget_message m db ≡ found row
        → Names db u
    Names-found u m row same stored =
        let (message, kept_row) = laws.aget_message_found m db row stored in
        record {
          uid = row.id;
          row = row;
          named = rw same (uuids.of_text-to_text row.id);
          stored = kept_row;
          message = λ e. cc;
        }

    pub AllNames-twilio :
        (validate : String → String → Dict String → String → Bool) (token : Option String)
        (request : Twilio.Request) (queue : List Update)
        → All (Names db) queue
        → All (Names db) (post_status orm uuids validate token request db queue).1
    unfolding status_update
    AllNames-twilio validate token request queue h =
        elim (post_status-Queues orm uuids validate token request db queue) [
          | inl same ↦ rw same h
          | inr (row, confirms, same) ↦ rw same (
              All-append (Names db) queue _ h
                (Names-found _ confirms.sid row refl confirms.stored, tt))
        ]

    module _ ⦃j : Str Json⦄ where
      AllNames-Selects :
          (es : List Json) (us : List Update) (o : Option Error)
          → Selects orm uuids db es us o
          → All (Names db) us
      AllNames-Selects es us o Selects.finish = tt
      AllNames-Selects es us o (Selects.stop x) = tt
      AllNames-Selects es us o (Selects.skip x rest) = AllNames-Selects _ us o rest
      AllNames-Selects es us o (Selects.keep {u = u} r rest) =
          (Names-found u _ r.row r.notification r.reads.looked_up, AllNames-Selects _ _ o rest)

      pub AllNames-sendgrid :
          (verify : String → String → String → String → Result Bool) (key : Option String)
          (request : SendGrid.Request) (queue : List Update)
          → All (Names db) queue
          → All (Names db) (post_events orm uuids verify key request db queue).1
      AllNames-sendgrid verify key request queue h =
          elim (post_events-Selects orm uuids verify key request db queue) [
            | inr (refused, same) ↦ rw same h
            | inl (signed, (js, us, o, read, picked, done)) ↦
                rw done (All-append (Names db) queue us h (AllNames-Selects _ us o picked))
          ]

      pub AllNames-resend :
          {Key : Type 0} (b64decode : String → Result Key) (digest : Key → String → String)
          (secret : Option String) (request : Resend.Request) (queue : List Update)
          → All (Names db) queue
          → All (Names db) (post_event orm uuids b64decode digest secret request db queue).1
      unfolding resend_update
      AllNames-resend b64decode digest secret request queue h =
          elim (post_event-Queues orm uuids b64decode digest secret request db queue) [
            | inl same ↦ rw same h
            | inr (row, name, reason, confirms, same) ↦
                rw same
                  (All-append (Names db) queue _ h (Names-found _ _ row refl confirms.stored, tt))
          ]
