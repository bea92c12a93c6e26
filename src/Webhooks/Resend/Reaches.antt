-- ===== src/Webhooks/Resend/Reaches.antt =====
-- From a POST of Resend to the row of the notification.
use notifyfork.Common.{
  nat_eq_iff, String, ◌≡◌, refl, ◌∙◌, Option, some, List, [], ◌∷◌, ◌++◌, arith, if◌then◌else◌,
}
use notifyfork.Python.Json.{Json}
use notifyfork.Python.Result.{Result, ok}
use notifyfork.Python.Template.{Str}
use notifyfork.Domain.Notification.{NotificationStatus, status_is_terminal}
use notifyfork.Domain.Notification.Status.{status_of_value}
use notifyfork.Application.Interfaces.Provider.{Host}
use notifyfork.Application.Interfaces.Database.{NotificationRow, Orm, OrmLaws}
use notifyfork.Application.UseCase.{Sys}
use notifyfork.Infrastructure.Tasks.{finished}
use notifyfork.Webhooks.Answer.{detail, one_of}
use notifyfork.Webhooks.Delivery.{reason_or_default, UuidText, Update, process_delivery_update}
use notifyfork.Webhooks.Delivery.Laws.{Addresses, process_delivery_update_lem}
use notifyfork.Webhooks.SendGrid.{reason_text}
use notifyfork.Webhooks.Resend.{Request, delivered_types, resend_update, post_event}
use notifyfork.Webhooks.Resend.Laws.{Confirms, post_event_of_Confirms}

-- The row of a notification after an event of the type `name`, with the field `reason` of its data.
abbrev pub row_after :
    ⦃j : Str Json⦄ {V : Type 0} → String → Option Json → NotificationRow V → NotificationRow V
row_after name reason row =
    let good = one_of delivered_types name in
    record row {
      status = (if good then "delivered" else "delivery_failed");
      error_detail =
          (if good then row.error_detail else some (reason_or_default (reason_text reason)));
    }

module _ ⦃j : Str Json⦄ {V DB X Key : Type 0} (orm : Orm V DB) (laws : OrmLaws orm) (host : Host X)
    (uuids : UuidText) (b64decode : String → Result Key) (digest : Key → String → String)
    (secret : Option String) (request : Request) where
  -- A signed event of a final type, for a message that one stored notification was sent as, is
  -- accepted and queues one update; and when the task for it has finished on the same database, the
  -- row of that notification is DELIVERED, or DELIVERY_FAILED with the event's reason (or the task's
  -- own text where it has none), as the type says, unless its status was terminal before, and then
  -- it is as it was. An `email.delivery_delayed` counts as a failure.
  pub event_reaches_row :
      (s s' : Sys DB X) (row : NotificationRow V) (name : String) (reason : Option Json)
      (st : NotificationStatus) (t : String) (queue : List Update)
      → Confirms orm uuids b64decode digest secret request s.db row name reason
      → status_of_value row.status ≡ some st
      → process_delivery_update orm host uuids (resend_update name reason (uuids.to_text row.id)) s
        ≡ (finished t, s')
      → (post_event orm uuids b64decode digest secret request s.db queue ≡ (
        ok (detail 200 "accepted"),
        queue ++ resend_update name reason (uuids.to_text row.id) ∷ [],
      ))
        × (orm.aget row.id s'.db
            ≡ some (if status_is_terminal st then row else row_after name reason row))
  unfolding resend_update
  event_reaches_row s s' row name reason st t queue h status done =
      let u = resend_update name reason (uuids.to_text row.id) in
      let here = (nat_eq_iff row.id row.id).1 refl in
      let stored = (laws.aget_message_found _ s.db row h.stored).1 in
      let addresses : Addresses orm laws host uuids u s.db row.id row st = record {
        named = uuids.of_text-to_text row.id;
        stored = stored;
        status = status;
      } in
      (
        post_event_of_Confirms orm uuids b64decode digest secret request s.db row name reason queue
            h,
        process_delivery_update_lem orm laws host uuids u s s' row.id row.id row st t addresses done
            ∙ rw (here, stored) (ground arith),
      )
