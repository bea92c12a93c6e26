-- ===== src/Webhooks/Twilio/Reaches.antt =====
-- From a report of Twilio to the row of the notification: the view, then the queued task.
use notifyfork.Common.{
  String, ◌≡◌, refl, ◌∙◌, Bool, Option, some, List, [], ◌∷◌, ◌++◌, nat_eq_iff, if◌then◌else◌, arith,
}
use notifyfork.Python.Dict.{Dict, get}
use notifyfork.Python.Result.{ok}
use notifyfork.Domain.Notification.{NotificationStatus, status_is_terminal}
use notifyfork.Domain.Notification.Status.{status_of_value}
use notifyfork.Application.Interfaces.Provider.{Host}
use notifyfork.Application.Interfaces.Database.{NotificationRow, Orm, OrmLaws}
use notifyfork.Application.UseCase.{Sys}
use notifyfork.Infrastructure.Tasks.{finished}
use notifyfork.Webhooks.Answer.{detail, one_of}
use notifyfork.Webhooks.Delivery.{reason_or_default, UuidText, Update, process_delivery_update}
use notifyfork.Webhooks.Delivery.Laws.{Addresses, process_delivery_update_lem}
use notifyfork.Webhooks.Twilio.{
  Request, delivered_statuses, failure_reason, message_status, status_update, post_status,
}
use notifyfork.Webhooks.Twilio.Laws.{Confirms, post_status_of_Confirms}

-- The row of a notification after Twilio's report.
abbrev pub reported : {V : Type 0} → Request → NotificationRow V → NotificationRow V
reported request row =
    let good = one_of delivered_statuses (message_status request) in
    let reason = failure_reason (get "ErrorCode" request.form) (get "ErrorMessage" request.form) in
    record row {
      status = (if good then "delivered" else "delivery_failed");
      error_detail = (if good then row.error_detail else some (reason_or_default reason));
    }

module _ {V DB X : Type 0} (orm : Orm V DB) (laws : OrmLaws orm) (host : Host X) (uuids : UuidText)
    (validate : String → String → Dict String → String → Bool) (token : Option String)
    (request : Request) where
  Addresses-Confirms :
      (db : DB) (row : NotificationRow V) (st : NotificationStatus)
      → Confirms orm uuids validate token request db row
      → status_of_value row.status ≡ some st
      → Addresses orm laws host uuids
          (status_update request (uuids.to_text row.id))
          db
          row.id
          row
          st
  unfolding status_update
  Addresses-Confirms db row st h status = record {
    named = uuids.of_text-to_text row.id;
    stored = (laws.aget_message_found h.sid db row h.stored).1;
    status = status;
  }

  -- A signed report of a final status, for a message that one stored notification was sent as, is
  -- accepted and queues one update; and when the task for it has finished on the same database, the
  -- row of that notification is DELIVERED, or DELIVERY_FAILED with Twilio's error as the reason,
  -- as the reported status says, unless its status was terminal before, and then it is as it was.
  pub report_reaches_row :
      (s s' : Sys DB X) (row : NotificationRow V) (st : NotificationStatus) (t : String)
      (queue : List Update)
      → Confirms orm uuids validate token request s.db row
      → status_of_value row.status ≡ some st
      → process_delivery_update orm host uuids (status_update request (uuids.to_text row.id)) s
        ≡ (finished t, s')
      → (post_status orm uuids validate token request s.db queue ≡ (
        ok (detail 200 "accepted"),
        queue ++ status_update request (uuids.to_text row.id) ∷ [],
      ))
        × (orm.aget row.id s'.db
            ≡ some (if status_is_terminal st then row else reported request row))
  unfolding status_update
  report_reaches_row s s' row st t queue h status done =
      let u = status_update request (uuids.to_text row.id) in
      let here = (nat_eq_iff row.id row.id).1 refl in
      let stored = (laws.aget_message_found h.sid s.db row h.stored).1 in
      (
        post_status_of_Confirms orm uuids validate token request s.db row queue h,
        process_delivery_update_lem orm laws host uuids u s s' row.id row.id row st t
              (Addresses-Confirms s.db row st h status) done
            ∙ rw (here, stored) (ground arith),
      )
