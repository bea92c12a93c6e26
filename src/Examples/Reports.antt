-- ===== src/Examples/Reports.antt =====
-- The theorems on delivery reports and on Twilio's providers, at concrete inputs.
use notifyfork.Common.{◌≢◌, ℕ, ◌≡◌, ◌↔◌, refl, String, none, some, [], ◌∷◌}
use notifyfork.Python.Dict.{get, get_or}
use notifyfork.Python.Result.{ok}
use notifyfork.Domain.Notification.{sent, status_is_terminal}
use notifyfork.Domain.Notification.Status.{status_of_value}
use notifyfork.Application.UseCase.{read_attempt, delivery, Sys}
use notifyfork.Infrastructure.Repository.{get_by_id, save, to_entity}
use notifyfork.Infrastructure.Tasks.{finished}
use notifyfork.Webhooks.Delivery.Overlap.{second_write_wins}
use notifyfork.Webhooks.Delivery.{apply_update, process_delivery_update}
use notifyfork.Webhooks.Delivery.Laws.{updated, process_delivery_update_lem}
use notifyfork.Infrastructure.Providers.{
  Message, created, sms_message, twilio_sms_provider, whatsapp_message, twilio_whatsapp_provider,
}
use notifyfork.Infrastructure.Providers.Laws.{delivers_iff}
use notifyfork.Webhooks.Delivery.Finishes.{process_delivery_update_finishes}
use notifyfork.Webhooks.Twilio.Reaches.{reported, report_reaches_row}
use notifyfork.Webhooks.Answer.{detail, one_of}
use notifyfork.Webhooks.Twilio.{post_status, status_update, signed_by_twilio, message_status}
use notifyfork.Webhooks.Twilio.Laws.{Queues, post_status-Queues}
use notifyfork.Webhooks.SendGrid.{post_events}
use notifyfork.Webhooks.SendGrid.Posts.{Batches, post_events-Selects}
use notifyfork.Examples.Table.{Table, table_orm, table_laws}
use notifyfork.Examples.Data.{
  batch, check_sendgrid, counter, welcome, ana, sent_row, stored, start, letter_uuids, confirmed,
  contradicted, text_str, report, check_twilio, twilio, json_text,
}

abbrev delivered_end : Sys (Table String) ℕ
delivered_end = (process_delivery_update table_orm counter letter_uuids confirmed start).1

process_delivery_update_example :
    table_orm.aget 2 delivered_end.db ≡ some (updated confirmed sent_row)
unfolding process_delivery_update status_is_terminal status_of_value get_by_id to_entity save
process_delivery_update_example =
    process_delivery_update_lem table_orm table_laws counter letter_uuids confirmed start
      delivered_end 2 2 sent_row sent "delivered"
      (record { named = refl; stored = refl; status = refl }) refl

abbrev between : Sys (Table String) ℕ
between = (apply_update table_orm counter confirmed (get_by_id table_orm 2 stored) start).1

abbrev after_both : Sys (Table String) ℕ
after_both = (apply_update table_orm counter contradicted (get_by_id table_orm 2 stored) between).1

second_write_wins_example :
    (table_orm.aget 2 between.db ≡ some (updated confirmed sent_row))
    × (table_orm.aget 2 after_both.db ≡ some (updated contradicted sent_row))
    × ((j : ℕ) → j ≢ 2 → table_orm.aget j after_both.db ≡ table_orm.aget j start.db)
unfolding apply_update status_is_terminal status_of_value get_by_id to_entity save
second_write_wins_example =
    second_write_wins table_orm table_laws counter letter_uuids confirmed contradicted start between
      after_both 2 sent_row sent "delivered" "delivery_failed"
      (record { named = refl; stored = refl; status = refl })
      (record { named = refl; stored = refl; status = refl }) refl refl refl

post_status-Queues_example :
    Queues table_orm letter_uuids check_twilio none report stored []
      (post_status table_orm letter_uuids check_twilio none report stored [])
post_status-Queues_example =
    post_status-Queues table_orm letter_uuids check_twilio none report stored []

post_events-Selects_example :
    Batches table_orm letter_uuids check_sendgrid
      (some "key")
      batch
      stored
      []
      (post_events table_orm letter_uuids check_sendgrid (some "key") batch stored [])
post_events-Selects_example =
    post_events-Selects table_orm letter_uuids check_sendgrid (some "key") batch stored []

report_reaches_row_example :
    (post_status table_orm letter_uuids check_twilio (some "secret") report stored []
      ≡ (ok (detail 200 "accepted"), status_update report (letter_uuids.to_text 2) ∷ []))
    × (table_orm.aget 2
          (process_delivery_update table_orm counter letter_uuids
            (status_update report "uu")
            start).1.db
        ≡ some (reported report sent_row))
unfolding process_delivery_update status_of_value get_by_id to_entity save status_is_terminal
    signed_by_twilio get get_or one_of message_status status_update
report_reaches_row_example =
    report_reaches_row table_orm table_laws counter letter_uuids check_twilio (some "secret") report
      start
      (process_delivery_update table_orm counter letter_uuids (status_update report "uu") start).1
      sent_row sent "delivered" []
      (record {
        signed = refl;
        sid = "SM1";
        named = refl;
        sid_filled = refl;
        final = refl;
        stored = refl;
      })
      refl refl

delivers_iff_example :
    ((read_attempt ((twilio_sms_provider twilio "+1").send_with_template "+351" welcome ana 8).0
        ≡ delivery (some "SM9"))
      ↔ ((m : Message String) × (sid : String) × (sms_message twilio "+1" "+351" welcome ana ≡ ok m)
          × ((twilio m 8).0 ≡ created sid)
          × (some "SM9" ≡ some sid)))
    × ((read_attempt
            ((twilio_whatsapp_provider twilio "+1").send_with_template "+351" welcome ana 8).0
          ≡ delivery (some "SM9"))
        ↔ ((m : Message String) × (sid : String) × (whatsapp_message twilio "+1" "+351" welcome ana
              ≡ ok m)
            × ((twilio m 8).0 ≡ created sid)
            × (some "SM9" ≡ some sid)))
delivers_iff_example = delivers_iff twilio "+1" "+351" welcome ana 8 (some "SM9")

process_delivery_update_finishes_example :
    (s' : Sys (Table String) ℕ) × (process_delivery_update table_orm counter letter_uuids
        contradicted start
      ≡ (finished "delivery_failed", s'))
unfolding status_of_value status_is_terminal
process_delivery_update_finishes_example =
    process_delivery_update_finishes table_orm table_laws counter letter_uuids contradicted start 2
      sent_row sent (record { named = refl; stored = refl; status = refl })
      (λ i d now db. (_, refl))
