-- ===== src/Examples/Overlap.antt =====
-- The theorem on what interleaved tasks leave of a row, at a concrete input: a notification is sent,
-- Twilio reports it as delivered, and two workers read it for the one update before either saves.
use mathlib.Core.List.{Memᴰ}
use notifyfork.Common.{◌⊎◌, ℕ, ◌≡◌, refl, String, some, [], ◌∷◌}
use notifyfork.Python.Dict.{get, get_or}
use notifyfork.Python.Text.{strip, is_space}
use notifyfork.Domain.Notification.{Notification, sent, mark_queued}
use notifyfork.Domain.Notification.Status.{status_of_value}
use notifyfork.Application.Dto.{make_dto}
use notifyfork.Application.Interfaces.Provider.{listed_channel}
use notifyfork.Application.Interfaces.Database.{NotificationRow}
use notifyfork.Application.UseCase.{
  accepted, conclude, new_notification, read_attempt, resolve_providers,
}
use notifyfork.Infrastructure.Repository.{
  save, get_template, to_template, get_by_id, to_entity, entity_of, defaults_of,
}
use notifyfork.Webhooks.Delivery.{Update}
use notifyfork.Webhooks.Twilio.{post_status, status_update, signed_by_twilio, message_status}
use notifyfork.Webhooks.Answer.{one_of}
use notifyfork.System.Workers.{Stage, trying, settling, closing, begin, prepare, advance}
use notifyfork.System.Workers.Scene.{Scene, put_worker, go_on, read, twilio, Moves, still, then}
use notifyfork.System.Workers.Holds.{core}
use notifyfork.System.Workers.Kept.{sent_rows_only_close, sent_columns_stay}
use notifyfork.Examples.Table.{Table, table_orm, table_laws}
use notifyfork.Examples.Data.{
  counter, backup, providers_of_sms, letter_uuids, text_str, json_text, plain_key, named_digest,
  check_twilio, report,
}
use notifyfork.Examples.Worlds.{sent_now}
use notifyfork.Examples.Workers.{
  no_tasks, after_advance, ready, first_notification, one_queued, one_worker_queues,
}

abbrev sent_notification : Notification String
sent_notification = conclude (accepted "backup_sms" (some "SM1")) 10 first_notification

abbrev one_sent : Scene String (Table String) ℕ
one_sent = after_advance 0 (settling sent_notification) (
    after_advance 0 (trying ready "timeout" (backup ∷ []) first_notification) (
      after_advance 0 (trying ready "Unknown provider error" providers_of_sms first_notification)
        one_queued))

one_worker_sends : Moves table_orm counter letter_uuids plain_key named_digest no_tasks one_sent
unfolding begin prepare advance make_dto is_space strip get_template to_template resolve_providers
    listed_channel save mark_queued new_notification read_attempt conclude
one_worker_sends =
    then
      (then
        (then one_worker_queues (
          go_on 0 (trying ready "Unknown provider error" providers_of_sms first_notification) refl))
        (go_on 0 (trying ready "timeout" (backup ∷ []) first_notification) refl))
      (go_on 0 (settling sent_notification) refl)

abbrev reported_scene : Scene String (Table String) ℕ
reported_scene = record one_sent {
  updates =
      (post_status table_orm letter_uuids check_twilio (some "secret") report one_sent.sys.db []).1;
}

abbrev delivered_update : Update
delivered_update = status_update report (letter_uuids.to_text 7)

abbrev closing_task : Stage String ℕ
closing_task = closing delivered_update (entity_of sent_now sent)

abbrev both_read : Scene String (Table String) ℕ
both_read = record reported_scene {
  workers =
      put_worker 2 (some closing_task) (put_worker 1 (some closing_task) reported_scene.workers);
}

abbrev both_saved : Scene String (Table String) ℕ
both_saved = after_advance 2 closing_task (after_advance 1 closing_task both_read)

two_workers_close : Moves table_orm counter letter_uuids plain_key named_digest one_sent both_saved
unfolding begin prepare advance make_dto is_space strip get_template to_template resolve_providers
    listed_channel save mark_queued new_notification read_attempt conclude get_by_id to_entity
    entity_of status_of_value signed_by_twilio get get_or one_of message_status status_update
    post_status defaults_of
two_workers_close =
    then
      (then
        (then
          (then (then still (twilio check_twilio (some "secret") report)) (
            read 1 delivered_update 7 (entity_of sent_now sent) refl (Memᴰ.head {xs = []} refl) refl
              refl))
          (read 2 delivered_update 7 (entity_of sent_now sent) refl (Memᴰ.head {xs = []} refl) refl
            refl))
        (go_on 1 closing_task refl))
      (go_on 2 closing_task refl)

sent_columns_stay_example :
    (row : NotificationRow String) × (table_orm.aget 7 both_saved.sys.db ≡ some row)
    × (core row ≡ core sent_now)
unfolding begin prepare advance make_dto is_space strip get_template to_template resolve_providers
    listed_channel save mark_queued new_notification read_attempt conclude defaults_of
sent_columns_stay_example =
    sent_columns_stay table_orm table_laws counter letter_uuids plain_key named_digest no_tasks
      one_sent both_saved (λ i. refl) (λ w. refl) refl one_worker_sends two_workers_close 7 sent_now
      refl (λ e. cc (e))

sent_rows_only_close_example :
    (row : NotificationRow String) × (table_orm.aget 7 both_saved.sys.db ≡ some row)
    × ((row ≡ sent_now) ⊎ (row.status ≡ "delivered") ⊎ (row.status ≡ "delivery_failed"))
unfolding begin prepare advance make_dto is_space strip get_template to_template resolve_providers
    listed_channel save mark_queued new_notification read_attempt conclude defaults_of
sent_rows_only_close_example =
    sent_rows_only_close table_orm table_laws counter letter_uuids plain_key named_digest no_tasks
      one_sent both_saved (λ i. refl) (λ w. refl) refl one_worker_sends two_workers_close 7 sent_now
      refl (λ e. cc (e))
