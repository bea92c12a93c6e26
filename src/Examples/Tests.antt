-- ===== src/Examples/Tests.antt =====
-- Runs of the program on small inputs.
use notifyfork.Common.{ℕ, ◌≡◌, refl, String, false, none, some, [], ◌∷◌, map}
use notifyfork.Python.Dict.{get, put, put_all}
use notifyfork.Python.Int.{pos, int_of_text}
use notifyfork.Python.Result.{value_error, key_error, ok, err}
use notifyfork.Python.Template.{substitute, id_start, id_part}
use notifyfork.Python.Text.{strip, split, is_space}
use notifyfork.Application.Dto.{make_dto}
use notifyfork.Application.Interfaces.Provider.{Provider, listed_channel}
use notifyfork.Application.UseCase.{execute, resolve_providers, try_candidates}
use notifyfork.Infrastructure.Container.{slack, ordered, configs}
use notifyfork.Infrastructure.Tasks.{dispatch_notification}
use notifyfork.Domain.Notification.{mark_queued}
use notifyfork.Domain.Notification.Status.{status_of_value}
use notifyfork.Infrastructure.Repository.{
  get_template, to_template, save, get_by_id, to_entity, defaults_of,
}
use notifyfork.Webhooks.Delivery.{process_delivery_update}
use notifyfork.Webhooks.Answer.{detail, accepted}
use notifyfork.Webhooks.Twilio.{post_status}
use notifyfork.Webhooks.SendGrid.{queue_events, post_events}
use notifyfork.Examples.Table.{table_orm}
use notifyfork.Examples.Data.{
  batch, check_sendgrid, counter, down, backup, providers_of_sms, payload, sent_row, stored, start,
  letter_uuids, confirmed, text_str, json_text, ana, report, check_twilio, batch_of_two,
}

substitute_plain : substitute "Hi $name, $$5 for ${name}!" ana ≡ ok "Hi Ana, $5 for Ana!"
unfolding substitute id_start id_part get text_str
substitute_plain = refl

substitute_missing : substitute "Hi $nome" ana ≡ err (key_error "nome")
unfolding substitute id_start id_part get text_str
substitute_missing = refl

substitute_invalid : substitute "100$ off" ana ≡ err (value_error "Invalid placeholder in string")
unfolding substitute id_start id_part get text_str
substitute_invalid = refl

strip_and_split :
    map strip (split b',' " sendgrid_email , smtp_email") ≡ "sendgrid_email" ∷ "smtp_email" ∷ []
unfolding strip split is_space
strip_and_split = refl

int_of_port : int_of_text " 4_65 " ≡ some (pos 465)
unfolding int_of_text is_space
int_of_port = refl

ordered_by_variable :
    ordered (λ (p : Provider String ℕ). p.name) (some "backup_sms") providers_of_sms
    ≡ backup ∷ down ∷ []
unfolding ordered get put_all put is_space
ordered_by_variable = refl

configs_of_slack :
    configs (("SLACK_BOT_TOKEN", "xoxb") ∷ ("TWILIO_ACCOUNT_SID", "AC") ∷ [])
    ≡ ok (slack "xoxb") ∷ []
unfolding configs
configs_of_slack = refl

dispatched :
    table_orm.aget 7
      (dispatch_notification table_orm counter (ok providers_of_sms) payload start).1.db
    ≡ some (record sent_row { id = 7; created_at = 8; sent_at = some 10 })
unfolding dispatch_notification make_dto is_space execute get_template to_template resolve_providers
    listed_channel save mark_queued try_candidates defaults_of
dispatched = refl

delivery_confirmed :
    table_orm.aget 2 (process_delivery_update table_orm counter letter_uuids confirmed start).1.db
    ≡ some (record sent_row { status = "delivered" })
unfolding process_delivery_update get_by_id to_entity status_of_value save defaults_of
delivery_confirmed = refl

bounce_queued : queue_events table_orm letter_uuids batch_of_two stored 0 [] ≡ (
  ok (accepted 1),
  (record {
    notification_id = "uu";
    provider = "sendgrid_email";
    delivered = false;
    reason = some "full";
  })
      ∷ [],
)
unfolding queue_events
bounce_queued = refl

forged_rejected :
    post_status table_orm letter_uuids check_twilio
      (some "secret")
      (record report { signature = none })
      stored
      []
    ≡ (ok (detail 403 "Invalid signature"), [])
unfolding post_status
forged_rejected = refl

batch_accepted :
    (post_events table_orm letter_uuids check_sendgrid (some "key") batch stored []).0
    ≡ ok (accepted 1)
unfolding post_events
batch_accepted = refl
