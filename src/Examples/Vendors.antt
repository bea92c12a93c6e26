-- ===== src/Examples/Vendors.antt =====
-- The theorems on providers and on Resend's webhook, at concrete inputs.
use notifyfork.Common.{◌≡◌, ◌↔◌, refl, true, String, Option, none, some, [], ◌∷◌}
use notifyfork.Python.Json.{json_str, text}
use notifyfork.Python.Int.{pos}
use notifyfork.Python.Result.{error_text, ok}
use notifyfork.Python.Text.{words, removeprefix}
use notifyfork.Domain.Template.{cannot_render, is_external}
use notifyfork.Application.UseCase.{try_candidates}
use notifyfork.Infrastructure.Providers.Http.{Post}
use notifyfork.Infrastructure.Providers.SendGrid.{Mail, sendgrid_provider, sendgrid_mail}
use notifyfork.Infrastructure.Providers.Resend.{ResendMail, resend_provider, resend_mail}
use notifyfork.Infrastructure.Providers.Slack.{SlackMessage, slack_provider, slack_message}
use notifyfork.Infrastructure.Providers.Smtp.{HtmlMessage, smtp_provider, smtp_message}
use notifyfork.Infrastructure.Providers.Firebase.{
  PushMessage, message_id, firebase_provider, push_message,
}
use notifyfork.Infrastructure.Providers.Delivers.{Delivers}
use notifyfork.Infrastructure.Providers.Delivery.{
  Answered, TakenBySendGrid, TakenByResend, TakenBySlack, http-Delivers_iff,
}
use notifyfork.Infrastructure.Providers.Sessions.{GoesThrough, sessions_deliver_iff}
use notifyfork.Infrastructure.Providers.Local.{firebase, slack, external_passes_local}
use notifyfork.Webhooks.Resend.{
  matches_digest, any_match, read_fields, hashed_type, resend_update, signed_by_resend, post_event,
  after_commas,
}
use notifyfork.Webhooks.Resend.Laws.{Queues, post_event-Queues}
use notifyfork.Webhooks.Resend.Signature.{Found, signed_by_resend_iff}
use notifyfork.Webhooks.Delivery.{Update, process_delivery_update}
use notifyfork.Webhooks.Resend.Reaches.{row_after, event_reaches_row}
use notifyfork.Webhooks.Answer.{detail}
use notifyfork.Domain.Notification.{sent, status_is_terminal}
use notifyfork.Domain.Notification.Status.{status_of_value}
use notifyfork.Infrastructure.Repository.{save, get_by_id, to_entity}
use notifyfork.Examples.Table.{table_orm, table_laws}
use notifyfork.Examples.Data.{
  counter, start, sent_row, welcome, ana, stored, letter_uuids, text_str, json_text, number_text,
  backup, external_welcome, bounce, plain_key, named_digest, answers, slack_ok, open_smtp, push_ok,
}

http-Delivers_iff_example :
    (Delivers
        ((sendgrid_provider (answers 202 slack_ok) "k" "a@b" "A").send_with_template "c@d" welcome
          ana 8).0
        (some "17.5")
      ↔ ((request : Post (Mail String)) × (sendgrid_mail
              (answers 202 slack_ok)
              "k"
              "a@b"
              "A"
              "c@d"
              welcome
              ana
            ≡ ok request)
          × Answered TakenBySendGrid (answers 202 slack_ok request 8).0 (some "17.5")))
    × (Delivers
          ((resend_provider (answers 202 slack_ok) "k" "a@b" "A").send_with_template "c@d" welcome
            ana 8).0
          (some "17.5")
        ↔ ((request : Post ResendMail) × (resend_mail {V = String}
                (answers 202 slack_ok)
                "k"
                "a@b"
                "A"
                "c@d"
                welcome
                ana
              ≡ ok request)
            × Answered TakenByResend (answers 202 slack_ok request 8).0 (some "17.5")))
    × (Delivers
          ((slack_provider (answers 202 slack_ok) "k").send_with_template "c@d" welcome ana 8).0
          (some "17.5")
        ↔ ((request : Post SlackMessage) × (slack_message
                (answers 202 slack_ok)
                "k"
                "c@d"
                welcome
                ana
              ≡ ok request)
            × Answered TakenBySlack (answers 202 slack_ok request 8).0 (some "17.5")))
http-Delivers_iff_example =
    http-Delivers_iff "k" "a@b" "A" "c@d" welcome ana 8 (some "17.5") (answers 202 slack_ok)
      (answers 202 slack_ok) (answers 202 slack_ok)

sessions_deliver_iff_example :
    (Delivers
        ((smtp_provider open_smtp "h" (pos 465) "u" "p" "a@b").send_with_template "c@d" welcome ana
          8).0
        none
      ↔ ((m : HtmlMessage) × (smtp_message "a@b" "c@d" welcome ana ≡ ok m)
          × GoesThrough open_smtp "h" (pos 465) "u" "p" "a@b" m 8
          × ◌≡◌ {A = Option String} none none))
    × (Delivers ((firebase_provider push_ok).send_with_template "c@d" welcome ana 8).0 none ↔ (
        (m : PushMessage) × (push_message push_ok "c@d" welcome ana ≡ ok m)
        × ((id : String) × ((push_ok m 8).0 ≡ message_id id) × (some id ≡ none))))
sessions_deliver_iff_example =
    sessions_deliver_iff open_smtp "h" (pos 465) "u" "p" "a@b" push_ok "c@d" welcome ana 8 none

external_passes_local_example :
    try_candidates "c@d" external_welcome ana ""
      (firebase_provider push_ok ∷ slack_provider (answers 200 slack_ok) "k" ∷ backup ∷ [])
      8
    ≡ try_candidates "c@d" external_welcome ana (error_text cannot_render) (backup ∷ []) 8
unfolding is_external
external_passes_local_example =
    external_passes_local "c@d" external_welcome ana 8 refl "" (firebase_provider push_ok)
      (slack_provider (answers 200 slack_ok) "k" ∷ []) (backup ∷ [])
      (firebase push_ok, (slack (answers 200 slack_ok) "k", tt))

post_event-Queues_example :
    Queues table_orm letter_uuids plain_key named_digest
      (some "whsec_key")
      bounce
      stored
      []
      (post_event table_orm letter_uuids plain_key named_digest (some "whsec_key") bounce stored [])
post_event-Queues_example =
    post_event-Queues table_orm letter_uuids plain_key named_digest (some "whsec_key") bounce stored
      []

signed_by_resend_iff_example :
    (signed_by_resend plain_key named_digest (some "whsec_key") bounce ≡ ok true)
    ↔ Found "key.msg.1.body" (after_commas (words "v1,old v1,key.msg.1.body"))
unfolding removeprefix
signed_by_resend_iff_example =
    signed_by_resend_iff plain_key named_digest "whsec_key" "msg" "1" "v1,old v1,key.msg.1.body"
      "body" "key" bounce
      (record {
        secret_set = refl;
        id_given = refl;
        timestamp_given = refl;
        signature_given = refl;
        id_filled = refl;
        timestamp_filled = refl;
        signature_filled = refl;
        decoded = refl;
        content_read = refl;
      })

abbrev bounced : Update
bounced = resend_update "email.bounced" none (letter_uuids.to_text 2)

event_reaches_row_example :
    (post_event table_orm letter_uuids plain_key named_digest (some "whsec_key") bounce stored []
      ≡ (ok (detail 200 "accepted"), bounced ∷ []))
    × (table_orm.aget 2 (process_delivery_update table_orm counter letter_uuids bounced start).1.db
        ≡ some (row_after "email.bounced" none sent_row))
unfolding process_delivery_update status_of_value get_by_id to_entity save status_is_terminal
    signed_by_resend matches_digest any_match words removeprefix read_fields hashed_type json_str
    resend_update
event_reaches_row_example =
    event_reaches_row table_orm table_laws counter letter_uuids plain_key named_digest
      (some "whsec_key") bounce start
      (process_delivery_update table_orm counter letter_uuids bounced start).1 sent_row
      "email.bounced" none sent "delivery_failed" []
      (record {
        signed = refl;
        event_type = some (text "email.bounced");
        email_id = text "SM1";
        fields = refl;
        given = refl;
        typed = refl;
        final = refl;
        stored = refl;
      })
      refl refl
