-- ===== src/Examples/VendorTests.antt =====
-- Runs of the vendors' providers and webhooks on small inputs.
use notifyfork.Common.{◌≡◌, refl, some, []}
use notifyfork.Python.Int.{pos}
use notifyfork.Python.Json.{null}
use notifyfork.Python.Result.{attribute_error, type_error, ok, err}
use notifyfork.Python.Template.{substitute, id_start}
use notifyfork.Python.Dict.{get}
use notifyfork.Application.Interfaces.Provider.{returned, raised}
use notifyfork.Infrastructure.Providers.Http.{succeeded, failed_with}
use notifyfork.Infrastructure.Providers.Resend.{resend_provider}
use notifyfork.Infrastructure.Providers.Slack.{slack_provider}
use notifyfork.Infrastructure.Providers.Smtp.{smtp_error, smtp_provider}
use notifyfork.Webhooks.Answer.{detail}
use notifyfork.Webhooks.Resend.{post_event, signed_by_resend}
use notifyfork.Examples.Table.{table_orm}
use notifyfork.Examples.Data.{
  stored, letter_uuids, text_str, json_text, number_text, welcome, ana, bounce, plain_key,
  named_digest, answers, slack_ok, open_smtp,
}

-- The second signature of the header is the right one.
rotated_key_accepted :
    (post_event table_orm letter_uuids plain_key named_digest (some "whsec_key") bounce stored []).0
    ≡ ok (detail 200 "accepted")
unfolding post_event
rotated_key_accepted = refl

wrong_key_refused :
    (post_event table_orm letter_uuids plain_key named_digest (some "whsec_new") bounce stored [])
    ≡ (ok (detail 403 "Invalid signature"), [])
unfolding post_event
wrong_key_refused = refl

odd_signature_raises :
    signed_by_resend plain_key named_digest
      (some "whsec_key")
      (record bounce { svix_signature = some "v1,ä v1,key.msg.1.body" })
    ≡ err (type_error "comparing strings with non-ASCII characters is not supported")
unfolding signed_by_resend
odd_signature_raises = refl

slack_sent :
    ((slack_provider (answers 200 slack_ok) "k").send_with_template "U0AB" welcome ana 8).0
    ≡ returned (succeeded "slack" (some "17.5"))
unfolding slack_provider text_str substitute id_start get
slack_sent = refl

-- A mail that was taken, with a body that is no object.
resend_without_object :
    ((resend_provider (answers 200 null) "k" "a@b" "A").send_with_template "c@d" welcome ana 8).0
    ≡ raised (attribute_error "get")
unfolding resend_provider text_str substitute id_start get
resend_without_object = refl

-- The mail is sent, and then the closing call fails.
broken_quit :
    ((smtp_provider
        (record open_smtp { quit = λ x. (smtp_error "421", x) })
        "h"
        (pos 465)
        "u"
        "p"
        "a@b").send_with_template
      "c@d" welcome ana 8).0
    ≡ returned (failed_with "smtp_email" "421")
unfolding smtp_provider text_str substitute id_start get
broken_quit = refl
