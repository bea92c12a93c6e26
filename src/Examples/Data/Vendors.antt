-- ===== src/Examples/Data/Vendors.antt =====
-- What the vendors answer and report.
use notifyfork.Common.{ℕ, suc, String, true, some, List, [], ◌∷◌, Bool, ◌==◌}
use notifyfork.Python.Dict.{Dict}
use notifyfork.Python.Json.{Json, no_fields, field, text, boolean, object}
use notifyfork.Python.Result.{Result, ok}
use notifyfork.Python.Template.{Str}
use notifyfork.Infrastructure.Providers.{Message, Reply, created}
use notifyfork.Infrastructure.Providers.Http.{Post, HttpReply, response}
use notifyfork.Infrastructure.Providers.Smtp.{Smtp, done}
use notifyfork.Infrastructure.Providers.Firebase.{PushMessage, PushReply, message_id}
use notifyfork.Webhooks.Twilio
use notifyfork.Webhooks.Resend
use notifyfork.Webhooks.SendGrid
use notifyfork.Python.Json.{array, item, no_items, null}
use Prim.Native.String

-- The text of a list or a dict is not looked at here, and neither is that of a number.
instance unfoldable pub json_text : Str Json
json_text = record { str = λ j. "{...}" }

instance unfoldable pub number_text : Str ℕ
number_text = record { str = λ n. "N" }

-- A POST of Twilio for the message "SM1", with an upper-case status.
abbrev pub report : Twilio.Request
report = record {
  form = ("MessageSid", "SM1") ∷ ("MessageStatus", "DELIVERED") ∷ [];
  uri = "https://example.org/api/v1/webhooks/twilio/status/";
  signature = some "right";
}

abbrev pub check_twilio : String → String → Dict String → String → Bool
check_twilio token uri form signature = signature == "right"

-- A batch of SendGrid: an open, and a bounce of the message "SM1".
abbrev pub batch_of_two : List Json
batch_of_two =
    object (field "event" (text "open") no_fields)
    ∷ object (
        field "event" (text "Bounce")
          (field "sg_message_id" (text "SM1.filter") (field "reason" (text "full") no_fields)))
    ∷ []

abbrev pub batch : SendGrid.Request
batch = record {
  parsed = ok (
      array (
        item
          (object (
            field "event" (text "Bounce")
              (field "sg_message_id" (text "SM1.filter") (field "reason" (text "full") no_fields))))
          no_items));
  loaded = ok null;
  raw = "[...]";
  signature = some "right";
  timestamp = some "1";
}

abbrev pub check_sendgrid : String → String → String → String → Result Bool
check_sendgrid key body signature timestamp = ok (signature == "right")

-- A POST of Resend for the message "SM1", with two signatures.
abbrev pub bounce : Resend.Request
bounce = record {
  parsed = ok (
      object (
        field "type" (text "email.bounced")
          (field "data" (object (field "email_id" (text "SM1") no_fields)) no_fields)));
  body = ok "body";
  svix_id = some "msg";
  svix_timestamp = some "1";
  svix_signature = some "v1,old v1,key.msg.1.body";
}

-- The key is the decoded secret, and the digest names the key.
abbrev pub plain_key : String → Result String
plain_key secret = ok secret

abbrev pub named_digest : String → String → String
named_digest key content = String.◌++◌ key (String.◌++◌ "." content)

-- Twilio takes every message.
abbrev pub twilio : Message String → ℕ → Reply × ℕ
twilio message x = (created "SM9", suc x)

-- A vendor over HTTP that answers every POST alike.
abbrev pub answers : {P : Type 0} → ℕ → Json → Post P → ℕ → HttpReply × ℕ
answers status_code body posted x = (
  response (record {
    status_code = status_code;
    message_header = some "SG1";
    body = "{...}";
    json = ok body;
  }),
  suc x,
)

abbrev pub slack_ok : Json
slack_ok = object (field "ok" (boolean true) (field "ts" (text "17.5") no_fields))

-- A mail server whose every call returns.
abbrev pub open_smtp : Smtp ℕ
open_smtp = record {
  connect = λ host port x. (done, suc x);
  login = λ username password x. (done, suc x);
  sendmail = λ sender to message x. (done, suc x);
  quit = λ x. (done, suc x);
}

abbrev pub push_ok : PushMessage → ℕ → PushReply × ℕ
push_ok message x = (message_id "F1", suc x)
