-- ===== src/Infrastructure/Providers/Whole.antt =====
-- What the providers' readers of a reply return has the attributes of a ProviderResult, and so have the
-- results of the providers.
use notifyfork.Common.{ℕ, String, Option, Bool-cases, nat_eq, ◌||◌, inl, inr}
use notifyfork.Python.Json.{Json}
use notifyfork.Python.Result.{Error, Result, ok, err}
use notifyfork.Python.Template.{Str}
use notifyfork.Python.Int.{ℤ}
use notifyfork.Python.Dict.{Dict}
use notifyfork.Domain.Template.{NotificationTemplate}
use notifyfork.Application.Interfaces.Provider.{ProviderResult, Attempt, returned, raised}
use notifyfork.Application.UseCase.{read_attempt}
use notifyfork.Application.UseCase.Outcome.{HasAttributes, IsWhole}
use notifyfork.Infrastructure.Providers.{
  Message, Reply, created, rest_error, other_error, attempt_of_reply, send_message, sms_message,
  whatsapp_message, twilio_sms_provider, twilio_whatsapp_provider,
}
use notifyfork.Infrastructure.Providers.Http
use notifyfork.Infrastructure.Providers.Http.{Post, Response, HttpReply, send_built}
use notifyfork.Infrastructure.Providers.SendGrid.{
  Mail, sendgrid_mail, sendgrid_provider, read_sendgrid, attempt_of_status,
}
use notifyfork.Infrastructure.Providers.Resend.{
  ResendMail, resend_mail, resend_provider, read_resend, attempt_of_answer, attempt_of_id,
}
use notifyfork.Infrastructure.Providers.Slack.{
  SlackMessage, slack_message, slack_provider, read_slack, attempt_of_result,
}
use notifyfork.Infrastructure.Providers.Smtp
use notifyfork.Infrastructure.Providers.Smtp.{
  Smtp, smtp_message, send_smtp, smtp_provider, SmtpReply, read_smtp,
}
use notifyfork.Infrastructure.Providers.Firebase
use notifyfork.Infrastructure.Providers.Firebase.{
  PushMessage, push_message, firebase_provider, PushReply, read_firebase,
}

raised-HasAttributes : (e : Error) → HasAttributes (raised e)
unfolding read_attempt
raised-HasAttributes e other h = cc (h)

returned-HasAttributes : (r : ProviderResult) → HasAttributes (returned r)
unfolding read_attempt
returned-HasAttributes r other h = elim (Bool-cases r.success) [
  | inl worked ↦ let delivered = rw worked at h in cc (delivered)
  | inr broke ↦ let failed = rw broke at h in cc (failed)
]

module _ {B R X : Type 0} (send : B → X → R × X) (read : R → Attempt) where
  send_built-HasAttributes :
      ((reply : R) → HasAttributes (read reply))
      → (request : Result B) (x : X) → HasAttributes (send_built send read request x).0
  unfolding send_built
  send_built-HasAttributes whole (err e) x = raised-HasAttributes e
  send_built-HasAttributes whole (ok request) x = whole (send request x).0

attempt_of_reply-HasAttributes :
    (name label : String) (reply : Reply) → HasAttributes (attempt_of_reply name label reply)
unfolding attempt_of_reply
attempt_of_reply-HasAttributes name label (created sid) = returned-HasAttributes _
attempt_of_reply-HasAttributes name label (rest_error code text) = returned-HasAttributes _
attempt_of_reply-HasAttributes name label (other_error e) = raised-HasAttributes e

module _ {V X : Type 0} (create : Message V → X → Reply × X) where
  send_message-HasAttributes :
      (name label : String) (message : Result (Message V)) (x : X)
      → HasAttributes (send_message create name label message x).0
  unfolding send_message
  send_message-HasAttributes name label (err e) x = raised-HasAttributes e
  send_message-HasAttributes name label (ok message) x =
      attempt_of_reply-HasAttributes name label (create message x).0

read_smtp-HasAttributes : (reply : SmtpReply) → HasAttributes (read_smtp reply)
unfolding read_smtp
read_smtp-HasAttributes Smtp.done = returned-HasAttributes _
read_smtp-HasAttributes (Smtp.smtp_error text) = returned-HasAttributes _
read_smtp-HasAttributes (Smtp.other_error e) = raised-HasAttributes e

read_firebase-HasAttributes : (reply : PushReply) → HasAttributes (read_firebase reply)
unfolding read_firebase
read_firebase-HasAttributes (Firebase.message_id id) = returned-HasAttributes _
read_firebase-HasAttributes (Firebase.firebase_error text) = returned-HasAttributes _
read_firebase-HasAttributes (Firebase.other_error e) = raised-HasAttributes e

module _ ⦃code : Str ℕ⦄ where
  attempt_of_status-HasAttributes : (r : Response) → HasAttributes (attempt_of_status r)
  unfolding attempt_of_status
  attempt_of_status-HasAttributes r = elim (Bool-cases (nat_eq r.status_code 202)) [
    | inl queued ↦ rw queued (returned-HasAttributes _)
    | inr other ↦ rw other (returned-HasAttributes _)
  ]

  read_sendgrid-HasAttributes : (reply : HttpReply) → HasAttributes (read_sendgrid reply)
  unfolding read_sendgrid
  read_sendgrid-HasAttributes (Http.response r) = attempt_of_status-HasAttributes r
  read_sendgrid-HasAttributes (Http.http_error text) = returned-HasAttributes _
  read_sendgrid-HasAttributes (Http.other_error e) = raised-HasAttributes e

module _ ⦃code : Str ℕ⦄ ⦃j : Str Json⦄ where
  attempt_of_id-HasAttributes : (id : Result (Option Json)) → HasAttributes (attempt_of_id id)
  unfolding attempt_of_id
  attempt_of_id-HasAttributes (ok id) = returned-HasAttributes _
  attempt_of_id-HasAttributes (err e) = raised-HasAttributes e

  attempt_of_answer-HasAttributes : (r : Response) → HasAttributes (attempt_of_answer r)
  unfolding attempt_of_answer
  attempt_of_answer-HasAttributes r =
      elim (Bool-cases (nat_eq r.status_code 200 || nat_eq r.status_code 201)) [
        | inl accepted ↦ rw accepted (attempt_of_id-HasAttributes _)
        | inr other ↦ rw other (returned-HasAttributes _)
      ]

  read_resend-HasAttributes : (reply : HttpReply) → HasAttributes (read_resend reply)
  unfolding read_resend
  read_resend-HasAttributes (Http.response r) = attempt_of_answer-HasAttributes r
  read_resend-HasAttributes (Http.http_error text) = returned-HasAttributes _
  read_resend-HasAttributes (Http.other_error e) = raised-HasAttributes e

module _ ⦃j : Str Json⦄ where
  attempt_of_result-HasAttributes :
      (r : Result ProviderResult) → HasAttributes (attempt_of_result r)
  unfolding attempt_of_result
  attempt_of_result-HasAttributes (ok result) = returned-HasAttributes result
  attempt_of_result-HasAttributes (err e) = raised-HasAttributes e

  read_slack-HasAttributes : (reply : HttpReply) → HasAttributes (read_slack reply)
  unfolding read_slack
  read_slack-HasAttributes (Http.response r) = attempt_of_result-HasAttributes _
  read_slack-HasAttributes (Http.http_error text) = returned-HasAttributes _
  read_slack-HasAttributes (Http.other_error e) = raised-HasAttributes e

module _ {V X : Type 0} ⦃code : Str ℕ⦄ ⦃j : Str Json⦄ ⦃s : Str V⦄ where
  pub twilio_sms_provider-IsWhole :
      (create : Message V → X → Reply × X) (from_number : String) (recipient : String)
      (template : NotificationTemplate) (context : Dict V)
      → IsWhole recipient template context (twilio_sms_provider create from_number)
  unfolding twilio_sms_provider
  twilio_sms_provider-IsWhole create from_number recipient template context x =
      send_message-HasAttributes create "twilio_sms" "Twilio"
        (sms_message create from_number recipient template context) x

  pub twilio_whatsapp_provider-IsWhole :
      (create : Message V → X → Reply × X) (from_number : String) (recipient : String)
      (template : NotificationTemplate) (context : Dict V)
      → IsWhole recipient template context (twilio_whatsapp_provider create from_number)
  unfolding twilio_whatsapp_provider
  twilio_whatsapp_provider-IsWhole create from_number recipient template context x =
      send_message-HasAttributes create "twilio_whatsapp" "Twilio WhatsApp"
        (whatsapp_message create from_number recipient template context) x

  pub sendgrid_provider-IsWhole :
      (post : Post (Mail V) → X → HttpReply × X) (api_key from_email from_name : String)
      (recipient : String) (template : NotificationTemplate) (context : Dict V)
      → IsWhole recipient template context (sendgrid_provider post api_key from_email from_name)
  unfolding sendgrid_provider
  sendgrid_provider-IsWhole post api_key from_email from_name recipient template context x =
      send_built-HasAttributes post read_sendgrid read_sendgrid-HasAttributes
        (sendgrid_mail post api_key from_email from_name recipient template context) x

  pub resend_provider-IsWhole :
      (post : Post ResendMail → X → HttpReply × X) (api_key from_email from_name : String)
      (recipient : String) (template : NotificationTemplate) (context : Dict V)
      → IsWhole recipient template context (resend_provider post api_key from_email from_name)
  unfolding resend_provider
  resend_provider-IsWhole post api_key from_email from_name recipient template context x =
      send_built-HasAttributes post read_resend read_resend-HasAttributes
        (resend_mail post api_key from_email from_name recipient template context) x

  pub slack_provider-IsWhole :
      (post : Post SlackMessage → X → HttpReply × X) (bot_token : String) (recipient : String)
      (template : NotificationTemplate) (context : Dict V)
      → IsWhole recipient template context (slack_provider post bot_token)
  unfolding slack_provider
  slack_provider-IsWhole post bot_token recipient template context x =
      send_built-HasAttributes post read_slack read_slack-HasAttributes
        (slack_message post bot_token recipient template context) x

  pub smtp_provider-IsWhole :
      (smtp : Smtp X) (host : String) (port : ℤ) (username password from_email : String)
      (recipient : String) (template : NotificationTemplate) (context : Dict V)
      → IsWhole recipient template context
          (smtp_provider smtp host port username password from_email)
  unfolding smtp_provider
  smtp_provider-IsWhole smtp host port username password from_email recipient template context x =
      send_built-HasAttributes (send_smtp smtp host port username password from_email) read_smtp
        read_smtp-HasAttributes (smtp_message from_email recipient template context) x

  pub firebase_provider-IsWhole :
      (send : PushMessage → X → PushReply × X) (recipient : String)
      (template : NotificationTemplate) (context : Dict V)
      → IsWhole recipient template context (firebase_provider send)
  unfolding firebase_provider
  firebase_provider-IsWhole send recipient template context x =
      send_built-HasAttributes send read_firebase read_firebase-HasAttributes
        (push_message send recipient template context) x
