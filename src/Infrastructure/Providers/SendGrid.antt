-- ===== src/Infrastructure/Providers/SendGrid.antt =====
-- providers/sendgrid_provider.py.
use notifyfork.Common.{ℕ, String, some, [], ◌∷◌, nat_eq, if◌then◌else◌}
use notifyfork.Python.Dict.{Dict}
use notifyfork.Python.Result.{Result, ok, ◌>>=◌}
use notifyfork.Python.Template.{Str}
use notifyfork.Domain.Template.{
  NotificationTemplate, is_external, external_template_id, translate_variables,
}
use notifyfork.Application.Interfaces.Provider.{Attempt, returned, raised, Provider, listed_channel}
use notifyfork.Infrastructure.Providers.Http.{
  Post, Response, HttpReply, response, http_error, other_error, succeeded, failed_with, send_built,
  rendered, or_no_subject,
}
use Prim.Native.String

-- The payload: the sender's address and name, the recipient, and either a Dynamic Template with its
-- data, or a subject and HTML.
pub data Mail (V : Type 0) : Type 0 where
  dynamic_mail : String → String → String → String → Dict V → Mail V
  html_mail : String → String → String → String → String → Mail V

module _ ⦃code : Str ℕ⦄ where
  unfoldable pub attempt_of_status : Response → Attempt
  unfolding succeeded failed_with
  attempt_of_status r =
      if nat_eq r.status_code 202
      then returned (succeeded "sendgrid_email" r.message_header)
      else returned (
          failed_with "sendgrid_email" (
            String.◌++◌ "SendGrid ["
              (String.◌++◌ (code.str r.status_code) (String.◌++◌ "]: " r.body))))

  unfoldable pub read_sendgrid : HttpReply → Attempt
  unfolding attempt_of_status failed_with
  read_sendgrid (response r) = attempt_of_status r
  read_sendgrid (http_error text) = returned (failed_with "sendgrid_email" text)
  read_sendgrid (other_error e) = raised e

module _ {V X : Type 0} ⦃code : Str ℕ⦄ ⦃s : Str V⦄ (post : Post (Mail V) → X → HttpReply × X)
    (api_key from_email from_name : String) where
  unfoldable pub sendgrid_post : Mail V → Post (Mail V)
  sendgrid_post mail = record {
    url = "https://api.sendgrid.com/v3/mail/send";
    token = api_key;
    payload = mail;
  }

  -- `_send_external`, up to `_post`.
  unfoldable pub external_mail : String → NotificationTemplate → Dict V → Result (Post (Mail V))
  unfolding external_template_id translate_variables sendgrid_post
  external_mail recipient template context = do
    template_id ← external_template_id template
    ok (
        sendgrid_post (
          dynamic_mail from_email from_name recipient template_id
            (translate_variables template context)))

  -- `_send_local`, up to `_post`.
  unfoldable pub local_mail : String → NotificationTemplate → Dict V → Result (Post (Mail V))
  unfolding rendered or_no_subject sendgrid_post
  local_mail recipient template context = do
    r ← rendered template context
    ok (
        sendgrid_post
          (html_mail from_email from_name recipient (or_no_subject r.subject) r.content))

  unfoldable pub sendgrid_mail : String → NotificationTemplate → Dict V → Result (Post (Mail V))
  unfolding is_external external_mail local_mail
  sendgrid_mail recipient template context =
      if is_external template
      then external_mail recipient template context
      else local_mail recipient template context

  -- SendGridEmailProvider
  unfoldable pub sendgrid_provider : Provider V X
  unfolding send_built sendgrid_mail read_sendgrid listed_channel
  sendgrid_provider = record {
    name = "sendgrid_email";
    supports = some (listed_channel ("email" ∷ "sendgrid_email" ∷ []));
    send_with_template = λ recipient template context x.
        send_built post read_sendgrid (sendgrid_mail recipient template context) x;
  }
