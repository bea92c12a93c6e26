-- ===== src/Infrastructure/BuiltIn.antt =====
-- container/providers.py with the provider classes that it instantiates: what `_build_providers`
-- calls with the arguments from the environment.
pub mod Laws
pub mod Executes
use notifyfork.Common.{ℕ, String, Option, some}
use notifyfork.Python.Json.{Json}
use notifyfork.Python.Result.{Result, ok, ◌>>=◌}
use notifyfork.Python.Template.{Str}
use notifyfork.Application.Interfaces.Provider.{Provider}
use notifyfork.Infrastructure.Container.{
  Config, twilio_sms, twilio_whatsapp, sendgrid_email, resend_email, smtp_email, firebase_push,
  slack,
}
use notifyfork.Infrastructure.Providers.{
  Message, Reply, twilio_sms_provider, twilio_whatsapp_provider,
}
use notifyfork.Infrastructure.Providers.Http.{Post, HttpReply}
use notifyfork.Infrastructure.Providers.SendGrid.{Mail, sendgrid_provider}
use notifyfork.Infrastructure.Providers.Resend.{ResendMail, resend_provider}
use notifyfork.Infrastructure.Providers.Slack.{SlackMessage, slack_provider}
use notifyfork.Infrastructure.Providers.Smtp.{Smtp, smtp_provider}
use notifyfork.Infrastructure.Providers.Firebase.{
  PushMessage, PushReply, ensure_app, firebase_provider,
}

-- The vendors' SDKs and the HTTP client. The Twilio client is made from the account, and may raise;
-- `default_app` is the Firebase app that the process has already.
pub record Vendors (V X App : Type 0) : Type 0 where
  pub twilio_client : String → String → Result (Message V → X → Reply × X)
  pub post_mail : Post (Mail V) → X → HttpReply × X
  pub post_resend : Post ResendMail → X → HttpReply × X
  pub post_slack : Post SlackMessage → X → HttpReply × X
  pub smtp : Smtp X
  pub initialize_app : String → Result App
  pub default_app : Option App
  pub push : PushMessage → X → PushReply × X

module _ {V X App : Type 0} ⦃code : Str ℕ⦄ ⦃j : Str Json⦄ ⦃s : Str V⦄
    (vendors : Vendors V X App) where
  -- The call of the class.
  unfoldable pub construct : Config → Result (Provider V X)
  unfolding ensure_app
  construct (twilio_sms sid token from_number) = do
    create ← vendors.twilio_client sid token
    ok (twilio_sms_provider create from_number)
  construct (twilio_whatsapp sid token from_number) = do
    create ← vendors.twilio_client sid token
    ok (twilio_whatsapp_provider create from_number)
  construct (sendgrid_email api_key from_email from_name) =
      ok (sendgrid_provider vendors.post_mail api_key from_email from_name)
  construct (resend_email api_key from_email from_name) =
      ok (resend_provider vendors.post_resend api_key from_email from_name)
  construct (smtp_email host port username password from_email) =
      ok (smtp_provider vendors.smtp host port username password from_email)
  construct (firebase_push credentials_path) = do
    app ← ensure_app vendors.initialize_app credentials_path vendors.default_app
    ok (firebase_provider vendors.push)
  construct (slack bot_token) = ok (slack_provider vendors.post_slack bot_token)
