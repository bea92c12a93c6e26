-- ===== src/Infrastructure/Providers/Smtp.antt =====
-- providers/smtp_provider.py. `smtplib` is a session of calls that act on the outside.
use notifyfork.Common.{String, none, some, [], ◌∷◌}
use notifyfork.Python.Dict.{Dict}
use notifyfork.Python.Int.{ℤ}
use notifyfork.Python.Result.{Error, Result, ok, ◌>>=◌}
use notifyfork.Python.Template.{Str}
use notifyfork.Domain.Template.{NotificationTemplate}
use notifyfork.Application.Interfaces.Provider.{Attempt, returned, raised, Provider, listed_channel}
use notifyfork.Infrastructure.Providers.Http.{
  succeeded, failed_with, send_built, rendered, or_no_subject,
}

-- The multipart message with its one HTML part.
pub record HtmlMessage : Type 0 where
  pub subject : String
  pub sender : String
  pub to : String
  pub html : String

-- A call returns, or raises an `smtplib.SMTPException` or another exception (as `OSError` is).
pub data SmtpReply : Type 0 where
  done : SmtpReply
  smtp_error : String → SmtpReply
  other_error : Error → SmtpReply

-- `SMTP_SSL(host, port)`, `login`, `sendmail`, and `quit` at the end of the `with`.
pub record Smtp (X : Type 0) : Type 0 where
  pub connect : String → ℤ → X → SmtpReply × X
  pub login : String → String → X → SmtpReply × X
  pub sendmail : String → String → HtmlMessage → X → SmtpReply × X
  pub quit : X → SmtpReply × X

-- The next call is made only if this one returned.
unfoldable pub and_then : {X : Type 0} → SmtpReply × X → (X → SmtpReply × X) → SmtpReply × X
and_then (done, x) next = next x
and_then (smtp_error text, x) next = (smtp_error text, x)
and_then (other_error e, x) next = (other_error e, x)

-- An exception of `quit` takes the place of what the body of the `with` gave.
unfoldable pub after_quit : SmtpReply → SmtpReply → SmtpReply
after_quit body done = body
after_quit body (smtp_error text) = smtp_error text
after_quit body (other_error e) = other_error e

unfoldable pub read_smtp : SmtpReply → Attempt
unfolding succeeded failed_with
read_smtp done = returned (succeeded "smtp_email" none)
read_smtp (smtp_error text) = returned (failed_with "smtp_email" text)
read_smtp (other_error e) = raised e

unfoldable pub smtp_message :
    {V : Type 0} ⦃s : Str V⦄ → String → String → NotificationTemplate → Dict V → Result HtmlMessage
unfolding rendered or_no_subject
smtp_message from_email recipient template context = do
  r ← rendered template context
  ok (record {
    subject = or_no_subject r.subject;
    sender = from_email;
    to = recipient;
    html = r.content;
  })

module _ {X : Type 0} (smtp : Smtp X) (host : String) (port : ℤ)
    (username password from_email : String) where
  -- The body of the `with`, once connected.
  unfoldable pub in_session : HtmlMessage → X → SmtpReply × X
  unfolding and_then after_quit
  in_session message x =
      let (body, x') =
        and_then (smtp.login username password x) (smtp.sendmail from_email message.to message) in
      let (left, x'') = smtp.quit x' in (after_quit body left, x'')

  unfoldable pub send_smtp : HtmlMessage → X → SmtpReply × X
  unfolding and_then in_session
  send_smtp message x = and_then (smtp.connect host port x) (in_session message)

  module _ {V : Type 0} ⦃s : Str V⦄ where
    -- SMTPEmailProvider
    unfoldable pub smtp_provider : Provider V X
    unfolding send_built smtp_message send_smtp read_smtp listed_channel
    smtp_provider = record {
      name = "smtp_email";
      supports = some (listed_channel ("email" ∷ "smtp_email" ∷ []));
      send_with_template = λ recipient template context x.
          send_built send_smtp read_smtp (smtp_message from_email recipient template context) x;
    }
