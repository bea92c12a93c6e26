-- ===== src/Infrastructure/Providers/Local.antt =====
-- The providers that render here, given a template that only its vendor renders.
use notifyfork.Common.{ℕ, String, ◌≡◌, ◌∙◌, true, List, [], ◌∷◌, ◌++◌, All}
use notifyfork.Python.Dict.{Dict}
use notifyfork.Python.Int.{ℤ}
use notifyfork.Python.Json.{Json}
use notifyfork.Python.Result.{error_text, err}
use notifyfork.Python.Template.{Str}
use notifyfork.Domain.Template.{NotificationTemplate, is_external, cannot_render, render}
use notifyfork.Application.Interfaces.Provider.{raised, Provider}
use notifyfork.Application.UseCase.{read_attempt, try_candidates}
use notifyfork.Infrastructure.Providers.{
  Message, Reply, sms_message, send_message, twilio_sms_provider,
}
use notifyfork.Infrastructure.Providers.Http.{Post, HttpReply, rendered, send_built}
use notifyfork.Infrastructure.Providers.Resend.{ResendMail, resend_mail, resend_provider}
use notifyfork.Infrastructure.Providers.Slack.{SlackMessage, slack_message, slack_provider}
use notifyfork.Infrastructure.Providers.Smtp.{Smtp, smtp_message, smtp_provider}
use notifyfork.Infrastructure.Providers.Firebase.{
  PushMessage, PushReply, push_message, firebase_provider,
}

rendered_external :
    {V : Type 0} ⦃s : Str V⦄ (template : NotificationTemplate) (context : Dict V)
    → is_external template ≡ true
    → rendered template context ≡ err cannot_render
unfolding rendered render
rendered_external template context ext = rw ext

module _ {V X : Type 0} ⦃code : Str ℕ⦄ ⦃j : Str Json⦄ ⦃s : Str V⦄ where
  -- A provider built from the classes that have no template system of their own, with any
  -- credentials and any vendor behind it.
  pub data IsLocalProvider : Provider V X → Type 0 where
    sms :
        (create : Message V → X → Reply × X) (from_number : String)
        → IsLocalProvider (twilio_sms_provider create from_number)
    resend :
        (post : Post ResendMail → X → HttpReply × X) (key from_email from_name : String)
        → IsLocalProvider (resend_provider post key from_email from_name)
    smtp :
        (session : Smtp X) (host : String) (port : ℤ) (username password from_email : String)
        → IsLocalProvider (smtp_provider session host port username password from_email)
    firebase : (send : PushMessage → X → PushReply × X) → IsLocalProvider (firebase_provider send)
    slack :
        (post : Post SlackMessage → X → HttpReply × X) (token : String)
        → IsLocalProvider (slack_provider post token)

  module _ (recipient : String) (template : NotificationTemplate) (context : Dict V) (x : X)
      (ext : is_external template ≡ true) where
    refuses_external :
        {p : Provider V X}
        → IsLocalProvider p
        → p.send_with_template recipient template context x ≡ (raised cannot_render, x)
    unfolding twilio_sms_provider sms_message render resend_provider resend_mail smtp_provider
        smtp_message firebase_provider push_message slack_provider slack_message
    refuses_external (sms create from_number) = rw (ext, send_message)
    refuses_external (resend post key from_email from_name) =
        rw (rendered_external template context ext, send_built)
    refuses_external (smtp session host port username password from_email) =
        rw (rendered_external template context ext, send_built)
    refuses_external (firebase send) = rw (rendered_external template context ext, send_built)
    refuses_external (slack post token) = rw (rendered_external template context ext, send_built)

    skip_one :
        {p : Provider V X} (error : String) (ps : List (Provider V X))
        → IsLocalProvider p
        → try_candidates recipient template context error (p ∷ ps) x
          ≡ try_candidates recipient template context (error_text cannot_render) ps x
    unfolding try_candidates read_attempt
    skip_one error ps h = let skipped = refuses_external h in rw (skipped, try_candidates, skipped)

    -- In the use case's loop an EXTERNAL template passes any number of providers that only render
    -- here (Twilio SMS, Resend, SMTP, Firebase, Slack): no vendor is called, and the next candidates
    -- are tried with the error of `render` as the last error.
    pub external_passes_local :
        (error : String) (p : Provider V X) (ls ps : List (Provider V X))
        → All IsLocalProvider (p ∷ ls)
        → try_candidates recipient template context error (p ∷ ls ++ ps) x
          ≡ try_candidates recipient template context (error_text cannot_render) ps x
    external_passes_local error p [] ps (h, hs) = skip_one error ps h
    external_passes_local error p (q ∷ ls) ps (h, hs) =
        skip_one error (q ∷ ls ++ ps) h
        ∙ external_passes_local (error_text cannot_render) q ls ps hs
