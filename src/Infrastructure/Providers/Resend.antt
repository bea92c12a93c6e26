-- ===== src/Infrastructure/Providers/Resend.antt =====
-- providers/resend_provider.py.
use notifyfork.Common.{ℕ, String, Option, some, [], ◌∷◌, ◌||◌, nat_eq, if◌then◌else◌, ◌==◌}
use notifyfork.Python.Dict.{Dict}
use notifyfork.Python.Json.{Json, json_get, text_column}
use notifyfork.Python.Result.{Result, ok, err, ◌>>=◌}
use notifyfork.Python.Template.{Str}
use notifyfork.Domain.Template.{NotificationTemplate}
use notifyfork.Application.Interfaces.Provider.{Attempt, returned, raised, Provider, listed_channel}
use notifyfork.Infrastructure.Providers.Http.{
  Post, Response, HttpReply, response, http_error, other_error, succeeded, failed_with, send_built,
  rendered, or_no_subject,
}
use Prim.Native.String

-- The payload: `from`, the one element of `to`, the subject and the HTML.
pub record ResendMail : Type 0 where
  pub sender : String
  pub to : String
  pub subject : String
  pub html : String

unfoldable pub sender_of : String → String → String
sender_of from_name from_email =
    if from_name == ""
    then from_email
    else String.◌++◌ from_name (String.◌++◌ " <" (String.◌++◌ from_email ">"))

module _ ⦃code : Str ℕ⦄ ⦃j : Str Json⦄ where
  -- `response.json().get("id")`, whose exceptions are no `httpx.HTTPError`.
  unfoldable pub attempt_of_id : Result (Option Json) → Attempt
  unfolding succeeded text_column
  attempt_of_id (ok id) = returned (succeeded "resend_email" (text_column id))
  attempt_of_id (err e) = raised e

  unfoldable pub attempt_of_answer : Response → Attempt
  unfolding attempt_of_id json_get failed_with
  attempt_of_answer r =
      if nat_eq r.status_code 200 || nat_eq r.status_code 201
      then attempt_of_id (r.json >>= λ data_. json_get "id" data_)
      else returned (
          failed_with "resend_email" (
            String.◌++◌ "Resend ["
              (String.◌++◌ (code.str r.status_code) (String.◌++◌ "]: " r.body))))

  unfoldable pub read_resend : HttpReply → Attempt
  unfolding attempt_of_answer failed_with
  read_resend (response r) = attempt_of_answer r
  read_resend (http_error text) = returned (failed_with "resend_email" text)
  read_resend (other_error e) = raised e

  module _ {V X : Type 0} ⦃s : Str V⦄ (post : Post ResendMail → X → HttpReply × X)
      (api_key from_email from_name : String) where
    unfoldable pub resend_mail : String → NotificationTemplate → Dict V → Result (Post ResendMail)
    unfolding rendered or_no_subject sender_of
    resend_mail recipient template context = do
      r ← rendered template context
      ok (record {
        url = "https://api.resend.com/emails";
        token = api_key;
        payload = record {
          sender = sender_of from_name from_email;
          to = recipient;
          subject = or_no_subject r.subject;
          html = r.content;
        };
      })

    -- ResendEmailProvider
    unfoldable pub resend_provider : Provider V X
    unfolding send_built resend_mail read_resend listed_channel
    resend_provider = record {
      name = "resend_email";
      supports = some (listed_channel ("email" ∷ "resend_email" ∷ []));
      send_with_template = λ recipient template context x.
          send_built post read_resend (resend_mail recipient template context) x;
    }
