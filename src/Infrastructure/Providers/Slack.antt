-- ===== src/Infrastructure/Providers/Slack.antt =====
-- providers/slack_provider.py.
use notifyfork.Common.{String, Option, none, some, [], ◌∷◌, if◌then◌else◌, ◌==◌}
use notifyfork.Python.Dict.{Dict}
use notifyfork.Python.Json.{Json, json_get, json_str, given_true, text_column}
use notifyfork.Python.Result.{Result, ok, err, ◌>>=◌}
use notifyfork.Python.Template.{Str}
use notifyfork.Domain.Template.{NotificationTemplate}
use notifyfork.Application.Interfaces.Provider.{
  ProviderResult, Attempt, returned, raised, Provider, listed_channel,
}
use notifyfork.Infrastructure.Providers.Http.{
  Post, HttpReply, response, http_error, other_error, succeeded, failed_with, send_built, rendered,
}
use Prim.Native.String

-- The payload: `channel` and `text`, and `blocks` with a header only where there is a subject.
pub record SlackMessage : Type 0 where
  pub channel : String
  pub text : String
  pub header : Option String

-- `if subject:`
unfoldable pub header_of : Option String → Option String
header_of none = none
header_of (some subject) = if subject == "" then none else some subject

module _ ⦃j : Str Json⦄ where
  -- `data.get("error", "unknown_error")` in an f-string.
  unfoldable pub error_of : Option Json → String
  unfolding json_str
  error_of none = "unknown_error"
  error_of (some error) = json_str error

  unfoldable pub result_of_data : Json → Result ProviderResult
  unfolding json_get given_true error_of failed_with succeeded text_column
  result_of_data data_ = do
    is_ok ← json_get "ok" data_
    error ← json_get "error" data_
    ts ← json_get "ts" data_
    ok (
        if given_true is_ok
        then succeeded "slack" (text_column ts)
        else failed_with "slack" (String.◌++◌ "Slack error: " (error_of error)))

  unfoldable pub attempt_of_result : Result ProviderResult → Attempt
  attempt_of_result (ok result) = returned result
  attempt_of_result (err e) = raised e

  unfoldable pub read_slack : HttpReply → Attempt
  unfolding result_of_data attempt_of_result failed_with
  read_slack (response r) = attempt_of_result (r.json >>= λ data_. result_of_data data_)
  read_slack (http_error text) = returned (failed_with "slack" (String.◌++◌ "HTTP error: " text))
  read_slack (other_error e) = raised e

  module _ {V X : Type 0} ⦃s : Str V⦄ (post : Post SlackMessage → X → HttpReply × X)
      (bot_token : String) where
    unfoldable pub slack_message :
        String → NotificationTemplate → Dict V → Result (Post SlackMessage)
    unfolding rendered header_of
    slack_message recipient template context = do
      r ← rendered template context
      ok (record {
        url = "https://slack.com/api/chat.postMessage";
        token = bot_token;
        payload = record { channel = recipient; text = r.content; header = header_of r.subject };
      })

    -- SlackProvider
    unfoldable pub slack_provider : Provider V X
    unfolding send_built slack_message read_slack listed_channel
    slack_provider = record {
      name = "slack";
      supports = some (listed_channel ("slack" ∷ []));
      send_with_template = λ recipient template context x.
          send_built post read_slack (slack_message recipient template context) x;
    }
