-- ===== src/Examples/Environment.antt =====
-- The theorems on the providers that the container builds from the environment, at concrete inputs.
use notifyfork.Common.{List, String, [], inr, none, refl, ℕ, ◌∷◌, ◌≡◌}
use notifyfork.Python.Result.{ok}
use notifyfork.Python.Text.{is_space}
use notifyfork.Application.UseCase.{Sys, execute}
use notifyfork.Infrastructure.Providers.Slack.{slack_provider}
use notifyfork.Infrastructure.Providers.Firebase.{firebase_provider}
use notifyfork.Infrastructure.Repository.{get_template, to_template}
use notifyfork.Python.Dict.{Dict, put, put_all}
use notifyfork.Application.Interfaces.Provider.{Provider}
use notifyfork.Infrastructure.Container.{build_providers}
use notifyfork.Infrastructure.BuiltIn.{Vendors, construct}
use notifyfork.Examples.Table.{Table, table_orm}
use notifyfork.Examples.Data.{
  answers, counter, json_text, number_text, open_smtp, push_ok, request, slack_ok, start, text_str,
  twilio, welcome,
}
use mathlib.Core.List.{Memᴰ}
use notifyfork.Application.Dto.{SendNotificationDto}
use notifyfork.Infrastructure.BuiltIn.Executes.{environment_executes}

abbrev some_vendors : Vendors String ℕ ℕ
some_vendors = record {
  twilio_client = λ sid token. ok twilio;
  post_mail = answers 202 slack_ok;
  post_resend = answers 200 slack_ok;
  post_slack = answers 200 slack_ok;
  smtp = open_smtp;
  initialize_app = λ credentials_path. ok 1;
  default_app = none;
  push = push_ok;
}

abbrev slack_and_firebase : Dict String
slack_and_firebase =
    ("SLACK_BOT_TOKEN", "xoxb")
    ∷ ("FIREBASE_CREDENTIALS_PATH", "/key.json")
    ∷ ("NOTIFYFORK_PROVIDER_ORDER", "slack")
    ∷ []

abbrev slack_first : List (Provider String ℕ)
slack_first = slack_provider (answers 200 slack_ok) "xoxb" ∷ firebase_provider push_ok ∷ []

abbrev on_push : SendNotificationDto String
on_push = record request { channel = "push" }

environment_executes_example :
    (s' : Sys (Table String) ℕ) × (execute table_orm counter slack_first on_push start ≡ (ok 7, s'))
unfolding build_providers construct put_all put firebase_provider slack_provider is_space
    get_template to_template
environment_executes_example =
    environment_executes some_vendors table_orm counter slack_and_firebase slack_first
      (firebase_provider push_ok) on_push welcome start refl (Memᴰ.tail (Memᴰ.head {xs = []} refl))
      (inr refl) refl (λ i d now db. (_, refl))
