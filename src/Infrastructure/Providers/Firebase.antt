-- ===== src/Infrastructure/Providers/Firebase.antt =====
-- providers/firebase_provider.py. `firebase_admin` keeps one default app in the process.
use notifyfork.Common.{String, Option, none, some, [], ◌∷◌, if◌then◌else◌, ◌==◌}
use notifyfork.Python.Dict.{Dict}
use notifyfork.Python.Result.{Error, Result, ok, ◌>>=◌}
use notifyfork.Python.Template.{Str}
use notifyfork.Domain.Template.{NotificationTemplate}
use notifyfork.Application.Interfaces.Provider.{Attempt, returned, raised, Provider, listed_channel}
use notifyfork.Infrastructure.Providers.Http.{succeeded, failed_with, send_built, rendered}

-- `messaging.Message`
pub record PushMessage : Type 0 where
  pub title : String
  pub content : String
  pub token : String

-- `messaging.send` returns an id, or raises a `FirebaseError` or another exception.
pub data PushReply : Type 0 where
  message_id : String → PushReply
  firebase_error : String → PushReply
  other_error : Error → PushReply

-- `subject or "Notification"`
unfoldable pub title_of : Option String → String
title_of none = "Notification"
title_of (some subject) = if subject == "" then "Notification" else subject

unfoldable pub read_firebase : PushReply → Attempt
unfolding succeeded failed_with
read_firebase (message_id id) = returned (succeeded "firebase_push" (some id))
read_firebase (firebase_error text) = returned (failed_with "firebase_push" text)
read_firebase (other_error e) = raised e

module _ {V X : Type 0} ⦃s : Str V⦄ (send : PushMessage → X → PushReply × X) where
  unfoldable pub push_message : String → NotificationTemplate → Dict V → Result PushMessage
  unfolding rendered title_of
  push_message recipient template context = do
    r ← rendered template context
    ok (record { title = title_of r.subject; content = r.content; token = recipient })

  -- FirebasePushProvider
  unfoldable pub firebase_provider : Provider V X
  unfolding send_built push_message read_firebase listed_channel
  firebase_provider = record {
    name = "firebase_push";
    supports = some (listed_channel ("push" ∷ "firebase_push" ∷ []));
    send_with_template = λ recipient template context x.
        send_built send read_firebase (push_message recipient template context) x;
  }

module _ {App : Type 0} (initialize_app : String → Result App) where
  -- `__init__`: `get_app` raises ValueError where there is no default app, and only then one is
  -- initialised, from a certificate that may be invalid.
  unfoldable pub ensure_app : String → Option App → Result App
  ensure_app credentials_path none = initialize_app credentials_path
  ensure_app credentials_path (some app) = ok app
