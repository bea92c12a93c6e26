-- ===== src/Infrastructure/Providers/Http.antt =====
-- What the providers over HTTP share: a POST of `httpx.AsyncClient`, which acts on the outside, and
-- the messages that are rendered here.
use notifyfork.Common.{ℕ, String, true, false, Option, none, some, if◌then◌else◌, ◌==◌}
use notifyfork.Python.Dict.{Dict}
use notifyfork.Python.Json.{Json}
use notifyfork.Python.Result.{Error, Result, ok, err, ◌>>=◌}
use notifyfork.Python.Template.{Str}
use notifyfork.Domain.Template.{NotificationTemplate, render, render_subject}
use notifyfork.Application.Interfaces.Provider.{ProviderResult, Attempt, raised}

-- A POST with a bearer token; `payload` is what is sent as JSON.
pub record Post (P : Type 0) : Type 0 where
  pub url : String
  pub token : String
  pub payload : P

-- The parts of a response that are read: `headers.get("X-Message-Id")`, and `json()`, which raises
-- for a body that is no JSON.
pub record Response : Type 0 where
  pub status_code : ℕ
  pub message_header : Option String
  pub body : String
  pub json : Result Json

-- The request gets a response, or raises an `httpx.HTTPError` or another exception.
pub data HttpReply : Type 0 where
  response : Response → HttpReply
  http_error : String → HttpReply
  other_error : Error → HttpReply

unfoldable pub succeeded : String → Option String → ProviderResult
succeeded name external_id = record {
  success = true;
  provider_name = name;
  external_id = external_id;
  error = none;
}

unfoldable pub failed_with : String → String → ProviderResult
failed_with name error = record {
  success = false;
  provider_name = name;
  external_id = none;
  error = some error;
}

-- Nothing is sent if building the request raises; the reply is read by the provider.
unfoldable pub send_built :
    {B R X : Type 0} → (B → X → R × X) → (R → Attempt) → Result B → X → Attempt × X
send_built send read (err e) x = (raised e, x)
send_built send read (ok request) x = let (reply, x') = send request x in (read reply, x')

-- A body and a subject, rendered here.
pub record Rendered : Type 0 where
  pub content : String
  pub subject : Option String

module _ {V : Type 0} ⦃s : Str V⦄ where
  unfoldable pub rendered : NotificationTemplate → Dict V → Result Rendered
  unfolding render render_subject
  rendered template context = do
    body ← render template context
    subject ← render_subject template context
    ok (record { content = body; subject = subject })

-- `template.render_subject(context) or "(no subject)"`
unfoldable pub or_no_subject : Option String → String
or_no_subject none = "(no subject)"
or_no_subject (some subject) = if subject == "" then "(no subject)" else subject
