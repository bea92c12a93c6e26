-- ===== src/Examples/Data.antt =====
-- A small system: two SMS providers, of which the first is down, one template, one request.
mod Vendors
pub use Vendors.*
use notifyfork.Common.{ℕ, zero, suc, ◌≡◌, refl, ap, String, true, false, none, some, List, [], ◌∷◌}
use notifyfork.Python.Dict.{Dict}
use notifyfork.Python.Int.{pos}
use notifyfork.Python.Result.{external}
use notifyfork.Python.Template.{Str}
use notifyfork.Domain.Template.{NotificationTemplate, TemplateMode, local}
use notifyfork.Domain.Notification.{Notification, pending}
use notifyfork.Application.Dto.{Payload, SendNotificationDto}
use notifyfork.Application.Interfaces.Provider.{Provider, Host, returned, raised, listed_channel}
use notifyfork.Application.Interfaces.Database.{NotificationRow, TemplateRow}
use notifyfork.Application.UseCase.{Sys}
use notifyfork.Webhooks.Delivery.{UuidText, Update}
use notifyfork.Examples.Table.{Table}
use Prim.Native.String

instance unfoldable pub text_str : Str String
text_str = record { str = λ text. text }

-- The outside counts what has happened in it.
abbrev pub counter : Host ℕ
counter = record { now = λ x. x; uuid4 = λ x. (x, suc x) }

abbrev pub down : Provider String ℕ
down = record {
  name = "twilio_sms";
  supports = some (λ channel. listed_channel ("sms" ∷ []) channel);
  send_with_template = λ recipient template context x. (raised (external "timeout"), suc x);
}

abbrev pub backup : Provider String ℕ
backup = record {
  name = "backup_sms";
  supports = some (λ channel. listed_channel ("sms" ∷ []) channel);
  send_with_template = λ recipient template context x. (
    returned (record {
      success = true;
      provider_name = "backup_sms";
      external_id = some "SM1";
      error = none;
    }),
    suc x,
  );
}

abbrev pub providers_of_sms : List (Provider String ℕ)
providers_of_sms = down ∷ backup ∷ []

abbrev pub welcome_row : TemplateRow
welcome_row = record {
  id = "welcome";
  body = "Hi $name";
  subject = none;
  mode = "local";
  variable_mapping = none;
  is_active = true;
}

abbrev pub welcome : NotificationTemplate
welcome = record {
  id = "welcome";
  body = "Hi $name";
  mode = local;
  subject = none;
  variable_mapping = record { mappings = [] };
}

abbrev pub ana : Dict String
ana = ("name", "Ana") ∷ []

abbrev pub request : SendNotificationDto String
request = record {
  recipient = "+351";
  channel = "sms";
  notification_type = "welcome";
  template_id = "welcome";
  context = ana;
  max_attempts = 3;
}

abbrev pub payload : Payload String
payload = record {
  recipient = "+351";
  channel = "sms";
  notification_type = "welcome";
  template_id = "welcome";
  context = some ana;
  max_attempts = some (pos 3);
}

abbrev pub sent_row : NotificationRow String
sent_row = record {
  id = 2;
  recipient = "+351";
  channel = "sms";
  notification_type = "welcome";
  template_id = "welcome";
  context = ana;
  status = "sent";
  provider_used = some "backup_sms";
  provider_message_id = some "SM1";
  attempts = 0;
  max_attempts = 3;
  error_detail = none;
  created_at = 3;
  sent_at = some 4;
  delivered_at = none;
}

abbrev pub retrying_row : NotificationRow String
retrying_row = record sent_row {
  id = 5;
  status = "retrying";
  provider_used = none;
  provider_message_id = none;
  attempts = 1;
  error_detail = some "timeout";
  sent_at = none;
}

abbrev pub stored : Table String
stored = record {
  rows = sent_row ∷ retrying_row ∷ [];
  unique = (refl, (refl, tt));
  templates = welcome_row ∷ [];
}

abbrev pub no_templates : Table String
no_templates = record { rows = []; unique = tt; templates = [] }

abbrev pub start : Sys (Table String) ℕ
start = record { db = stored; outside = 7 }

abbrev pub fresh : Notification String
fresh = record {
  recipient = "+351";
  channel = "sms";
  notification_type = "welcome";
  template_id = "welcome";
  context = ana;
  id = 9;
  status = pending;
  provider_used = none;
  provider_message_id = none;
  attempts = 0;
  max_attempts = 3;
  error_detail = none;
  created_at = 1;
  sent_at = none;
  delivered_at = none;
}

-- A UUID is written as that many letters.
abbrev letters : ℕ → String
letters zero = ""
letters (suc n) = String.◌∷◌ "u" (letters n)

abbrev count : String → ℕ
count String.[] = 0
count (String.◌∷◌ c s) = suc (count s)

pub count-letters : (n : ℕ) → count (letters n) ≡ n
count-letters zero = refl
count-letters (suc n) = ap suc (count-letters n)

abbrev pub letter_uuids : UuidText
letter_uuids = record {
  to_text = letters;
  of_text = λ text. some (count text);
  of_text-to_text = λ u. ap some (count-letters u);
}

abbrev pub confirmed : Update
confirmed = record {
  notification_id = "uu";
  provider = "twilio_sms";
  delivered = true;
  reason = none;
}

abbrev pub contradicted : Update
contradicted = record confirmed { delivered = false; reason = some "late bounce" }

abbrev pub external_welcome : NotificationTemplate
external_welcome = record welcome { body = "HX1"; mode = TemplateMode.external }
