-- ===== src/Infrastructure/Repository.antt =====
-- repositories/notification_repository.py and repositories/template_repository.py, over the
-- queries of the ORM.
pub mod Laws
use notifyfork.Common.{ℕ, String, Bool, Option, none, some, List, [], ◌∷◌, if◌then◌else◌, ◌==◌}
use notifyfork.Python.Dict.{Dict}
use notifyfork.Python.Result.{Error, value_error, Result, ok, err, ◌>>=◌}
use notifyfork.Domain.Template.{TemplateMode, local, external, NotificationTemplate}
use notifyfork.Domain.Notification.{NotificationStatus, Notification}
use notifyfork.Domain.Notification.Status.{status_value, status_of_value}
use notifyfork.Application.Interfaces.Database.{NotificationRow, TemplateRow, Defaults, Orm}
use Prim.Native.String

-- `NotificationStatus(text)` and `TemplateMode(text)` raise ValueError for an unknown text.
unfoldable pub or_value_error : {A : Type 0} → String → Option A → Result A
or_value_error text none =
    err (value_error (String.◌++◌ "'" (String.◌++◌ text "' is not a valid value")))
or_value_error text (some a) = ok a

unfoldable pub mode_of_value : String → Option TemplateMode
mode_of_value text =
    if text == "local" then some local else if text == "external" then some external else none

-- `obj.variable_mapping or {}`.
unfoldable pub mapping_or_empty : Option (Dict String) → Dict String
mapping_or_empty none = []
mapping_or_empty (some mapping) = mapping

unfoldable pub to_template : TemplateRow → Result NotificationTemplate
unfolding mode_of_value or_value_error mapping_or_empty
to_template obj = do
  mode ← or_value_error obj.mode (mode_of_value obj.mode)
  ok (record {
    id = obj.id;
    body = obj.body;
    mode = mode;
    subject = obj.subject;
    variable_mapping = record { mappings = mapping_or_empty obj.variable_mapping };
  })

module _ {V : Type 0} where
  unfoldable pub defaults_of : Notification V → Defaults V
  unfolding status_value
  defaults_of n = record {
    recipient = n.recipient;
    channel = n.channel;
    notification_type = n.notification_type;
    template_id = n.template_id;
    context = n.context;
    status = status_value n.status;
    provider_used = n.provider_used;
    provider_message_id = n.provider_message_id;
    attempts = n.attempts;
    max_attempts = n.max_attempts;
    error_detail = n.error_detail;
    sent_at = n.sent_at;
  }

  -- `_to_entity`: `delivered_at` is not read, so it has the entity's default.
  unfoldable pub entity_of : NotificationRow V → NotificationStatus → Notification V
  entity_of obj status = record {
    recipient = obj.recipient;
    channel = obj.channel;
    notification_type = obj.notification_type;
    template_id = obj.template_id;
    context = obj.context;
    id = obj.id;
    status = status;
    provider_used = obj.provider_used;
    provider_message_id = obj.provider_message_id;
    attempts = obj.attempts;
    max_attempts = obj.max_attempts;
    error_detail = obj.error_detail;
    created_at = obj.created_at;
    sent_at = obj.sent_at;
    delivered_at = none;
  }

  unfoldable pub to_entity : NotificationRow V → Result (Notification V)
  unfolding entity_of or_value_error
  to_entity obj = do
    status ← or_value_error obj.status (status_of_value obj.status)
    ok (entity_of obj status)

  unfoldable pub to_entities : List (NotificationRow V) → Result (List (Notification V))
  to_entities [] = ok []
  to_entities (obj ∷ objs) = do n ← to_entity obj; ns ← to_entities objs; ok (n ∷ ns)

  unfoldable pub optional_entity : Option (NotificationRow V) → Result (Option (Notification V))
  optional_entity none = ok none
  optional_entity (some obj) = do n ← to_entity obj; ok (some n)

unfoldable pub optional_template : Option TemplateRow → Result (Option NotificationTemplate)
optional_template none = ok none
optional_template (some obj) = do t ← to_template obj; ok (some t)

module _ {V DB : Type 0} (orm : Orm V DB) where
  unfoldable pub save : Notification V → ℕ → DB → Result DB
  save n now db = orm.aupdate_or_create n.id (defaults_of n) now db

  unfoldable pub get_by_id : ℕ → DB → Result (Option (Notification V))
  unfolding optional_entity
  get_by_id i db = optional_entity (orm.aget i db)

  unfoldable pub get_pending_retries : ℕ → DB → Result (List (Notification V))
  unfolding to_entities
  get_pending_retries limit db = to_entities (orm.filter_status "retrying" limit db)

  -- DatabaseTemplateRepository.get_by_id
  unfoldable pub get_template : String → DB → Result (Option NotificationTemplate)
  unfolding optional_template
  get_template template_id db = optional_template (orm.aget_template template_id db)
