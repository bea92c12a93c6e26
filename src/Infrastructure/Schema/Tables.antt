-- ===== src/Infrastructure/Schema/Tables.antt =====
-- The two models.
use notifyfork.Common.{String, true, false, List, [], ◌∷◌}
use notifyfork.Infrastructure.Schema.{
  Kind, uuid_field, char_field, text_field, json_field, small_integer_field, date_time_field,
  boolean_field, Field, Table,
}

-- A field without options.
abbrev pub plain : Kind → Field
plain kind = record {
  column = record { kind = kind; primary_key = false; null = false; db_index = false };
  choices = [];
}

abbrev pub key : Kind → Field
key kind = record {
  column = record { kind = kind; primary_key = true; null = false; db_index = false };
  choices = [];
}

abbrev pub nullable : Kind → Field
nullable kind = record {
  column = record { kind = kind; primary_key = false; null = true; db_index = false };
  choices = [];
}

-- `db_index=True`
abbrev pub indexed : Field → Field
indexed field = record { column = record field.column { db_index = true }; choices = field.choices }

abbrev pub choosing : List String → Field → Field
choosing choices field = record { column = field.column; choices = choices }

-- NotificationModel
abbrev pub notification_model : Table
notification_model = record {
  fields =
      ("id", key uuid_field)
      ∷ ("recipient", plain (char_field 255))
      ∷ (
        "channel",
        choosing ("sms" ∷ "email" ∷ "push" ∷ "whatsapp" ∷ "slack" ∷ []) (plain (char_field 20)),
      )
      ∷ (
        "notification_type",
        choosing ("transactional" ∷ "alert" ∷ "marketing" ∷ []) (plain (char_field 20)),
      )
      ∷ ("template_id", plain (char_field 100))
      ∷ ("context", plain json_field)
      ∷ (
        "status",
        choosing
            ("pending" ∷ "queued" ∷ "sent" ∷ "delivered" ∷ "delivery_failed" ∷ "failed" ∷ "retrying"
              ∷ [])
            (indexed (plain (char_field 20))),
      )
      ∷ ("provider_used", nullable (char_field 50))
      ∷ ("provider_message_id", indexed (nullable (char_field 255)))
      ∷ ("attempts", plain small_integer_field)
      ∷ ("max_attempts", plain small_integer_field)
      ∷ ("error_detail", nullable text_field)
      ∷ ("created_at", indexed (plain date_time_field))
      ∷ ("sent_at", nullable date_time_field)
      ∷ ("delivered_at", nullable date_time_field)
      ∷ [];
  indexes = ("idx_status_attempts", "status" ∷ "attempts" ∷ []) ∷ [];
}

-- NotificationTemplateModel
abbrev pub template_model : Table
template_model = record {
  fields =
      ("id", key (char_field 100))
      ∷ ("body", plain text_field)
      ∷ ("subject", nullable (char_field 255))
      ∷ ("mode", choosing ("local" ∷ "external" ∷ []) (plain (char_field 10)))
      ∷ ("variable_mapping", plain json_field)
      ∷ ("is_active", plain boolean_field)
      ∷ ("created_at", plain date_time_field)
      ∷ ("updated_at", plain date_time_field)
      ∷ [];
  indexes = [];
}
