-- ===== src/Infrastructure/Schema.antt =====
-- What core/infrastructure/models/notification_model.py declares of the tables. Defaults, labels and
-- help texts, which the database does not have, are left out.
pub mod Tables
pub mod Stored
use notifyfork.Common.{ℕ, String, Bool, List}
use notifyfork.Python.Dict.{Dict}

-- Django's field classes, with `max_length`.
pub data Kind : Type 0 where
  uuid_field : Kind
  char_field : ℕ → Kind
  text_field : Kind
  json_field : Kind
  small_integer_field : Kind
  date_time_field : Kind
  boolean_field : Kind

-- What the database has of a field.
pub record Column : Type 0 where
  pub kind : Kind
  pub primary_key : Bool
  pub null : Bool
  pub db_index : Bool

-- A field, with the values of its `choices`.
pub record Field : Type 0 where
  pub column : Column
  pub choices : List String

-- A model's fields, and its indexes by name.
pub record Table : Type 0 where
  pub fields : Dict Field
  pub indexes : Dict (List String)
