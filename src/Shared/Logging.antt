-- ===== src/Shared/Logging.antt =====
-- shared/logging/setup.py. The logging library is given: the record's message and time as it forms
-- them, and the attributes that every record has.
pub mod Laws
pub mod Lines
use notifyfork.Common.{
  String, Bool, ◌&&◌, not, Option, none, some, List, [], ◌∷◌, any, filter, ◌==◌,
}
use notifyfork.Python.Dict.{Dict, put, put_all}
use notifyfork.Python.Result.{Result, ◌>>=◌}
use notifyfork.Python.Text.{starts_with}

-- A LogRecord as the formatter uses it: `getMessage()`, which raises where the arguments do not fit
-- the text, and its `__dict__`.
pub record LogRecord (V Exc : Type 0) : Type 0 where
  pub levelname : String
  pub get_message : Result String
  pub name : String
  pub exc_info : Option Exc
  pub attributes : Dict V

-- What the formatter takes from the libraries: `formatTime`, `formatException`, `json.dumps`, which
-- raises for a value that is no JSON, a text as a value, and the keys of
-- `vars(logging.makeLogRecord({}))`.
pub record Library (V Exc : Type 0) : Type 0 where
  pub format_time : LogRecord V Exc → String
  pub format_exception : Exc → String
  pub dumps : Dict V → Result String
  pub text : String → V
  pub reserved_record_attrs : List String

-- `k not in _RESERVED_RECORD_ATTRS and not k.startswith("_")`
unfoldable pub is_extra : List String → String → Bool
unfolding starts_with
is_extra reserved k = not (any (λ r. r == k) reserved) && not (starts_with "_" k)

module _ {V Exc : Type 0} (library : Library V Exc) where
  -- The four fields of every line.
  unfoldable pub standard_fields : String → LogRecord V Exc → Dict V
  standard_fields message record_ =
      ("severity", library.text record_.levelname)
      ∷ ("message", library.text message)
      ∷ ("logger", library.text record_.name)
      ∷ ("timestamp", library.text (library.format_time record_))
      ∷ []

  unfoldable pub extras : LogRecord V Exc → Dict V
  unfolding is_extra
  extras record_ =
      filter (λ (item : String × V). is_extra library.reserved_record_attrs item.0)
        record_.attributes

  unfoldable pub with_exception : Option Exc → Dict V → Dict V
  unfolding put
  with_exception none log = log
  with_exception (some exc_info) log =
      put "exception" (library.text (library.format_exception exc_info)) log

  -- The dictionary that is dumped.
  unfoldable pub log_fields : String → LogRecord V Exc → Dict V
  unfolding standard_fields extras with_exception put_all
  log_fields message record_ =
      with_exception record_.exc_info (put_all (extras record_) (standard_fields message record_))

  -- JSONFormatter.format
  unfoldable pub format : LogRecord V Exc → Result String
  unfolding log_fields
  format record_ = do message ← record_.get_message; library.dumps (log_fields message record_)
