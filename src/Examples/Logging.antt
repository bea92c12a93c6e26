-- ===== src/Examples/Logging.antt =====
-- The theorem on the log's lines, at a concrete input: a record with an extra, a private attribute
-- and an exception, dumped as the text of its severity.
use notifyfork.Common.{String, ◌≡◌, refl, some, [], ◌∷◌}
use notifyfork.Python.Dict.{Dict, get, get_or}
use notifyfork.Python.Result.{ok}
use notifyfork.Shared.Logging.{LogRecord, Library, format}
use notifyfork.Shared.Logging.Lines.{Logged, format_lem}

abbrev failure_record : LogRecord String String
failure_record = record {
  levelname = "ERROR";
  get_message = ok "Task failed";
  name = "notifyfork.queue";
  exc_info = some "ValueError";
  attributes = ("msg", "Task failed") ∷ ("attempt", "1") ∷ ("_private", "x") ∷ [];
}

abbrev small_library : Library String String
small_library = record {
  format_time = λ r. "12:00";
  format_exception = λ e. e;
  dumps = λ d. ok (get_or (get "severity" d) "");
  text = λ t. t;
  reserved_record_attrs = "name" ∷ "msg" ∷ "args" ∷ [];
}

format_example :
    (log : Dict String) × (format small_library failure_record ≡ small_library.dumps log)
    × ((k : String) → Logged small_library "Task failed" failure_record k (get k log))
format_example =
    format_lem small_library failure_record "Task failed"
      (((λ e. cc), ((λ e. cc), tt)), (((λ e. cc), tt), (tt, tt))) refl
