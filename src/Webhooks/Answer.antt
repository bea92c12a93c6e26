-- ===== src/Webhooks/Answer.antt =====
-- What the webhook views share: their responses, the queue of `process_delivery_update`, and the
-- look-up of a notification by the provider's id of its message.
use notifyfork.Common.{ℕ, String, Bool, false, not, Option, none, some, List, any, ◌==◌}
use notifyfork.Python.Result.{external, Result, ok, err}
use notifyfork.Python.Exec.{Exec}
use notifyfork.Application.Interfaces.Database.{Found, does_not_exist, found, multiple_objects, Orm}
use notifyfork.Webhooks.Delivery.{UuidText, Update}

-- `Response({"detail": ...}, status=...)`, or `Response({"accepted": ...}, status=200)`.
pub data Answer : Type 0 where
  detail : ℕ → String → Answer
  accepted : ℕ → Answer

-- A view that raises is an `err`; DRF answers 500.
abbrev pub View : Type 0
View = Exec (List Update) Answer

-- Truth of an optional text: there, and not empty.
unfoldable pub filled : Option String → Bool
filled none = false
filled (some text) = not (text == "")

-- `value in {...}`
unfoldable pub one_of : List String → String → Bool
one_of words value = any (λ w. w == value) words

module _ {V : Type 0} where
  unfoldable pub text_of_found : UuidText → Found V → Result (Option String)
  text_of_found uuids does_not_exist = ok none
  text_of_found uuids (found row) = ok (some (uuids.to_text row.id))
  text_of_found uuids multiple_objects =
      err (external "get() returned more than one NotificationModel")

  -- `_find_notification_id`, the same in each view. The text of a UUID is not empty, so
  -- `not notification_id` means `none`.
  unfoldable pub find_notification_id :
      {DB : Type 0} → Orm V DB → UuidText → String → DB → Result (Option String)
  unfolding text_of_found
  find_notification_id orm uuids message db = text_of_found uuids (orm.aget_message message db)
