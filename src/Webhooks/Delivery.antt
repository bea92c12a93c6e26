-- ===== src/Webhooks/Delivery.antt =====
-- api/webhooks/tasks.py: the task that a webhook queues. A notification is referred to by the text
-- of its UUID.
pub mod Laws
pub mod Finishes
pub mod Overlap
use notifyfork.Common.{ℕ, String, ◌≡◌, Bool, Option, none, some, List, if◌then◌else◌, ◌==◌}
use notifyfork.Python.Result.{Error, value_error, Result, ok, err}
use notifyfork.Domain.Notification.{Notification, mark_delivered, mark_delivery_failed, is_terminal}
use notifyfork.Domain.Notification.Status.{status_value}
use notifyfork.Application.Interfaces.Provider.{Host}
use notifyfork.Application.Interfaces.Database.{Orm}
use notifyfork.Application.UseCase.{Sys}
use notifyfork.Infrastructure.Repository.{save, get_by_id}
use notifyfork.Infrastructure.Tasks.{Task, finished, retry}

-- `str(uuid)` and `UUID(text)`, which raises ValueError for a text of another form.
pub record UuidText : Type 0 where
  pub to_text : ℕ → String
  pub of_text : String → Option ℕ
  pub of_text-to_text : (u : ℕ) → of_text (to_text u) ≡ some u

-- The arguments of `process_delivery_update`.
pub record Update : Type 0 where
  pub notification_id : String
  pub provider : String
  pub delivered : Bool
  pub reason : Option String

abbrev pub default_reason : String
default_reason = "Provider reported delivery failure"

-- `reason or "Provider reported delivery failure"`.
unfoldable pub reason_or_default : Option String → String
reason_or_default none = default_reason
reason_or_default (some reason) = if reason == "" then default_reason else reason

module _ {V : Type 0} where
  unfoldable pub mark_update : Update → ℕ → Notification V → Notification V
  unfolding mark_delivered mark_delivery_failed reason_or_default
  mark_update u now n =
      if u.delivered
      then mark_delivered now n
      else mark_delivery_failed (reason_or_default u.reason) n

module _ {V DB X : Type 0} (orm : Orm V DB) (host : Host X) where
  -- After the `save` of an updated notification.
  unfoldable pub close_update : Notification V → Result DB → Sys DB X → Task String × Sys DB X
  unfolding status_value
  close_update n (err e) s = (retry e, s)
  close_update n (ok db) s = (finished (status_value n.status), record s { db = db })

  -- What the task does with the notification that it has read.
  unfoldable pub apply_update :
      Update → Result (Option (Notification V)) → Sys DB X → Task String × Sys DB X
  unfolding close_update is_terminal mark_update
  apply_update u (err e) s = (retry e, s)
  apply_update u (ok none) s = (finished "not_found", s)
  apply_update u (ok (some n)) s =
      if is_terminal n
      then (finished "already_terminal", s)
      else (let m = mark_update u (host.now s.outside) n in
          close_update m (save orm m (host.now s.outside) s.db) s)

  -- The result is the `status` of the returned dict.
  unfoldable pub process_delivery_update : UuidText → Update → Sys DB X → Task String × Sys DB X
  unfolding apply_update
  process_delivery_update uuids u s = elim (uuids.of_text u.notification_id) [
    | none ↦ (retry (value_error "badly formed hexadecimal UUID string"), s)
    | some uid ↦ apply_update u (get_by_id orm uid s.db) s
  ]
