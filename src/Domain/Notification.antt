-- ===== src/Domain/Notification.antt =====
-- notifyfork/core/domain/entities/notification.py: the entity and its state machine. A method
-- returns the entity after it. Logging is left out; `now` is what `datetime.now` returns, in
-- microseconds, and an id is the number of a UUID.
pub mod Status
pub mod Machine
use notifyfork.Common.{
  ℕ, ◌+◌, String, Bool, true, false, Option, none, some, leb, ltb, if◌then◌else◌,
}
use notifyfork.Python.Dict.{Dict}

pub data NotificationStatus : Type 0 where
  pending queued sent delivered delivery_failed failed retrying : NotificationStatus

pub record Notification (V : Type 0) : Type 0 where
  pub recipient : String
  pub channel : String
  pub notification_type : String
  pub template_id : String
  pub context : Dict V
  pub id : ℕ
  pub status : NotificationStatus
  pub provider_used : Option String
  pub provider_message_id : Option String
  pub attempts : ℕ
  pub max_attempts : ℕ
  pub error_detail : Option String
  pub created_at : ℕ
  pub sent_at : Option ℕ
  pub delivered_at : Option ℕ

module _ {V : Type 0} where
  unfoldable pub mark_queued : Notification V → Notification V
  mark_queued n = record n { status = queued }

  unfoldable pub mark_sent : String → Option String → ℕ → Notification V → Notification V
  mark_sent provider provider_message_id now n = record n {
    status = sent;
    provider_used = some provider;
    provider_message_id = provider_message_id;
    sent_at = some now;
  }

  -- On a notification that is not SENT the method only logs a warning.
  unfoldable pub mark_delivered : ℕ → Notification V → Notification V
  mark_delivered now n = record n { status = delivered; delivered_at = some now }

  unfoldable pub mark_delivery_failed : String → Notification V → Notification V
  mark_delivery_failed reason n = record n { status = delivery_failed; error_detail = some reason }

  unfoldable pub mark_failed : String → Notification V → Notification V
  mark_failed reason n =
      let m = record n { attempts = n.attempts + 1; error_detail = some reason } in
      if leb m.max_attempts m.attempts
      then record m { status = failed }
      else record m { status = retrying }

  unfoldable pub can_retry : Notification V → Bool
  can_retry n = ltb n.attempts n.max_attempts

unfoldable pub status_is_terminal : NotificationStatus → Bool
status_is_terminal delivered = true
status_is_terminal delivery_failed = true
status_is_terminal failed = true
status_is_terminal _ = false

module _ {V : Type 0} where
  unfoldable pub is_terminal : Notification V → Bool
  unfolding status_is_terminal
  is_terminal n = status_is_terminal n.status
