-- ===== src/Domain/Notification/Status.antt =====
-- The text of a status, as the database holds it (`NotificationStatus.value`), and back.
use notifyfork.Common.{
  sym, ap, ◌∙◌, ◌↔◌, String, ◌≡◌, refl, Option, none, some, ◌==◌, if◌then◌else◌, arith, eq_iff,
}
use notifyfork.Domain.Notification.{
  NotificationStatus, pending, queued, sent, delivered, delivery_failed, failed, retrying,
}

unfoldable pub status_value : NotificationStatus → String
status_value pending = "pending"
status_value queued = "queued"
status_value sent = "sent"
status_value delivered = "delivered"
status_value delivery_failed = "delivery_failed"
status_value failed = "failed"
status_value retrying = "retrying"

-- `NotificationStatus(text)`; a text that names no status raises ValueError, here `none`.
unfoldable pub status_of_value : String → Option NotificationStatus
status_of_value text =
    if text == "pending"
    then some pending
    else if text == "queued"
    then some queued
    else if text == "sent"
    then some sent
    else if text == "delivered"
    then some delivered
    else if text == "delivery_failed"
    then some delivery_failed
    else if text == "failed"
    then some failed
    else if text == "retrying"
    then some retrying
    else none

pub status_of_value-status_value :
    (s : NotificationStatus) → status_of_value (status_value s) ≡ some s
unfolding status_of_value status_value
status_of_value-status_value pending = refl
status_of_value-status_value _ = refl

pub status_value-status_of_value :
    (text : String) (s : NotificationStatus) → status_of_value text ≡ some s → status_value s ≡ text
unfolding status_of_value status_value
status_value-status_of_value text s h = ground (
  arith,
  eq_iff text "pending",
  eq_iff text "queued",
  eq_iff text "sent",
  eq_iff text "delivered",
  eq_iff text "delivery_failed",
  eq_iff text "failed",
  eq_iff text "retrying",
)

-- A text reads as a status exactly when it is the value of that status, so no two statuses are
-- stored as the same text.
pub status_of_value_iff :
    (text : String) (s : NotificationStatus)
    → (status_of_value text ≡ some s) ↔ (status_value s ≡ text)
status_of_value_iff text s = (
  status_value-status_of_value text s,
  λ same. ap status_of_value (sym same) ∙ status_of_value-status_value s,
)
