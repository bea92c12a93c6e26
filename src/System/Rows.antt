-- ===== src/System/Rows.antt =====
-- What the columns of a row say of each other, and how a row may change.
use notifyfork.Common.{
  ℕ, ◌≤◌, ◌<◌, ◌≡◌, ◌≢◌, refl, false, Option, none, some, arith, leb, Bool-cases, inl, inr,
}
use notifyfork.Domain.Notification.{
  NotificationStatus, pending, queued, sent, delivered, delivery_failed, failed, retrying,
  mark_queued, status_is_terminal,
}
use notifyfork.Domain.Notification.Status.{status_value, status_of_value}
use notifyfork.Application.Dto.{SendNotificationDto}
use notifyfork.Application.Dto.Range.{InRange}
use notifyfork.Application.Interfaces.Database.{NotificationRow, row_of}
use notifyfork.Application.UseCase.{Verdict, accepted, refused, conclude, new_notification}
use notifyfork.Infrastructure.Repository.{defaults_of}
use notifyfork.Webhooks.Delivery.{Update}
use notifyfork.Webhooks.Delivery.Laws.{updated}

module _ {V : Type 0} where
  -- The row has a message id, as only a sent one has.
  abbrev pub HasMessage : NotificationRow V → Type 0
  HasMessage row = row.provider_message_id ≢ none

  -- What each status says of the other columns.
  abbrev pub Fits : NotificationStatus → NotificationRow V → Type 0
  Fits pending row = ⊥
  Fits queued row =
      (row.attempts ≡ 0) × (row.provider_used ≡ none) × (row.provider_message_id ≡ none)
  Fits sent row = (row.attempts ≡ 0) × (row.provider_used ≢ none) × (row.sent_at ≢ none)
  Fits delivered row = (row.attempts ≡ 0) × (row.provider_used ≢ none) × (row.sent_at ≢ none)
  Fits delivery_failed row =
      (row.attempts ≡ 0)
      × (row.provider_used ≢ none)
      × (row.sent_at ≢ none)
      × (row.error_detail ≢ none)
  Fits failed row =
      (row.attempts ≡ 1)
      × (row.max_attempts ≤ 1)
      × (row.error_detail ≢ none)
      × (row.provider_message_id ≡ none)
  Fits retrying row =
      (row.attempts ≡ 1)
      × (1 < row.max_attempts)
      × (row.error_detail ≢ none)
      × (row.provider_message_id ≡ none)

  pub record IsSound (row : NotificationRow V) : Type 0 where
    pub status : NotificationStatus
    pub known : status_of_value row.status ≡ some status
    pub fits : Fits status row
    pub range : InRange row.max_attempts

  -- How a row may change in one step.
  pub data Change : Option (NotificationRow V) → Option (NotificationRow V) → Type 0 where
    kept : {o : Option (NotificationRow V)} → Change o o
    created : {row : NotificationRow V} → IsSound row → Change none (some row)
    closed :
        {row : NotificationRow V} {st : NotificationStatus} (u : Update)
        → status_of_value row.status ≡ some st
        → status_is_terminal st ≡ false
        → Change (some row) (some (updated u row))

  module _ (dto : SendNotificationDto V) (range : InRange dto.max_attempts)
      (id start created_at : ℕ) (delivered_at : Option ℕ) where
    pub queued-IsSound : IsSound (
        row_of id
          (defaults_of (mark_queued (new_notification dto id start)))
          created_at
          delivered_at)
    unfolding defaults_of new_notification mark_queued status_value status_of_value
    queued-IsSound = record {
      status = queued;
      known = refl;
      fits = (refl, refl, refl);
      range = range;
    }

    pub settled-IsSound :
        (v : Verdict) (now : ℕ)
        → IsSound (
            row_of id
              (defaults_of (conclude v now (mark_queued (new_notification dto id start))))
              created_at
              delivered_at)
    unfolding conclude defaults_of new_notification mark_queued status_value status_of_value
    settled-IsSound (accepted name message_id) now = record {
      status = sent;
      known = refl;
      fits = (refl, (λ e. cc), (λ e. cc));
      range = range;
    }
    settled-IsSound (refused error) now = elim (Bool-cases (leb dto.max_attempts 1)) [
      | inl over ↦ rw over (record {
        status = failed;
        known = refl;
        fits = (refl, ground arith, (λ e. cc), refl);
        range = range;
      })
      | inr more ↦ rw more (record {
        status = retrying;
        known = refl;
        fits = (refl, ground arith, (λ e. cc), refl);
        range = range;
      })
    ]
