-- ===== src/Infrastructure/Schema/Stored.antt =====
-- Whether what `save` writes stays within the columns that the model declares. A database may
-- refuse a longer text, and then the save raises.
use mathlib.Core.List.{Memᴰ}
use notifyfork.Common.{
  ℕ, ◌≤◌, ◌↔◌, refl, arith, String, Option, none, some, List, [], Bool-cases, leb, inl, inr,
}
use notifyfork.Python.Dict.{get}
use notifyfork.Python.Text.{len}
use notifyfork.Domain.Notification.{
  NotificationStatus, pending, queued, sent, delivered, delivery_failed, failed, retrying,
  mark_queued, mark_sent, mark_failed,
}
use notifyfork.Domain.Notification.Status.{status_value}
use notifyfork.Application.Dto.{SendNotificationDto}
use notifyfork.Application.Interfaces.Database.{Defaults}
use notifyfork.Application.UseCase.{Verdict, accepted, refused, conclude, new_notification}
use notifyfork.Infrastructure.Repository.{defaults_of}
use notifyfork.Infrastructure.Schema.{char_field, Field}
use notifyfork.Infrastructure.Schema.Tables.{notification_model}

-- A text in a column, by its field.
abbrev pub WithinField : Option Field → String → Type 0
WithinField none text = ⊥
WithinField (some field) text = elim field.column.kind [
  | char_field n ↦ len text ≤ n
  | _ ↦ Unit {0}
]

abbrev pub Within : String → String → Type 0
Within name text = WithinField (get name notification_model.fields) text

abbrev pub WithinOptional : String → Option String → Type 0
WithinOptional name none = Unit {0}
WithinOptional name (some text) = Within name text

-- The values of a field's `choices`.
abbrev pub choices_of : Option Field → List String
choices_of none = []
choices_of (some field) = field.choices

-- A status that the column has room for and the model names.
abbrev pub IsChoice : String → Type 0
IsChoice text =
    Within "status" text × Memᴰ text (choices_of (get "status" notification_model.fields))

status_value-IsChoice : (st : NotificationStatus) → IsChoice (status_value st)
unfolding status_value len get
status_value-IsChoice pending = (ground arith, Memᴰ.head refl)
status_value-IsChoice queued = (ground arith, Memᴰ.tail (Memᴰ.head refl))
status_value-IsChoice sent = (ground arith, Memᴰ.tail (Memᴰ.tail (Memᴰ.head refl)))
status_value-IsChoice delivered = (ground arith, Memᴰ.tail (Memᴰ.tail (Memᴰ.tail (Memᴰ.head refl))))
status_value-IsChoice delivery_failed =
    (ground arith, Memᴰ.tail (Memᴰ.tail (Memᴰ.tail (Memᴰ.tail (Memᴰ.head refl)))))
status_value-IsChoice failed =
    (ground arith, Memᴰ.tail (Memᴰ.tail (Memᴰ.tail (Memᴰ.tail (Memᴰ.tail (Memᴰ.head refl))))))
status_value-IsChoice retrying = (
  ground arith,
  Memᴰ.tail (Memᴰ.tail (Memᴰ.tail (Memᴰ.tail (Memᴰ.tail (Memᴰ.tail (Memᴰ.head refl)))))),
)

module _ {V : Type 0} where
  -- Every text column, and the two counters, which a PositiveSmallIntegerField has up to 32767.
  pub record IsStorable (d : Defaults V) : Type 0 where
    pub recipient : Within "recipient" d.recipient
    pub channel : Within "channel" d.channel
    pub notification_type : Within "notification_type" d.notification_type
    pub template_id : Within "template_id" d.template_id
    pub status : IsChoice d.status
    pub provider_used : WithinOptional "provider_used" d.provider_used
    pub provider_message_id : WithinOptional "provider_message_id" d.provider_message_id
    pub attempts : d.attempts ≤ 32767
    pub max_attempts : d.max_attempts ≤ 32767

abbrev pub ShortVerdict : Verdict → Type 0
ShortVerdict (accepted name message_id) =
    (len name ≤ 50) × WithinOptional "provider_message_id" message_id
ShortVerdict (refused error) = Unit {0}

module _ {V : Type 0} (dto : SendNotificationDto V) (id start : ℕ) where
  abbrev pub first_saved : Defaults V
  first_saved = defaults_of (mark_queued (new_notification dto id start))

  abbrev pub then_saved : ℕ → Verdict → Defaults V
  then_saved now v = defaults_of (conclude v now (mark_queued (new_notification dto id start)))

  -- If the new notification stays within the columns, what is saved after the loop does exactly if
  -- the verdict is a refusal, or the name of the provider that took the message has at most 50
  -- characters, and the id of the message, if any, at most 255; the status, which is among the
  -- model's choices, and the counters always do.
  pub second_save_iff :
      (now : ℕ) (v : Verdict)
      → IsStorable first_saved
      → IsStorable (then_saved now v) ↔ ShortVerdict v
  unfolding defaults_of conclude new_notification mark_queued mark_sent mark_failed get
  second_save_iff now (accepted name message_id) h = (
    (λ s. (s.provider_used, s.provider_message_id)),
    (λ short. record {
      recipient = h.recipient;
      channel = h.channel;
      notification_type = h.notification_type;
      template_id = h.template_id;
      status = status_value-IsChoice sent;
      provider_used = short.0;
      provider_message_id = short.1;
      attempts = h.attempts;
      max_attempts = h.max_attempts;
    }),
  )
  second_save_iff now (refused error) h = (
    (λ s. tt),
    (λ short. elim (Bool-cases (leb dto.max_attempts 1)) [
      | inl over ↦ rw over (record {
        recipient = h.recipient;
        channel = h.channel;
        notification_type = h.notification_type;
        template_id = h.template_id;
        status = status_value-IsChoice failed;
        provider_used = tt;
        provider_message_id = tt;
        attempts = omega arith;
        max_attempts = h.max_attempts;
      })
      | inr more ↦ rw more (record {
        recipient = h.recipient;
        channel = h.channel;
        notification_type = h.notification_type;
        template_id = h.template_id;
        status = status_value-IsChoice retrying;
        provider_used = tt;
        provider_message_id = tt;
        attempts = omega arith;
        max_attempts = h.max_attempts;
      })
    ]),
  )
