-- ===== src/Application/Dto.antt =====
-- What crosses the queue: client.py's `send` builds the payload of a dispatch task, and
-- dtos/send_notification_dto.py validates it in the worker.
pub mod Laws
pub mod Range
use notifyfork.Common.{
  ℕ, String, Bool, ◌&&◌, ◌||◌, Option, none, some, [], leb, if◌then◌else◌, ◌==◌,
}
use notifyfork.Python.Dict.{Dict}
use notifyfork.Python.Result.{Error, value_error, Result, ok, err, ◌>>=◌}
use notifyfork.Python.Text.{strip}
use notifyfork.Python.Int.{ℤ, pos, negsuc}

-- The keyword arguments of a task; an absent key is `none`.
pub record Payload (V : Type 0) : Type 0 where
  pub recipient : String
  pub channel : String
  pub notification_type : String
  pub template_id : String
  pub context : Option (Dict V)
  pub max_attempts : Option ℤ

pub record SendNotificationDto (V : Type 0) : Type 0 where
  pub recipient : String
  pub channel : String
  pub notification_type : String
  pub template_id : String
  pub context : Dict V
  pub max_attempts : ℕ

unfoldable pub recipient_not_empty : String → Result String
unfolding strip
recipient_not_empty v =
    if strip v == "" then err (value_error "Recipient cannot be empty") else ok (strip v)

-- `1 <= v <= 5`; the number of a value that is in range.
unfoldable pub attempts_in_range : ℤ → Option ℕ
attempts_in_range (pos n) = if leb 1 n && leb n 5 then some n else none
attempts_in_range (negsuc n) = none

abbrev attempts_error : Error
attempts_error = value_error "max_attempts must be between 1 and 5"

abbrev or_raise : {A : Type 0} → Error → Option A → Result A
or_raise e none = err e
or_raise e (some a) = ok a

unfoldable pub valid_attempts : ℤ → Result ℕ
unfolding attempts_in_range
valid_attempts v = or_raise attempts_error (attempts_in_range v)

unfoldable pub given_attempts : Option ℤ → ℤ
given_attempts none = pos 3
given_attempts (some n) = n

module _ {V : Type 0} where
  unfoldable pub given_context : Option (Dict V) → Dict V
  given_context none = []
  given_context (some context) = context

  -- `SendNotificationDTO(**payload)`.
  unfoldable pub make_dto : Payload V → Result (SendNotificationDto V)
  unfolding recipient_not_empty valid_attempts given_context given_attempts
  make_dto p = do
    recipient ← recipient_not_empty p.recipient
    max_attempts ← valid_attempts (given_attempts p.max_attempts)
    ok (record {
      recipient = recipient;
      channel = p.channel;
      notification_type = p.notification_type;
      template_id = p.template_id;
      context = given_context p.context;
      max_attempts = max_attempts;
    })

  -- client.py `send`, up to the call of `dispatch_notification.delay`: the payload of the task.
  unfoldable pub send : String → String → String → String → Option (Dict V) → ℤ → Result (Payload V)
  unfolding strip given_context attempts_in_range
  send recipient channel template_id notification_type context max_attempts =
      if recipient == "" || strip recipient == ""
      then err (value_error "recipient cannot be blank")
      else (or_raise attempts_error (attempts_in_range max_attempts) >>= λ _. ok (record {
        recipient = strip recipient;
        channel = channel;
        notification_type = notification_type;
        template_id = template_id;
        context = some (given_context context);
        max_attempts = some max_attempts;
      }))
