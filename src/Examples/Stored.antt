-- ===== src/Examples/Stored.antt =====
-- The theorem on the columns, at a concrete input.
use mathlib.Core.List.{Memᴰ}
use notifyfork.Common.{◌↔◌, refl, some, arith}
use notifyfork.Python.Dict.{get}
use notifyfork.Python.Text.{len}
use notifyfork.Domain.Notification.{mark_queued}
use notifyfork.Domain.Notification.Status.{status_value}
use notifyfork.Application.UseCase.{Verdict, accepted, new_notification}
use notifyfork.Infrastructure.Repository.{defaults_of}
use notifyfork.Infrastructure.Schema.Stored.{
  IsStorable, ShortVerdict, first_saved, then_saved, second_save_iff,
}
use notifyfork.Examples.Data.{request}

abbrev taken : Verdict
taken = accepted "backup_sms" (some "SM1")

first_saved-IsStorable : IsStorable (first_saved request 7 8)
unfolding defaults_of new_notification mark_queued status_value get len
first_saved-IsStorable = record {
  recipient = ground arith;
  channel = ground arith;
  notification_type = ground arith;
  template_id = ground arith;
  status = (ground arith, Memᴰ.tail (Memᴰ.head refl));
  provider_used = tt;
  provider_message_id = tt;
  attempts = ground arith;
  max_attempts = ground arith;
}

second_save_example : IsStorable (then_saved request 7 8 10 taken) ↔ ShortVerdict taken
second_save_example = second_save_iff request 7 8 10 taken first_saved-IsStorable
