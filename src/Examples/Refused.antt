-- ===== src/Examples/Refused.antt =====
-- The theorem on rows that no task writes any more, at a concrete input: the one candidate is down,
-- the row is stored RETRYING, and then another worker sends the same payload again.
use notifyfork.Common.{ℕ, ◌≡◌, ◌≢◌, refl, String, Option, none, some, List, [], ◌∷◌, inl, inr}
use notifyfork.Python.Result.{ok}
use notifyfork.Python.Text.{strip, is_space}
use notifyfork.Domain.Notification.{Notification, mark_queued}
use notifyfork.Application.Dto.{make_dto}
use notifyfork.Application.Interfaces.Provider.{Provider, listed_channel}
use notifyfork.Application.Interfaces.Database.{NotificationRow}
use notifyfork.Application.UseCase.{
  refused, conclude, new_notification, read_attempt, resolve_providers,
}
use notifyfork.Infrastructure.Repository.{save, get_template, to_template, defaults_of}
use notifyfork.System.Workers.{Stage, Ready, trying, settling, queuing, prepare, begin, advance}
use notifyfork.System.Workers.Scene.{
  owned, stage_of, put_worker, Scene, start, go_on, Moves, still, then,
}
use notifyfork.System.Workers.Works.{put_worker-cases}
use notifyfork.System.Workers.Quiet.{unconfirmable_rows_stay}
use notifyfork.Examples.Table.{Table, table_orm, table_laws}
use notifyfork.Examples.Data.{
  down, counter, welcome, request, payload, sent_row, letter_uuids, text_str, json_text, plain_key,
  named_digest,
}
use notifyfork.Examples.Workers.{
  Unclaimed, put_free, idle_free, no_tasks, after_advance, first_notification,
}

abbrev one_down : List (Provider String ℕ)
one_down = down ∷ []

abbrev starts : ℕ → Scene String (Table String) ℕ → Scene String (Table String) ℕ
starts w c = record c {
  sys = (begin table_orm counter (ok one_down) payload c.sys).1;
  workers =
      put_worker w (stage_of (begin table_orm counter (ok one_down) payload c.sys).0) c.workers;
}

abbrev ready_down : Ready String ℕ
ready_down = record { dto = request; template = welcome; candidates = one_down }

abbrev refused_notification : Notification String
refused_notification = conclude (refused "timeout") 9 first_notification

abbrev one_settled : Scene String (Table String) ℕ
one_settled = after_advance 0 (settling refused_notification) (
    after_advance 0 (trying ready_down "timeout" [] first_notification) (
      after_advance 0 (trying ready_down "Unknown provider error" one_down first_notification)
        (after_advance 0 (queuing ready_down first_notification) (starts 0 no_tasks))))

abbrev refused_row : NotificationRow String
refused_row = record sent_row {
  id = 7;
  status = "retrying";
  provider_used = none;
  provider_message_id = none;
  attempts = 1;
  error_detail = some "timeout";
  created_at = 8;
  sent_at = none;
}

one_worker_is_refused :
    Moves table_orm counter letter_uuids plain_key named_digest no_tasks one_settled
unfolding begin prepare advance make_dto is_space strip get_template to_template resolve_providers
    listed_channel save mark_queued new_notification read_attempt conclude
one_worker_is_refused =
    then
      (then
        (then
          (then (then still (start 0 (ok one_down) payload refl refl (idle_free 7)))
            (go_on 0 (queuing ready_down first_notification) refl))
          (go_on 0 (trying ready_down "Unknown provider error" one_down first_notification) refl))
        (go_on 0 (trying ready_down "timeout" [] first_notification) refl))
      (go_on 0 (settling refused_notification) refl)

abbrev sent_again : Scene String (Table String) ℕ
sent_again = starts 1 one_settled

pub put_none_free :
    (i w : ℕ) (workers : ℕ → Option (Stage String ℕ))
    → Unclaimed i workers
    → Unclaimed i (put_worker w none workers)
put_none_free i w workers others v stage =
    put_worker-cases w v none workers (λ v o. o ≡ some stage → owned stage ≢ some i) (λ e. cc (e))
      (λ ne. others v stage)

ended_free : Unclaimed 9 one_settled.workers
unfolding begin prepare advance make_dto is_space strip get_template to_template resolve_providers
    listed_channel save mark_queued new_notification read_attempt conclude
ended_free = put_none_free 9 0 _ (
    put_free 9 0 _ _ (λ e. cc (e))
      (put_free 9 0 _ _ (λ e. cc (e))
        (put_free 9 0 _ _ (λ e. cc (e)) (put_free 9 0 _ _ (λ e. cc (e)) (idle_free 9)))))

unconfirmable_rows_stay_example : table_orm.aget 7 sent_again.sys.db ≡ some refused_row
unfolding begin prepare advance make_dto is_space strip get_template to_template resolve_providers
    listed_channel save mark_queued new_notification read_attempt conclude defaults_of
unconfirmable_rows_stay_example =
    unconfirmable_rows_stay table_orm table_laws counter letter_uuids plain_key named_digest
      no_tasks one_settled sent_again (λ i. refl) (λ w. refl) refl one_worker_is_refused
      (then still (start 1 (ok one_down) payload refl refl ended_free)) 7 refused_row refl
      (inr (inl refl))
