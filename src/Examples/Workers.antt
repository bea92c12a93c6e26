-- ===== src/Examples/Workers.antt =====
-- The theorems on interleaved tasks, at concrete inputs: two dispatch tasks, of which the first dies
-- between its two candidates.
use mathlib.Core.Option.{some-injective}
use notifyfork.Common.{ℕ, ◌≡◌, ◌≢◌, refl, ap, ◌∙◌, String, Option, none, some, [], ◌∷◌}
use notifyfork.Python.Result.{ok}
use notifyfork.Python.Text.{strip, is_space}
use notifyfork.Domain.Notification.{Notification, mark_queued}
use notifyfork.Application.Dto.{make_dto}
use notifyfork.Application.Interfaces.Provider.{listed_channel}
use notifyfork.Application.Interfaces.Database.{NotificationRow}
use notifyfork.Application.UseCase.{new_notification, read_attempt, resolve_providers}
use notifyfork.Infrastructure.Repository.{save, get_template, to_template, defaults_of}
use notifyfork.System.Rows.{IsSound}
use notifyfork.System.Workers.{Stage, Ready, trying, prepare, begin, advance, queuing}
use notifyfork.System.Workers.Scene.{
  owned, stage_of, put_worker, Scene, start, go_on, Moves, still, then,
}
use notifyfork.System.Workers.Holds.{Waits}
use notifyfork.System.Workers.Works.{put_worker-cases}
use notifyfork.System.Workers.Interleaved.{interleaved_rows-IsSound}
use notifyfork.System.Workers.Recorded.{calls_recorded, dead_workers_row_stays}
use notifyfork.Examples.Table.{Table, table_orm, table_laws}
use notifyfork.Examples.Data.{
  counter, backup, providers_of_sms, welcome, request, payload, sent_row, no_templates, welcome_row,
  letter_uuids, text_str, json_text, plain_key, named_digest,
}

abbrev pub idle : ℕ → Option (Stage String ℕ)
idle w = none

abbrev pub no_tasks : Scene String (Table String) ℕ
no_tasks = record {
  sys = record { db = record no_templates { templates = welcome_row ∷ [] }; outside = 7 };
  workers = idle;
  updates = [];
}

abbrev pub started_by : ℕ → Scene String (Table String) ℕ → Scene String (Table String) ℕ
started_by w c = record c {
  sys = (begin table_orm counter (ok providers_of_sms) payload c.sys).1;
  workers =
      put_worker w (stage_of (begin table_orm counter (ok providers_of_sms) payload c.sys).0)
        c.workers;
}

abbrev pub after_advance :
    ℕ → Stage String ℕ → Scene String (Table String) ℕ → Scene String (Table String) ℕ
after_advance w stage c = record c {
  sys = (advance table_orm counter stage c.sys).1;
  workers = put_worker w (stage_of (advance table_orm counter stage c.sys).0) c.workers;
}

abbrev pub ready : Ready String ℕ
ready = record { dto = request; template = welcome; candidates = providers_of_sms }

abbrev pub first_notification : Notification String
first_notification = mark_queued (new_notification request 7 8)

abbrev pub one_queued : Scene String (Table String) ℕ
one_queued = after_advance 0 (queuing ready first_notification) (started_by 0 no_tasks)

-- The first worker's first candidate has refused, and the second worker has a task too.
abbrev one_refused : Scene String (Table String) ℕ
one_refused = started_by 1 (
    after_advance 0 (trying ready "Unknown provider error" providers_of_sms first_notification)
      one_queued)

-- No worker owns the notification.
abbrev pub Unclaimed : ℕ → (ℕ → Option (Stage String ℕ)) → Type 0
Unclaimed i workers =
    (v : ℕ) (stage : Stage String ℕ) → workers v ≡ some stage → owned stage ≢ some i

pub idle_free : (i : ℕ) → Unclaimed i idle
idle_free i v stage e = cc (e)

pub put_free :
    (i w : ℕ) (now : Stage String ℕ) (workers : ℕ → Option (Stage String ℕ))
    → owned now ≢ some i
    → Unclaimed i workers
    → Unclaimed i (put_worker w (some now) workers)
put_free i w now workers new others v stage =
    put_worker-cases w v (some now) workers (λ v o. o ≡ some stage → owned stage ≢ some i)
      (λ e own. new (ap owned (some-injective now stage e) ∙ own)) (λ ne. others v stage)

pub one_worker_queues :
    Moves table_orm counter letter_uuids plain_key named_digest no_tasks one_queued
unfolding begin prepare advance make_dto is_space strip get_template to_template resolve_providers
    listed_channel save mark_queued new_notification
one_worker_queues =
    then (then still (start 0 (ok providers_of_sms) payload refl refl (idle_free 7)))
      (go_on 0 (queuing ready first_notification) refl)

other_worker_starts :
    Moves table_orm counter letter_uuids plain_key named_digest no_tasks one_refused
unfolding begin prepare advance make_dto is_space strip get_template to_template resolve_providers
    listed_channel save mark_queued new_notification read_attempt
other_worker_starts =
    then
      (then one_worker_queues
        (go_on 0 (trying ready "Unknown provider error" providers_of_sms first_notification) refl))
      (start 1 (ok providers_of_sms) payload refl refl (
        put_free 9 0 _ _ (λ e. cc (e))
          (put_free 9 0 _ _ (λ e. cc (e)) (put_free 9 0 _ _ (λ e. cc (e)) (idle_free 9)))))

calls_recorded_example :
    Waits table_orm one_refused.sys.db 7
    × ((v : ℕ) (other : Stage String ℕ)
        → one_refused.workers v ≡ some other
        → owned other ≡ some 7
        → v ≡ 0)
unfolding begin prepare advance make_dto is_space strip get_template to_template resolve_providers
    listed_channel save mark_queued new_notification read_attempt
calls_recorded_example =
    calls_recorded table_orm table_laws counter letter_uuids plain_key named_digest no_tasks
      one_refused (λ i. refl) (λ w. refl) refl other_worker_starts 0 ready "timeout" (backup ∷ [])
      first_notification refl

abbrev dead : Scene String (Table String) ℕ
dead = record one_refused { workers = put_worker 0 none one_refused.workers }

abbrev second_notification : Notification String
second_notification = mark_queued (new_notification request 9 10)

abbrev other_queued : Scene String (Table String) ℕ
other_queued = after_advance 1 (queuing ready second_notification) dead

dead_workers_row_stays_example :
    Waits table_orm other_queued.sys.db 7
    × (table_orm.aget 7 other_queued.sys.db ≡ table_orm.aget 7 one_refused.sys.db)
unfolding begin prepare advance make_dto is_space strip get_template to_template resolve_providers
    listed_channel save mark_queued new_notification read_attempt
dead_workers_row_stays_example =
    dead_workers_row_stays table_orm table_laws counter letter_uuids plain_key named_digest no_tasks
      one_refused other_queued (λ i. refl) (λ w. refl) refl other_worker_starts 0 ready "timeout"
      (backup ∷ []) first_notification refl
      (then still (go_on 1 (queuing ready second_notification) refl))

abbrev queued_row : NotificationRow String
queued_row = record sent_row {
  id = 7;
  status = "queued";
  provider_used = none;
  provider_message_id = none;
  created_at = 8;
  sent_at = none;
}

interleaved_rows-IsSound_example : IsSound queued_row
unfolding begin prepare advance make_dto is_space strip get_template to_template resolve_providers
    listed_channel save mark_queued new_notification read_attempt defaults_of
interleaved_rows-IsSound_example =
    interleaved_rows-IsSound table_orm table_laws counter letter_uuids plain_key named_digest
      no_tasks one_refused (λ i. refl) (λ w. refl) refl other_worker_starts 7 queued_row refl
