-- ===== src/Examples/Failing.antt =====
-- The theorem on a second save that fails, at a concrete input: a database that takes no SENT row.
use notifyfork.Common.{
  ℕ, ◌≡◌, refl, String, some, List, [], ◌∷◌, Bool-cases, inl, inr, ◌==◌, if◌then◌else◌,
}
use notifyfork.Python.Result.{ok, err, external, Result}
use notifyfork.Python.Text.{strip, is_space}
use notifyfork.Domain.Notification.{Notification, mark_queued}
use notifyfork.Application.Dto.{make_dto}
use notifyfork.Application.Interfaces.Provider.{Provider, listed_channel}
use notifyfork.Application.Interfaces.Database.{Orm, OrmLaws, Defaults}
use notifyfork.Application.UseCase.{
  accepted, conclude, new_notification, read_attempt, resolve_providers,
}
use notifyfork.Infrastructure.Repository.{save, get_template, to_template, defaults_of}
use notifyfork.System.Workers.{Stage, Ready, trying, settling, queuing, prepare, begin, advance}
use notifyfork.System.Workers.Scene.{stage_of, put_worker, Scene, start, go_on, Moves, still}
use notifyfork.System.Workers.Holds.{Waits}
use notifyfork.System.Workers.Recorded.{failed_save_row_stays}
use notifyfork.Examples.Table.{Table, table_orm, table_laws}
use notifyfork.Examples.Data.{
  backup, counter, welcome, request, payload, letter_uuids, text_str, json_text, plain_key,
  named_digest,
}
use notifyfork.Examples.Workers.{Unclaimed, put_free, idle_free, no_tasks, first_notification}
use notifyfork.Examples.Refused.{put_none_free}

abbrev write_or_fail : ℕ → Defaults String → ℕ → Table String → Result (Table String)
write_or_fail i d now db =
    if d.status == "sent"
    then err (external "OperationalError")
    else table_orm.aupdate_or_create i d now db

abbrev failing_orm : Orm String (Table String)
failing_orm = record {
  aupdate_or_create = write_or_fail;
  aget = table_orm.aget;
  aget_message = table_orm.aget_message;
  filter_status = table_orm.filter_status;
  aget_template = table_orm.aget_template;
}

taken :
    (i : ℕ) (d : Defaults String) (now : ℕ) (db db' : Table String)
    → write_or_fail i d now db ≡ ok db'
    → table_orm.aupdate_or_create i d now db ≡ ok db'
taken i d now db db' e = elim (Bool-cases (d.status == "sent")) [
  | inl fails ↦ let odd = rw fails at e in cc (odd)
  | inr writes ↦ rw writes at e
]

failing_laws : OrmLaws failing_orm
failing_laws = record {
  aget-aupdate_or_create =
      λ i d now db db' e. table_laws.aget-aupdate_or_create i d now db db' (taken i d now db db' e);
  aget-aupdate_or_create_ne = λ i j d now db db' e.
      table_laws.aget-aupdate_or_create_ne i j d now db db' (taken i d now db db' e);
  aget_template-aupdate_or_create = λ i t d now db db' e.
      table_laws.aget_template-aupdate_or_create i t d now db db' (taken i d now db db' e);
  aget_id = table_laws.aget_id;
  aget_message_found = table_laws.aget_message_found;
  filter_status_rows = table_laws.filter_status_rows;
  length-filter_status = table_laws.length-filter_status;
  filter_status_complete = table_laws.filter_status_complete;
  aget_template_active = table_laws.aget_template_active;
}

abbrev one_up : List (Provider String ℕ)
one_up = backup ∷ []

abbrev starts : ℕ → Scene String (Table String) ℕ → Scene String (Table String) ℕ
starts w c = record c {
  sys = (begin failing_orm counter (ok one_up) payload c.sys).1;
  workers =
      put_worker w (stage_of (begin failing_orm counter (ok one_up) payload c.sys).0) c.workers;
}

abbrev advances : Stage String ℕ → Scene String (Table String) ℕ → Scene String (Table String) ℕ
advances stage c = record c {
  sys = (advance failing_orm counter stage c.sys).1;
  workers = put_worker 0 (stage_of (advance failing_orm counter stage c.sys).0) c.workers;
}

abbrev ready_up : Ready String ℕ
ready_up = record { dto = request; template = welcome; candidates = one_up }

abbrev taken_notification : Notification String
taken_notification = conclude (accepted "backup_sms" (some "SM1")) 9 first_notification

abbrev one_taken : Scene String (Table String) ℕ
one_taken =
    advances (trying ready_up "Unknown provider error" one_up first_notification)
      (advances (queuing ready_up first_notification) (starts 0 no_tasks))

one_message_out : Moves failing_orm counter letter_uuids plain_key named_digest no_tasks one_taken
unfolding begin prepare advance make_dto is_space strip get_template to_template resolve_providers
    listed_channel save mark_queued new_notification read_attempt conclude defaults_of
one_message_out =
    Moves.then
      (Moves.then (Moves.then still (start 0 (ok one_up) payload refl refl (idle_free 7)))
        (go_on 0 (queuing ready_up first_notification) refl))
      (go_on 0 (trying ready_up "Unknown provider error" one_up first_notification) refl)

abbrev one_lost : Scene String (Table String) ℕ
one_lost = advances (settling taken_notification) one_taken

ended_free : Unclaimed 9 one_lost.workers
unfolding begin prepare advance make_dto is_space strip get_template to_template resolve_providers
    listed_channel save mark_queued new_notification read_attempt conclude defaults_of
ended_free = put_none_free 9 0 _ (
    put_free 9 0 _ _ (λ e. cc (e))
      (put_free 9 0 _ _ (λ e. cc (e)) (put_free 9 0 _ _ (λ e. cc (e)) (idle_free 9))))

abbrev sent_again : Scene String (Table String) ℕ
sent_again = starts 1 one_lost

failed_save_row_stays_example :
    Waits failing_orm sent_again.sys.db 7
    × (failing_orm.aget 7 sent_again.sys.db ≡ failing_orm.aget 7 one_taken.sys.db)
unfolding begin prepare advance make_dto is_space strip get_template to_template resolve_providers
    listed_channel save mark_queued new_notification read_attempt conclude defaults_of
failed_save_row_stays_example =
    failed_save_row_stays failing_orm failing_laws counter letter_uuids plain_key named_digest
      no_tasks one_taken sent_again (λ i. refl) (λ w. refl) refl one_message_out 0
      taken_notification (external "OperationalError") refl refl
      (Moves.then still (start 1 (ok one_up) payload refl refl ended_free))
