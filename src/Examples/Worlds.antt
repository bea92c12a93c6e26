-- ===== src/Examples/Worlds.antt =====
-- The theorems on the whole program, at concrete inputs.
use mathlib.Core.List.{Memᴰ}
use notifyfork.Common.{ℕ, ◌≡◌, refl, String, some, [], ◌∷◌}
use notifyfork.Python.Int.{pos}
use notifyfork.Python.Result.{ok}
use notifyfork.Python.Text.{strip, is_space}
use notifyfork.Domain.Notification.{status_is_terminal, mark_queued}
use notifyfork.Domain.Notification.Status.{status_of_value}
use notifyfork.Application.Dto.{send, make_dto}
use notifyfork.Application.Interfaces.Provider.{listed_channel}
use notifyfork.Application.Interfaces.Database.{NotificationRow}
use notifyfork.Application.UseCase.{Sys, execute, resolve_providers, try_candidates, read_attempt}
use notifyfork.Infrastructure.Repository.{
  get_template, to_template, save, get_by_id, to_entity, defaults_of,
}
use notifyfork.Infrastructure.Tasks.{dispatch_notification}
use notifyfork.Webhooks.Delivery.{process_delivery_update}
use notifyfork.System.{World, acknowledged, submit, dispatch, update, Reach, here, next}
use notifyfork.System.Rows.{IsSound}
use notifyfork.System.Invariant.{reachable_rows-IsSound}
use notifyfork.System.Eventually.{SentByOne, execute_delivers}
use notifyfork.Examples.Table.{Table, table_orm, table_laws}
use notifyfork.Examples.Data.{
  counter, backup, providers_of_sms, welcome, ana, request, payload, sent_row, start, no_templates,
  welcome_row, letter_uuids, confirmed, text_str, json_text, plain_key, named_digest,
}

abbrev pub empty_world : World String (Table String) ℕ
empty_world = record {
  sys = record { db = record no_templates { templates = welcome_row ∷ [] }; outside = 7 };
  jobs = [];
  updates = [];
}

abbrev pub submitted : World String (Table String) ℕ
submitted = record empty_world { jobs = payload ∷ [] }

abbrev dispatched_world : World String (Table String) ℕ
dispatched_world = record submitted {
  sys = (dispatch_notification table_orm counter (ok providers_of_sms) payload empty_world.sys).1;
  jobs = [];
}

first_send :
    Reach table_orm counter letter_uuids plain_key named_digest empty_world dispatched_world
unfolding send strip is_space dispatch_notification make_dto execute get_template to_template
    resolve_providers listed_channel save mark_queued try_candidates
first_send =
    next (next here (submit "+351" "sms" "welcome" "welcome" (some ana) (pos 3) payload refl))
      (dispatch [] [] [] payload (ok providers_of_sms) refl refl acknowledged)

abbrev pub sent_now : NotificationRow String
sent_now = record sent_row { id = 7; created_at = 8; sent_at = some 10 }

reachable_rows-IsSound_example : IsSound sent_now
unfolding dispatch_notification make_dto is_space execute get_template to_template resolve_providers
    listed_channel save mark_queued try_candidates defaults_of
reachable_rows-IsSound_example =
    reachable_rows-IsSound table_orm table_laws counter letter_uuids plain_key named_digest
      empty_world dispatched_world (λ j. refl) refl first_send 7 sent_now refl

abbrev waiting : World String (Table String) ℕ
waiting = record { sys = start; jobs = []; updates = confirmed ∷ [] }

abbrev closed_world : World String (Table String) ℕ
closed_world = record waiting {
  sys = (process_delivery_update table_orm counter letter_uuids confirmed start).1;
  updates = [];
}

confirmation : Reach table_orm counter letter_uuids plain_key named_digest waiting closed_world
unfolding process_delivery_update status_is_terminal status_of_value get_by_id to_entity save
confirmation = next here (update [] [] [] confirmed refl acknowledged)

execute_delivers_example :
    (s' : Sys (Table String) ℕ) × (row : NotificationRow String) × (execute table_orm counter
        providers_of_sms request start
      ≡ (ok 7, s'))
    × (table_orm.aget 7 s'.db ≡ some row)
    × SentByOne "+351" welcome ana providers_of_sms 8 row
unfolding get_template to_template resolve_providers listed_channel read_attempt
execute_delivers_example =
    execute_delivers table_orm table_laws counter providers_of_sms request start welcome
      providers_of_sms backup refl refl (λ i d now db. (_, refl)) refl (Memᴰ.tail (Memᴰ.head refl))
      (λ x. (some "SM1", refl)) ((λ x e. cc), ((λ x e. cc), tt))
