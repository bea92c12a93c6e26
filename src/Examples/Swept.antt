-- ===== src/Examples/Swept.antt =====
-- The theorem on the sweep in reachable states, after a dispatch whose one provider is down.
use mathlib.Core.List.{Memᴰ}
use notifyfork.Common.{ℕ, ◌≤◌, ◌≡◌, ◌⊎◌, refl, String, some, List, [], ◌∷◌, ◌++◌, map, length}
use notifyfork.Python.Int.{pos}
use notifyfork.Python.Result.{ok}
use notifyfork.Python.Text.{strip, is_space}
use notifyfork.Domain.Notification.{mark_queued}
use notifyfork.Application.Dto.{send, make_dto}
use notifyfork.Application.Interfaces.Provider.{Provider, listed_channel}
use notifyfork.Application.Interfaces.Database.{NotificationRow}
use notifyfork.Application.UseCase.{execute, resolve_providers, try_candidates}
use notifyfork.Infrastructure.Repository.{get_template, to_template, save}
use notifyfork.Infrastructure.Tasks.{dispatch_notification, retry_pending_notifications}
use notifyfork.System.{World, acknowledged, submit, dispatch, Reach, here, next}
use notifyfork.System.Swept.{again, sweep_in_reachable}
use notifyfork.Examples.Table.{Table, table_orm, table_laws}
use notifyfork.Examples.Data.{
  down, counter, ana, payload, letter_uuids, text_str, json_text, plain_key, named_digest,
}
use notifyfork.Examples.Worlds.{empty_world, submitted}

abbrev all_down : List (Provider String ℕ)
all_down = down ∷ []

abbrev refused_world : World String (Table String) ℕ
refused_world = record submitted {
  sys = (dispatch_notification table_orm counter (ok all_down) payload empty_world.sys).1;
  jobs = [];
}

abbrev retrying_rows : List (NotificationRow String)
retrying_rows = table_orm.filter_status "retrying" 100 refused_world.sys.db

refusal : Reach table_orm counter letter_uuids plain_key named_digest empty_world refused_world
unfolding send strip is_space dispatch_notification make_dto execute get_template to_template
    resolve_providers listed_channel save mark_queued try_candidates
refusal =
    next (next here (submit "+351" "sms" "welcome" "welcome" (some ana) (pos 3) payload refl))
      (dispatch [] [] [] payload (ok all_down) refl refl acknowledged)

sweep_in_reachable_example :
    ((i : ℕ) (row : NotificationRow String)
      → table_orm.aget i refused_world.sys.db ≡ some row
      → (row.attempts ≤ 1) × (1 ≤ row.max_attempts) × (row.max_attempts ≤ 5))
    × (retry_pending_notifications table_orm (record { db = refused_world.sys.db; queue = [] }) ≡ (
      ok (length retrying_rows),
      record { db = refused_world.sys.db; queue = [] ++ map again retrying_rows },
    ))
    × (length retrying_rows ≤ 100)
    × ((i : ℕ) (row : NotificationRow String)
        → table_orm.aget i refused_world.sys.db ≡ some row
        → row.status ≡ "retrying"
        → (100 ≤ length retrying_rows) ⊎ Memᴰ row retrying_rows)
sweep_in_reachable_example =
    sweep_in_reachable table_orm table_laws counter letter_uuids plain_key named_digest empty_world
      refused_world (λ j. refl) refl refusal
