-- ===== src/Examples/Broken.antt =====
-- The theorem on results without attributes, at a concrete input: the repository's example of a
-- registered class, behind a provider that is down.
use notifyfork.Common.{ℕ, suc, ◌≡◌, refl, String, some, List, [], ◌∷◌}
use notifyfork.Python.Result.{attribute_error, err}
use notifyfork.Application.Interfaces.Provider.{Provider, listed_channel}
use notifyfork.Application.Interfaces.Database.{NotificationRow}
use notifyfork.Application.UseCase.{Sys, read_attempt, resolve_providers, try_candidates, execute}
use notifyfork.Application.UseCase.Broken.{execute_breaks}
use notifyfork.Domain.Notification.{mark_queued}
use notifyfork.Infrastructure.Repository.{save, get_template, to_template}
use notifyfork.Infrastructure.Providers.Xpto.{xpto_provider}
use notifyfork.Domain.Template.{render}
use notifyfork.Python.Template.{substitute, id_start}
use notifyfork.Python.Dict.{get}
use notifyfork.Examples.Table.{Table, table_orm, table_laws}
use notifyfork.Examples.Data.{
  counter, down, backup, welcome, request, start, text_str, json_text, number_text,
}

abbrev xpto : Provider String ℕ
xpto = xpto_provider (λ line x. suc x)

abbrev with_xpto : List (Provider String ℕ)
with_xpto = down ∷ xpto ∷ backup ∷ []

abbrev broken_end : Sys (Table String) ℕ
broken_end = (execute table_orm counter with_xpto request start).1

execute_breaks_example :
    (execute table_orm counter with_xpto request start
      ≡ (err (attribute_error "external_id"), broken_end))
    × ((row : NotificationRow String) × (table_orm.aget 7 broken_end.db ≡ some row)
        × (row.status ≡ "queued"))
unfolding execute get_template to_template resolve_providers listed_channel save try_candidates
    read_attempt mark_queued xpto_provider render substitute id_start get
execute_breaks_example =
    execute_breaks table_orm table_laws counter with_xpto request start welcome with_xpto
      broken_end.db (attribute_error "external_id") broken_end.outside refl refl refl
      (record {
        before = down ∷ [];
        provider = xpto;
        later = backup ∷ [];
        between = 9;
        order = refl;
        refusals = ((_, refl), refl);
        breaks = refl;
        left = refl;
      })
