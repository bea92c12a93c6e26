-- ===== src/Examples/Sends.antt =====
-- The theorems on sending, at concrete inputs.
use mathlib.Core.List.{Memᴰ}
use notifyfork.Common.{
  ℕ, ◌≤◌, ◌≡◌, ◌≢◌, ◌↔◌, refl, String, none, some, [], ◌∷◌, All, filter, eq_iff,
}
use notifyfork.Python.Int.{pos}
use notifyfork.Python.Result.{no_provider_available, ok, err}
use notifyfork.Python.Text.{strip, is_space}
use notifyfork.Domain.Notification.{mark_queued}
use notifyfork.Application.Dto.{Payload, make_dto}
use notifyfork.Application.Dto.Laws.{dto_of, make_dto-send}
use notifyfork.Application.Interfaces.Provider.{Provider, listed_channel}
use notifyfork.Application.UseCase.{Sys, resolve_providers, try_candidates, execute}
use notifyfork.Application.UseCase.Candidates.{
  HasSupports, SomeLack, lacking, serves, resolve_providers_iff,
}
use notifyfork.Application.UseCase.Settled.{Settles, execute-Settles}
use notifyfork.Infrastructure.Repository.{save, get_template, to_template}
use notifyfork.Infrastructure.Tasks.Sweep.{due, sweeps, times, sweeps_repeat}
use notifyfork.Infrastructure.Container.{ordered}
use notifyfork.Infrastructure.Container.Order.{mem-ordered_iff}
use notifyfork.Infrastructure.Container.Cache.{registers, reads, seen, rebuilt, seen_lem}
use notifyfork.Examples.Table.{Table, table_orm, table_laws}
use notifyfork.Examples.Data.{
  counter, down, backup, providers_of_sms, ana, request, payload, stored, start, text_str,
  json_text,
}

abbrev ended : Sys (Table String) ℕ
ended = (execute table_orm counter providers_of_sms request start).1

execute-Settles_example : Settles table_orm counter providers_of_sms request start 7 ended
unfolding execute get_template to_template resolve_providers listed_channel save try_candidates
    mark_queued
execute-Settles_example =
    execute-Settles table_orm counter table_laws providers_of_sms request start 7 ended refl refl

resolve_providers_iff_example :
    ((resolve_providers providers_of_sms "sms" ≡ ok providers_of_sms) ↔ (
      All HasSupports providers_of_sms
      × (filter (serves "sms") providers_of_sms ≢ [])
      × (providers_of_sms ≡ filter (serves "sms") providers_of_sms)))
    × ((resolve_providers providers_of_sms "sms" ≡ err (no_provider_available "sms"))
        ↔ (All HasSupports providers_of_sms × (filter (serves "sms") providers_of_sms ≡ [])))
    × ((resolve_providers providers_of_sms "sms" ≡ lacking) ↔ SomeLack providers_of_sms)
resolve_providers_iff_example = resolve_providers_iff providers_of_sms "sms" providers_of_sms

sweeps_repeat_example :
    sweeps table_orm 2 (record { db = stored; queue = [] })
    ≡ record { db = stored; queue = times table_orm 2 (due table_orm stored) }
sweeps_repeat_example = sweeps_repeat table_orm table_laws 2 (record { db = stored; queue = [] })

make_dto-send_example :
    (n : ℕ) × (1 ≤ n)
    × (n ≤ 5)
    × (pos 3 ≡ pos n)
    × ("+351" ≡ strip " +351 ")
    × (make_dto payload ≡ ok (dto_of payload n))
unfolding notifyfork.Application.Dto.send strip is_space
make_dto-send_example =
    make_dto-send " +351 " "sms" "welcome" "welcome" (some ana) (pos 3) payload refl

mem-ordered_example :
    Memᴰ down (ordered (λ p. p.name) (some "backup_sms, twilio_sms") providers_of_sms)
    ↔ Memᴰ down providers_of_sms
mem-ordered_example =
    mem-ordered_iff (λ (p : Provider String ℕ). p.name) (some "backup_sms, twilio_sms")
      providers_of_sms down (((λ e. cc ((eq_iff "backup_sms" "twilio_sms").1 e)), tt), (tt, tt))

seen_example :
    seen
      (λ (p : Provider String ℕ). p.name)
      (λ config. ok down)
      []
      (reads ∷ registers backup ∷ reads ∷ reads ∷ [])
      (record { extra = []; cached = none })
    ≡ rebuilt
        (λ (p : Provider String ℕ). p.name)
        (λ config. ok down)
        []
        (reads ∷ registers backup ∷ reads ∷ reads ∷ [])
        []
seen_example =
    seen_lem (λ (p : Provider String ℕ). p.name) (λ config. ok down) []
      (reads ∷ registers backup ∷ reads ∷ reads ∷ []) []
