-- ===== src/Infrastructure/BuiltIn/Executes.antt =====
-- The use case with the providers that the container builds from the environment.
use mathlib.Core.List.{Memᴰ}
use notifyfork.Common.{
  ℕ, String, ◌≡◌, ◌⊎◌, refl, some, List, [], All-map, All-filter, mem-All, filter, filter-of_mem,
}
use notifyfork.Python.Dict.{Dict, get}
use notifyfork.Python.Json.{Json}
use notifyfork.Python.Result.{ok}
use notifyfork.Python.Template.{Str}
use notifyfork.Domain.Template.{NotificationTemplate}
use notifyfork.Application.Dto.{SendNotificationDto}
use notifyfork.Application.Interfaces.Provider.{Provider, Host}
use notifyfork.Application.Interfaces.Database.{Orm}
use notifyfork.Application.UseCase.{Sys, execute}
use notifyfork.Application.UseCase.Candidates.{HasSupports, serves, resolve_providers_iff}
use notifyfork.Application.UseCase.Outcome.{IsWhole}
use notifyfork.Application.UseCase.Guards.{WritesSucceed, execute_returns}
use notifyfork.Application.UseCase.Rows.{new_id}
use notifyfork.Infrastructure.Repository.{get_template}
use notifyfork.Infrastructure.Container.{build_providers}
use notifyfork.Infrastructure.BuiltIn.{Vendors, construct}
use notifyfork.Infrastructure.BuiltIn.Laws.{IsBuiltIn, generic_channels, environment_channels}

module _ {V DB X App : Type 0} ⦃code : Str ℕ⦄ ⦃j : Str Json⦄ ⦃s : Str V⦄ (vendors : Vendors V X App)
    (orm : Orm V DB) (host : Host X) where
  -- Where no class is registered from outside, and the database accepts every write, a request on
  -- an active template for a channel of one of the providers that the container builds from the
  -- environment returns the new id: whatever the vendors answer or raise, the use case does not.
  pub environment_executes :
      (env : Dict String) (ps : List (Provider V X)) (p : Provider V X)
      (dto : SendNotificationDto V) (template : NotificationTemplate) (w : Sys DB X)
      → build_providers (λ p. p.name) (construct vendors) env [] ≡ ok ps
      → Memᴰ p ps
      → ((dto.channel ≡ p.name) ⊎ (get p.name generic_channels ≡ some dto.channel))
      → get_template orm dto.template_id w.db ≡ ok (some template)
      → WritesSucceed orm host ps dto w
      → (w' : Sys DB X) × (execute orm host ps dto w ≡ (ok (new_id orm host dto w), w'))
  environment_executes env ps p dto template w h m channel read writes =
      let built = (environment_channels vendors env dto.channel ps h).0 in
      let candidates = filter (serves dto.channel) ps in
      let served = ((mem-All IsBuiltIn ps p built m).channels dto.channel).1 channel in
      let resolved = ((resolve_providers_iff ps dto.channel candidates).0).1 (
        All-map IsBuiltIn HasSupports (λ q b. b.has) ps built,
        filter-of_mem (serves dto.channel) ps p m served,
        refl,
      ) in
      execute_returns orm host ps dto w template candidates read resolved writes (
        All-filter (IsWhole dto.recipient template dto.context) (serves dto.channel) ps (
          All-map IsBuiltIn (IsWhole dto.recipient template dto.context)
            (λ q b. b.whole dto.recipient template dto.context) ps built))
