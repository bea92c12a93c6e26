-- ===== src/Application/UseCase/Guards.antt =====
-- When the use case raises before it does anything, and that it returns otherwise.
use notifyfork.Common.{All, ◌⊎◌, inl, inr, ℕ, ◌≡◌, ap, ◌∙◌, none, some, List}
use notifyfork.Python.Result.{Error, template_not_found, ok, err}
use notifyfork.Domain.Template.{NotificationTemplate}
use notifyfork.Domain.Notification.{Notification}
use notifyfork.Application.Dto.{SendNotificationDto}
use notifyfork.Application.Interfaces.Provider.{Provider, Host}
use notifyfork.Application.Interfaces.Database.{Defaults, Orm}
use notifyfork.Infrastructure.Repository.{save, get_template, defaults_of}
use notifyfork.Application.UseCase.{
  Sys, resolve_providers, find_template, require_template, store, save_now, create, deliver, run,
  execute, Verdict, unknown_error, after_loop,
}
use notifyfork.Application.UseCase.Outcome.{IsWhole, loop_returns}
use notifyfork.Application.UseCase.Rows.{new_id, started, as_queued, as_settled, tried}
use notifyfork.Application.UseCase.Settled.{id-conclude}

module _ {V DB X : Type 0} (orm : Orm V DB) (host : Host X) (providers : List (Provider V X))
    (dto : SendNotificationDto V) (s : Sys DB X) where
  -- The database accepts every write.
  abbrev pub WritesSucceed : Type 0
  WritesSucceed =
      (i : ℕ) (d : Defaults V) (now : ℕ) (db : DB)
      → (db' : DB) × (orm.aupdate_or_create i d now db ≡ ok db')

  -- A guard of the use case fails, with the error `e`.
  abbrev pub Blocked : Error → Type 0
  Blocked e =
      ((get_template orm dto.template_id s.db ≡ ok none) × (e ≡ template_not_found dto.template_id))
      ⊎ ((template : NotificationTemplate) × (get_template orm dto.template_id s.db
            ≡ ok (some template))
          × (resolve_providers providers dto.channel ≡ err e))

  -- Without an active template, or without a candidate for the channel, the use case raises the
  -- error of that guard, and leaves the database and the outside as they were: no notification is
  -- created and no provider is called.
  pub execute-Blocked : (e : Error) → Blocked e → execute orm host providers dto s ≡ (err e, s)
  unfolding execute find_template require_template
  execute-Blocked e (inl (missing, same)) = rw (missing, execute, same)
  execute-Blocked e (inr (template, found, failed)) = rw (found, failed, execute)

  run_of_saves :
      (template : NotificationTemplate) (candidates : List (Provider V X)) (db db' : DB)
      (verdict : Verdict) (x : X)
      → save orm (as_queued orm host dto s) (host.now (started orm host dto s)) s.db ≡ ok db
      → tried orm host dto s template candidates ≡ (ok verdict, x)
      → save orm (as_settled orm host dto s verdict x) (host.now x) db ≡ ok db'
      → run orm host dto template candidates s
        ≡ (ok (as_settled orm host dto s verdict x).id, record { db = db'; outside = x })
  unfolding run save_now create deliver
  run_of_saves template candidates db db' verdict x first looped second =
      rw (first, store, looped, after_loop, second, store)

  saves :
      (n : Notification V) (now : ℕ) (db : DB)
      → WritesSucceed
      → (db' : DB) × (save orm n now db ≡ ok db')
  unfolding save
  saves n now db writes = writes n.id (defaults_of n) now db

  run_returns :
      (template : NotificationTemplate) (candidates : List (Provider V X))
      → WritesSucceed
      → All (IsWhole dto.recipient template dto.context) candidates
      → (s' : Sys DB X) × (run orm host dto template candidates s
          ≡ (ok (new_id orm host dto s), s'))
  run_returns template candidates writes whole =
      let (verdict, x, looped) =
        loop_returns dto.recipient template dto.context unknown_error candidates
          (started orm host dto s) whole in
      let (db, first) =
        saves (as_queued orm host dto s) (host.now (started orm host dto s)) s.db writes in
      let (db', second) = saves (as_settled orm host dto s verdict x) (host.now x) db writes in
      let same =
        id-conclude dto (new_id orm host dto s) (host.now (started orm host dto s)) verdict
          (host.now x) in
      (
        record { db = db'; outside = x },
        run_of_saves template candidates db db' verdict x first looped second
            ∙ ap (λ k. (ok k, record { db = db'; outside = x })) same,
      )

  -- With an active template, a database that takes the writes, and candidates whose results have
  -- the attributes of a ProviderResult, the use case returns the id of the new notification,
  -- whatever those results say and whatever the candidates raise.
  pub execute_returns :
      (template : NotificationTemplate) (candidates : List (Provider V X))
      → get_template orm dto.template_id s.db ≡ ok (some template)
      → resolve_providers providers dto.channel ≡ ok candidates
      → WritesSucceed
      → All (IsWhole dto.recipient template dto.context) candidates
      → (s' : Sys DB X) × (execute orm host providers dto s ≡ (ok (new_id orm host dto s), s'))
  unfolding execute find_template require_template
  execute_returns template candidates found resolved writes whole =
      let (s', done) = run_returns template candidates writes whole in
      (s', rw (found, resolved, execute) done)
