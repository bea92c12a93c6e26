-- ===== src/Application/UseCase/Broken.antt =====
-- What a result without the attributes of a ProviderResult does to the use case.
use notifyfork.Common.{String, ◌≡◌, refl, ap, ◌∙◌, some, List, [], ◌∷◌, ◌++◌}
use notifyfork.Python.Dict.{Dict}
use notifyfork.Python.Result.{Error, ok, err}
use notifyfork.Domain.Template.{NotificationTemplate}
use notifyfork.Domain.Notification.{mark_queued}
use notifyfork.Domain.Notification.Status.{status_value}
use notifyfork.Application.Dto.{SendNotificationDto}
use notifyfork.Application.Interfaces.Provider.{Provider, Host}
use notifyfork.Application.Interfaces.Database.{NotificationRow, Orm, OrmLaws}
use notifyfork.Application.UseCase.{
  Sys, broken, read_attempt, try_candidates, resolve_providers, find_template, require_template,
  unknown_error, new_notification, store, save_now, create, after_loop, deliver, run, execute,
}
use notifyfork.Application.UseCase.Outcome.{AllRefuse, attempt, BrokenBy}
use notifyfork.Application.UseCase.Rows.{new_id, started, as_queued, tried}
use notifyfork.Application.UseCase.Settled.{id-mark_queued}
use notifyfork.Infrastructure.Repository.{save, get_template, defaults_of}
use notifyfork.Infrastructure.Repository.Laws.{aget-save_at}

module _ {V X : Type 0} (recipient : String) (template : NotificationTemplate)
    (context : Dict V) where
  loop_breaks :
      (first : String) (before : List (Provider V X)) (p : Provider V X)
      (later : List (Provider V X)) (x y : X) (e : Error)
      → AllRefuse recipient template context before x y
      → read_attempt (attempt recipient template context p y).0 ≡ broken e
      → try_candidates recipient template context first (before ++ p ∷ later) x
        ≡ (err e, (attempt recipient template context p y).1)
  unfolding try_candidates
  loop_breaks first [] p later x y e same odd =
      let here = rw (← same) at odd in
      rw (here, try_candidates) (ap (λ z. (err e, (attempt recipient template context p z).1)) same)
  loop_breaks first (q ∷ before) p later x y e ((reason, why), rest) odd =
      rw (why, try_candidates) (loop_breaks reason before p later _ y e rest odd)

module _ {V DB X : Type 0} (orm : Orm V DB) (laws : OrmLaws orm) (host : Host X)
    (providers : List (Provider V X)) (dto : SendNotificationDto V) (s : Sys DB X) where
  tried-BrokenBy :
      (template : NotificationTemplate) (candidates : List (Provider V X)) (e : Error) (x : X)
      → BrokenBy dto.recipient template dto.context candidates (started orm host dto s) e x
      → tried orm host dto s template candidates ≡ (err e, x)
  tried-BrokenBy template candidates e x b = rw b.order (
      loop_breaks dto.recipient template dto.context unknown_error b.before b.provider b.later
        (started orm host dto s) b.between e b.refusals b.breaks
      ∙ ap (λ y. (err e, y)) b.left)

  run_breaks :
      (template : NotificationTemplate) (candidates : List (Provider V X)) (db : DB) (e : Error)
      (x : X)
      → save orm (as_queued orm host dto s) (host.now (started orm host dto s)) s.db ≡ ok db
      → tried orm host dto s template candidates ≡ (err e, x)
      → run orm host dto template candidates s ≡ (err e, record { db = db; outside = x })
  unfolding run save_now create deliver
  run_breaks template candidates db e x saved looped = rw (saved, store, looped, after_loop)

  queued_status :
      (db : DB)
      → save orm (as_queued orm host dto s) (host.now (started orm host dto s)) s.db ≡ ok db
      → (row : NotificationRow V) × (orm.aget (new_id orm host dto s) db ≡ some row)
        × (row.status ≡ "queued")
  unfolding defaults_of new_notification mark_queued status_value
  queued_status db saved =
      let start = host.now (started orm host dto s) in
      let (stored, others) =
        aget-save_at orm laws (as_queued orm host dto s) (new_id orm host dto s) start s.db db
          (id-mark_queued dto (new_id orm host dto s) start) saved in
      (_, stored, refl)

  -- If a candidate that the loop comes to returns a result without an attribute that the loop reads,
  -- the use case raises: the message may be out, the candidates after it are not called, and the row
  -- of the new notification stays QUEUED.
  pub execute_breaks :
      (template : NotificationTemplate) (candidates : List (Provider V X)) (db : DB) (e : Error)
      (x : X)
      → get_template orm dto.template_id s.db ≡ ok (some template)
      → resolve_providers providers dto.channel ≡ ok candidates
      → save orm (as_queued orm host dto s) (host.now (started orm host dto s)) s.db ≡ ok db
      → BrokenBy dto.recipient template dto.context candidates (started orm host dto s) e x
      → (execute orm host providers dto s ≡ (err e, record { db = db; outside = x }))
        × ((row : NotificationRow V) × (orm.aget (new_id orm host dto s) db ≡ some row)
            × (row.status ≡ "queued"))
  unfolding execute find_template require_template
  execute_breaks template candidates db e x found resolved saved b = (
    rw (found, resolved, execute)
        (run_breaks template candidates db e x saved (tried-BrokenBy template candidates e x b)),
    queued_status db saved,
  )
