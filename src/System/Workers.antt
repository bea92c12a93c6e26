-- ===== src/System/Workers.antt =====
-- The two tasks access by access: use_cases/send_notification.py and api/webhooks/tasks.py as several
-- workers run them at the same time. A worker's task is at a `Stage`; what it does from there up to
-- its next access of the database or of a provider is one `advance`.
pub mod Alone
pub mod Scene
pub mod Holds
pub mod Writes
pub mod Advances
pub mod Works
pub mod Effects
pub mod Interleaved
pub mod Quiet
pub mod Recorded
pub mod Kept
use notifyfork.Common.{ℕ, zero, suc, String, Option, none, some, List, [], ◌∷◌}
use notifyfork.Python.Result.{Error, Result, ok, err, ◌>>=◌}
use notifyfork.Domain.Template.{NotificationTemplate}
use notifyfork.Domain.Notification.{Notification, mark_queued}
use notifyfork.Application.Dto.{Payload, SendNotificationDto, make_dto}
use notifyfork.Application.Interfaces.Provider.{Attempt, Provider, Host}
use notifyfork.Application.Interfaces.Database.{Orm}
use notifyfork.Application.UseCase.{
  Sys, accepted, refused, Reading, delivery, failure, broken, read_attempt, unknown_error, conclude,
  resolve_providers, require_template, new_notification,
}
use notifyfork.Infrastructure.Repository.{save, get_template}
use notifyfork.Infrastructure.Tasks.{Task, retry, finished}
use notifyfork.Webhooks.Delivery.{Update, apply_update}

-- What the guards of the use case give.
pub record Ready (V X : Type 0) : Type 0 where
  pub dto : SendNotificationDto V
  pub template : NotificationTemplate
  pub candidates : List (Provider V X)

-- Where a task is: before the first `save`, in the loop with the last error and the candidates that
-- are left, before the second `save`, or, in a delivery task, after it has read the notification.
pub data Stage (V X : Type 0) : Type 0 where
  queuing : Ready V X → Notification V → Stage V X
  trying : Ready V X → String → List (Provider V X) → Notification V → Stage V X
  settling : Notification V → Stage V X
  closing : Update → Notification V → Stage V X

-- What the worker has after an advance: its task at a stage, or its end.
pub data Progress (V X : Type 0) : Type 0 where
  going : Stage V X → Progress V X
  dispatched : Task ℕ → Progress V X
  processed : Task String → Progress V X

module _ {V X : Type 0} (host : Host X) where
  -- What the loop does after the call of a provider, which left the outside as `x`.
  unfoldable pub after_call :
      Ready V X → String → List (Provider V X) → Notification V → X → Reading → Progress V X
  unfolding conclude
  after_call ready name ps n x (delivery message_id) =
      going (settling (conclude (accepted name message_id) (host.now x) n))
  after_call ready name ps n x (failure reason) = going (trying ready reason ps n)
  after_call ready name ps n x (broken e) = dispatched (retry e)

module _ {V DB X : Type 0} (orm : Orm V DB) (host : Host X) where
  -- `Container.send_notification_use_case()`, the validation and the guards, up to the new entity.
  unfoldable pub prepare : Result (List (Provider V X)) → Payload V → DB → Result (Ready V X)
  unfolding require_template
  prepare providers payload db = do
    dto ← make_dto payload
    registered ← providers
    found ← get_template orm dto.template_id db
    template ← require_template dto.template_id found
    candidates ← resolve_providers registered dto.channel
    ok (record { dto = dto; template = template; candidates = candidates })

  unfoldable pub begin_ready : Result (Ready V X) → Sys DB X → Progress V X × Sys DB X
  begin_ready (err e) s = (dispatched (retry e), s)
  begin_ready (ok ready) s =
      let (id, x) = host.uuid4 s.outside in
      (
        going (queuing ready (mark_queued (new_notification ready.dto id (host.now x)))),
        record s { outside = x },
      )

  -- `dispatch_notification`, up to the first `save`.
  unfoldable pub begin :
      Result (List (Provider V X)) → Payload V → Sys DB X → Progress V X × Sys DB X
  unfolding prepare begin_ready
  begin providers payload s = begin_ready (prepare providers payload s.db) s

  -- After a `save`: the task goes on as `p`, or asks for a retry.
  unfoldable pub after_save : Progress V X → Result DB → Sys DB X → Progress V X × Sys DB X
  after_save p (ok db) s = (p, record s { db = db })
  after_save p (err e) s = (dispatched (retry e), s)

  unfoldable pub advance : Stage V X → Sys DB X → Progress V X × Sys DB X
  unfolding after_save after_call conclude apply_update
  advance (queuing ready n) s =
      after_save (going (trying ready unknown_error ready.candidates n))
        (save orm n (host.now s.outside) s.db) s
  advance (trying ready error [] n) s =
      (going (settling (conclude (refused error) (host.now s.outside) n)), s)
  advance (trying ready error (p ∷ ps) n) s =
      let (attempt, x) =
        p.send_with_template ready.dto.recipient ready.template ready.dto.context s.outside in
      (after_call host ready p.name ps n x (read_attempt attempt), record s { outside = x })
  advance (settling n) s =
      after_save (dispatched (finished n.id)) (save orm n (host.now s.outside) s.db) s
  advance (closing u n) s =
      let (r, s') = apply_update orm host u (ok (some n)) s in (processed r, s')

  -- A task with the worker to itself, for so many advances.
  unfoldable pub alone : ℕ → Progress V X × Sys DB X → Progress V X × Sys DB X
  unfolding advance
  alone zero now = now
  alone (suc k) (going stage, s) = alone k (advance stage s)
  alone (suc k) (dispatched r, s) = (dispatched r, s)
  alone (suc k) (processed r, s) = (processed r, s)
