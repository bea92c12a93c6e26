-- ===== src/Infrastructure/Tasks.antt =====
-- queue/tasks.py. `delay` puts the payload of a task on the broker's queue, which is taken to accept
-- it; a task that raises `self.retry(exc=exc)` is rescheduled by Celery, so the task ends in a `Task`.
pub mod Sweep
pub mod Dispatch
use notifyfork.Common.{
  ℕ, ◌+◌, String, Bool, true, false, Option, none, some, List, [], ◌∷◌, ◌++◌, if◌then◌else◌,
}
use notifyfork.Python.Result.{Error, Result, ok, err}
use notifyfork.Python.Exec.{Exec}
use notifyfork.Domain.Notification.{Notification, can_retry}
use notifyfork.Application.Dto.{Payload, SendNotificationDto, make_dto}
use notifyfork.Application.Interfaces.Provider.{Provider, Host}
use notifyfork.Application.Interfaces.Database.{Orm}
use notifyfork.Application.UseCase.{Sys, execute}
use notifyfork.Infrastructure.Repository.{get_pending_retries}

-- How a bound task ends: its result, or `raise self.retry(exc=exc)`.
pub data Task (A : Type 0) : Type 0 where
  finished : A → Task A
  retry : Error → Task A

unfoldable pub task_of : {A : Type 0} → Result A → Task A
task_of (ok a) = finished a
task_of (err e) = retry e

module _ {V DB X : Type 0} (orm : Orm V DB) (host : Host X) where
  -- `Container.send_notification_use_case().execute(dto)`: the list of providers is what
  -- `Container.providers` gives, which may raise.
  unfoldable pub use_case : Result (List (Provider V X)) → SendNotificationDto V → Exec (Sys DB X) ℕ
  use_case (err e) dto s = (err e, s)
  use_case (ok providers) dto s = execute orm host providers dto s

  -- The body of the `try` of `dispatch_notification`.
  unfoldable pub dispatch_body : Result (List (Provider V X)) → Payload V → Exec (Sys DB X) ℕ
  unfolding use_case
  dispatch_body providers payload s = elim (make_dto payload) [
    | err e ↦ (err e, s)
    | ok dto ↦ use_case providers dto s
  ]

  -- `dispatch_notification`: the id of the notification is the result's `notification_id`.
  unfoldable pub dispatch_notification :
      Result (List (Provider V X)) → Payload V → Sys DB X → Task ℕ × Sys DB X
  unfolding dispatch_body task_of
  dispatch_notification providers payload s =
      let (r, s') = dispatch_body providers payload s in (task_of r, s')

module _ {V : Type 0} where
  -- The payload of the sweep has no `max_attempts`.
  unfoldable pub retry_payload : Notification V → Payload V
  retry_payload n = record {
    recipient = n.recipient;
    channel = n.channel;
    notification_type = n.notification_type;
    template_id = n.template_id;
    context = some n.context;
    max_attempts = none;
  }

  -- The loop of `retry_pending_notifications`: the queue and the count after it.
  unfoldable pub requeue : List (Notification V) → List (Payload V) → ℕ → List (Payload V) × ℕ
  unfolding retry_payload can_retry
  requeue [] queue queued = (queue, queued)
  requeue (n ∷ ns) queue queued =
      let (queue', queued') =
        if can_retry n then (queue ++ retry_payload n ∷ [], queued + 1) else (queue, queued) in
      requeue ns queue' queued'

-- What the sweep reads and writes: the database, and the queue of `dispatch_notification`.
pub record Shared (V DB : Type 0) : Type 0 where
  pub db : DB
  pub queue : List (Payload V)

module _ {V DB : Type 0} where
  unfoldable pub requeue_all : Result (List (Notification V)) → Exec (Shared V DB) ℕ
  unfolding requeue
  requeue_all (err e) s = (err e, s)
  requeue_all (ok pending) s =
      let (queue, queued) = requeue pending s.queue 0 in (ok queued, record s { queue = queue })

module _ {V DB : Type 0} (orm : Orm V DB) where
  -- `retry_pending_notifications`: the result's `retried`, and the state after it.
  unfoldable pub retry_pending_notifications : Exec (Shared V DB) ℕ
  unfolding requeue_all
  retry_pending_notifications s = requeue_all (get_pending_retries orm 100 s.db) s
