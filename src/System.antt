-- ===== src/System.antt =====
-- The whole program: a database, the outside, and the two queues that the broker keeps. Tasks and
-- requests take turns in any order; each runs as one step.
pub mod Rows
pub mod Created
pub mod Updates
pub mod Queue
pub mod Sound
pub mod Invariant
pub mod Eventually
pub mod Swept
pub mod Workers
use notifyfork.Common.{String, ℕ, ◌≡◌, Bool, Option, none, List, [], ◌∷◌, ◌++◌}
use notifyfork.Python.Dict.{Dict}
use notifyfork.Python.Int.{ℤ}
use notifyfork.Python.Json.{Json}
use notifyfork.Python.Result.{Error, Result, ok, err}
use notifyfork.Python.Template.{Str}
use notifyfork.Application.Dto.{Payload, send}
use notifyfork.Application.Interfaces.Provider.{Provider, Host}
use notifyfork.Application.Interfaces.Database.{Orm}
use notifyfork.Application.UseCase.{Sys}
use notifyfork.Infrastructure.Tasks.{
  Task, finished, retry, dispatch_notification, Shared, retry_pending_notifications,
}
use notifyfork.Webhooks.Delivery.{UuidText, Update, process_delivery_update}
use notifyfork.Webhooks.Answer.{Answer}
use notifyfork.Webhooks.Twilio.{post_status}
use notifyfork.Webhooks.SendGrid.{post_events}
use notifyfork.Webhooks.Resend.{post_event}
use notifyfork.Webhooks.Twilio
use notifyfork.Webhooks.SendGrid
use notifyfork.Webhooks.Resend

pub record World (V DB X : Type 0) : Type 0 where
  pub sys : Sys DB X
  pub jobs : List (Payload V)
  pub updates : List Update

-- What the broker keeps of a queue from which `a` is taken: a task that finishes is gone; one that
-- asks for a retry comes again, until Celery's `max_retries` are used up.
pub data Requeues {A B : Type 0} (before : List A) (a : A) (after : List A)
    : Task B → List A → Type 0 where
  acknowledged : {b : B} → Requeues before a after (finished b) (before ++ after)
  rescheduled : {e : Error} → Requeues before a after (retry e) (before ++ after ++ a ∷ [])
  given_up : {e : Error} → Requeues before a after (retry e) (before ++ after)

-- `uuid4` gives an id that no row has.
abbrev pub IsFreshId : {V DB X : Type 0} → Orm V DB → Host X → Sys DB X → Type 0
IsFreshId orm host s = orm.aget (host.uuid4 s.outside).0 s.db ≡ none

module _ ⦃j : Str Json⦄ {V DB X : Type 0} (orm : Orm V DB) (host : Host X) (uuids : UuidText)
    {Key : Type 0} (b64decode : String → Result Key) (digest : Key → String → String) where
  pub data Step (w : World V DB X) : World V DB X → Type 0 where
    -- A caller's `send` puts a payload on the queue.
    submit :
        (recipient channel template_id notification_type : String) (context : Option (Dict V))
        (max_attempts : ℤ) (p : Payload V)
        → send recipient channel template_id notification_type context max_attempts ≡ ok p
        → Step w (record w { jobs = w.jobs ++ p ∷ [] })
    -- A worker takes a payload, with the providers that the container has then.
    dispatch :
        (before after jobs : List (Payload V)) (p : Payload V)
        (providers : Result (List (Provider V X)))
        → w.jobs ≡ before ++ p ∷ after
        → IsFreshId orm host w.sys
        → Requeues before p after (dispatch_notification orm host providers p w.sys).0 jobs
        → Step w
            (record w { sys = (dispatch_notification orm host providers p w.sys).1; jobs = jobs })
    -- The periodic sweep.
    sweep : Step w (
        let s = (retry_pending_notifications orm (record { db = w.sys.db; queue = w.jobs })).1 in
        record w { sys = record w.sys { db = s.db }; jobs = s.queue })
    -- A POST to each of the webhooks, signed or not.
    twilio :
        (validate : String → String → Dict String → String → Bool) (token : Option String)
        (request : Twilio.Request)
        → Step w (record w {
          updates = (post_status orm uuids validate token request w.sys.db w.updates).1;
        })
    sendgrid :
        (verify : String → String → String → String → Result Bool) (key : Option String)
        (request : SendGrid.Request)
        → Step w
            (record w { updates = (post_events orm uuids verify key request w.sys.db w.updates).1 })
    resend :
        (secret : Option String) (request : Resend.Request)
        → Step w (record w {
          updates = (post_event orm uuids b64decode digest secret request w.sys.db w.updates).1;
        })
    -- A worker takes an update.
    update :
        (before after updates : List Update) (u : Update)
        → w.updates ≡ before ++ u ∷ after
        → Requeues before u after (process_delivery_update orm host uuids u w.sys).0 updates
        → Step w (record w {
          sys = (process_delivery_update orm host uuids u w.sys).1;
          updates = updates;
        })
    -- The outside changes by itself: time passes, vendors act.
    elsewhere : (x : X) → Step w (record w { sys = record { db = w.sys.db; outside = x } })

  -- Any number of steps.
  pub data Reach (w : World V DB X) : World V DB X → Type 0 where
    here : Reach w w
    next : {t u : World V DB X} → Reach w t → Step t u → Reach w u
