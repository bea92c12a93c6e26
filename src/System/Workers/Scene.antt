-- ===== src/System/Workers/Scene.antt =====
-- Several workers on one database, one outside and one queue of updates. The queue of dispatch tasks
-- is left out: any payload may start one at any time, and so are `send` and the sweep, which write
-- nothing but that queue. Each move is one access, or a webhook's request.
use mathlib.Core.List.{Memᴰ}
use notifyfork.Common.{
  ℕ, ◌≡◌, ◌≢◌, String, Bool, Option, none, some, List, ◌∷◌, ◌++◌, nat_eq, if◌then◌else◌,
}
use notifyfork.Python.Dict.{Dict}
use notifyfork.Python.Json.{Json}
use notifyfork.Python.Result.{Result, ok}
use notifyfork.Python.Template.{Str}
use notifyfork.Domain.Notification.{Notification}
use notifyfork.Application.Dto.{Payload}
use notifyfork.Application.Interfaces.Provider.{Provider, Host}
use notifyfork.Application.Interfaces.Database.{Orm}
use notifyfork.Application.UseCase.{Sys}
use notifyfork.Infrastructure.Repository.{get_by_id}
use notifyfork.Webhooks.Delivery.{UuidText, Update}
use notifyfork.Webhooks.Twilio.{post_status}
use notifyfork.Webhooks.SendGrid.{post_events}
use notifyfork.Webhooks.Resend.{post_event}
use notifyfork.Webhooks.Twilio
use notifyfork.Webhooks.SendGrid
use notifyfork.Webhooks.Resend
use notifyfork.System.{IsFreshId}
use notifyfork.System.Workers.{
  Stage, queuing, trying, settling, closing, Progress, going, dispatched, processed, begin, advance,
}

module _ {V X : Type 0} where
  -- The notification that a dispatch task creates, and no other task writes.
  abbrev pub owned : Stage V X → Option ℕ
  owned (queuing ready n) = some n.id
  owned (trying ready error ps n) = some n.id
  owned (settling n) = some n.id
  owned (closing u n) = none

  abbrev pub stage_of : Progress V X → Option (Stage V X)
  stage_of (going stage) = some stage
  stage_of (dispatched r) = none
  stage_of (processed r) = none

  -- What the workers do, with `stage` for the worker `w`.
  abbrev pub put_worker : ℕ → Option (Stage V X) → (ℕ → Option (Stage V X)) → ℕ → Option (Stage V X)
  put_worker w stage workers v = if nat_eq v w then stage else workers v

pub record Scene (V DB X : Type 0) : Type 0 where
  pub sys : Sys DB X
  pub workers : ℕ → Option (Stage V X)
  pub updates : List Update

module _ ⦃j : Str Json⦄ {V DB X : Type 0} (orm : Orm V DB) (host : Host X) (uuids : UuidText)
    {Key : Type 0} (b64decode : String → Result Key) (digest : Key → String → String) where
  pub data Move (c : Scene V DB X) : Scene V DB X → Type 0 where
    -- An idle worker starts a dispatch task, and creates a notification with a fresh id.
    start :
        (w : ℕ) (providers : Result (List (Provider V X))) (payload : Payload V)
        → c.workers w ≡ none
        → IsFreshId orm host c.sys
        → ((v : ℕ) (stage : Stage V X)
            → c.workers v ≡ some stage
            → owned stage ≢ some (host.uuid4 c.sys.outside).0)
        → Move c (record c {
          sys = (begin orm host providers payload c.sys).1;
          workers = put_worker w (stage_of (begin orm host providers payload c.sys).0) c.workers;
        })
    -- An idle worker takes an update and reads its notification; the broker keeps the update until
    -- it leaves. A task that finds no notification ends without a trace.
    read :
        (w : ℕ) (u : Update) (uid : ℕ) (n : Notification V)
        → c.workers w ≡ none
        → Memᴰ u c.updates
        → uuids.of_text u.notification_id ≡ some uid
        → get_by_id orm uid c.sys.db ≡ ok (some n)
        → Move c (record c { workers = put_worker w (some (closing u n)) c.workers })
    -- A worker goes on with its task.
    go_on :
        (w : ℕ) (stage : Stage V X)
        → c.workers w ≡ some stage
        → Move c (record c {
          sys = (advance orm host stage c.sys).1;
          workers = put_worker w (stage_of (advance orm host stage c.sys).0) c.workers;
        })
    -- A worker dies, wherever its task is.
    die : (w : ℕ) → Move c (record c { workers = put_worker w none c.workers })
    -- An update leaves the queue: its task ended, or was given up.
    leave :
        (before after : List Update) (u : Update)
        → c.updates ≡ before ++ u ∷ after
        → Move c (record c { updates = before ++ after })
    -- A POST to each of the webhooks, signed or not.
    twilio :
        (validate : String → String → Dict String → String → Bool) (token : Option String)
        (request : Twilio.Request)
        → Move c (record c {
          updates = (post_status orm uuids validate token request c.sys.db c.updates).1;
        })
    sendgrid :
        (verify : String → String → String → String → Result Bool) (key : Option String)
        (request : SendGrid.Request)
        → Move c
            (record c { updates = (post_events orm uuids verify key request c.sys.db c.updates).1 })
    resend :
        (secret : Option String) (request : Resend.Request)
        → Move c (record c {
          updates = (post_event orm uuids b64decode digest secret request c.sys.db c.updates).1;
        })
    -- The outside changes by itself: time passes, vendors act.
    elsewhere : (x : X) → Move c (record c { sys = record { db = c.sys.db; outside = x } })

  -- Any number of moves.
  pub data Moves (c : Scene V DB X) : Scene V DB X → Type 0 where
    still : Moves c c
    then : {d e : Scene V DB X} → Moves c d → Move d e → Moves c e
