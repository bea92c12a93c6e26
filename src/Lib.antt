-- ===== src/Lib.antt =====
-- NotifyFork: a notification gateway for Django (notifyfork/).
--
-- A caller's `send` (client.py) puts a payload on the queue. A worker runs `dispatch_notification`
-- (core/infrastructure/queue/tasks.py), which validates the payload (core/application/dtos), takes
-- the list of providers from the container (core/infrastructure/container/providers.py) and runs
-- `SendNotificationUseCase.execute` (core/application/use_cases/send_notification.py). That reads
-- the template, picks the providers that support the channel, saves a new notification as QUEUED,
-- tries the providers in order until one delivers, and saves the outcome. Later a provider reports
-- to a webhook (api/webhooks/), which queues `process_delivery_update` (api/webhooks/tasks.py) for
-- the notification; and a periodic sweep queues the payloads of RETRYING notifications again.
-- System puts these together: a state of the database and the two queues, and the steps by which
-- callers, workers, the sweep, the webhooks and the outside change it, in any order.
--
-- Files:
--   Common: library names and lemmas on lists and tests that all parts share.
--   Python: what the program uses of Python: results and exceptions (with
--     shared/exceptions/provider_exceptions.py), dictionaries, `str` methods, `int`, JSON values,
--     string.Template, and state passing with exceptions (Exec).
--   Domain/Notification: core/domain/entities/notification.py; a method returns the entity after it.
--   Domain/Template: core/domain/value_objects/template.py.
--   Application/Dto: client.py's `send` and core/application/dtos/send_notification_dto.py.
--   Application/Interfaces: notification_provider.py, and core/infrastructure/models with the
--     queries of the Django ORM.
--   Application/UseCase: send_notification.py; `execute` is `find_template`, the guards, and `run`.
--   Infrastructure/Repository: core/infrastructure/repositories.
--   Infrastructure/Tasks: core/infrastructure/queue/tasks.py.
--   Infrastructure/Container: core/infrastructure/container/providers.py.
--   Infrastructure/Providers: core/infrastructure/providers: twilio_provider.py and
--     whatsapp_provider.py in the parent, and a child each for sendgrid_provider.py,
--     resend_provider.py, slack_provider.py, smtp_provider.py and firebase_provider.py; Http has what
--     those over HTTP share; Xpto is the class of examples/custom_provider.
--   Infrastructure/BuiltIn: the container's calls of the provider classes.
--   Infrastructure/Schema: the columns of core/infrastructure/models, and what fits into them.
--   Infrastructure/Seeds: core/infrastructure/migrations/0002_seed_templates.py.
--   Shared/Logging: shared/logging/setup.py, on what the logging and json libraries give.
--   Webhooks/Delivery, Twilio, SendGrid, Resend: api/webhooks/tasks.py, twilio_webhook.py,
--     sendgrid_webhook.py, resend_webhook.py; Webhooks/Answer has what the views share.
--   System: no file of its own; `Step` has a constructor for each entry point above, and `Reach` any
--     number of steps. Rows and Updates say what the two tasks do to a row, Queue what the webhooks
--     queue; Invariant is on the rows of reachable states, Eventually on when a send succeeds, Swept
--     on what the sweep finds.
--   System/Workers: the two tasks access by access, as send_notification.py and api/webhooks/tasks.py
--     `await` the database and the providers: `Stage` is where a worker's task is, `advance` takes it to
--     its next access, `Move` is one move of several workers, of which each may die at any time.
--   Examples: a table in memory that meets the ORM's laws, tests, and the theorems at concrete
--     inputs.
--
-- Parameters: the ORM is a record of queries `Orm` over a database type, with `OrmLaws` saying what
-- Django documents of them; a write may fail, a read answers. `Host` is the clock (in microseconds)
-- and `uuid4`; a UUID is a number, and `UuidText` its text. The state `X` of the outside is changed
-- by `uuid4` and by every call of a provider, so that the order of the calls is part of what is
-- proved. A context's values are of any type, with a `str` where they are rendered. The checks of
-- webhook signatures, the SDKs and the HTTP client are functions that are given.
-- All loops are recursion on a list or a text. Only `alone`, which lets one task go on by itself, has
-- a number of advances; System/Workers/Alone takes three and one for each candidate, as many as a
-- dispatch task has accesses.
--
-- Not modelled: which lines the parts log, and when; Celery's delivery of tasks beyond `Step`: a
-- task ends with a result or asks for a retry, which the broker may grant or not. In `Step` each
-- task or request is one step, so the two saves of `execute` are one as well, and what is stated of
-- its states is stated of the time between tasks; in `Move` the tasks interleave between their
-- accesses, each of which is one step, and a webhook's request is one step. Webhooks/Delivery/Overlap has two
-- delivery tasks that interleave. Unicode case mapping outside ASCII; Django's admin, urls and
-- schema migrations; the domain events, which nothing publishes. A failure reason that a webhook
-- gives is kept as the text that the database would store of it. The text of an exception that Python
-- or pydantic forms is shortened: that of an AttributeError to the attribute's name, that of
-- string.Template to what comes before the position, that of pydantic to the first fault.
pub mod Common
pub mod Python
pub mod Domain
pub mod Application
pub mod Infrastructure
pub mod Shared
pub mod Webhooks
pub mod System
pub mod Examples
