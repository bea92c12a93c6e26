-- ===== src/Application/UseCase.antt =====
-- use_cases/send_notification.py. The state is the database and the outside; the use case is given
-- the registered providers. Logging is left out.
pub mod Candidates
pub mod Outcome
pub mod Guards
pub mod Broken
pub mod Rows
pub mod Settled
use notifyfork.Common.{
  ℕ, String, Bool, true, false, Option, none, some, List, [], ◌∷◌, if◌then◌else◌, ◌==◌,
}
use notifyfork.Python.Dict.{Dict}
use notifyfork.Python.Result.{
  Error, error_text, no_provider_available, template_not_found, attribute_error, Result, ok, err,
}
use notifyfork.Python.Exec.{Exec, pure, lift, ◌>>=◌, ◌>>◌}
use notifyfork.Domain.Template.{NotificationTemplate}
use notifyfork.Domain.Notification.{Notification, pending, mark_queued, mark_sent, mark_failed}
use notifyfork.Application.Dto.{SendNotificationDto}
use notifyfork.Application.Interfaces.Provider.{
  ProviderResult, Attempt, returned, returned_loose, raised, Provider, Host,
}
use notifyfork.Application.Interfaces.Database.{Orm}
use notifyfork.Infrastructure.Repository.{save, get_template}

pub record Sys (DB X : Type 0) : Type 0 where
  pub db : DB
  pub outside : X

-- How the loop over the candidates ended: by `break`, after the provider's name and the id of its
-- message are known, or by exhaustion, with the last error.
pub data Verdict : Type 0 where
  accepted : String → Option String → Verdict
  refused : String → Verdict

-- How one attempt is read: the message id of a delivery, the `error` that the loop keeps, or the
-- exception of reading a result that lacks an attribute, which is outside the loop's `try`.
pub data Reading : Type 0 where
  delivery : Option String → Reading
  failure : String → Reading
  broken : Error → Reading

abbrev pub unknown_error : String
unknown_error = "Unknown provider error"

-- `result.error or "Unknown provider error"`.
unfoldable pub error_or_unknown : Option String → String
error_or_unknown none = unknown_error
error_or_unknown (some e) = if e == "" then unknown_error else e

-- `result.success`, and then `result.external_id` or `result.error`.
unfoldable pub read_loose : Option Bool → Option (Option String) → Option (Option String) → Reading
unfolding error_or_unknown
read_loose none external_id error = broken (attribute_error "success")
read_loose (some true) none error = broken (attribute_error "external_id")
read_loose (some true) (some external_id) error = delivery external_id
read_loose (some false) external_id none = broken (attribute_error "error")
read_loose (some false) external_id (some error) = failure (error_or_unknown error)

unfoldable pub read_attempt : Attempt → Reading
unfolding error_text error_or_unknown read_loose
read_attempt (raised e) = failure (error_text e)
read_attempt (returned_loose r) = read_loose r.success r.external_id r.error
read_attempt (returned r) =
    if r.success then delivery r.external_id else failure (error_or_unknown r.error)

module _ {V X : Type 0} where
  -- One element of `[p for p in self._providers if p.supports(channel)]`, before the `rest`.
  unfoldable pub keep_supporting :
      Provider V X
      → Option (String → Bool)
      → String
      → Result (List (Provider V X))
      → Result (List (Provider V X))
  keep_supporting p none channel rest = err (attribute_error "supports")
  keep_supporting p (some supports) channel (ok rest) =
      ok (if supports channel then p ∷ rest else rest)
  keep_supporting p (some supports) channel (err e) = err e

  unfoldable pub supporting : List (Provider V X) → String → Result (List (Provider V X))
  unfolding keep_supporting
  supporting [] channel = ok []
  supporting (p ∷ ps) channel = keep_supporting p p.supports channel (supporting ps channel)

  unfoldable pub require_some : String → Result (List (Provider V X)) → Result (List (Provider V X))
  require_some channel (ok []) = err (no_provider_available channel)
  require_some channel (ok (p ∷ ps)) = ok (p ∷ ps)
  require_some channel (err e) = err e

  unfoldable pub resolve_providers : List (Provider V X) → String → Result (List (Provider V X))
  unfolding supporting require_some
  resolve_providers providers channel = require_some channel (supporting providers channel)

  -- The `for` loop over the candidates, with the last `error`.
  unfoldable pub try_candidates :
      String → NotificationTemplate → Dict V → String → List (Provider V X) → X → Result Verdict × X
  unfolding read_attempt
  try_candidates recipient template context error [] x = (ok (refused error), x)
  try_candidates recipient template context error (p ∷ ps) x =
      let (attempt, x') = p.send_with_template recipient template context x in
      elim (read_attempt attempt) [
        | delivery message_id ↦ (ok (accepted p.name message_id), x')
        | failure reason ↦ try_candidates recipient template context reason ps x'
        | broken e ↦ (err e, x')
      ]

module _ {V : Type 0} where
  -- After the loop: `mark_sent` before the `break`, `mark_failed` in the `else`.
  unfoldable pub conclude : Verdict → ℕ → Notification V → Notification V
  unfolding mark_sent mark_failed
  conclude (accepted name message_id) now n = mark_sent name message_id now n
  conclude (refused error) now n = mark_failed error n

  unfoldable pub new_notification : SendNotificationDto V → ℕ → ℕ → Notification V
  new_notification dto id now = record {
    recipient = dto.recipient;
    channel = dto.channel;
    notification_type = dto.notification_type;
    template_id = dto.template_id;
    context = dto.context;
    id = id;
    status = pending;
    provider_used = none;
    provider_message_id = none;
    attempts = 0;
    max_attempts = dto.max_attempts;
    error_detail = none;
    created_at = now;
    sent_at = none;
    delivered_at = none;
  }

unfoldable pub require_template : String → Option NotificationTemplate → Result NotificationTemplate
require_template template_id none = err (template_not_found template_id)
require_template template_id (some template) = ok template

module _ {DB X : Type 0} where
  -- The state after a write that succeeded or raised.
  unfoldable pub store : Result DB → Exec (Sys DB X) (Unit {0})
  store (ok db) s = (ok tt, record s { db = db })
  store (err e) s = (err e, s)

module _ {V DB X : Type 0} (orm : Orm V DB) (host : Host X) where
  -- `await self._repository.save(notification)`.
  unfoldable pub save_now : Notification V → Exec (Sys DB X) (Unit {0})
  unfolding store
  save_now n s = store (save orm n (host.now s.outside) s.db) s

  unfoldable pub find_template : String → Exec (Sys DB X) (Option NotificationTemplate)
  find_template template_id s = (get_template orm template_id s.db, s)

  unfoldable pub create : SendNotificationDto V → Exec (Sys DB X) (Notification V)
  unfolding new_notification
  create dto s =
      let (id, x) = host.uuid4 s.outside in
      (ok (new_notification dto id (host.now x)), record s { outside = x })

  -- What follows the loop, which may have raised.
  unfoldable pub after_loop :
      Notification V → DB → Result Verdict × X → Result (Notification V) × Sys DB X
  unfolding conclude
  after_loop n db (err e, x) = (err e, record { db = db; outside = x })
  after_loop n db (ok verdict, x) =
      (ok (conclude verdict (host.now x) n), record { db = db; outside = x })

  -- The loop and what follows it, up to the second `save`.
  unfoldable pub deliver :
      SendNotificationDto V
      → NotificationTemplate
      → List (Provider V X)
      → Notification V
      → Exec (Sys DB X) (Notification V)
  unfolding after_loop
  deliver dto template candidates n s =
      after_loop n s.db
        (try_candidates dto.recipient template dto.context unknown_error candidates s.outside)

  -- `execute` behind its two guards: create, save as QUEUED, try the candidates, save the result.
  unfoldable pub run :
      SendNotificationDto V → NotificationTemplate → List (Provider V X) → Exec (Sys DB X) ℕ
  unfolding save_now create deliver
  run dto template candidates = do
    created ← create dto
    let notification = mark_queued created
    save_now notification
    done ← deliver dto template candidates notification
    save_now done
    pure done.id

  unfoldable pub execute : List (Provider V X) → SendNotificationDto V → Exec (Sys DB X) ℕ
  unfolding find_template require_template run
  execute providers dto = do
    found ← find_template dto.template_id
    template ← lift (require_template dto.template_id found)
    candidates ← lift (resolve_providers providers dto.channel)
    run dto template candidates
