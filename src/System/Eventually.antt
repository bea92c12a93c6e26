-- ===== src/System/Eventually.antt =====
-- When a send is sure to succeed.
use mathlib.Core.List.{Memᴰ}
use notifyfork.Common.{
  All, String, ◌≡◌, refl, sym, ap, ◌∙◌, ◌++◌, none, some, Option, List, [], ◌∷◌, nat_eq_iff,
}
use notifyfork.Python.Dict.{Dict}
use notifyfork.Python.Result.{ok}
use notifyfork.Domain.Template.{NotificationTemplate}
use notifyfork.Application.Dto.{SendNotificationDto}
use notifyfork.Application.Interfaces.Provider.{Provider, Host}
use notifyfork.Application.Interfaces.Database.{NotificationRow, Orm, OrmLaws}
use notifyfork.Application.UseCase.{
  Sys, Verdict, accepted, refused, delivery, read_attempt, resolve_providers, unknown_error,
  execute,
}
use notifyfork.Application.UseCase.Outcome.{IsWhole, Explains, AllRefuse, attempt}
use notifyfork.Application.UseCase.Rows.{new_id, started}
use notifyfork.Application.UseCase.Settled.{Settles, Reports, execute-Settles}
use notifyfork.Infrastructure.Repository.{get_template}
use notifyfork.Application.UseCase.Guards.{WritesSucceed, execute_returns}

module _ {V X : Type 0} (recipient : String) (template : NotificationTemplate)
    (context : Dict V) where
  -- Whatever the outside is like, the provider takes the notification.
  abbrev pub AlwaysDelivers : Provider V X → Type 0
  AlwaysDelivers p =
      (x : X)
      → (message_id : Option String) × (read_attempt (attempt recipient template context p x).0
          ≡ delivery message_id)

  not-AllRefuse :
      (p : Provider V X) (ps : List (Provider V X)) (x x' : X)
      → Memᴰ p ps
      → AlwaysDelivers p
      → ¬ AllRefuse recipient template context ps x x'
  not-AllRefuse p [] x x' m good refusals = elim m [ ]
  not-AllRefuse p (q ∷ ps) x x' (Memᴰ.head same) good ((reason, why), later) =
      let (message_id, taken) = good x in cc (rw same at taken)
  not-AllRefuse p (q ∷ ps) x x' (Memᴰ.tail m) good (first, later) =
      not-AllRefuse p ps _ x' m good later

  -- The row is SENT, with the name and the message id of one of the providers: that one took the
  -- notification, after refusals of all before it.
  abbrev pub SentByOne : List (Provider V X) → X → NotificationRow V → Type 0
  SentByOne ps x row =
      (before : List (Provider V X)) × (taker : Provider V X) × (later : List (Provider V X))
      × (between : X) × (message_id : Option String) × (ps ≡ before ++ taker ∷ later)
      × AllRefuse recipient template context before x between
      × (read_attempt (attempt recipient template context taker between).0 ≡ delivery message_id)
      × (row.status ≡ "sent")
      × (row.provider_used ≡ some taker.name)
      × (row.provider_message_id ≡ message_id)

  by_verdict :
      (dto : SendNotificationDto V) (row : NotificationRow V) (p : Provider V X)
      (ps : List (Provider V X)) (x x' : X) (first : String) (v : Verdict)
      → Memᴰ p ps
      → AlwaysDelivers p
      → Explains recipient template context ps x first (ok v, x')
      → Reports dto row v
      → SentByOne ps x row
  by_verdict dto row p ps x x' first (accepted name message_id) m good why r = (
    why.before,
    why.provider,
    why.later,
    why.between,
    message_id,
    why.order,
    why.refusals,
    why.delivers,
    r.0,
    r.1 ∙ ap some (sym why.named),
    r.2,
  )
  by_verdict dto row p ps x x' first (refused error) m good why r =
      absurd (not-AllRefuse p ps x x' m good why.refusals)

module _ {V DB X : Type 0} (orm : Orm V DB) (laws : OrmLaws orm) (host : Host X)
    (providers : List (Provider V X)) (dto : SendNotificationDto V) (s : Sys DB X) where
  -- With an active template, a database that takes the writes, an unused new id and candidates whose
  -- results have the attributes of a ProviderResult, a send succeeds as soon as one of the candidates
  -- always delivers, wherever in the order it is and whatever the others answer or raise: the use
  -- case returns the new id, and the row under it is SENT, with the name of the first candidate that
  -- took the notification, all before it having refused, and the message id that this one gave.
  pub execute_delivers :
      (template : NotificationTemplate) (candidates : List (Provider V X)) (p : Provider V X)
      → get_template orm dto.template_id s.db ≡ ok (some template)
      → resolve_providers providers dto.channel ≡ ok candidates
      → WritesSucceed orm host providers dto s
      → orm.aget (new_id orm host dto s) s.db ≡ none
      → Memᴰ p candidates
      → AlwaysDelivers dto.recipient template dto.context p
      → All (IsWhole dto.recipient template dto.context) candidates
      → (s' : Sys DB X) × (row : NotificationRow V) × (execute orm host providers dto s
          ≡ (ok (new_id orm host dto s), s'))
        × (orm.aget (new_id orm host dto s) s'.db ≡ some row)
        × SentByOne dto.recipient template dto.context candidates (started orm host dto s) row
  execute_delivers template candidates p read resolved writes fresh m good whole =
      let id = new_id orm host dto s in
      let (s', done) =
        execute_returns orm host providers dto s template candidates read resolved writes whole in
      let settles : Settles orm host providers dto s id s' =
        execute-Settles orm host laws providers dto s id s' fresh done in
      let same_template : settles.template ≡ template = cc (settles.read) in
      let same_candidates : settles.candidates ≡ candidates = cc in
      let outcome =
        by_verdict dto.recipient template dto.context dto settles.row p candidates
          (started orm host dto s) s'.outside unknown_error settles.verdict m good
          (rw (same_template, same_candidates) at settles.explained) settles.reports in
      (s', settles.row, done, settles.rows id ∙ rw ((nat_eq_iff id id).1 refl), outcome)
