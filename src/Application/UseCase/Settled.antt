-- ===== src/Application/UseCase/Settled.antt =====
-- A notification that the use case has handled is never left QUEUED.
use notifyfork.Common.{
  nat_eq, if-eq_of_ne, ℕ, ◌≡◌, ◌≢◌, refl, ap, ◌∙◌, none, some, List, arith, leb, if◌then◌else◌,
}
use notifyfork.Python.Result.{ok}
use notifyfork.Domain.Template.{NotificationTemplate}
use notifyfork.Domain.Notification.{Notification, mark_queued}
use notifyfork.Application.Dto.{SendNotificationDto}
use notifyfork.Application.Interfaces.Provider.{Provider, Host}
use notifyfork.Application.Interfaces.Database.{NotificationRow, Orm, OrmLaws, row_of}
use notifyfork.Infrastructure.Repository.{get_template, defaults_of}
use notifyfork.Infrastructure.Repository.Laws.{aget-save_at, created_column, delivered_column}
use notifyfork.Application.UseCase.{
  Sys, Verdict, accepted, refused, unknown_error, resolve_providers, conclude, new_notification,
  execute,
}
use notifyfork.Application.UseCase.Outcome.{Explains, try_candidates-Explains}
use notifyfork.Application.UseCase.Rows.{Run, execute-Run, new_id, started, as_queued, as_settled}

module _ {V : Type 0} (dto : SendNotificationDto V) (row : NotificationRow V) where
  -- The columns that say how the delivery went. A refused notification has used one attempt,
  -- whatever the number of candidates; it is FAILED only if one is all that it has.
  abbrev pub Reports : Verdict → Type 0
  Reports (accepted name message_id) =
      (row.status ≡ "sent")
      × (row.provider_used ≡ some name)
      × (row.provider_message_id ≡ message_id)
      × (row.attempts ≡ 0)
      × (row.sent_at ≢ none)
      × (row.error_detail ≡ none)
  Reports (refused error) =
      (row.status ≡ (if leb dto.max_attempts 1 then "failed" else "retrying"))
      × (row.provider_used ≡ none)
      × (row.provider_message_id ≡ none)
      × (row.attempts ≡ 1)
      × (row.sent_at ≡ none)
      × (row.error_detail ≡ some error)

  -- The columns that repeat the request.
  pub record Repeats : Type 0 where
    pub recipient : row.recipient ≡ dto.recipient
    pub channel : row.channel ≡ dto.channel
    pub notification_type : row.notification_type ≡ dto.notification_type
    pub template_id : row.template_id ≡ dto.template_id
    pub context : row.context ≡ dto.context
    pub max_attempts : row.max_attempts ≡ dto.max_attempts
    pub delivered_at : row.delivered_at ≡ none

module _ {V : Type 0} (dto : SendNotificationDto V) (id start : ℕ) where
  abbrev settled_row : Verdict → ℕ → ℕ → NotificationRow V
  settled_row v now created =
      row_of id (defaults_of (conclude v now (mark_queued (new_notification dto id start)))) created
        none

  row-Reports : (v : Verdict) (now created : ℕ) → Reports dto (settled_row v now created) v
  unfolding conclude defaults_of new_notification mark_queued
  row-Reports (accepted name message_id) now created = ground arith
  row-Reports (refused error) now created = ground arith

  row-Repeats : (v : Verdict) (now created : ℕ) → Repeats dto (settled_row v now created)
  unfolding conclude defaults_of new_notification mark_queued
  row-Repeats (accepted name message_id) now created = ground arith
  row-Repeats (refused error) now created = ground arith

  pub id-mark_queued : (mark_queued (new_notification dto id start)).id ≡ id
  unfolding new_notification mark_queued
  id-mark_queued = refl

  pub id-conclude :
      (v : Verdict) (now : ℕ)
      → (conclude v now (mark_queued (new_notification dto id start))).id ≡ id
  unfolding conclude new_notification mark_queued
  id-conclude (accepted name message_id) now = refl
  id-conclude (refused error) now = ground arith

module _ {V DB X : Type 0} (orm : Orm V DB) (host : Host X) where
  -- What a run that returned `i` has done, from `s` to `s'`.
  pub record Settles (providers : List (Provider V X)) (dto : SendNotificationDto V) (s : Sys DB X)
      (i : ℕ) (s' : Sys DB X) : Type 0 where
    pub template : NotificationTemplate
    pub candidates : List (Provider V X)
    pub verdict : Verdict
    pub row : NotificationRow V
    pub read : get_template orm dto.template_id s.db ≡ ok (some template)
    pub resolved : resolve_providers providers dto.channel ≡ ok candidates
    pub explained :
        Explains dto.recipient template dto.context candidates
          (started orm host dto s)
          unknown_error
          (ok verdict, s'.outside)
    pub fresh_id : i ≡ new_id orm host dto s
    pub reports : Reports dto row verdict
    pub repeats : Repeats dto row
    pub rows : (j : ℕ) → orm.aget j s'.db ≡ (if nat_eq j i then some row else orm.aget j s.db)

  module _ (laws : OrmLaws orm) (providers : List (Provider V X)) (dto : SendNotificationDto V)
      (s : Sys DB X) (i : ℕ) (s' : Sys DB X) where
    Settles-Run :
        orm.aget (new_id orm host dto s) s.db ≡ none
        → Run orm host dto s providers i s'
        → Settles providers dto s i s'
    Settles-Run fresh r = record {
      template = r.template;
      candidates = r.candidates;
      verdict = v;
      row = settled_row dto id start v now created;
      read = r.read;
      resolved = r.resolved;
      explained = rw (← r.looped) (
          try_candidates-Explains dto.recipient r.template dto.context unknown_error r.candidates
            (started orm host dto s));
      fresh_id = r.same_id ∙ same;
      reports = row-Reports dto id start v now created;
      repeats = row-Repeats dto id start v now created;
      rows = λ j. rw (r.same_id ∙ same) (
          if-eq_of_ne (λ k. orm.aget k s'.db) (λ k. orm.aget k s.db) id j _
            (second.0 ∙ ap (λ o. some (row_of id (defaults_of settled) created o)) undelivered)
            (λ ne. second.1 j ne ∙ first.1 j ne));
    }
      where
        id : ℕ
        id = new_id orm host dto s

        start : ℕ
        start = host.now (started orm host dto s)

        v : Verdict
        v = r.verdict

        now : ℕ
        now = host.now s'.outside

        created : ℕ
        created = created_column now (orm.aget id r.queued_db)

        settled : Notification V
        settled = as_settled orm host dto s v s'.outside

        same : settled.id ≡ id
        same = id-conclude dto id start v now

        first :
            (orm.aget id r.queued_db
              ≡ some (
                  row_of id
                    (defaults_of (as_queued orm host dto s))
                    (created_column start (orm.aget id s.db))
                    (delivered_column (orm.aget id s.db))))
            × ((j : ℕ) → j ≢ id → orm.aget j r.queued_db ≡ orm.aget j s.db)
        first =
            aget-save_at orm laws (as_queued orm host dto s) id start s.db r.queued_db
              (id-mark_queued dto id start) r.queued

        second :
            (orm.aget id s'.db
              ≡ some (
                  row_of id
                    (defaults_of settled)
                    created
                    (delivered_column (orm.aget id r.queued_db))))
            × ((j : ℕ) → j ≢ id → orm.aget j s'.db ≡ orm.aget j r.queued_db)
        second = aget-save_at orm laws settled id now r.queued_db s'.db same r.settled

        undelivered : delivered_column (orm.aget id r.queued_db) ≡ none
        undelivered = rw (first.0, fresh)

    -- If the new id is fresh and the use case returns, it returns that id; the row under it says
    -- how the loop over the candidates ended (sent by the provider that delivered, or one attempt
    -- used and the last error kept) and is not QUEUED any more; every other row is unchanged.
    pub execute-Settles :
        orm.aget (new_id orm host dto s) s.db ≡ none
        → execute orm host providers dto s ≡ (ok i, s')
        → Settles providers dto s i s'
    execute-Settles fresh h = Settles-Run fresh (execute-Run orm host dto s providers i s' h)
