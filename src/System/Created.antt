-- ===== src/System/Created.antt =====
-- What a dispatch does to the rows.
use notifyfork.Common.{
  ℕ, ◌≡◌, refl, Option, none, some, List, nat_eq, nat_eq_iff, Bool-cases, inl, inr,
}
use notifyfork.Python.Result.{Result, ok, err, Result-cases}
use notifyfork.Domain.Template.{NotificationTemplate}
use notifyfork.Application.Dto.{Payload, SendNotificationDto, make_dto}
use notifyfork.Application.Dto.Range.{InRange, make_dto-InRange}
use notifyfork.Application.Interfaces.Provider.{Provider, Host}
use notifyfork.Application.Interfaces.Database.{NotificationRow, Orm, OrmLaws}
use notifyfork.Application.UseCase.{
  Sys, resolve_providers, find_template, require_template, store, save_now, create, deliver, run,
  after_loop, execute,
}
use notifyfork.Application.UseCase.Rows.{new_id, started, as_queued, as_settled, tried, Loop-cases}
use notifyfork.Application.UseCase.Settled.{id-mark_queued, id-conclude}
use notifyfork.Infrastructure.Repository.{save, get_template}
use notifyfork.Infrastructure.Repository.Laws.{aget-save_at, created_column, delivered_column}
use notifyfork.Infrastructure.Tasks.{use_case, dispatch_body, dispatch_notification}
use notifyfork.Infrastructure.Tasks.Dispatch.{dispatch_others}
use notifyfork.System.Rows.{IsSound, Change, queued-IsSound, settled-IsSound}

-- What a dispatch leaves under its new id.
pub data NewRow {V : Type 0} : Option (NotificationRow V) → Type 0 where
  absent : NewRow none
  present : {row : NotificationRow V} → IsSound row → NewRow (some row)

Change-NewRow : {V : Type 0} {o : Option (NotificationRow V)} → NewRow o → Change none o
Change-NewRow absent = Change.kept
Change-NewRow (present h) = Change.created h

module _ {V DB X : Type 0} (orm : Orm V DB) (laws : OrmLaws orm) (host : Host X) where
  NewRow-run :
      (dto : SendNotificationDto V) (template : NotificationTemplate)
      (candidates : List (Provider V X)) (s : Sys DB X)
      → InRange dto.max_attempts
      → orm.aget (new_id orm host dto s) s.db ≡ none
      → NewRow (orm.aget (new_id orm host dto s) (run orm host dto template candidates s).1.db)
  unfolding run save_now create deliver
  NewRow-run dto template candidates s range fresh =
      let id = new_id orm host dto s in
      let start = host.now (started orm host dto s) in
      elim (Result-cases (save orm (as_queued orm host dto s) start s.db)) [
        | inr (e, broke) ↦ rw (broke, store, fresh) NewRow.absent
        | inl (db, saved) ↦
            let first =
              (aget-save_at orm laws (as_queued orm host dto s) id start s.db db
                (id-mark_queued dto id start) saved).0 in
            let waiting = NewRow.present (
              queued-IsSound dto range id start (created_column start (orm.aget id s.db))
                (delivered_column (orm.aget id s.db))) in
            elim (Loop-cases (tried orm host dto s template candidates)) [
              | inr (e, x, stopped) ↦ rw (saved, store, stopped, after_loop, first) waiting
              | inl (verdict, x, looped) ↦
                  let settled = as_settled orm host dto s verdict x in
                  elim (Result-cases (save orm settled (host.now x) db)) [
                    | inr (e, broke) ↦
                        rw (saved, store, looped, after_loop, broke, store, first) waiting
                    | inl (db', done) ↦
                        rw
                          (
                            saved,
                            store,
                            looped,
                            after_loop,
                            done,
                            store,
                            (aget-save_at orm laws settled id (host.now x) db db'
                                (id-conclude dto id start verdict (host.now x)) done).0,
                          )
                          (NewRow.present (
                            settled-IsSound dto range id start
                              (created_column (host.now x) (orm.aget id db))
                              (delivered_column (orm.aget id db)) verdict (host.now x)))
                  ]
            ]
      ]

  NewRow-fresh : (i : ℕ) (db : DB) → orm.aget i db ≡ none → NewRow (orm.aget i db)
  NewRow-fresh i db fresh = rw fresh NewRow.absent

  NewRow-execute :
      (providers : List (Provider V X)) (dto : SendNotificationDto V) (s : Sys DB X)
      → InRange dto.max_attempts
      → orm.aget (new_id orm host dto s) s.db ≡ none
      → NewRow (orm.aget (new_id orm host dto s) (execute orm host providers dto s).1.db)
  unfolding execute find_template require_template
  NewRow-execute providers dto s range fresh =
      by_template (get_template orm dto.template_id s.db) refl
    where
      by_template :
          (r : Result (Option NotificationTemplate))
          → get_template orm dto.template_id s.db ≡ r
          → NewRow (orm.aget (new_id orm host dto s) (execute orm host providers dto s).1.db)
      by_template (err e) same = rw (same, execute, fresh) NewRow.absent
      by_template (ok none) same = rw (same, execute, fresh) NewRow.absent
      by_template (ok (some template)) same =
          elim (Result-cases (resolve_providers providers dto.channel)) [
            | inr (e, broke) ↦ rw (same, broke, execute, fresh) NewRow.absent
            | inl (candidates, resolved) ↦
                rw (same, resolved, execute) (NewRow-run dto template candidates s range fresh)
          ]

  NewRow-use_case :
      (providers : Result (List (Provider V X))) (dto : SendNotificationDto V) (s : Sys DB X)
      → InRange dto.max_attempts
      → orm.aget (host.uuid4 s.outside).0 s.db ≡ none
      → NewRow (orm.aget (host.uuid4 s.outside).0 (use_case orm host providers dto s).1.db)
  unfolding use_case
  NewRow-use_case (err e) dto s range fresh = NewRow-fresh _ s.db fresh
  NewRow-use_case (ok providers) dto s range fresh = NewRow-execute providers dto s range fresh

  pub NewRow-dispatch :
      (providers : Result (List (Provider V X))) (payload : Payload V) (s : Sys DB X)
      → orm.aget (host.uuid4 s.outside).0 s.db ≡ none
      → NewRow (
          orm.aget
            (host.uuid4 s.outside).0
            (dispatch_notification orm host providers payload s).1.db)
  unfolding dispatch_notification
  NewRow-dispatch providers payload s fresh = elim (Result-cases (make_dto payload)) [
    | inr (e, broke) ↦ rw (broke, dispatch_body) (NewRow-fresh _ s.db fresh)
    | inl (dto, made) ↦
        rw (made, dispatch_body)
          (NewRow-use_case providers dto s (make_dto-InRange payload dto made) fresh)
  ]

  -- A dispatch leaves every row as it is, and may create a sound one under a fresh id.
  pub Change-dispatch :
      (providers : Result (List (Provider V X))) (payload : Payload V) (s : Sys DB X) (j : ℕ)
      → orm.aget (host.uuid4 s.outside).0 s.db ≡ none
      → Change
          (orm.aget j s.db)
          (orm.aget j (dispatch_notification orm host providers payload s).1.db)
  Change-dispatch providers payload s j fresh =
      let id = (host.uuid4 s.outside).0 in
      elim (Bool-cases (nat_eq j id)) [
        | inl here ↦
            let e = (nat_eq_iff j id).0 here in
            rw (e, fresh) (Change-NewRow (NewRow-dispatch providers payload s fresh))
        | inr other ↦
            let e =
              dispatch_others orm laws host providers payload s j
                (λ same. cc ((nat_eq_iff j id).1 same)) in
            rw e Change.kept
      ]
