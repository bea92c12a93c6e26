-- ===== src/Infrastructure/Tasks/Dispatch.antt =====
-- A dispatch task touches no notification but the one that it creates.
use notifyfork.Common.{ℕ, ◌≡◌, ◌≢◌, refl, ◌∙◌, Option, none, some, List, inl, inr}
use notifyfork.Python.Result.{Result, ok, err, Result-cases}
use notifyfork.Domain.Template.{NotificationTemplate}
use notifyfork.Application.Dto.{Payload, SendNotificationDto, make_dto}
use notifyfork.Application.Interfaces.Provider.{Provider, Host}
use notifyfork.Application.Interfaces.Database.{Orm, OrmLaws}
use notifyfork.Infrastructure.Repository.{save, get_template}
use notifyfork.Infrastructure.Repository.Laws.{aget-save_at}
use notifyfork.Application.UseCase.{
  Sys, resolve_providers, find_template, require_template, store, save_now, create, deliver, run,
  execute, after_loop,
}
use notifyfork.Application.UseCase.Rows.{new_id, started, as_queued, as_settled, tried, Loop-cases}
use notifyfork.Application.UseCase.Settled.{id-mark_queued, id-conclude}
use notifyfork.Infrastructure.Tasks.{use_case, dispatch_body, dispatch_notification}

module _ {V DB X : Type 0} (orm : Orm V DB) (laws : OrmLaws orm) (host : Host X) where
  -- Every row but the new one reads as before.
  abbrev OthersKept : Sys DB X → Sys DB X → Type 0
  OthersKept s s' = (j : ℕ) → j ≢ (host.uuid4 s.outside).0 → orm.aget j s'.db ≡ orm.aget j s.db

  OthersKept-refl : (s : Sys DB X) → OthersKept s s
  OthersKept-refl s j ne = refl

  OthersKept-run :
      (dto : SendNotificationDto V) (template : NotificationTemplate)
      (candidates : List (Provider V X)) (s : Sys DB X)
      → OthersKept s (run orm host dto template candidates s).1
  unfolding run save_now create deliver
  OthersKept-run dto template candidates s j ne =
      let id = new_id orm host dto s in
      let start = host.now (started orm host dto s) in
      elim (Result-cases (save orm (as_queued orm host dto s) start s.db)) [
        | inr (e, failed) ↦ rw (failed, store)
        | inl (db, queued) ↦
            let first =
              (aget-save_at orm laws (as_queued orm host dto s) id start s.db db
                  (id-mark_queued dto id start) queued).1
                j ne in
            elim (Loop-cases (tried orm host dto s template candidates)) [
              | inr (e, x, stopped) ↦ rw (queued, store, stopped, after_loop) first
              | inl (verdict, x, looped) ↦
                  let settled = as_settled orm host dto s verdict x in
                  elim (Result-cases (save orm settled (host.now x) db)) [
                    | inr (e, failed) ↦ rw (queued, store, looped, after_loop, failed, store) first
                    | inl (db', done) ↦
                        rw (queued, store, looped, after_loop, done, store)
                          ((aget-save_at orm laws settled id (host.now x) db db'
                                (id-conclude dto id start verdict (host.now x)) done).1
                              j ne
                            ∙ first)
                  ]
            ]
      ]

  OthersKept-execute :
      (providers : List (Provider V X)) (dto : SendNotificationDto V) (s : Sys DB X)
      → OthersKept s (execute orm host providers dto s).1
  unfolding execute find_template require_template
  OthersKept-execute providers dto s = by_template (get_template orm dto.template_id s.db) refl
    where
      by_template :
          (r : Result (Option NotificationTemplate))
          → get_template orm dto.template_id s.db ≡ r
          → OthersKept s (execute orm host providers dto s).1
      by_template (err e) same = rw (same, execute) (OthersKept-refl s)
      by_template (ok none) same = rw (same, execute) (OthersKept-refl s)
      by_template (ok (some template)) same =
          elim (Result-cases (resolve_providers providers dto.channel)) [
            | inr (e, failed) ↦ rw (same, failed, execute) (OthersKept-refl s)
            | inl (candidates, resolved) ↦
                rw (same, resolved, execute) (OthersKept-run dto template candidates s)
          ]

  OthersKept-use_case :
      (providers : Result (List (Provider V X))) (dto : SendNotificationDto V) (s : Sys DB X)
      → OthersKept s (use_case orm host providers dto s).1
  unfolding use_case
  OthersKept-use_case (err e) dto s = OthersKept-refl s
  OthersKept-use_case (ok providers) dto s = OthersKept-execute providers dto s

  -- Whatever the payload and the providers, and however the task ends, with a result or with a
  -- retry, the rows of all notifications but the new one stay what they were.
  pub dispatch_others :
      (providers : Result (List (Provider V X))) (payload : Payload V) (s : Sys DB X) (j : ℕ)
      → j ≢ (host.uuid4 s.outside).0
      → orm.aget j (dispatch_notification orm host providers payload s).1.db ≡ orm.aget j s.db
  unfolding dispatch_notification
  dispatch_others providers payload s j ne = elim (Result-cases (make_dto payload)) [
    | inr (e, failed) ↦ rw (failed, dispatch_body)
    | inl (dto, made) ↦ rw (made, dispatch_body) (OthersKept-use_case providers dto s j ne)
  ]
