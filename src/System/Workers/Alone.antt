-- ===== src/System/Workers/Alone.antt =====
-- A task that no other task interleaves with does what `dispatch_notification` does.
use notifyfork.Common.{
  ℕ, suc, zero, ◌≡◌, refl, ap, ◌∙◌, String, none, some, Option, List, [], ◌∷◌, inl, inr,
}
use notifyfork.Common.{length}
use notifyfork.Python.Result.{Result, ok, err, Result-cases}
use notifyfork.Python.Exec.{pure, ◌>>=◌, ◌>>◌}
use notifyfork.Domain.Template.{NotificationTemplate}
use notifyfork.Domain.Notification.{Notification, mark_queued}
use notifyfork.Application.Dto.{Payload, SendNotificationDto, make_dto}
use notifyfork.Application.Interfaces.Provider.{Provider, Host}
use notifyfork.Application.Interfaces.Database.{Orm}
use notifyfork.Application.UseCase.{
  Sys, Verdict, Reading, delivery, failure, broken, read_attempt, unknown_error, try_candidates,
  resolve_providers, require_template, find_template, new_notification, store, save_now, create,
  after_loop, deliver, run, execute,
}
use notifyfork.Infrastructure.Repository.{save, get_template}
use notifyfork.Infrastructure.Tasks.{Task, task_of, use_case, dispatch_body, dispatch_notification}
use notifyfork.System.Workers.{
  Ready, trying, settling, Progress, going, dispatched, after_call, prepare, begin_ready, begin,
  after_save, advance, alone,
}

module _ {V DB X : Type 0} (orm : Orm V DB) (host : Host X) where
  -- The end of a task that ended with a result.
  abbrev ended : Result ℕ × Sys DB X → Progress V X × Sys DB X
  ended (r, s) = (dispatched (task_of r), s)

  -- `run` after the loop.
  abbrev rest_of_run : Notification V → DB → Result Verdict × X → Result ℕ × Sys DB X
  rest_of_run n db looped =
      (do
        done ← (λ (s : Sys DB X). after_loop orm host n db looped)
        save_now orm host done
        pure done.id)
        (record { db = db; outside = looped.1 })

  alone_dispatched :
      (k : ℕ) (r : Task ℕ) (s : Sys DB X) → alone orm host k (dispatched r, s) ≡ (dispatched r, s)
  unfolding alone
  alone_dispatched zero r s = refl
  alone_dispatched (suc k) r s = refl

  alone_settling :
      (k : ℕ) (n : Notification V) (s : Sys DB X)
      → alone orm host (suc k) (going (settling n), s)
        ≡ ended ((save_now orm host n >> pure n.id) s)
  unfolding alone advance save_now task_of
  alone_settling k n s = elim (Result-cases (save orm n (host.now s.outside) s.db)) [
    | inl (db, saved) ↦ rw (saved, store, after_save) (alone_dispatched k _ _)
    | inr (e, broke) ↦ rw (broke, store, after_save) (alone_dispatched k _ _)
  ]

  alone_trying :
      (ready : Ready V X) (n : Notification V) (error : String) (ps : List (Provider V X)) (db : DB)
      (x : X)
      → alone orm host
          (suc (suc (length ps)))
          (going (trying ready error ps n), record { db = db; outside = x })
        ≡ ended (
            rest_of_run n db
              (try_candidates ready.dto.recipient ready.template ready.dto.context error ps x))
  unfolding alone advance after_loop try_candidates task_of
  alone_trying ready n error [] db x = alone_settling 0 _ _
  alone_trying ready n error (p ∷ ps) db x =
      by_reading
        (read_attempt
          (p.send_with_template ready.dto.recipient ready.template ready.dto.context x).0)
        refl
        (λ reason.
          alone_trying ready n reason ps db
            (p.send_with_template ready.dto.recipient ready.template ready.dto.context x).1)
    where
      by_reading :
          (r : Reading)
          → read_attempt
              (p.send_with_template ready.dto.recipient ready.template ready.dto.context x).0
            ≡ r
          → ((reason : String)
              → alone orm host (suc (suc (length ps))) (
                going (trying ready reason ps n),
                record {
                  db = db;
                  outside =
                      (p.send_with_template ready.dto.recipient ready.template ready.dto.context
                        x).1;
                },
              )
                ≡ ended (
                    rest_of_run n db (
                      try_candidates ready.dto.recipient ready.template ready.dto.context reason ps
                        (p.send_with_template ready.dto.recipient ready.template ready.dto.context
                          x).1)))
          → alone orm host
              (suc (suc (suc (length ps))))
              (going (trying ready error (p ∷ ps) n), record { db = db; outside = x })
            ≡ ended (
                rest_of_run n db (
                  try_candidates ready.dto.recipient ready.template ready.dto.context error
                    (p ∷ ps)
                    x))
      by_reading (delivery message_id) same ih =
          rw (same, alone, advance, try_candidates, after_call)
            (alone_settling (suc (length ps)) _ _)
      by_reading (failure reason) same ih =
          rw (same, alone, advance, try_candidates, after_call) (ih reason)
      by_reading (broken e) same ih =
          rw (same, alone, advance, try_candidates, after_call)
            (alone_dispatched (suc (suc (length ps))) _ _)

  alone_ready :
      (ready : Ready V X) (s : Sys DB X)
      → alone orm host
          (suc (suc (suc (length ready.candidates))))
          (begin_ready orm host (ok ready) s)
        ≡ ended (run orm host ready.dto ready.template ready.candidates s)
  unfolding alone advance begin_ready run create save_now deliver task_of
  alone_ready ready s =
      let (id, x) = host.uuid4 s.outside in
      let n = mark_queued (new_notification ready.dto id (host.now x)) in
      elim (Result-cases (save orm n (host.now x) s.db)) [
        | inl (db, saved) ↦
            rw (saved, begin_ready, alone, advance, store, after_save)
              (alone_trying ready n unknown_error ready.candidates db x)
        | inr (e, broke) ↦
            rw (broke, begin_ready, alone, advance, store, after_save)
              (alone_dispatched (suc (suc (length ready.candidates))) _ _)
      ]

  -- How many advances a task takes.
  abbrev pub advances : Result (Ready V X) → ℕ
  advances (err e) = 0
  advances (ok ready) = suc (suc (suc (length ready.candidates)))

  alone_execute :
      (providers : List (Provider V X)) (dto : SendNotificationDto V) (s : Sys DB X)
      (payload : Payload V)
      → make_dto payload ≡ ok dto
      → alone orm host
          (advances (prepare orm host (ok providers) payload s.db))
          (begin orm host (ok providers) payload s)
        ≡ ended (execute orm host providers dto s)
  unfolding begin prepare execute find_template require_template alone begin_ready task_of
  alone_execute providers dto s payload made =
      by_template (get_template orm dto.template_id s.db) refl
    where
      by_template :
          (r : Result (Option NotificationTemplate))
          → get_template orm dto.template_id s.db ≡ r
          → alone orm host
              (advances (prepare orm host (ok providers) payload s.db))
              (begin orm host (ok providers) payload s)
            ≡ ended (execute orm host providers dto s)
      by_template (err e) same = rw (made, same, begin_ready, alone, task_of)
      by_template (ok none) same = rw (made, same, begin_ready, alone, task_of)
      by_template (ok (some template)) same =
          elim (Result-cases (resolve_providers providers dto.channel)) [
            | inr (e, failed) ↦ rw (made, same, failed, begin_ready, alone, task_of)
            | inl (candidates, resolved) ↦
                rw (made, same, resolved)
                  (alone_ready (record { dto = dto; template = template; candidates = candidates })
                    s)
          ]

  alone_use_case :
      (providers : Result (List (Provider V X))) (dto : SendNotificationDto V) (s : Sys DB X)
      (payload : Payload V)
      → make_dto payload ≡ ok dto
      → alone orm host
          (advances (prepare orm host providers payload s.db))
          (begin orm host providers payload s)
        ≡ ended (use_case orm host providers dto s)
  unfolding begin prepare begin_ready use_case alone task_of
  alone_use_case (ok providers) dto s payload made = alone_execute providers dto s payload made
  alone_use_case (err e) dto s payload made = rw (made, begin_ready, alone)

  -- A dispatch task that has the worker, the database and the outside to itself does, advance by
  -- advance, exactly what `dispatch_notification` does at once: three advances and one for each
  -- candidate give the same result or retry and leave the same database and outside.
  pub dispatch_by_advances :
      (providers : Result (List (Provider V X))) (payload : Payload V) (s : Sys DB X)
      → alone orm host
          (advances (prepare orm host providers payload s.db))
          (begin orm host providers payload s)
        ≡ (
          dispatched (dispatch_notification orm host providers payload s).0,
          (dispatch_notification orm host providers payload s).1,
        )
  unfolding begin prepare begin_ready dispatch_notification alone task_of
  dispatch_by_advances providers payload s = elim (Result-cases (make_dto payload)) [
    | inr (e, odd) ↦ rw (odd, dispatch_body, begin_ready, alone)
    | inl (dto, made) ↦
        let same : use_case orm host providers dto s ≡ dispatch_body orm host providers payload s =
          rw (made, dispatch_body) refl in
        alone_use_case providers dto s payload made ∙ ap ended same
  ]
