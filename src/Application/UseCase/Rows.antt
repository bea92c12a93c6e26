-- ===== src/Application/UseCase/Rows.antt =====
-- What a run of the use case leaves in the database.
use notifyfork.Common.{ℕ, ◌≡◌, refl, sym, ap, ◌∙◌, ◌⊎◌, Option, none, some, List, inl, inr}
use notifyfork.Python.Result.{Error, Result, ok, err, Result-cases}
use notifyfork.Domain.Template.{NotificationTemplate}
use notifyfork.Domain.Notification.{Notification, mark_queued}
use notifyfork.Application.Dto.{SendNotificationDto}
use notifyfork.Application.Interfaces.Provider.{Provider, Host}
use notifyfork.Application.Interfaces.Database.{Orm}
use notifyfork.Infrastructure.Repository.{save, get_template}
use notifyfork.Application.UseCase.{
  Sys, Verdict, unknown_error, resolve_providers, try_candidates, conclude, new_notification,
  require_template, save_now, find_template, store, create, after_loop, deliver, run, execute,
}

pub Loop-cases :
    {X : Type 0} (r : Result Verdict × X)
    → ((v : Verdict) × (x : X) × (r ≡ (ok v, x))) ⊎ ((e : Error) × (x : X) × (r ≡ (err e, x)))
Loop-cases (ok v, x) = inl (v, x, refl)
Loop-cases (err e, x) = inr (e, x, refl)

module _ {V DB X : Type 0} (orm : Orm V DB) (host : Host X) (dto : SendNotificationDto V)
    (s : Sys DB X) where
  abbrev pub new_id : ℕ
  new_id = (host.uuid4 s.outside).0

  -- The outside after `uuid4`.
  abbrev pub started : X
  started = (host.uuid4 s.outside).1

  -- The notification that is saved before any provider is called.
  abbrev pub as_queued : Notification V
  as_queued = mark_queued (new_notification dto new_id (host.now started))

  module _ (template : NotificationTemplate) (candidates : List (Provider V X)) where
    abbrev pub tried : Result Verdict × X
    tried = try_candidates dto.recipient template dto.context unknown_error candidates started

  -- The notification that is saved after the loop, which left the outside as `x`.
  abbrev pub as_settled : Verdict → X → Notification V
  as_settled verdict x = conclude verdict (host.now x) as_queued

  module _ (template : NotificationTemplate) (candidates : List (Provider V X)) where
    run-eq-ok :
        (i : ℕ) (s' : Sys DB X)
        → run orm host dto template candidates s ≡ (ok i, s')
        → (queued_db : DB) × (verdict : Verdict) × (x : X) × (save orm as_queued
              (host.now started)
              s.db
            ≡ ok queued_db)
          × (tried template candidates ≡ (ok verdict, x))
          × (save orm (as_settled verdict x) (host.now x) queued_db ≡ ok s'.db)
          × (s'.outside ≡ x)
          × (i ≡ (as_settled verdict x).id)
    unfolding run save_now create deliver
    run-eq-ok i s' h = elim (Result-cases (save orm as_queued (host.now started) s.db)) [
      | inr (e, failed) ↦ cc (rw (failed, store) at h)
      | inl (db, saved) ↦ elim (Loop-cases (tried template candidates)) [
        | inr (e, x, stopped) ↦ cc (rw (saved, store, stopped, after_loop) at h)
        | inl (verdict, x, looped) ↦
            elim (Result-cases (save orm (as_settled verdict x) (host.now x) db)) [
              | inr (e, failed) ↦ cc (rw (saved, store, looped, after_loop, failed, store) at h)
              | inl (db', settled) ↦
                  let e = rw (saved, store, looped, after_loop, settled, store) at h in
                  (
                    db,
                    verdict,
                    x,
                    saved,
                    looped,
                    settled ∙ ap (λ (t : Result ℕ × Sys DB X). ok t.1.db) e,
                    sym (ap (λ (t : Result ℕ × Sys DB X). t.1.outside) e),
                    cc,
                  )
            ]
      ]
    ]

  -- A run that returned `i`: what it read, tried and wrote, in order.
  pub record Run (providers : List (Provider V X)) (i : ℕ) (s' : Sys DB X) : Type 0 where
    pub template : NotificationTemplate
    pub candidates : List (Provider V X)
    pub queued_db : DB
    pub verdict : Verdict
    pub read : get_template orm dto.template_id s.db ≡ ok (some template)
    pub resolved : resolve_providers providers dto.channel ≡ ok candidates
    pub queued : save orm as_queued (host.now started) s.db ≡ ok queued_db
    pub looped : tried template candidates ≡ (ok verdict, s'.outside)
    pub settled :
        save orm (as_settled verdict s'.outside) (host.now s'.outside) queued_db ≡ ok s'.db
    pub same_id : i ≡ (as_settled verdict s'.outside).id

  pub execute-Run :
      (providers : List (Provider V X)) (i : ℕ) (s' : Sys DB X)
      → execute orm host providers dto s ≡ (ok i, s')
      → Run providers i s'
  unfolding execute find_template require_template
  execute-Run providers i s' h = by_template (get_template orm dto.template_id s.db) refl
    where
      by_template :
          (r : Result (Option NotificationTemplate))
          → get_template orm dto.template_id s.db ≡ r
          → Run providers i s'
      by_template (err e) same = cc (rw (same, execute) at h)
      by_template (ok none) same = cc (rw (same, execute) at h)
      by_template (ok (some template)) same =
          elim (Result-cases (resolve_providers providers dto.channel)) [
            | inr (e, failed) ↦ cc (rw (same, failed, execute) at h)
            | inl (candidates, resolved) ↦
                let (db, verdict, x, queued, looped, settled, outside, same_id) =
                  run-eq-ok template candidates i s' (rw (same, resolved) at h) in
                record {
                  template = template;
                  candidates = candidates;
                  queued_db = db;
                  verdict = verdict;
                  read = same;
                  resolved = resolved;
                  queued = queued;
                  looped = rw outside looped;
                  settled = rw outside settled;
                  same_id = rw outside same_id;
                }
          ]
