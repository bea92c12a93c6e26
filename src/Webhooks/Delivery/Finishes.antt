-- ===== src/Webhooks/Delivery/Finishes.antt =====
-- That the delivery task finishes.
use notifyfork.Common.{ℕ, ◌≡◌, ap, ◌∙◌, Bool-cases, inl, inr, if◌then◌else◌}
use notifyfork.Python.Result.{Result, ok}
use notifyfork.Domain.Notification.{
  Notification, NotificationStatus, is_terminal, status_is_terminal,
}
use notifyfork.Domain.Notification.Status.{status_value}
use notifyfork.Application.Interfaces.Provider.{Host}
use notifyfork.Application.Interfaces.Database.{Defaults, NotificationRow, Orm, OrmLaws}
use notifyfork.Application.UseCase.{Sys}
use notifyfork.Infrastructure.Repository.{save, entity_of, defaults_of}
use notifyfork.Infrastructure.Tasks.{finished}
use notifyfork.Webhooks.Delivery.{
  UuidText, Update, mark_update, close_update, apply_update, process_delivery_update,
}
use notifyfork.Webhooks.Delivery.Laws.{Addresses, updated, get_by_id-Addresses, terminal_skipped}

module _ {V DB X : Type 0} (orm : Orm V DB) (laws : OrmLaws orm) (host : Host X)
    (uuids : UuidText) where
  -- The database accepts every write.
  abbrev pub TakesWrites : Type 0
  TakesWrites =
      (i : ℕ) (d : Defaults V) (now : ℕ) (db : DB)
      → (db' : DB) × (orm.aupdate_or_create i d now db ≡ ok db')

  close_update_finishes :
      (n : Notification V) (r : Result DB) (s : Sys DB X)
      → (db : DB) × (r ≡ ok db)
      → (s' : Sys DB X) × (close_update orm host n r s ≡ (finished (status_value n.status), s'))
  unfolding close_update
  close_update_finishes n r s (db, same) = (record s { db = db }, rw (same, close_update))

  status-mark_update :
      (u : Update) (now : ℕ) (row : NotificationRow V) (st : NotificationStatus)
      → status_value (mark_update u now (entity_of row st)).status ≡ (updated u row).status
  unfolding mark_update entity_of status_value
  status-mark_update u now row st = elim (Bool-cases u.delivered) [
    | inl good ↦ rw good
    | inr poor ↦ rw poor
  ]

  -- If the database takes the writes, the task for a stored notification finishes: with
  -- "already_terminal" if its status is terminal, and else with the status that it now has.
  pub process_delivery_update_finishes :
      (u : Update) (s : Sys DB X) (uid : ℕ) (row : NotificationRow V) (st : NotificationStatus)
      → Addresses orm laws host uuids u s.db uid row st
      → TakesWrites
      → (s' : Sys DB X) × (process_delivery_update orm host uuids u s ≡ (
        finished (if status_is_terminal st then "already_terminal" else (updated u row).status),
        s',
      ))
  unfolding process_delivery_update apply_update is_terminal entity_of save
  process_delivery_update_finishes u s uid row st h writes =
      elim (Bool-cases (status_is_terminal st)) [
        | inl over ↦ (s, rw over (terminal_skipped orm laws host uuids u s uid row st h over))
        | inr live ↦
            let n = mark_update u (host.now s.outside) (entity_of row st) in
            let (s', done) =
              close_update_finishes n (save orm n (host.now s.outside) s.db) s
                (writes n.id (defaults_of n) (host.now s.outside) s.db) in
            (
              s',
              rw
                  (
                    live,
                    h.named,
                    process_delivery_update,
                    get_by_id-Addresses orm laws host uuids u s.db uid row st h,
                    apply_update,
                    live,
                  )
                  (done
                    ∙ ap (λ t. (finished t, s'))
                        (status-mark_update u (host.now s.outside) row st)),
            )
      ]
