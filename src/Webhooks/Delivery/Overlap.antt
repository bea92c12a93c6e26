-- ===== src/Webhooks/Delivery/Overlap.antt =====
-- Two delivery tasks at the same time. The task reads the notification and later saves it, without a
-- transaction around both, so that another worker's task may run in between.
use notifyfork.Common.{ℕ, String, ◌≡◌, ◌≢◌, ap, ◌∙◌, false, some, Bool-cases, inl, inr}
use notifyfork.Python.Result.{Result-cases}
use notifyfork.Domain.Notification.{NotificationStatus, is_terminal, status_is_terminal}
use notifyfork.Application.Interfaces.Provider.{Host}
use notifyfork.Application.Interfaces.Database.{NotificationRow, Orm, OrmLaws, row_of}
use notifyfork.Application.UseCase.{Sys}
use notifyfork.Infrastructure.Repository.{save, get_by_id, entity_of, defaults_of}
use notifyfork.Infrastructure.Repository.Laws.{aget-save_at}
use notifyfork.Infrastructure.Tasks.{Task, finished}
use notifyfork.Webhooks.Delivery.{UuidText, Update, mark_update, close_update, apply_update}
use notifyfork.Webhooks.Delivery.Laws.{Addresses, updated, id-mark_update, get_by_id-Addresses}

module _ {V : Type 0} where
  -- The row `row` after the update `u`, but for the two columns that `save` does not write.
  abbrev pub written_over : Update → NotificationRow V → NotificationRow V → NotificationRow V
  written_over u row old = record (updated u row) {
    created_at = old.created_at;
    delivered_at = old.delivered_at;
  }

  pub row-written_over :
      (u : Update) (now : ℕ) (row old : NotificationRow V) (st : NotificationStatus)
      → row_of row.id
          (defaults_of (mark_update u now (entity_of row st)))
          old.created_at
          old.delivered_at
        ≡ written_over u row old
  unfolding mark_update entity_of defaults_of
  row-written_over u now row old st = elim (Bool-cases u.delivered) [
    | inl good ↦ rw good
    | inr poor ↦ rw poor
  ]

module _ {V DB X : Type 0} (orm : Orm V DB) (laws : OrmLaws orm) (host : Host X)
    (uuids : UuidText) where
  -- The second half of a task, that has read `row` in an earlier database `db`.
  stale_write :
      (u : Update) (db : DB) (s s' : Sys DB X) (uid : ℕ) (row old : NotificationRow V)
      (st : NotificationStatus) (t : String)
      → Addresses orm laws host uuids u db uid row st
      → status_is_terminal st ≡ false
      → orm.aget uid s.db ≡ some old
      → apply_update orm host u (get_by_id orm uid db) s ≡ (finished t, s')
      → (orm.aget uid s'.db ≡ some (written_over u row old))
        × ((j : ℕ) → j ≢ uid → orm.aget j s'.db ≡ orm.aget j s.db)
  unfolding apply_update is_terminal entity_of
  stale_write u db s s' uid row old st t h live now_there e =
      let n = mark_update u (host.now s.outside) (entity_of row st) in
      let e' =
        rw (get_by_id-Addresses orm laws host uuids u db uid row st h, apply_update, live) at e in
      elim (Result-cases (save orm n (host.now s.outside) s.db)) [
        | inr (x, broke) ↦ cc (rw (broke, close_update) at e')
        | inl (next, saved) ↦
            let same : row.id ≡ uid = laws.aget_id uid db row h.stored in
            let stored : next ≡ s'.db =
              ap (λ (r : Task String × Sys DB X). r.1.db) (rw (saved, close_update) at e') in
            let (kept, others) =
              aget-save_at orm laws n uid (host.now s.outside) s.db next
                (id-mark_update u (host.now s.outside) row st ∙ same) saved in
            rw (← stored) (
              kept
                  ∙ (rw now_there
                      (ap some (rw (← same) (row-written_over u (host.now s.outside) row old st)))),
              others,
            )
      ]

  -- If two tasks for one notification have both read it, SENT or at least not terminal, before
  -- either saves, then both write: after the second the row is what the second makes of the row
  -- that it read, with the second's outcome, and of the first nothing is left, not even its reason.
  pub second_write_wins :
      (u w : Update) (s s1 s2 : Sys DB X) (uid : ℕ) (row : NotificationRow V)
      (st : NotificationStatus) (t t' : String)
      → Addresses orm laws host uuids u s.db uid row st
      → Addresses orm laws host uuids w s.db uid row st
      → status_is_terminal st ≡ false
      → apply_update orm host u (get_by_id orm uid s.db) s ≡ (finished t, s1)
      → apply_update orm host w (get_by_id orm uid s.db) s1 ≡ (finished t', s2)
      → (orm.aget uid s1.db ≡ some (updated u row))
        × (orm.aget uid s2.db ≡ some (updated w row))
        × ((j : ℕ) → j ≢ uid → orm.aget j s2.db ≡ orm.aget j s.db)
  second_write_wins u w s s1 s2 uid row st t t' hu hw live first second =
      let (one, others) = stale_write u s.db s s1 uid row row st t hu live hu.stored first in
      let (two, later) =
        stale_write w s.db s1 s2 uid row (updated u row) st t' hw live one second in
      (one, two, (λ j ne. later j ne ∙ others j ne))
