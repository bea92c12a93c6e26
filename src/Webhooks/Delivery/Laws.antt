-- ===== src/Webhooks/Delivery/Laws.antt =====
-- The first confirmation of a delivery is final, and touches one row.
use notifyfork.Common.{
  nat_eq, not, ◌&&◌, if-eq_of_ne, ℕ, String, ◌≡◌, ◌≢◌, ◌⊎◌, refl, sym, ap, ◌∙◌, true, false, some,
  arith, if◌then◌else◌, Bool-cases, inl, inr,
}
use notifyfork.Python.Result.{ok, Result-cases}
use notifyfork.Domain.Notification.{
  NotificationStatus, delivered, delivery_failed, is_terminal, status_is_terminal,
}
use notifyfork.Domain.Notification.Status.{status_of_value}
use notifyfork.Application.Interfaces.Provider.{Host}
use notifyfork.Application.Interfaces.Database.{NotificationRow, Orm, OrmLaws, row_of}
use notifyfork.Application.UseCase.{Sys}
use notifyfork.Infrastructure.Repository.{
  save, get_by_id, optional_entity, to_entity, entity_of, defaults_of,
}
use notifyfork.Infrastructure.Repository.Laws.{aget-save_at}
use notifyfork.Infrastructure.Tasks.{Task, finished}
use notifyfork.Webhooks.Delivery.{
  UuidText, Update, reason_or_default, mark_update, close_update, apply_update,
  process_delivery_update,
}

module _ {V : Type 0} where
  -- The row of a notification after an update: two columns at most are new.
  abbrev pub updated : Update → NotificationRow V → NotificationRow V
  updated u r = record r {
    status = (if u.delivered then "delivered" else "delivery_failed");
    error_detail = (if u.delivered then r.error_detail else some (reason_or_default u.reason));
  }

  pub id-mark_update :
      (u : Update) (now : ℕ) (row : NotificationRow V) (st : NotificationStatus)
      → (mark_update u now (entity_of row st)).id ≡ row.id
  unfolding mark_update entity_of
  id-mark_update u now row st = ground arith

  row-mark_update :
      (u : Update) (now : ℕ) (row : NotificationRow V) (st : NotificationStatus)
      → row_of row.id
          (defaults_of (mark_update u now (entity_of row st)))
          row.created_at
          row.delivered_at
        ≡ updated u row
  unfolding mark_update entity_of defaults_of
  row-mark_update u now row st = elim (Bool-cases u.delivered) [
    | inl good ↦ rw good
    | inr poor ↦ rw poor
  ]

  -- An update leaves a terminal status.
  pub closed_status :
      (u : Update) (row : NotificationRow V)
      → (st : NotificationStatus) × (status_of_value (updated u row).status ≡ some st)
        × (status_is_terminal st ≡ true)
  unfolding status_of_value status_is_terminal
  closed_status u row = elim (Bool-cases u.delivered) [
    | inl good ↦ (delivered, rw good, refl)
    | inr poor ↦ (delivery_failed, rw poor, refl)
  ]

module _ {V DB X : Type 0} (orm : Orm V DB) (laws : OrmLaws orm) (host : Host X)
    (uuids : UuidText) where
  -- The update is for a notification that is stored as `row`, in the status `st`.
  pub record Addresses (u : Update) (db : DB) (uid : ℕ) (row : NotificationRow V)
      (st : NotificationStatus) : Type 0 where
    pub named : uuids.of_text u.notification_id ≡ some uid
    pub stored : orm.aget uid db ≡ some row
    pub status : status_of_value row.status ≡ some st

  pub get_by_id-Addresses :
      (u : Update) (db : DB) (uid : ℕ) (row : NotificationRow V) (st : NotificationStatus)
      → Addresses u db uid row st
      → get_by_id orm uid db ≡ ok (some (entity_of row st))
  unfolding get_by_id to_entity
  get_by_id-Addresses u db uid row st h = rw (h.stored, optional_entity, h.status)

  -- A terminal notification is left alone.
  pub terminal_skipped :
      (u : Update) (s : Sys DB X) (uid : ℕ) (row : NotificationRow V) (st : NotificationStatus)
      → Addresses u s.db uid row st
      → status_is_terminal st ≡ true
      → process_delivery_update orm host uuids u s ≡ (finished "already_terminal", s)
  unfolding process_delivery_update apply_update is_terminal entity_of
  terminal_skipped u s uid row st h t =
      rw
        (h.named, process_delivery_update, get_by_id-Addresses u s.db uid row st h, apply_update, t)

  updated_lem :
      (u : Update) (s s' : Sys DB X) (uid : ℕ) (row : NotificationRow V) (st : NotificationStatus)
      (t : String)
      → Addresses u s.db uid row st
      → status_is_terminal st ≡ false
      → process_delivery_update orm host uuids u s ≡ (finished t, s')
      → (orm.aget uid s'.db ≡ some (updated u row))
        × ((j : ℕ) → j ≢ uid → orm.aget j s'.db ≡ orm.aget j s.db)
  unfolding process_delivery_update apply_update is_terminal entity_of
  updated_lem u s s' uid row st t h live e =
      let n = mark_update u (host.now s.outside) (entity_of row st) in
      let e' =
        rw
          (
            h.named,
            process_delivery_update,
            get_by_id-Addresses u s.db uid row st h,
            apply_update,
            live,
          )
          at e in
      elim (Result-cases (save orm n (host.now s.outside) s.db)) [
        | inr (x, failed) ↦ cc (rw (failed, close_update) at e')
        | inl (db, saved) ↦
            let same : row.id ≡ uid = laws.aget_id uid s.db row h.stored in
            let stored : db ≡ s'.db =
              ap (λ (r : Task String × Sys DB X). r.1.db) (rw (saved, close_update) at e') in
            let (kept, others) =
              aget-save_at orm laws n uid (host.now s.outside) s.db db
                (id-mark_update u (host.now s.outside) row st ∙ same) saved in
            rw (← stored) (
              kept
                  ∙ (rw h.stored
                      (ap some (rw (← same) (row-mark_update u (host.now s.outside) row st)))),
              others,
            )
      ]

  pub process_cases :
      (u : Update) (s s' : Sys DB X) (uid : ℕ) (row : NotificationRow V) (st : NotificationStatus)
      (t : String)
      → Addresses u s.db uid row st
      → process_delivery_update orm host uuids u s ≡ (finished t, s')
      → ((status_is_terminal st ≡ true) × (t ≡ "already_terminal") × (s' ≡ s))
        ⊎ ((status_is_terminal st ≡ false)
            × (orm.aget uid s'.db ≡ some (updated u row))
            × ((j : ℕ) → j ≢ uid → orm.aget j s'.db ≡ orm.aget j s.db))
  process_cases u s s' uid row st t h e = elim (Bool-cases (status_is_terminal st)) [
    | inl over ↦
        let same = sym (terminal_skipped u s uid row st h over) ∙ e in
        inl (over, cc, sym (ap (λ (r : Task String × Sys DB X). r.1) same))
    | inr live ↦
        let (kept, others) = updated_lem u s s' uid row st t h live e in inr (live, kept, others)
  ]

  -- An update of a stored notification that is not rescheduled writes DELIVERED, or DELIVERY_FAILED
  -- with the reason, into that row if its status is not terminal; no other column (not even
  -- `delivered_at`) and no other row changes, and no row at all if the status is terminal.
  pub process_delivery_update_lem :
      (u : Update) (s s' : Sys DB X) (uid j : ℕ) (row : NotificationRow V) (st : NotificationStatus)
      (t : String)
      → Addresses u s.db uid row st
      → process_delivery_update orm host uuids u s ≡ (finished t, s')
      → orm.aget j s'.db ≡ (
          if nat_eq j uid && not (status_is_terminal st)
          then some (updated u row)
          else orm.aget j s.db)
  process_delivery_update_lem u s s' uid j row st t h e =
      elim (process_cases u s s' uid row st t h e) [
        | inl (over, _, same) ↦ rw (over, same) (ground arith)
        | inr (live, kept, others) ↦ rw live (
            if-eq_of_ne (λ k. orm.aget k s'.db) (λ k. orm.aget k s.db) uid j _ kept (others j)
            ∙ ground arith)
      ]

  -- The first update that is not rescheduled is final: any later one for the same notification,
  -- a repetition or a contradiction, is skipped and changes nothing.
  pub first_update_final :
      (u w : Update) (s s' : Sys DB X) (uid : ℕ) (row : NotificationRow V) (st : NotificationStatus)
      (t : String)
      → Addresses u s.db uid row st
      → process_delivery_update orm host uuids u s ≡ (finished t, s')
      → uuids.of_text w.notification_id ≡ some uid
      → process_delivery_update orm host uuids w s' ≡ (finished "already_terminal", s')
  first_update_final u w s s' uid row st t h e named =
      elim (process_cases u s s' uid row st t h e) [
        | inl (over, _, same) ↦
            terminal_skipped w s' uid row st
              (record { named = named; stored = rw same h.stored; status = h.status }) over
        | inr (live, kept, others) ↦
            let (st', read, over) = closed_status u row in
            terminal_skipped w s' uid (updated u row) st'
              (record { named = named; stored = kept; status = read }) over
      ]
