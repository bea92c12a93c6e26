-- ===== src/System/Updates.antt =====
-- What the delivery task does to a row.
use notifyfork.Common.{
  ℕ, String, ◌≡◌, ◌≢◌, refl, Option, none, some, nat_eq, nat_eq_iff, Bool-cases, Option-cases, inl,
  inr,
}
use notifyfork.Python.Result.{Error, Result, ok, err}
use notifyfork.Domain.Notification.{NotificationStatus, Notification, is_terminal}
use notifyfork.Domain.Notification.Status.{status_of_value}
use notifyfork.Application.Interfaces.Provider.{Host}
use notifyfork.Application.Interfaces.Database.{NotificationRow, Orm, OrmLaws}
use notifyfork.Application.UseCase.{Sys}
use notifyfork.Infrastructure.Repository.{save, get_by_id, optional_entity, to_entity}
use notifyfork.Infrastructure.Tasks.{Task, finished, retry}
use notifyfork.Webhooks.Delivery.{
  UuidText, Update, mark_update, close_update, apply_update, process_delivery_update,
}
use notifyfork.Webhooks.Delivery.Laws.{Addresses, process_cases}
use notifyfork.System.Rows.{Change}

module _ {V DB X : Type 0} (orm : Orm V DB) (laws : OrmLaws orm) (host : Host X)
    (uuids : UuidText) where
  close_update_retry :
      (n : Notification V) (r : Result DB) (s s' : Sys DB X) (e : Error)
      → close_update orm host n r s ≡ (retry e, s')
      → s' ≡ s
  unfolding close_update
  close_update_retry n (err x) s s' e h = cc
  close_update_retry n (ok db) s s' e h = cc

  apply_update_retry :
      (u : Update) (r : Result (Option (Notification V))) (s s' : Sys DB X) (e : Error)
      → apply_update orm host u r s ≡ (retry e, s')
      → s' ≡ s
  unfolding apply_update
  apply_update_retry u (err x) s s' e h = cc
  apply_update_retry u (ok none) s s' e h = cc
  apply_update_retry u (ok (some n)) s s' e h =
      let m = mark_update u (host.now s.outside) n in
      elim (Bool-cases (is_terminal n)) [
        | inl over ↦ cc (rw over at h)
        | inr live ↦
            close_update_retry m (save orm m (host.now s.outside) s.db) s s' e (rw live at h)
      ]

  -- A delivery task that asks for a retry has written nothing.
  pub process_retry_keeps :
      (u : Update) (s s' : Sys DB X) (e : Error)
      → process_delivery_update orm host uuids u s ≡ (retry e, s')
      → s' ≡ s
  unfolding process_delivery_update
  process_retry_keeps u s s' e h = elim (Option-cases (uuids.of_text u.notification_id)) [
    | inl odd ↦ cc (rw (odd, process_delivery_update) at h)
    | inr (uid, named) ↦
        apply_update_retry u (get_by_id orm uid s.db) s s' e
          (rw (named, process_delivery_update) at h)
  ]

  apply_unreadable :
      (u : Update) (r : Result (Option (Notification V))) (s s' : Sys DB X) (t : String)
      → ((n : Notification V) → r ≢ ok (some n))
      → apply_update orm host u r s ≡ (finished t, s')
      → s' ≡ s
  unfolding apply_update
  apply_unreadable u (err x) s s' t h e = cc
  apply_unreadable u (ok none) s s' t h e = cc
  apply_unreadable u (ok (some n)) s s' t h e = elim (h n refl) [ ]

  -- A row that the task finds: kept, or closed.
  Change-Addresses :
      (u : Update) (s s' : Sys DB X) (uid j : ℕ) (row : NotificationRow V) (st : NotificationStatus)
      (t : String)
      → Addresses orm laws host uuids u s.db uid row st
      → process_delivery_update orm host uuids u s ≡ (finished t, s')
      → Change (orm.aget j s.db) (orm.aget j s'.db)
  Change-Addresses u s s' uid j row st t a h =
      elim (process_cases orm laws host uuids u s s' uid row st t a h) [
        | inl (over, _, same) ↦ rw same Change.kept
        | inr (live, written, others) ↦ elim (Bool-cases (nat_eq j uid)) [
          | inl found ↦
              rw ((nat_eq_iff j uid).0 found, written, a.stored) (Change.closed u a.status live)
          | inr other ↦ rw (others j (λ same. cc ((nat_eq_iff j uid).1 same))) Change.kept
        ]
      ]

  Change-named :
      (u : Update) (s s' : Sys DB X) (uid j : ℕ) (t : String)
      → uuids.of_text u.notification_id ≡ some uid
      → process_delivery_update orm host uuids u s ≡ (finished t, s')
      → Change (orm.aget j s.db) (orm.aget j s'.db)
  unfolding process_delivery_update get_by_id to_entity
  Change-named u s s' uid j t named h =
      let read = rw (named, process_delivery_update) at h in
      elim (Option-cases (orm.aget uid s.db)) [
        | inl missing ↦
            let same =
              apply_unreadable u (get_by_id orm uid s.db) s s' t
                (λ n e. cc (rw (missing, get_by_id, optional_entity) at e)) read in
            rw same Change.kept
        | inr (row, stored) ↦ elim (Option-cases (status_of_value row.status)) [
          | inl unknown ↦
              let same =
                apply_unreadable u (get_by_id orm uid s.db) s s' t
                  (λ n e. cc (rw (stored, get_by_id, optional_entity, to_entity, unknown) at e))
                  read in
              rw same Change.kept
          | inr (st, status) ↦
              Change-Addresses u s s' uid j row st t
                (record { named = named; stored = stored; status = status }) h
        ]
      ]

  Change-finished :
      (u : Update) (s s' : Sys DB X) (j : ℕ) (r : Task String)
      → process_delivery_update orm host uuids u s ≡ (r, s')
      → Change (orm.aget j s.db) (orm.aget j s'.db)
  unfolding process_delivery_update
  Change-finished u s s' j (retry e) h = rw (process_retry_keeps u s s' e h) Change.kept
  Change-finished u s s' j (finished t) h = elim (Option-cases (uuids.of_text u.notification_id)) [
    | inl odd ↦ cc (rw (odd, process_delivery_update) at h)
    | inr (uid, named) ↦ Change-named u s s' uid j t named h
  ]

  -- A delivery task leaves every row as it is, but for one that is not terminal, which it may close.
  pub Change-update :
      (u : Update) (s : Sys DB X) (j : ℕ)
      → Change (orm.aget j s.db) (orm.aget j (process_delivery_update orm host uuids u s).1.db)
  Change-update u s j =
      let (r, s') = process_delivery_update orm host uuids u s in Change-finished u s s' j r refl
