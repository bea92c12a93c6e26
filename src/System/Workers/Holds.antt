-- ===== src/System/Workers/Holds.antt =====
-- What holds of a task at each stage, and what one write leaves of it.
use mathlib.Core.Option.{some-injective}
use notifyfork.Common.{
  ◌⊎◌, refl, ℕ, ◌≡◌, ◌≢◌, sym, ap, subst, ◌∙◌, none, some, nat_eq, nat_eq_iff, Bool-cases, inl, inr,
}
use notifyfork.Domain.Notification.{NotificationStatus, Notification, mark_queued}
use notifyfork.Domain.Notification.Status.{status_of_value}
use notifyfork.Application.Dto.{SendNotificationDto}
use notifyfork.Application.Interfaces.Provider.{Host}
use notifyfork.Application.Dto.Range.{InRange}
use notifyfork.Application.Interfaces.Database.{NotificationRow, Orm, OrmLaws}
use notifyfork.Application.UseCase.{Verdict, conclude, new_notification}
use notifyfork.Infrastructure.Repository.{entity_of}
use notifyfork.Webhooks.Delivery.{UuidText, Update}
use notifyfork.System.Rows.{HasMessage, Fits, IsSound}
use notifyfork.System.Queue.{Names}
use notifyfork.System.Sound.{AllSound}
use notifyfork.System.Workers.{Stage, queuing, trying, settling, closing}
use notifyfork.System.Workers.Scene.{owned}

module _ {V : Type 0} where
  -- The columns of a row that a delivery task does not change, with the others blank.
  abbrev pub core : NotificationRow V → NotificationRow V
  core row = record row { status = ""; error_detail = none; created_at = 0; delivered_at = none }

  -- An update has closed the row.
  abbrev pub IsClosed : NotificationRow V → Type 0
  IsClosed row = (row.status ≡ "delivered") ⊎ (row.status ≡ "delivery_failed")

  -- The notification as it is before the loop.
  pub record IsNew (n : Notification V) : Type 0 where
    pub dto : SendNotificationDto V
    pub id : ℕ
    pub start : ℕ
    pub range : InRange dto.max_attempts
    pub same : n ≡ mark_queued (new_notification dto id start)

  -- The notification as it is after the loop.
  pub record IsTried (n : Notification V) : Type 0 where
    pub dto : SendNotificationDto V
    pub id : ℕ
    pub start : ℕ
    pub verdict : Verdict
    pub now : ℕ
    pub range : InRange dto.max_attempts
    pub same : n ≡ conclude verdict now (mark_queued (new_notification dto id start))

  -- The notification was read from a row that was sound and had a message id.
  pub record WasRead (n : Notification V) : Type 0 where
    pub row : NotificationRow V
    pub status : NotificationStatus
    pub same : n ≡ entity_of row status
    pub known : status_of_value row.status ≡ some status
    pub fits : Fits status row
    pub range : InRange row.max_attempts
    pub message : HasMessage row

module _ {V DB : Type 0} (orm : Orm V DB) where
  -- The row of the notification is QUEUED: nothing is known to have been sent.
  pub record Waits (db : DB) (i : ℕ) : Type 0 where
    pub row : NotificationRow V
    pub stored : orm.aget i db ≡ some row
    pub status : row.status ≡ "queued"
    pub attempts : row.attempts ≡ 0
    pub no_message : row.provider_message_id ≡ none

  -- The row has a message id.
  pub record Messaged (db : DB) (i : ℕ) : Type 0 where
    pub row : NotificationRow V
    pub stored : orm.aget i db ≡ some row
    pub message : HasMessage row

  pub not-Messaged : (db : DB) (i : ℕ) → Waits db i → ¬ Messaged db i
  not-Messaged db i h m =
      let same : h.row ≡ m.row = some-injective h.row m.row (sym h.stored ∙ m.stored) in
      m.message (ap (λ r. r.provider_message_id) (sym same) ∙ h.no_message)

  -- One row is written, with a sound row, and no other. A row that has a message id keeps it, and
  -- its core, and is closed.
  pub record Wrote (db db' : DB) (i : ℕ) : Type 0 where
    pub row : NotificationRow V
    pub stored : orm.aget i db' ≡ some row
    pub others : (j : ℕ) → j ≢ i → orm.aget j db' ≡ orm.aget j db
    pub sound : IsSound row
    pub keeps : (m : Messaged db i) → HasMessage row × (core row ≡ core m.row)
    pub closes : Messaged db i → IsClosed row

  pub Wrote-Messaged :
      (db db' : DB) (i j : ℕ)
      → Wrote db db' i
      → (m : Messaged db j)
      → (m' : Messaged db' j) × (core m'.row ≡ core m.row) × ((m'.row ≡ m.row) ⊎ IsClosed m'.row)
  Wrote-Messaged db db' i j w m = elim (Bool-cases (nat_eq j i)) [
    | inl here ↦
        subst
          (λ k.
            (m : Messaged db k)
            → (m' : Messaged db' k) × (core m'.row ≡ core m.row)
              × ((m'.row ≡ m.row) ⊎ IsClosed m'.row))
          (sym ((nat_eq_iff j i).0 here))
          (λ m. (
            record { row = w.row; stored = w.stored; message = (w.keeps m).0 },
            (w.keeps m).1,
            inr (w.closes m),
          ))
          m
    | inr other ↦ (
      record {
        row = m.row;
        stored = w.others j (λ same. cc ((nat_eq_iff j i).1 same)) ∙ m.stored;
        message = m.message;
      },
      refl,
      inl refl,
    )
  ]

  Wrote-Waits : (db db' : DB) (i j : ℕ) → Wrote db db' i → j ≢ i → Waits db j → Waits db' j
  Wrote-Waits db db' i j w ne h = record {
    row = h.row;
    stored = w.others j ne ∙ h.stored;
    status = h.status;
    attempts = h.attempts;
    no_message = h.no_message;
  }

  module _ {X : Type 0} where
    -- What holds of a task, while the database is `db`.
    abbrev pub Holds : DB → Stage V X → Type 0
    Holds db (queuing ready n) = IsNew n × (orm.aget n.id db ≡ none)
    Holds db (trying ready error ps n) = IsNew n × Waits db n.id
    Holds db (settling n) = IsTried n × Waits db n.id
    Holds db (closing u n) = (h : WasRead n) × (m : Messaged db n.id) × (core m.row ≡ core h.row)

    -- A notification that some task owns has no message id yet.
    pub Messaged-not_owned :
        (db : DB) (i : ℕ) (stage : Stage V X)
        → Holds db stage
        → Messaged db i
        → owned stage ≢ some i
    Messaged-not_owned db i (queuing ready n) h m e =
        let same = some-injective n.id i e in let gone = rw same at h.1 in cc (gone, m.stored)
    Messaged-not_owned db i (trying ready error ps n) h m e =
        not-Messaged db i (subst (Waits db) (some-injective n.id i e) h.1) m
    Messaged-not_owned db i (settling n) h m e =
        not-Messaged db i (subst (Waits db) (some-injective n.id i e) h.1) m
    Messaged-not_owned db i (closing u n) h m e = cc (e)

    -- A task keeps what holds of it, when a row that it does not own is written.
    pub Wrote-Holds :
        (db db' : DB) (i : ℕ) (stage : Stage V X)
        → Wrote db db' i
        → owned stage ≢ some i
        → Holds db stage
        → Holds db' stage
    Wrote-Holds db db' i (queuing ready n) w ne h = (h.0, w.others n.id (λ e. ne (ap some e)) ∙ h.1)
    Wrote-Holds db db' i (trying ready error ps n) w ne h =
        (h.0, Wrote-Waits db db' i n.id w (λ e. ne (ap some e)) h.1)
    Wrote-Holds db db' i (settling n) w ne h =
        (h.0, Wrote-Waits db db' i n.id w (λ e. ne (ap some e)) h.1)
    Wrote-Holds db db' i (closing u n) w ne (h, m, same) =
        let (m', kept, closing_) = Wrote-Messaged db db' i n.id w m in (h, m', kept ∙ same)

  module _ {X : Type 0} (laws : OrmLaws orm) (host : Host X) (uuids : UuidText) where
    pub Wrote-AllSound :
        (db db' : DB) (i : ℕ)
        → Wrote db db' i
        → AllSound orm laws host uuids db
        → AllSound orm laws host uuids db'
    Wrote-AllSound db db' i w sound j row e = elim (Bool-cases (nat_eq j i)) [
      | inl here ↦
          let at = rw ((nat_eq_iff j i).0 here) at e in
          subst IsSound (some-injective w.row row (sym w.stored ∙ at)) w.sound
      | inr other ↦ sound j row (sym (w.others j (λ same. cc ((nat_eq_iff j i).1 same))) ∙ e)
    ]

    pub Wrote-Names :
        (db db' : DB) (i : ℕ) (u : Update)
        → Wrote db db' i
        → Names orm uuids db u
        → Names orm uuids db' u
    Wrote-Names db db' i u w n =
        let (m, kept, closing_) =
          Wrote-Messaged db db' i n.uid w
            (record { row = n.row; stored = n.stored; message = n.message }) in
        record { uid = n.uid; row = m.row; named = n.named; stored = m.stored; message = m.message }
