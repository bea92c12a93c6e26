-- ===== src/Infrastructure/Tasks/Sweep.antt =====
-- What one run of the periodic sweep queues, and what it leaves undone.
use notifyfork.Common.{
  ℕ, zero, suc, ◌+◌, ◌≤◌, ◌≡◌, refl, sym, ap, ap₂, ◌∙◌, List, [], ◌∷◌, ◌++◌, map, filter, length,
  All, All-map, arith, Bool-cases, inl, inr,
}
use native.Mathlib.Nat.{zero-add}
use mathlib.Core.List.{append_assoc, append-nil}
use notifyfork.Python.Result.{ok}
use notifyfork.Domain.Notification.{Notification, retrying, can_retry}
use notifyfork.Domain.Notification.Status.{status_of_value}
use notifyfork.Application.Dto.{Payload}
use notifyfork.Application.Interfaces.Database.{NotificationRow, Orm, OrmLaws}
use notifyfork.Infrastructure.Repository.{to_entity, to_entities, entity_of, get_pending_retries}
use notifyfork.Infrastructure.Tasks.{
  Shared, requeue_all, retry_payload, requeue, retry_pending_notifications,
}

pub length-map : {B C : Type 0} (f : B → C) (xs : List B) → length (map f xs) ≡ length xs
length-map f [] = refl
length-map f (x ∷ xs) = ap suc (length-map f xs)

module _ {V : Type 0} where
  requeue_lem :
      (ns : List (Notification V)) (queue : List (Payload V)) (queued : ℕ)
      → requeue ns queue queued
        ≡ (queue ++ map retry_payload (filter can_retry ns), queued + length (filter can_retry ns))
  unfolding requeue
  requeue_lem [] queue queued = ap₂ (λ q n. (q, n)) (sym (append-nil queue)) (omega arith)
  requeue_lem (n ∷ ns) queue queued = elim (Bool-cases (can_retry n)) [
    | inl again ↦ rw again (
        requeue_lem ns (queue ++ retry_payload n ∷ []) (queued + 1)
        ∙ ap₂ (λ q n. (q, n)) (append_assoc queue (retry_payload n ∷ []) _) (omega arith))
    | inr over ↦ rw over (requeue_lem ns queue queued)
  ]

  -- Rows in RETRYING read back as entities.
  to_entities-retrying :
      (rows : List (NotificationRow V))
      → All (λ (r : NotificationRow V). r.status ≡ "retrying") rows
      → to_entities rows ≡ ok (map (λ r. entity_of r retrying) rows)
  unfolding to_entities to_entity status_of_value
  to_entities-retrying [] h = refl
  to_entities-retrying (r ∷ rows) (same, h) = rw (same, to_entities-retrying rows h)

  length-due :
      (rows : List (NotificationRow V))
      → length (filter can_retry (map (λ r. entity_of r retrying) rows)) ≤ length rows
  length-due [] = omega arith
  length-due (r ∷ rows) = elim (Bool-cases (can_retry (entity_of r retrying))) [
    | inl again ↦ rw again (omega (arith, length-due rows))
    | inr over ↦ rw over (omega (arith, length-due rows))
  ]

module _ {V DB : Type 0} (orm : Orm V DB) where
  -- The payloads of the first 100 RETRYING rows that have attempts left.
  abbrev pub due : DB → List (Payload V)
  due db =
      map retry_payload
        (filter can_retry (map (λ r. entity_of r retrying) (orm.filter_status "retrying" 100 db)))

  -- `k` runs of the sweep, one after another.
  unfoldable pub sweeps : ℕ → Shared V DB → Shared V DB
  sweeps zero s = s
  sweeps (suc k) s = sweeps k (retry_pending_notifications orm s).1

  -- The same payloads `k` times.
  abbrev pub times : ℕ → List (Payload V) → List (Payload V)
  times zero payloads = []
  times (suc k) payloads = payloads ++ times k payloads

  module _ (laws : OrmLaws orm) where
    pending_rows :
        (db : DB)
        → get_pending_retries orm 100 db
          ≡ ok (map (λ r. entity_of r retrying) (orm.filter_status "retrying" 100 db))
    unfolding get_pending_retries
    pending_rows db =
        to_entities-retrying _
          (All-map _ _ (λ r h. h.0) _ (laws.filter_status_rows "retrying" 100 db))

    -- One sweep queues the due payloads in order, returns their number, at most 100, and writes
    -- nothing to the database.
    pub sweep_lem :
        (s : Shared V DB)
        → (retry_pending_notifications orm s
            ≡ (ok (length (due s.db)), record { db = s.db; queue = s.queue ++ due s.db }))
          × (length (due s.db) ≤ 100)
    unfolding retry_pending_notifications
    sweep_lem s =
        let rows = orm.filter_status "retrying" 100 s.db in
        let again = filter can_retry (map (λ (r : NotificationRow V). entity_of r retrying) rows) in
        let count = length-map retry_payload again in
        (
          rw (pending_rows s.db, requeue_all, requeue_lem, count, zero-add),
          omega (arith, count, length-due rows, laws.length-filter_status "retrying" 100 s.db),
        )

    pub db-sweep : (s : Shared V DB) → (retry_pending_notifications orm s).1.db ≡ s.db
    db-sweep s = rw (sweep_lem s).0 refl

    -- The rows stay due: `k` sweeps in a row queue the due payloads `k` times, and the database is as
    -- it was.
    pub sweeps_repeat :
        (k : ℕ) (s : Shared V DB)
        → sweeps k s ≡ record { db = s.db; queue = s.queue ++ times k (due s.db) }
    unfolding sweeps
    sweeps_repeat zero s = ap (λ q. record { db = s.db; queue = q }) (sym (append-nil s.queue))
    sweeps_repeat (suc k) s = rw (sweep_lem s).0 (
        sweeps_repeat k (record { db = s.db; queue = s.queue ++ due s.db })
        ∙ ap (λ q. record { db = s.db; queue = q })
            (append_assoc s.queue (due s.db) (times k (due s.db))))
