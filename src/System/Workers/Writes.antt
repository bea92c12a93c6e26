-- ===== src/System/Workers/Writes.antt =====
-- What an advance of a task does to the database, and what holds of the task after it.
use mathlib.Core.Option.{some-injective}
use notifyfork.Common.{Bool-cases, inl, inr, sym, ℕ, ◌≡◌, refl, ap, ◌∙◌, false, Option, some}
use notifyfork.Python.Result.{ok}
use notifyfork.Domain.Notification.{
  NotificationStatus, pending, queued, sent, delivered, delivery_failed, failed, retrying,
  Notification, mark_queued, status_is_terminal,
}
use notifyfork.Domain.Notification.Status.{status_value}
use notifyfork.Application.Interfaces.Database.{NotificationRow, Orm, OrmLaws, row_of}
use notifyfork.Application.UseCase.{conclude, new_notification}
use notifyfork.Application.UseCase.Settled.{id-conclude}
use notifyfork.Infrastructure.Repository.{save, entity_of, defaults_of}
use notifyfork.Infrastructure.Repository.Laws.{aget-save_at}
use notifyfork.Webhooks.Delivery.{Update, mark_update}
use notifyfork.Webhooks.Delivery.Laws.{id-mark_update, updated}
use notifyfork.Webhooks.Delivery.Overlap.{row-written_over}
use notifyfork.System.Rows.{Fits, IsSound, queued-IsSound, settled-IsSound}
use notifyfork.System.Sound.{updated-IsSound}
use notifyfork.System.Workers.Holds.{
  IsClosed, core, IsNew, IsTried, WasRead, Waits, Messaged, Wrote,
}

module _ {V : Type 0} where
  abbrev at_times : ℕ → Option ℕ → NotificationRow V → NotificationRow V
  at_times c d row = record row { created_at = c; delivered_at = d }

  at_times-Fits :
      (st : NotificationStatus) (row : NotificationRow V) (c : ℕ) (d : Option ℕ)
      → Fits st row
      → Fits st (at_times c d row)
  at_times-Fits pending row c d h = h
  at_times-Fits queued row c d h = h
  at_times-Fits sent row c d h = h
  at_times-Fits delivered row c d h = h
  at_times-Fits delivery_failed row c d h = h
  at_times-Fits failed row c d h = h
  at_times-Fits retrying row c d h = h

  updated-IsClosed : (u : Update) (row : NotificationRow V) → IsClosed (updated u row)
  updated-IsClosed u row = elim (Bool-cases u.delivered) [
    | inl good ↦ inl (rw good refl)
    | inr poor ↦ inr (rw poor refl)
  ]

  -- The two columns that `save` does not write are not among those that the status speaks of.
  at_times-IsSound :
      (row : NotificationRow V) (c : ℕ) (d : Option ℕ) → IsSound row → IsSound (at_times c d row)
  at_times-IsSound row c d h = record {
    status = h.status;
    known = h.known;
    fits = at_times-Fits h.status row c d h.fits;
    range = h.range;
  }

  pub new-IsSound :
      (n : Notification V) (c : ℕ) (d : Option ℕ)
      → IsNew n
      → IsSound (row_of n.id (defaults_of n) c d)
  unfolding new_notification mark_queued
  new-IsSound n c d h = rw (h.same) (queued-IsSound h.dto h.range h.id h.start c d)

  pub tried-IsSound :
      (n : Notification V) (c : ℕ) (d : Option ℕ)
      → IsTried n
      → IsSound (row_of n.id (defaults_of n) c d)
  unfolding conclude
  tried-IsSound n c d h =
      rw (h.same, id-conclude h.dto h.id h.start h.verdict h.now)
        (settled-IsSound h.dto h.range h.id h.start c d h.verdict h.now)

module _ {V DB : Type 0} (orm : Orm V DB) (laws : OrmLaws orm) where
  -- A `save` under an id without a message.
  pub Wrote-save :
      (n : Notification V) (now : ℕ) (db db' : DB)
      → ((c : ℕ) (d : Option ℕ) → IsSound (row_of n.id (defaults_of n) c d))
      → ¬ Messaged orm db n.id
      → save orm n now db ≡ ok db'
      → Wrote orm db db' n.id
  Wrote-save n now db db' sound fresh saved =
      let (stored, others) = aget-save_at orm laws n n.id now db db' refl saved in
      record {
        row = row_of n.id (defaults_of n) _ _;
        stored = stored;
        others = others;
        sound = sound _ _;
        keeps = λ m. absurd (fresh m);
        closes = λ m. absurd (fresh m);
      }

  pub Waits-save :
      (n : Notification V) (now : ℕ) (db db' : DB)
      → IsNew n
      → save orm n now db ≡ ok db'
      → Waits orm db' n.id
  unfolding defaults_of new_notification mark_queued status_value
  Waits-save n now db db' h saved =
      let (stored, others) = aget-save_at orm laws n n.id now db db' refl saved in
      record {
        row = row_of n.id (defaults_of n) _ _;
        stored = stored;
        status = rw (h.same);
        attempts = rw (h.same);
        no_message = rw (h.same);
      }

  -- A `save` of an updated notification, that was read from `row` at some time before.
  pub Wrote-update :
      (u : Update) (n : Notification V) (now : ℕ) (db db' : DB) (h : WasRead n)
      (m : Messaged orm db n.id)
      → core m.row ≡ core h.row
      → status_is_terminal h.status ≡ false
      → save orm (mark_update u now n) now db ≡ ok db'
      → Wrote orm db db' n.id
  unfolding entity_of
  Wrote-update u n now db db' h m kept live saved =
      let old_core : (m' : Messaged orm db n.id) → core h.row ≡ core m'.row =
        λ m'. sym kept ∙ ap core (some-injective m.row m'.row (sym m.stored ∙ m'.stored)) in
      let core-same = rw h.same at old_core in
      let read = entity_of h.row h.status in
      let saved' = rw h.same at saved in
      let (stored, others) =
        aget-save_at orm laws (mark_update u now read) h.row.id now db db'
          (id-mark_update u now h.row h.status) saved' in
      let old = at_times _ _ h.row in
      let same_row = row-written_over u now h.row old h.status in
      rw (h.same) (record {
        row = at_times old.created_at old.delivered_at (updated u h.row);
        stored = stored ∙ ap some same_row;
        others = others;
        sound =
            at_times-IsSound (updated u h.row) old.created_at old.delivered_at
              (updated-IsSound u h.row h.status h.fits h.range h.message live);
        keeps = λ m'. (h.message, core-same m');
        closes = λ m'. updated-IsClosed u h.row;
      })
