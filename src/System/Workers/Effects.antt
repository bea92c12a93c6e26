-- ===== src/System/Workers/Effects.antt =====
-- What an advance leaves of the rows and of the queued updates, and what a delivery task has read.
use mathlib.Core.Option.{some-injective}
use notifyfork.Common.{refl, ℕ, ◌≡◌, sym, subst, ◌∙◌, some}
use notifyfork.Python.Result.{ok}
use notifyfork.Domain.Notification.{Notification}
use notifyfork.Application.Interfaces.Provider.{Host}
use notifyfork.Application.Interfaces.Database.{Orm, OrmLaws}
use notifyfork.Infrastructure.Repository.{get_by_id, entity_of}
use notifyfork.Webhooks.Delivery.{UuidText, Update}
use notifyfork.Webhooks.Delivery.Laws.{get_by_id-Addresses}
use notifyfork.System.Queue.{Names}
use notifyfork.System.Sound.{AllSound}
use notifyfork.System.Workers.{Stage}
use notifyfork.System.Workers.Holds.{core, WasRead, Messaged, Wrote-AllSound, Wrote-Names}
use notifyfork.System.Workers.Advances.{Effect, unchanged, wrote}

module _ {V DB X : Type 0} (orm : Orm V DB) (laws : OrmLaws orm) (host : Host X)
    (uuids : UuidText) where
  pub AllSound-Effect :
      (db db' : DB) (stage : Stage V X)
      → Effect orm db db' stage
      → AllSound orm laws host uuids db
      → AllSound orm laws host uuids db'
  AllSound-Effect db db' stage (unchanged same) h =
      subst (AllSound orm laws host uuids) (sym same) h
  AllSound-Effect db db' stage (wrote i w why) h = Wrote-AllSound orm laws host uuids db db' i w h

  pub Names-Effect :
      (db db' : DB) (stage : Stage V X)
      → Effect orm db db' stage
      → (u : Update) → Names orm uuids db u
      → Names orm uuids db' u
  Names-Effect db db' stage (unchanged same) u h = subst (λ d. Names orm uuids d u) (sym same) h
  Names-Effect db db' stage (wrote i w why) u h = Wrote-Names orm laws host uuids db db' i u w h

  -- What a delivery task has read, of a notification that was sent.
  pub Holds-closing :
      (db : DB) (u : Update) (uid : ℕ) (n : Notification V)
      → AllSound orm laws host uuids db
      → Names orm uuids db u
      → uuids.of_text u.notification_id ≡ some uid
      → get_by_id orm uid db ≡ ok (some n)
      → (h : WasRead n) × (m : Messaged orm db n.id) × (core m.row ≡ core h.row)
  unfolding entity_of
  Holds-closing db u uid n sound named same_uid got =
      let good = sound named.uid named.row named.stored in
      let id : named.uid ≡ uid = some-injective named.uid uid (sym named.named ∙ same_uid) in
      let got' : ok (some (entity_of named.row good.status)) ≡ ok (some n) =
        sym (
          get_by_id-Addresses orm laws host uuids u db named.uid named.row good.status
            (record { named = named.named; stored = named.stored; status = good.known }))
        ∙ rw id got in
      let same : n ≡ entity_of named.row good.status = cc (got') in
      subst
        (λ (k : Notification V).
          (h : WasRead k) × (m : Messaged orm db k.id) × (core m.row ≡ core h.row))
        (sym same)
        (
          record {
            row = named.row;
            status = good.status;
            same = refl;
            known = good.known;
            fits = good.fits;
            range = good.range;
            message = named.message;
          },
          record {
            row = named.row;
            stored =
                subst (λ i. orm.aget i db ≡ some named.row)
                  (sym (laws.aget_id named.uid db named.row named.stored)) named.stored;
            message = named.message;
          },
          refl,
        )
