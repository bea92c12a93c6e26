-- ===== src/System/Sound.antt =====
-- The two tasks keep every row sound.
use mathlib.Core.Option.{some-injective}
use notifyfork.Common.{
  ℕ, String, ◌≡◌, refl, sym, subst, ◌∙◌, false, Option, none, some, List, nat_eq, nat_eq_iff,
  Bool-cases, inl, inr,
}
use notifyfork.Python.Result.{Result}
use notifyfork.Domain.Notification.{
  NotificationStatus, pending, queued, sent, delivered, delivery_failed, failed, retrying,
  status_is_terminal,
}
use notifyfork.Domain.Notification.Status.{status_of_value}
use notifyfork.Application.Interfaces.Provider.{Provider, Host}
use notifyfork.Application.Interfaces.Database.{NotificationRow, Orm, OrmLaws}
use notifyfork.Application.UseCase.{Sys}
use notifyfork.Application.Dto.{Payload}
use notifyfork.Application.Dto.Range.{InRange}
use notifyfork.Infrastructure.Tasks.{Task, finished, retry, dispatch_notification}
use notifyfork.Infrastructure.Tasks.Dispatch.{dispatch_others}
use notifyfork.Webhooks.Delivery.{UuidText, Update, process_delivery_update}
use notifyfork.Webhooks.Delivery.Laws.{updated, process_cases}
use notifyfork.System.Rows.{HasMessage, Fits, IsSound}
use notifyfork.System.Created.{NewRow, absent, present, NewRow-dispatch}
use notifyfork.System.Updates.{process_retry_keeps}
use notifyfork.System.Queue.{Names}

module _ {V : Type 0} where
  -- A confirmation of a row that has a message id keeps it sound: such a row is SENT.
  pub updated-IsSound :
      (u : Update) (row : NotificationRow V) (st : NotificationStatus)
      → Fits st row
      → InRange row.max_attempts
      → HasMessage row
      → status_is_terminal st ≡ false
      → IsSound (updated u row)
  unfolding status_is_terminal status_of_value
  updated-IsSound u row pending fits range message live = absurd fits
  updated-IsSound u row queued fits range message live = absurd (message fits.2)
  updated-IsSound u row sent fits range message live = elim (Bool-cases u.delivered) [
    | inl good ↦ rw good (record { status = delivered; known = refl; fits = fits; range = range })
    | inr poor ↦ rw poor (record {
      status = delivery_failed;
      known = refl;
      fits = (fits.0, fits.1, fits.2, (λ e. cc));
      range = range;
    })
  ]
  updated-IsSound u row delivered fits range message live = cc
  updated-IsSound u row delivery_failed fits range message live = cc
  updated-IsSound u row failed fits range message live = cc
  updated-IsSound u row retrying fits range message live = absurd (message fits.3)

  NewRow-IsSound :
      {o : Option (NotificationRow V)} (row : NotificationRow V)
      → NewRow o
      → o ≡ some row
      → IsSound row
  NewRow-IsSound row absent e = cc
  NewRow-IsSound row (present {row = new} sound) e = subst IsSound (some-injective new row e) sound

module _ {V DB X : Type 0} (orm : Orm V DB) (laws : OrmLaws orm) (host : Host X)
    (uuids : UuidText) where
  abbrev pub AllSound : DB → Type 0
  AllSound db = (j : ℕ) (row : NotificationRow V) → orm.aget j db ≡ some row → IsSound row

  AllSound-finished :
      (u : Update) (s s' : Sys DB X) (r : Task String)
      → process_delivery_update orm host uuids u s ≡ (r, s')
      → Names orm uuids s.db u
      → AllSound s.db
      → AllSound s'.db
  AllSound-finished u s s' (retry e) h n sound j row' read =
      sound j row' (rw (process_retry_keeps orm laws host uuids u s s' e h) at read)
  AllSound-finished u s s' (finished t) h n sound j row' read =
      let good : IsSound n.row = sound n.uid n.row n.stored in
      elim (process_cases orm laws host uuids u s s' n.uid n.row good.status t
        (record { named = n.named; stored = n.stored; status = good.known }) h) [
          | inl (over, _, same) ↦ sound j row' (rw same at read)
          | inr (live, written, others) ↦ elim (Bool-cases (nat_eq j n.uid)) [
            | inl found ↦
                subst IsSound
                  (some-injective _ row'
                    (sym written ∙ (rw ((nat_eq_iff j n.uid).0 found) at read)))
                  (updated-IsSound u n.row good.status good.fits good.range n.message live)
            | inr other ↦
                sound j row' (sym (others j (λ same. cc ((nat_eq_iff j n.uid).1 same))) ∙ read)
          ]
        ]

  pub AllSound-update :
      (u : Update) (s : Sys DB X)
      → Names orm uuids s.db u
      → AllSound s.db
      → AllSound (process_delivery_update orm host uuids u s).1.db
  AllSound-update u s n sound =
      let (r, s') = process_delivery_update orm host uuids u s in
      AllSound-finished u s s' r refl n sound

  pub AllSound-dispatch :
      (providers : Result (List (Provider V X))) (payload : Payload V) (s : Sys DB X)
      → orm.aget (host.uuid4 s.outside).0 s.db ≡ none
      → AllSound s.db
      → AllSound (dispatch_notification orm host providers payload s).1.db
  AllSound-dispatch providers payload s fresh sound j row read =
      let id = (host.uuid4 s.outside).0 in
      elim (Bool-cases (nat_eq j id)) [
        | inl own ↦
            NewRow-IsSound row (NewRow-dispatch orm laws host providers payload s fresh)
              (rw ((nat_eq_iff j id).0 own) at read)
        | inr other ↦
            let same =
              dispatch_others orm laws host providers payload s j
                (λ same. cc ((nat_eq_iff j id).1 same)) in
            sound j row (sym same ∙ read)
      ]
