-- ===== src/System/Swept.antt =====
-- What the sweep finds in the states that the program can reach.
use mathlib.Core.List.{Memᴰ}
use notifyfork.Common.{
  ℕ, ◌≤◌, ◌≡◌, ◌⊎◌, refl, sym, ap, subst, ◌∙◌, true, Bool, String, none, some, List, [], ◌∷◌, ◌++◌,
  map, filter, length, All, All-map, arith,
}
use notifyfork.Python.Json.{Json}
use notifyfork.Python.Result.{Result, ok}
use notifyfork.Python.Template.{Str}
use notifyfork.Domain.Notification.{
  NotificationStatus, pending, queued, sent, delivered, delivery_failed, failed, retrying,
  Notification, can_retry,
}
use notifyfork.Domain.Notification.Status.{status_of_value}
use mathlib.Core.Option.{some-injective}
use notifyfork.Application.Dto.{Payload}
use notifyfork.Application.Interfaces.Provider.{Host}
use notifyfork.Application.Interfaces.Database.{NotificationRow, Orm, OrmLaws}
use notifyfork.Infrastructure.Repository.{entity_of}
use notifyfork.Infrastructure.Tasks.{retry_payload, retry_pending_notifications}
use notifyfork.Infrastructure.Tasks.Sweep.{due, sweep_lem, length-map}
use notifyfork.Webhooks.Delivery.{UuidText}
use notifyfork.System.{World, Reach}
use notifyfork.System.Rows.{IsSound, Fits}
use notifyfork.System.Invariant.{reachable_rows-IsSound}

filter_all {ℓ} :
    {A : Type ℓ} (p : A → Bool) (xs : List A) → All (λ x. p x ≡ true) xs → filter p xs ≡ xs
filter_all p [] h = refl
filter_all p (x ∷ xs) (kept, h) = rw (kept) (ap (λ t. x ∷ t) (filter_all p xs h))

map-map :
    {A B C : Type 0} (f : A → B) (g : B → C) (xs : List A)
    → map g (map f xs) ≡ map (λ x. g (f x)) xs
map-map f g [] = refl
map-map f g (x ∷ xs) = ap (λ t. g (f x) ∷ t) (map-map f g xs)

module _ {V : Type 0} where
  -- The payload with which the sweep queues a row again.
  abbrev pub again : NotificationRow V → Payload V
  again row = retry_payload (entity_of row retrying)

  -- A sound RETRYING row has an attempt left.
  can_retry-IsSound :
      (row : NotificationRow V)
      → IsSound row
      → row.status ≡ "retrying"
      → can_retry (entity_of row retrying) ≡ true
  unfolding can_retry entity_of status_of_value
  can_retry-IsSound row h same =
      let known = rw same at h.known in
      let status : retrying ≡ h.status = some-injective retrying h.status known in
      let (attempts, left, _, _) = subst (λ st. Fits st row) (sym status) h.fits in
      rw attempts (ground (arith, left))

  few_attempts :
      (st : NotificationStatus) (row : NotificationRow V) → Fits st row → row.attempts ≤ 1
  few_attempts pending row fits = absurd fits
  few_attempts queued row fits = omega (arith, fits.0)
  few_attempts sent row fits = omega (arith, fits.0)
  few_attempts delivered row fits = omega (arith, fits.0)
  few_attempts delivery_failed row fits = omega (arith, fits.0)
  few_attempts failed row fits = omega (arith, fits.0)
  few_attempts retrying row fits = omega (arith, fits.0)

  in_bounds :
      (row : NotificationRow V)
      → IsSound row
      → (row.attempts ≤ 1) × (1 ≤ row.max_attempts) × (row.max_attempts ≤ 5)
  in_bounds row h = (few_attempts h.status row h.fits, h.range.0, h.range.1)

  All-can_retry :
      (rows : List (NotificationRow V))
      → All (λ (row : NotificationRow V). can_retry (entity_of row retrying) ≡ true) rows
      → All (λ (n : Notification V). can_retry n ≡ true) (map (λ r. entity_of r retrying) rows)
  All-can_retry [] h = tt
  All-can_retry (row ∷ rows) (left, h) = (left, All-can_retry rows h)

module _ ⦃j : Str Json⦄ {V DB X : Type 0} (orm : Orm V DB) (laws : OrmLaws orm) (host : Host X)
    (uuids : UuidText) {Key : Type 0} (b64decode : String → Result Key)
    (digest : Key → String → String) where
  -- In every state that the program reaches, each task in one piece, from one without notifications
  -- and updates, each row
  -- has from 1 to 5 attempts to make and has made at most one of them, and the sweep's test of
  -- `can_retry` turns none away: it queues, in order, one payload for each row that its query
  -- finds, at most 100, and returns their number; a RETRYING row that is not found is beyond the
  -- limit.
  pub sweep_in_reachable :
      (w w' : World V DB X)
      → ((i : ℕ) → orm.aget i w.sys.db ≡ none)
      → w.updates ≡ []
      → Reach orm host uuids b64decode digest w w'
      → ((i : ℕ) (row : NotificationRow V)
          → orm.aget i w'.sys.db ≡ some row
          → (row.attempts ≤ 1) × (1 ≤ row.max_attempts) × (row.max_attempts ≤ 5))
        × (retry_pending_notifications orm (record { db = w'.sys.db; queue = w'.jobs }) ≡ (
          ok (length (orm.filter_status "retrying" 100 w'.sys.db)),
          record {
            db = w'.sys.db;
            queue = w'.jobs ++ map again (orm.filter_status "retrying" 100 w'.sys.db);
          },
        ))
        × (length (orm.filter_status "retrying" 100 w'.sys.db) ≤ 100)
        × ((i : ℕ) (row : NotificationRow V)
            → orm.aget i w'.sys.db ≡ some row
            → row.status ≡ "retrying"
            → (100 ≤ length (orm.filter_status "retrying" 100 w'.sys.db))
              ⊎ Memᴰ row (orm.filter_status "retrying" 100 w'.sys.db))
  sweep_in_reachable w w' no_rows no_updates r =
      let db = w'.sys.db in
      let rows = orm.filter_status "retrying" 100 db in
      let sound =
        reachable_rows-IsSound orm laws host uuids b64decode digest w w' no_rows no_updates r in
      let left =
        filter_all can_retry (map (λ (row : NotificationRow V). entity_of row retrying) rows) (
          All-can_retry rows (
            All-map _ _
              (λ row (h : (row.status ≡ "retrying") × (orm.aget row.id db ≡ some row)).
                can_retry-IsSound row (sound row.id row h.1) h.0)
              rows (laws.filter_status_rows "retrying" 100 db))) in
      let queued : due orm db ≡ map again rows =
        ap (map retry_payload) left ∙ map-map (λ row. entity_of row retrying) retry_payload rows in
      let swept = (sweep_lem orm laws (record { db = db; queue = w'.jobs })).0 in
      (
        λ i row stored. in_bounds row (sound i row stored),
        swept
            ∙ ap
                (λ (ps : List (Payload V)).
                  (ok (length ps), record { db = db; queue = w'.jobs ++ ps }))
                queued
            ∙ ap (λ n. (ok n, record { db = db; queue = w'.jobs ++ map again rows }))
                (length-map again rows),
        laws.length-filter_status "retrying" 100 db,
        λ i row stored same. laws.filter_status_complete "retrying" 100 db i row stored same,
      )
