-- ===== src/System/Workers/Kept.antt =====
-- What interleaved tasks leave of a row that was sent.
use notifyfork.Common.{◌⊎◌, inl, inr, sym, subst, ℕ, ◌≡◌, refl, ◌∙◌, String, none, some, []}
use notifyfork.Python.Json.{Json}
use notifyfork.Python.Result.{Result}
use notifyfork.Python.Template.{Str}
use notifyfork.Application.Interfaces.Provider.{Host}
use notifyfork.Application.Interfaces.Database.{NotificationRow, Orm, OrmLaws}
use notifyfork.Webhooks.Delivery.{UuidText}
use notifyfork.System.Rows.{HasMessage}
use notifyfork.System.Workers.{Stage, prepare, begin}
use notifyfork.System.Workers.Scene.{
  Scene, Move, start, read, go_on, die, leave, twilio, sendgrid, resend, elsewhere, Moves, still,
  then,
}
use notifyfork.System.Workers.Holds.{IsClosed, core, Messaged, Wrote-Messaged}
use notifyfork.System.Workers.Advances.{Effect, unchanged, wrote, advance-Advanced}
use notifyfork.System.Workers.Works.{begin_ready_db}
use notifyfork.System.Workers.Interleaved.{IsGoodScene, IsGoodScene-Moves, IsGoodScene-empty}

module _ {V DB : Type 0} (orm : Orm V DB) where
  -- The row is as it was, or closed.
  abbrev SameOrClosed : (row row' : NotificationRow V) → Type 0
  SameOrClosed row row' = (row' ≡ row) ⊎ IsClosed row'

  SameOrClosed-trans :
      (row row' row'' : NotificationRow V)
      → SameOrClosed row row'
      → SameOrClosed row' row''
      → SameOrClosed row row''
  SameOrClosed-trans row row' row'' first (inr closed) = inr closed
  SameOrClosed-trans row row' row'' (inl before) (inl same) = inl (same ∙ before)
  SameOrClosed-trans row row' row'' (inr closed) (inl same) = inr (subst IsClosed (sym same) closed)

  -- The row at the id still has a message id, and the same core, and is the same unless it is closed.
  abbrev Keeps : (db db' : DB) (i : ℕ) → Messaged orm db i → Type 0
  Keeps db db' i m =
      (m' : Messaged orm db' i) × (core m'.row ≡ core m.row) × SameOrClosed m.row m'.row

  Keeps-same : (db db' : DB) (i : ℕ) (m : Messaged orm db i) → db' ≡ db → Keeps db db' i m
  Keeps-same db db' i m same =
      (record { row = m.row; stored = rw same m.stored; message = m.message }, refl, inl refl)

  Keeps-Effect :
      {X : Type 0} (db db' : DB) (stage : Stage V X) (i : ℕ) (m : Messaged orm db i)
      → Effect orm db db' stage
      → Keeps db db' i m
  Keeps-Effect db db' stage i m (unchanged same) = Keeps-same db db' i m same
  Keeps-Effect db db' stage i m (wrote k w why) = Wrote-Messaged orm db db' k i w m

module _ ⦃j : Str Json⦄ {V DB X : Type 0} (orm : Orm V DB) (laws : OrmLaws orm) (host : Host X)
    (uuids : UuidText) {Key : Type 0} (b64decode : String → Result Key)
    (digest : Key → String → String) where
  Keeps-Move :
      (c c' : Scene V DB X) (i : ℕ) (m : Messaged orm c.sys.db i)
      → IsGoodScene orm laws host uuids b64decode digest c
      → Move orm host uuids b64decode digest c c'
      → Keeps orm c.sys.db c'.sys.db i m
  unfolding begin
  Keeps-Move c c' i m g (start w providers payload idle fresh free) =
      Keeps-same orm c.sys.db _ i m
        (begin_ready_db orm host (prepare orm host providers payload c.sys.db) c.sys)
  Keeps-Move c c' i m g (go_on w stage here) =
      Keeps-Effect orm c.sys.db _ stage i m
        (advance-Advanced orm laws host stage c.sys (g.works.holds w stage here)).effect
  Keeps-Move c c' i m g (read w u uid n idle mem named got) = (m, refl, inl refl)
  Keeps-Move c c' i m g (die w) = (m, refl, inl refl)
  Keeps-Move c c' i m g (leave before after u taken) = (m, refl, inl refl)
  Keeps-Move c c' i m g (twilio validate token request) = (m, refl, inl refl)
  Keeps-Move c c' i m g (sendgrid verify key request) = (m, refl, inl refl)
  Keeps-Move c c' i m g (resend secret request) = (m, refl, inl refl)
  Keeps-Move c c' i m g (elsewhere x) = (m, refl, inl refl)

  Keeps-Moves :
      (c c' : Scene V DB X) (i : ℕ) (m : Messaged orm c.sys.db i)
      → IsGoodScene orm laws host uuids b64decode digest c
      → Moves orm host uuids b64decode digest c c'
      → Keeps orm c.sys.db c'.sys.db i m
  Keeps-Moves c c' i m g still = (m, refl, inl refl)
  Keeps-Moves c c' i m g (then {d = d} ms move) =
      let (m', same, first) = Keeps-Moves c d i m g ms in
      let (m'', step, second) =
        Keeps-Move d c' i m' (IsGoodScene-Moves orm laws host uuids b64decode digest c d g ms)
          move in
      (m'', step ∙ same, SameOrClosed-trans orm m.row m'.row m''.row first second)

  -- Once a notification is stored with the id of its message, no interleaving of tasks loses it, nor
  -- any column but the status, the error, `created_at` and `delivered_at`: tasks that overlap, and
  -- save what they read before, differ in these four at most. The state is any that interleaved tasks
  -- reach from one without notifications, tasks and updates.
  pub sent_columns_stay :
      (c c' c'' : Scene V DB X)
      → ((i : ℕ) → orm.aget i c.sys.db ≡ none)
      → ((w : ℕ) → c.workers w ≡ none)
      → c.updates ≡ []
      → Moves orm host uuids b64decode digest c c'
      → Moves orm host uuids b64decode digest c' c''
      → (i : ℕ) (row : NotificationRow V) → orm.aget i c'.sys.db ≡ some row
      → HasMessage row
      → (row' : NotificationRow V) × (orm.aget i c''.sys.db ≡ some row') × (core row' ≡ core row)
  sent_columns_stay c c' c'' no_rows idle no_updates ms later i row stored message =
      let good =
        IsGoodScene-Moves orm laws host uuids b64decode digest c c'
          (IsGoodScene-empty orm laws host uuids b64decode digest c no_rows idle no_updates) ms in
      let (m, same, after) =
        Keeps-Moves c' c'' i (record { row = row; stored = stored; message = message }) good
          later in
      (m.row, m.stored, same)

  -- Once a notification is stored with the id of its message, then in every later state its row is
  -- the same, or DELIVERED or DELIVERY_FAILED: no task that overlaps, nor one that saves what it read
  -- before, takes it back to SENT, QUEUED, RETRYING or FAILED. The state is any that interleaved
  -- tasks reach from one without notifications, tasks and updates.
  pub sent_rows_only_close :
      (c c' c'' : Scene V DB X)
      → ((i : ℕ) → orm.aget i c.sys.db ≡ none)
      → ((w : ℕ) → c.workers w ≡ none)
      → c.updates ≡ []
      → Moves orm host uuids b64decode digest c c'
      → Moves orm host uuids b64decode digest c' c''
      → (i : ℕ) (row : NotificationRow V) → orm.aget i c'.sys.db ≡ some row
      → HasMessage row
      → (row' : NotificationRow V) × (orm.aget i c''.sys.db ≡ some row')
        × ((row' ≡ row) ⊎ (row'.status ≡ "delivered") ⊎ (row'.status ≡ "delivery_failed"))
  sent_rows_only_close c c' c'' no_rows idle no_updates ms later i row stored message =
      let good =
        IsGoodScene-Moves orm laws host uuids b64decode digest c c'
          (IsGoodScene-empty orm laws host uuids b64decode digest c no_rows idle no_updates) ms in
      let (m, same, after) =
        Keeps-Moves c' c'' i (record { row = row; stored = stored; message = message }) good
          later in
      (m.row, m.stored, after)
