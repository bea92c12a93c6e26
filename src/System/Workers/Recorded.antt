-- ===== src/System/Workers/Recorded.antt =====
-- The row of a notification while a provider may be sending it, and after its worker has died.
use notifyfork.Common.{ℕ, ◌≡◌, ◌≢◌, refl, String, none, some, List, []}
use notifyfork.Python.Json.{Json}
use notifyfork.Python.Result.{Error, err, Result}
use notifyfork.Python.Template.{Str}
use notifyfork.Domain.Notification.{Notification}
use notifyfork.Application.Interfaces.Provider.{Provider, Host}
use notifyfork.Application.Interfaces.Database.{Orm, OrmLaws}
use notifyfork.Application.UseCase.{Sys}
use notifyfork.Webhooks.Delivery.{UuidText}
use notifyfork.Infrastructure.Repository.{save}
use notifyfork.Infrastructure.Tasks.{retry}
use notifyfork.System.Workers.{after_save, settling, dispatched, advance, Stage, Ready, trying}
use notifyfork.System.Workers.Scene.{owned, stage_of, put_worker, Scene, die, Moves}
use notifyfork.System.Workers.Holds.{Waits}
use notifyfork.System.Workers.Works.{put_worker-cases}
use notifyfork.System.Workers.Quiet.{Silent-Waits, Waits-same, Abandoned, Abandoned-Moves}
use notifyfork.System.Workers.Interleaved.{IsGoodScene-Move, IsGoodScene-Moves, IsGoodScene-empty}

module _ ⦃j : Str Json⦄ {V DB X : Type 0} (orm : Orm V DB) (laws : OrmLaws orm) (host : Host X)
    (uuids : UuidText) {Key : Type 0} (b64decode : String → Result Key)
    (digest : Key → String → String) where
  -- Whenever a worker is in the loop over the candidates, about to call the next, the row of the
  -- notification is stored QUEUED, with no attempt and no message id, and no other worker's dispatch
  -- task is for that notification; so nothing is sent that the database has no record of. The state
  -- is any that interleaved tasks reach from one without notifications, tasks and updates.
  pub calls_recorded :
      (c c' : Scene V DB X)
      → ((i : ℕ) → orm.aget i c.sys.db ≡ none)
      → ((w : ℕ) → c.workers w ≡ none)
      → c.updates ≡ []
      → Moves orm host uuids b64decode digest c c'
      → (w : ℕ) (ready : Ready V X) (error : String) (ps : List (Provider V X)) (n : Notification V)
      → c'.workers w ≡ some (trying ready error ps n)
      → Waits orm c'.sys.db n.id
        × ((v : ℕ) (other : Stage V X)
            → c'.workers v ≡ some other
            → owned other ≡ some n.id
            → v ≡ w)
  calls_recorded c c' no_rows idle no_updates ms w ready error ps n here =
      let g =
        IsGoodScene-Moves orm laws host uuids b64decode digest c c'
          (IsGoodScene-empty orm laws host uuids b64decode digest c no_rows idle no_updates) ms in
      (
        (g.works.holds w (trying ready error ps n) here).1,
        λ v other there own.
            g.works.apart v w n.id other (trying ready error ps n) there here own refl,
      )

  -- If a worker dies in the loop over the candidates, a message of that notification being out or
  -- not, then whatever the program does from then on, the row stays as it is, QUEUED: no task, no
  -- webhook and no other worker ever writes it again.
  pub dead_workers_row_stays :
      (c c' c'' : Scene V DB X)
      → ((i : ℕ) → orm.aget i c.sys.db ≡ none)
      → ((w : ℕ) → c.workers w ≡ none)
      → c.updates ≡ []
      → Moves orm host uuids b64decode digest c c'
      → (w : ℕ) (ready : Ready V X) (error : String) (ps : List (Provider V X)) (n : Notification V)
      → c'.workers w ≡ some (trying ready error ps n)
      → Moves orm host uuids b64decode digest
          (record c' { workers = put_worker w none c'.workers })
          c''
      → Waits orm c''.sys.db n.id × (orm.aget n.id c''.sys.db ≡ orm.aget n.id c'.sys.db)
  dead_workers_row_stays c c' c'' no_rows idle no_updates ms w ready error ps n here later =
      let good =
        IsGoodScene-Moves orm laws host uuids b64decode digest c c'
          (IsGoodScene-empty orm laws host uuids b64decode digest c no_rows idle no_updates) ms in
      let (waits, only) = calls_recorded c c' no_rows idle no_updates ms w ready error ps n here in
      let dead = record c' { workers = put_worker w none c'.workers } in
      let abandoned : Abandoned orm laws host uuids b64decode digest dead n.id = record {
        silent = Silent-Waits orm dead.sys.db n.id waits;
        alone = λ v stage.
            put_worker-cases w v none c'.workers (λ v o. o ≡ some stage → owned stage ≢ some n.id)
              (λ e. cc (e)) (λ ne there own. ne (only v stage there own));
      } in
      let (after, same) =
        Abandoned-Moves orm laws host uuids b64decode digest dead c'' n.id
          (IsGoodScene-Move orm laws host uuids b64decode digest c' dead good (die w)) abandoned
          later in
      (Waits-same orm c'.sys.db c''.sys.db n.id waits same, same)

  save_failed :
      (n : Notification V) (s : Sys DB X) (e : Error)
      → save orm n (host.now s.outside) s.db ≡ err e
      → advance orm host (settling n) s ≡ (dispatched (retry e), s)
  unfolding advance after_save
  save_failed n s e failed = rw failed

  -- If the second `save` of a dispatch task fails, be it after a provider has taken the message, the
  -- task ends, and whatever the program does from then on, the row stays as it is, QUEUED and without
  -- a message id: no retry, no other task and no webhook ever writes it again. The state is any that
  -- interleaved tasks reach from one without notifications, tasks and updates.
  pub failed_save_row_stays :
      (c c' c'' : Scene V DB X)
      → ((i : ℕ) → orm.aget i c.sys.db ≡ none)
      → ((w : ℕ) → c.workers w ≡ none)
      → c.updates ≡ []
      → Moves orm host uuids b64decode digest c c'
      → (w : ℕ) (n : Notification V) (e : Error) → c'.workers w ≡ some (settling n)
      → save orm n (host.now c'.sys.outside) c'.sys.db ≡ err e
      → Moves orm host uuids b64decode digest
          (record c' {
            sys = (advance orm host (settling n) c'.sys).1;
            workers = put_worker w (stage_of (advance orm host (settling n) c'.sys).0) c'.workers;
          })
          c''
      → Waits orm c''.sys.db n.id × (orm.aget n.id c''.sys.db ≡ orm.aget n.id c'.sys.db)
  failed_save_row_stays c c' c'' no_rows idle no_updates ms w n e here failed later =
      let good =
        IsGoodScene-Moves orm laws host uuids b64decode digest c c'
          (IsGoodScene-empty orm laws host uuids b64decode digest c no_rows idle no_updates) ms in
      let waits : Waits orm c'.sys.db n.id = (good.works.holds w (settling n) here).1 in
      let ended = record c' { workers = put_worker w none c'.workers } in
      let later' : Moves orm host uuids b64decode digest ended c'' =
        rw (save_failed n c'.sys e failed) at later in
      let abandoned : Abandoned orm laws host uuids b64decode digest ended n.id = record {
        silent = Silent-Waits orm ended.sys.db n.id waits;
        alone = λ v stage.
            put_worker-cases w v none c'.workers (λ v o. o ≡ some stage → owned stage ≢ some n.id)
              (λ e. cc (e))
              (λ ne there own.
                ne (good.works.apart v w n.id stage (settling n) there here own refl));
      } in
      let (after, same) =
        Abandoned-Moves orm laws host uuids b64decode digest ended c'' n.id
          (IsGoodScene-Move orm laws host uuids b64decode digest c' ended good (die w)) abandoned
          later' in
      (Waits-same orm c'.sys.db c''.sys.db n.id waits same, same)
