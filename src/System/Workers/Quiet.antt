-- ===== src/System/Workers/Quiet.antt =====
-- Rows that no task writes any more, however the tasks interleave.
use mathlib.Core.Option.{some-injective}
use notifyfork.Common.{
  ℕ, ◌≡◌, ◌≢◌, refl, sym, ap, subst, ◌∙◌, String, Option, none, some, [], inl, inr,
}
use notifyfork.Python.Json.{Json}
use notifyfork.Python.Result.{Result, ok, err}
use notifyfork.Python.Template.{Str}
use notifyfork.Domain.Notification.{NotificationStatus, failed, retrying, mark_queued}
use notifyfork.Application.Interfaces.Provider.{Host}
use notifyfork.Application.Interfaces.Database.{NotificationRow, Orm, OrmLaws}
use notifyfork.Application.UseCase.{Sys, new_notification}
use notifyfork.Webhooks.Delivery.{UuidText}
use notifyfork.System.{IsFreshId}
use notifyfork.System.Workers.{
  Stage, Ready, trying, queuing, settling, closing, prepare, begin_ready, begin, advance,
}
use notifyfork.System.Workers.Scene.{
  owned, stage_of, put_worker, Scene, Move, start, read, go_on, die, leave, twilio, sendgrid,
  resend, elsewhere, Moves, still, then,
}
use notifyfork.System.Workers.Holds.{Holds, Waits, Messaged}
use notifyfork.System.Workers.Advances.{Effect, unchanged, wrote, advance-Advanced}
use notifyfork.System.Workers.Works.{put_worker-cases, Follows-some, begin_ready_db}
use notifyfork.System.Workers.Interleaved.{IsGoodScene, IsGoodScene-Moves, IsGoodScene-empty}
use notifyfork.System.Rows.{Fits, IsSound}
use notifyfork.Domain.Notification.Status.{status_of_value}
use notifyfork.Common.{◌⊎◌, eq_iff}

module _ {V : Type 0} where
  -- The row is not QUEUED and has no message id: FAILED or RETRYING, or SENT by a provider that gave
  -- no id.
  abbrev pub IsUnconfirmable : NotificationRow V → Type 0
  IsUnconfirmable row =
      (row.status ≡ "failed")
      ⊎ (row.status ≡ "retrying")
      ⊎ ((row.status ≡ "sent") × (row.provider_message_id ≡ none))

  Fits-status :
      (row : NotificationRow V) (st : NotificationStatus)
      → IsSound row
      → status_of_value row.status ≡ some st
      → Fits st row
  Fits-status row st sound known =
      subst (λ t. Fits t row) (some-injective sound.status st (sym sound.known ∙ known)) sound.fits

  no_message :
      (row : NotificationRow V) → IsSound row → IsUnconfirmable row → row.provider_message_id ≡ none
  unfolding status_of_value
  no_message row sound (inl same) = (Fits-status row failed sound (rw same refl)).3
  no_message row sound (inr (inl same)) = (Fits-status row retrying sound (rw same refl)).3
  no_message row sound (inr (inr (same, missing))) = missing

  not_queued : (row : NotificationRow V) → IsUnconfirmable row → row.status ≢ "queued"
  not_queued row (inl same) e = cc ((eq_iff "failed" "queued").1 (sym same ∙ e))
  not_queued row (inr (inl same)) e = cc ((eq_iff "retrying" "queued").1 (sym same ∙ e))
  not_queued row (inr (inr (same, missing))) e = cc ((eq_iff "sent" "queued").1 (sym same ∙ e))

module _ {V DB : Type 0} (orm : Orm V DB) where
  -- The row has no message id.
  pub record Silent (db : DB) (i : ℕ) : Type 0 where
    pub row : NotificationRow V
    pub stored : orm.aget i db ≡ some row
    pub no_message : row.provider_message_id ≡ none

  Silent-not_sent : (db : DB) (i : ℕ) → Silent db i → ¬ Messaged orm db i
  Silent-not_sent db i h m =
      let same : h.row ≡ m.row = some-injective h.row m.row (sym h.stored ∙ m.stored) in
      m.message (ap (λ r. r.provider_message_id) (sym same) ∙ h.no_message)

  pub Silent-Waits : (db : DB) (i : ℕ) → Waits orm db i → Silent db i
  Silent-Waits db i h = record { row = h.row; stored = h.stored; no_message = h.no_message }

  pub Waits-same :
      (db db' : DB) (i : ℕ) → Waits orm db i → orm.aget i db' ≡ orm.aget i db → Waits orm db' i
  Waits-same db db' i h same = record {
    row = h.row;
    stored = same ∙ h.stored;
    status = h.status;
    attempts = h.attempts;
    no_message = h.no_message;
  }

  -- A task owns no row that is stored with another status than QUEUED.
  owned-queued :
      {X : Type 0} (db : DB) (i : ℕ) (row : NotificationRow V) (stage : Stage V X)
      → Holds orm db stage
      → orm.aget i db ≡ some row
      → row.status ≢ "queued"
      → owned stage ≢ some i
  owned-queued db i row (queuing ready n) h stored ne e =
      let same = some-injective n.id i e in let gone = rw same at h.1 in cc (gone, stored)
  owned-queued db i row (trying ready error ps n) h stored ne e =
      let w = subst (Waits orm db) (some-injective n.id i e) h.1 in
      let same : w.row ≡ row = some-injective w.row row (sym w.stored ∙ stored) in
      ne (ap (λ r. r.status) (sym same) ∙ w.status)
  owned-queued db i row (settling n) h stored ne e =
      let w = subst (Waits orm db) (some-injective n.id i e) h.1 in
      let same : w.row ≡ row = some-injective w.row row (sym w.stored ∙ stored) in
      ne (ap (λ r. r.status) (sym same) ∙ w.status)
  owned-queued db i row (closing u n) h stored ne e = cc (e)

module _ ⦃j : Str Json⦄ {V DB X : Type 0} (orm : Orm V DB) (laws : OrmLaws orm) (host : Host X)
    (uuids : UuidText) {Key : Type 0} (b64decode : String → Result Key)
    (digest : Key → String → String) where
  -- The row has no message id, and no worker has a task that owns it.
  pub record Abandoned (c : Scene V DB X) (i : ℕ) : Type 0 where
    pub silent : Silent orm c.sys.db i
    pub alone : (w : ℕ) (stage : Stage V X) → c.workers w ≡ some stage → owned stage ≢ some i

  -- A worker's new stage does not own it.
  alone-put :
      (c : Scene V DB X) (i w : ℕ) (now : Option (Stage V X))
      → Abandoned c i
      → ((stage : Stage V X) → now ≡ some stage → owned stage ≢ some i)
      → (v : ℕ) (stage : Stage V X) → put_worker w now c.workers v ≡ some stage
      → owned stage ≢ some i
  alone-put c i w now a new v stage =
      put_worker-cases w v now c.workers (λ v o. o ≡ some stage → owned stage ≢ some i) (new stage)
        (λ ne. a.alone v stage)

  aget-Effect :
      (db db' : DB) (stage : Stage V X) (i : ℕ)
      → Effect orm db db' stage
      → Silent orm db i
      → owned stage ≢ some i
      → orm.aget i db' ≡ orm.aget i db
  aget-Effect db db' stage i (unchanged same) h ne = rw same
  aget-Effect db db' stage i (wrote k w (inl own)) h ne =
      w.others i (λ same. ne (own ∙ ap some (sym same)))
  aget-Effect db db' stage i (wrote k w (inr m)) h ne =
      w.others i (λ same. Silent-not_sent orm db i h (subst (Messaged orm db) (sym same) m))

  begin_ready-owned :
      (r : Result (Ready V X)) (s : Sys DB X) (i : ℕ)
      → Silent orm s.db i
      → IsFreshId orm host s
      → (stage : Stage V X) → stage_of (begin_ready orm host r s).0 ≡ some stage
      → owned stage ≢ some i
  unfolding begin_ready mark_queued new_notification
  begin_ready-owned (err e) s i h fresh stage at own = cc (at)
  begin_ready-owned (ok ready) s i h fresh stage at own =
      let same : (host.uuid4 s.outside).0 ≡ i =
        some-injective _ i (ap owned (some-injective _ stage at) ∙ own) in
      let gone = rw same at fresh in cc (gone, h.stored)

  moved :
      (c c' : Scene V DB X) (i : ℕ)
      → Abandoned c i
      → orm.aget i c'.sys.db ≡ orm.aget i c.sys.db
      → ((w : ℕ) (stage : Stage V X) → c'.workers w ≡ some stage → owned stage ≢ some i)
      → Abandoned c' i × (orm.aget i c'.sys.db ≡ orm.aget i c.sys.db)
  moved c c' i a same alone = (
    record {
      silent = record {
        row = a.silent.row;
        stored = same ∙ a.silent.stored;
        no_message = a.silent.no_message;
      };
      alone = alone;
    },
    same,
  )

  Abandoned-Move :
      (c c' : Scene V DB X) (i : ℕ)
      → IsGoodScene orm laws host uuids b64decode digest c
      → Abandoned c i
      → Move orm host uuids b64decode digest c c'
      → Abandoned c' i × (orm.aget i c'.sys.db ≡ orm.aget i c.sys.db)
  unfolding begin
  Abandoned-Move c c' i g a (start w providers payload idle fresh free) =
      let r = prepare orm host providers payload c.sys.db in
      moved c c' i a (ap (orm.aget i) (begin_ready_db orm host r c.sys)) (
        alone-put c i w (stage_of (begin_ready orm host r c.sys).0) a
          (begin_ready-owned r c.sys i a.silent fresh))
  Abandoned-Move c c' i g a (read w u uid n idle m named got) = moved c c' i a refl (
      alone-put c i w (some (closing u n)) a
        (λ stage e own. cc (own, ap owned (some-injective (closing u n) stage e))))
  Abandoned-Move c c' i g a (go_on w stage here) =
      let adv = advance-Advanced orm laws host stage c.sys (g.works.holds w stage here) in
      moved c c' i a (aget-Effect _ _ stage i adv.effect a.silent (a.alone w stage here)) (
        alone-put c i w (stage_of (advance orm host stage c.sys).0) a (λ next e own.
          a.alone w stage here (sym (Follows-some orm _ stage next _ adv.follows e).1 ∙ own)))
  Abandoned-Move c c' i g a (die w) =
      moved c c' i a refl (alone-put c i w none a (λ stage e. cc (e)))
  Abandoned-Move c c' i g a (leave before after u taken) = moved c c' i a refl a.alone
  Abandoned-Move c c' i g a (twilio validate token request) = moved c c' i a refl a.alone
  Abandoned-Move c c' i g a (sendgrid verify key request) = moved c c' i a refl a.alone
  Abandoned-Move c c' i g a (resend secret request) = moved c c' i a refl a.alone
  Abandoned-Move c c' i g a (elsewhere x) = moved c c' i a refl a.alone

  pub Abandoned-Moves :
      (c c' : Scene V DB X) (i : ℕ)
      → IsGoodScene orm laws host uuids b64decode digest c
      → Abandoned c i
      → Moves orm host uuids b64decode digest c c'
      → Abandoned c' i × (orm.aget i c'.sys.db ≡ orm.aget i c.sys.db)
  Abandoned-Moves c c' i g a still = (a, refl)
  Abandoned-Moves c c' i g a (then {d = d} ms m) =
      let (b, same) = Abandoned-Moves c d i g a ms in
      let (b', step) =
        Abandoned-Move d c' i (IsGoodScene-Moves orm laws host uuids b64decode digest c d g ms) b
          m in
      (b', step ∙ same)

  -- Once a notification is stored FAILED or RETRYING, or SENT without a message id, its row is the
  -- same in every later state: no dispatch task, whatever its payload, no update and no webhook
  -- writes it, however the workers' tasks interleave. The state is any that interleaved tasks reach
  -- from one without notifications, tasks and updates.
  pub unconfirmable_rows_stay :
      (c c' c'' : Scene V DB X)
      → ((i : ℕ) → orm.aget i c.sys.db ≡ none)
      → ((w : ℕ) → c.workers w ≡ none)
      → c.updates ≡ []
      → Moves orm host uuids b64decode digest c c'
      → Moves orm host uuids b64decode digest c' c''
      → (i : ℕ) (row : NotificationRow V) → orm.aget i c'.sys.db ≡ some row
      → IsUnconfirmable row
      → orm.aget i c''.sys.db ≡ some row
  unconfirmable_rows_stay c c' c'' no_rows idle no_updates ms later i row stored h =
      let good =
        IsGoodScene-Moves orm laws host uuids b64decode digest c c'
          (IsGoodScene-empty orm laws host uuids b64decode digest c no_rows idle no_updates) ms in
      let abandoned : Abandoned c' i = record {
        silent = record {
          row = row;
          stored = stored;
          no_message = no_message row (good.sound i row stored) h;
        };
        alone = λ w stage here.
            owned-queued orm c'.sys.db i row stage (good.works.holds w stage here) stored
              (not_queued row h);
      } in
      (Abandoned-Moves c' c'' i good abandoned later).1 ∙ stored
