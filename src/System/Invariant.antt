-- ===== src/System/Invariant.antt =====
-- What holds of every row, in every state that the program can reach.
use notifyfork.Common.{
  ℕ, String, ◌≡◌, none, some, List, [], ◌∷◌, ◌++◌, All, All-append, All-of-append, All-map,
}
use notifyfork.Python.Result.{Result}
use notifyfork.Python.Json.{Json}
use notifyfork.Python.Template.{Str}
use notifyfork.Application.Interfaces.Provider.{Host}
use notifyfork.Application.Interfaces.Database.{NotificationRow, Orm, OrmLaws}
use notifyfork.Infrastructure.Tasks.{Task}
use notifyfork.Webhooks.Delivery.{UuidText, Update, process_delivery_update}
use notifyfork.Infrastructure.Tasks.Sweep.{db-sweep}
use notifyfork.System.{
  World, Requeues, acknowledged, rescheduled, given_up, Step, submit, dispatch, sweep, twilio,
  sendgrid, resend, update, elsewhere, Reach, here, next,
}
use notifyfork.System.Rows.{IsSound}
use notifyfork.System.Created.{Change-dispatch}
use notifyfork.System.Updates.{Change-update}
use notifyfork.System.Queue.{
  Names, Names-Change, AllNames-twilio, AllNames-sendgrid, AllNames-resend,
}
use notifyfork.System.Sound.{AllSound, AllSound-update, AllSound-dispatch}

-- The queue after a task ends has no more updates than before.
All-Requeues {ℓ} :
    {A B : Type 0} (P : A → Type ℓ) (before after rest : List A) (a : A) (r : Task B)
    → Requeues before a after r rest
    → P a
    → All P before
    → All P after
    → All P rest
All-Requeues P before after rest a r acknowledged p hb ha = All-append P before after hb ha
All-Requeues P before after rest a r rescheduled p hb ha =
    All-append P (before ++ after) (a ∷ []) (All-append P before after hb ha) (p, tt)
All-Requeues P before after rest a r given_up p hb ha = All-append P before after hb ha

module _ ⦃j : Str Json⦄ {V DB X : Type 0} (orm : Orm V DB) (laws : OrmLaws orm) (host : Host X)
    (uuids : UuidText) {Key : Type 0} (b64decode : String → Result Key)
    (digest : Key → String → String) where
  -- Every row is sound, and every queued update is for a stored notification that was sent.
  pub record IsGood (w : World V DB X) : Type 0 where
    pub sound : AllSound orm laws host uuids w.sys.db
    pub named : All (Names orm uuids w.sys.db) w.updates

  IsGood-Step :
      (w w' : World V DB X) → IsGood w → Step orm host uuids b64decode digest w w' → IsGood w'
  IsGood-Step w w' g
        (submit recipient channel template_id notification_type context max_attempts p made) =
      record { sound = g.sound; named = g.named }
  IsGood-Step w w' g (dispatch before after jobs p providers taken fresh requeues) = record {
    sound = AllSound-dispatch orm laws host uuids providers p w.sys fresh g.sound;
    named =
        All-map _ _
          (Names-Change orm uuids _ _
            (λ j. Change-dispatch orm laws host providers p w.sys j fresh))
          w.updates g.named;
  }
  IsGood-Step w w' g sweep =
      let same = db-sweep orm laws (record { db = w.sys.db; queue = w.jobs }) in
      record { sound = rw same g.sound; named = rw same g.named }
  IsGood-Step w w' g (twilio validate token request) = record {
    sound = g.sound;
    named = AllNames-twilio orm uuids laws w.sys.db validate token request w.updates g.named;
  }
  IsGood-Step w w' g (sendgrid verify key request) = record {
    sound = g.sound;
    named = AllNames-sendgrid orm uuids laws w.sys.db verify key request w.updates g.named;
  }
  IsGood-Step w w' g (resend secret request) = record {
    sound = g.sound;
    named =
        AllNames-resend orm uuids laws w.sys.db b64decode digest secret request w.updates g.named;
  }
  IsGood-Step w w' g (update before after updates u taken requeues) =
      let P = Names orm uuids w.sys.db in
      let Q = Names orm uuids (process_delivery_update orm host uuids u w.sys).1.db in
      let split : All P before × All P (u ∷ after) =
        All-of-append P before (u ∷ after) (rw taken at g.named) in
      let later : (v : Update) → P v → Q v =
        Names-Change orm uuids w.sys.db (process_delivery_update orm host uuids u w.sys).1.db
          (Change-update orm laws host uuids u w.sys) in
      record {
        sound = AllSound-update orm laws host uuids u w.sys split.1.0 g.sound;
        named =
            All-Requeues Q before after updates u _ requeues (later u split.1.0)
              (All-map P Q later before split.0) (All-map P Q later after split.1.1);
      }
  IsGood-Step w w' g (elsewhere x) = record { sound = g.sound; named = g.named }

  pub IsGood-Reach :
      (w w' : World V DB X) → IsGood w → Reach orm host uuids b64decode digest w w' → IsGood w'
  IsGood-Reach w w' g here = g
  IsGood-Reach w w' g (next {t = t} r step) = IsGood-Step t w' (IsGood-Reach w t g r) step

  pub IsGood-empty :
      (w : World V DB X) → ((j : ℕ) → orm.aget j w.sys.db ≡ none) → w.updates ≡ [] → IsGood w
  IsGood-empty w no_rows no_updates = record {
    sound = λ j row read. cc (no_rows j);
    named = rw no_updates tt;
  }

  -- From a state without notifications and updates, whatever callers, workers, the sweep, the
  -- vendors' webhooks and the outside do, in any order, each task in one piece: each stored
  -- notification has a status that its other columns bear out. A QUEUED one has no attempt, no
  -- provider and no message id. A SENT, DELIVERED or DELIVERY_FAILED one has a provider, the time,
  -- and no attempt counted. A DELIVERY_FAILED, FAILED or RETRYING one has an error; a FAILED or
  -- RETRYING one has one attempt and no message id, and is FAILED if one is all that it has. None
  -- is PENDING. All have a `max_attempts` from 1 to 5.
  pub reachable_rows-IsSound :
      (w w' : World V DB X)
      → ((j : ℕ) → orm.aget j w.sys.db ≡ none)
      → w.updates ≡ []
      → Reach orm host uuids b64decode digest w w'
      → (j : ℕ) (row : NotificationRow V) → orm.aget j w'.sys.db ≡ some row
      → IsSound row
  reachable_rows-IsSound w w' no_rows no_updates r =
      (IsGood-Reach w w' (IsGood-empty w no_rows no_updates) r).sound
