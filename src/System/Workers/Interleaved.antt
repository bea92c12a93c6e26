-- ===== src/System/Workers/Interleaved.antt =====
-- What holds of every row and of every task, however the workers' tasks interleave.
use mathlib.Core.Option.{some-injective}
use notifyfork.Common.{
  ℕ, ◌≡◌, ap, subst, String, none, some, [], ◌∷◌, All, All-append, All-of-append, All-map, mem-All,
}
use notifyfork.Python.Json.{Json}
use notifyfork.Python.Result.{Result}
use notifyfork.Python.Template.{Str}
use notifyfork.Application.Interfaces.Provider.{Host}
use notifyfork.Application.Interfaces.Database.{NotificationRow, Orm, OrmLaws}
use notifyfork.Webhooks.Delivery.{UuidText}
use notifyfork.System.Rows.{IsSound}
use notifyfork.System.Queue.{Names, AllNames-twilio, AllNames-sendgrid, AllNames-resend}
use notifyfork.System.Sound.{AllSound}
use notifyfork.System.Workers.{closing, prepare, begin}
use notifyfork.System.Workers.Scene.{
  owned, Scene, Move, start, read, go_on, die, leave, twilio, sendgrid, resend, elsewhere, Moves,
  still, then,
}
use notifyfork.System.Workers.Holds.{Holds}
use notifyfork.System.Workers.Advances.{advance-Advanced}
use notifyfork.System.Workers.Effects.{AllSound-Effect, Names-Effect, Holds-closing}
use notifyfork.System.Workers.Works.{
  prepare-InRange, begin_ready_db, Works, Works-put, Works-none, Works-begin, Works-advance,
}

module _ ⦃j : Str Json⦄ {V DB X : Type 0} (orm : Orm V DB) (laws : OrmLaws orm) (host : Host X)
    (uuids : UuidText) {Key : Type 0} (b64decode : String → Result Key)
    (digest : Key → String → String) where
  -- Every row is sound, every queued update is for a stored notification that was sent, and every
  -- worker's task is as it should be.
  pub record IsGoodScene (c : Scene V DB X) : Type 0 where
    pub sound : AllSound orm laws host uuids c.sys.db
    pub named : All (Names orm uuids c.sys.db) c.updates
    pub works : Works orm c.sys.db c.workers

  pub IsGoodScene-Move :
      (c c' : Scene V DB X)
      → IsGoodScene c
      → Move orm host uuids b64decode digest c c'
      → IsGoodScene c'
  unfolding begin
  IsGoodScene-Move c c' g (start w providers payload idle fresh free) =
      let works =
        Works-begin orm host c.workers w c.sys (prepare orm host providers payload c.sys.db)
          (λ ready. prepare-InRange orm host providers payload ready c.sys.db) fresh free g.works in
      let same = begin_ready_db orm host (prepare orm host providers payload c.sys.db) c.sys in
      record { sound = rw same g.sound; named = rw same g.named; works = rw same works }
  IsGoodScene-Move c c' g (read w u uid n idle m named got) =
      let h =
        Holds-closing orm laws host uuids c.sys.db u uid n g.sound
          (mem-All (Names orm uuids c.sys.db) c.updates u g.named m) named got in
      record {
        sound = g.sound;
        named = g.named;
        works =
            Works-put orm c.sys.db c.sys.db c.workers w (some (closing u n)) g.works
              (λ v stage ne e. g.works.holds v stage e)
              (λ stage e. subst (Holds orm c.sys.db) (some-injective (closing u n) stage e) h)
              (λ v i stage other ne e there own also.
                cc (own, ap owned (some-injective (closing u n) stage e)));
      }
  IsGoodScene-Move c c' g (go_on w stage here) =
      let a = advance-Advanced orm laws host stage c.sys (g.works.holds w stage here) in
      record {
        sound = AllSound-Effect orm laws host uuids _ _ stage a.effect g.sound;
        named = All-map _ _ (Names-Effect orm laws host uuids _ _ stage a.effect) c.updates g.named;
        works = Works-advance orm host laws c.workers w c.sys stage here g.works;
      }
  IsGoodScene-Move c c' g (die w) = record {
    sound = g.sound;
    named = g.named;
    works = Works-none orm c.sys.db c.workers w g.works;
  }
  IsGoodScene-Move c c' g (leave before after u taken) =
      let P = Names orm uuids c.sys.db in
      let split : All P before × All P (u ∷ after) =
        All-of-append P before (u ∷ after) (rw taken at g.named) in
      record {
        sound = g.sound;
        named = All-append P before after split.0 split.1.1;
        works = g.works;
      }
  IsGoodScene-Move c c' g (twilio validate token request) = record {
    sound = g.sound;
    named = AllNames-twilio orm uuids laws c.sys.db validate token request c.updates g.named;
    works = g.works;
  }
  IsGoodScene-Move c c' g (sendgrid verify key request) = record {
    sound = g.sound;
    named = AllNames-sendgrid orm uuids laws c.sys.db verify key request c.updates g.named;
    works = g.works;
  }
  IsGoodScene-Move c c' g (resend secret request) = record {
    sound = g.sound;
    named =
        AllNames-resend orm uuids laws c.sys.db b64decode digest secret request c.updates g.named;
    works = g.works;
  }
  IsGoodScene-Move c c' g (elsewhere x) = record {
    sound = g.sound;
    named = g.named;
    works = g.works;
  }

  pub IsGoodScene-Moves :
      (c c' : Scene V DB X)
      → IsGoodScene c
      → Moves orm host uuids b64decode digest c c'
      → IsGoodScene c'
  IsGoodScene-Moves c c' g still = g
  IsGoodScene-Moves c c' g (then {d = d} ms m) =
      IsGoodScene-Move d c' (IsGoodScene-Moves c d g ms) m

  pub IsGoodScene-empty :
      (c : Scene V DB X)
      → ((i : ℕ) → orm.aget i c.sys.db ≡ none)
      → ((w : ℕ) → c.workers w ≡ none)
      → c.updates ≡ []
      → IsGoodScene c
  IsGoodScene-empty c no_rows idle no_updates = record {
    sound = λ i row stored. cc (no_rows i);
    named = rw no_updates tt;
    works = record {
      holds = λ w stage e. cc (idle w);
      apart = λ w v i stage other e there own also. cc (idle w);
    };
  }

  -- From a database without notifications, idle workers and no updates, however the workers' tasks
  -- interleave, access by access, with each other, with deaths of workers, with the webhooks and
  -- with the outside: each stored notification has a status that its other columns bear out, and
  -- a `max_attempts` from 1 to 5, as where every task runs in one piece.
  pub interleaved_rows-IsSound :
      (c c' : Scene V DB X)
      → ((i : ℕ) → orm.aget i c.sys.db ≡ none)
      → ((w : ℕ) → c.workers w ≡ none)
      → c.updates ≡ []
      → Moves orm host uuids b64decode digest c c'
      → (i : ℕ) (row : NotificationRow V) → orm.aget i c'.sys.db ≡ some row
      → IsSound row
  interleaved_rows-IsSound c c' no_rows idle no_updates ms =
      (IsGoodScene-Moves c c' (IsGoodScene-empty c no_rows idle no_updates) ms).sound
