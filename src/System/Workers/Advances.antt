-- ===== src/System/Workers/Advances.antt =====
-- What holds of a task is enough for its next advance, and holds again after it.
use notifyfork.Common.{
  ℕ, ◌≡◌, ◌⊎◌, refl, sym, ap, subst, ◌∙◌, String, Option, none, some, List, [], ◌∷◌, Bool-cases,
  inl, inr,
}
use notifyfork.Python.Result.{Result-cases}
use notifyfork.Domain.Notification.{Notification, mark_queued, is_terminal, status_is_terminal}
use notifyfork.Application.Interfaces.Provider.{Provider, Host}
use notifyfork.Application.Interfaces.Database.{Orm, OrmLaws}
use notifyfork.Application.UseCase.{
  Sys, Verdict, accepted, refused, Reading, delivery, failure, broken, conclude, new_notification,
}
use notifyfork.Application.UseCase.Settled.{id-conclude}
use notifyfork.Infrastructure.Repository.{save, entity_of}
use notifyfork.Webhooks.Delivery.{Update, mark_update, apply_update, close_update}
use notifyfork.System.Workers.{
  Stage, Ready, queuing, trying, settling, closing, after_call, after_save, advance,
}
use notifyfork.System.Workers.Scene.{owned, stage_of}
use notifyfork.System.Workers.Holds.{
  core, IsNew, IsTried, WasRead, Waits, Messaged, not-Messaged, Wrote, Holds,
}
use notifyfork.System.Workers.Writes.{
  new-IsSound, tried-IsSound, Wrote-save, Waits-save, Wrote-update,
}

module _ {V DB X : Type 0} (orm : Orm V DB) where
  -- The database that an advance leaves: one row may be written, of the notification that the task
  -- owns or of one that has a message id.
  pub data Effect (db db' : DB) (stage : Stage V X) : Type 0 where
    unchanged : db' ≡ db → Effect db db' stage
    wrote :
        (i : ℕ)
        → Wrote orm db db' i
        → (owned stage ≡ some i) ⊎ Messaged orm db i
        → Effect db db' stage

  -- The task at its next stage, if there is one, is as it should be, and owns what it owned.
  abbrev pub Follows : DB → Stage V X → Option (Stage V X) → Type 0
  Follows db stage none = Unit {0}
  Follows db stage (some next) = Holds orm db next × (owned next ≡ owned stage)

  conclude-Follows :
      (db : DB) (n : Notification V) (stage : Stage V X) (v : Verdict) (now : ℕ)
      → IsNew n
      → Waits orm db n.id
      → owned stage ≡ some n.id
      → Follows db stage (some (settling (conclude v now n)))
  unfolding conclude new_notification mark_queued
  conclude-Follows db n stage v now h waits own =
      let same_id : (conclude v now n).id ≡ n.id =
        rw (h.same) (id-conclude h.dto h.id h.start v now) in
      (
        (
          record {
            dto = h.dto;
            id = h.id;
            start = h.start;
            range = h.range;
            verdict = v;
            now = now;
            same = ap (conclude v now) h.same;
          },
          subst (Waits orm db) (sym same_id) waits,
        ),
        ap some same_id ∙ sym own,
      )

module _ {V DB X : Type 0} (orm : Orm V DB) (laws : OrmLaws orm) (host : Host X) where
  -- One advance of a task of which what should hold does.
  pub record Advanced (stage : Stage V X) (s : Sys DB X) : Type 0 where
    pub effect : Effect orm s.db (advance orm host stage s).1.db stage
    pub follows :
        Follows orm (advance orm host stage s).1.db stage (stage_of (advance orm host stage s).0)

  queuing-Advanced :
      (ready : Ready V X) (n : Notification V) (s : Sys DB X)
      → IsNew n
      → orm.aget n.id s.db ≡ none
      → Advanced (queuing ready n) s
  unfolding advance
  queuing-Advanced ready n s h fresh = elim (Result-cases (save orm n (host.now s.outside) s.db)) [
    | inr (e, broke) ↦ record {
      effect = rw (broke, after_save) (Effect.unchanged refl);
      follows = rw (broke, after_save) tt;
    }
    | inl (db, saved) ↦ record {
      effect =
          rw (saved, after_save)
            (Effect.wrote n.id
              (Wrote-save orm laws n _ s.db db (λ c d. new-IsSound n c d h)
                (λ m. cc (fresh, m.stored)) saved)
              (inl refl));
      follows = rw (saved, after_save) ((h, Waits-save orm laws n _ s.db db h saved), refl);
    }
  ]

  settling-Advanced :
      (n : Notification V) (s : Sys DB X)
      → IsTried n
      → Waits orm s.db n.id
      → Advanced (settling n) s
  unfolding advance
  settling-Advanced n s h waits = elim (Result-cases (save orm n (host.now s.outside) s.db)) [
    | inr (e, broke) ↦ record {
      effect = rw (broke, after_save) (Effect.unchanged refl);
      follows = rw (broke, after_save) tt;
    }
    | inl (db, saved) ↦ record {
      effect =
          rw (saved, after_save)
            (Effect.wrote n.id
              (Wrote-save orm laws n _ s.db db (λ c d. tried-IsSound n c d h)
                (not-Messaged orm s.db n.id waits) saved)
              (inl refl));
      follows = rw (saved, after_save) tt;
    }
  ]

  after_call-Follows :
      (ready : Ready V X) (error name : String) (p : Provider V X) (ps : List (Provider V X))
      (n : Notification V) (x : X) (db : DB) (r : Reading)
      → IsNew n
      → Waits orm db n.id
      → Follows orm db
          (trying ready error (p ∷ ps) n)
          (stage_of (after_call host ready name ps n x r))
  unfolding after_call
  after_call-Follows ready error name p ps n x db (delivery message_id) h waits =
      conclude-Follows orm db n (trying ready error (p ∷ ps) n) (accepted name message_id)
        (host.now x) h waits refl
  after_call-Follows ready error name p ps n x db (failure reason) h waits = ((h, waits), refl)
  after_call-Follows ready error name p ps n x db (broken e) h waits = tt

  trying-Advanced :
      (ready : Ready V X) (error : String) (ps : List (Provider V X)) (n : Notification V)
      (s : Sys DB X)
      → IsNew n
      → Waits orm s.db n.id
      → Advanced (trying ready error ps n) s
  unfolding advance
  trying-Advanced ready error [] n s h waits = record {
    effect = Effect.unchanged refl;
    follows =
        conclude-Follows orm s.db n (trying ready error [] n) (refused error) (host.now s.outside) h
          waits refl;
  }
  trying-Advanced ready error (p ∷ ps) n s h waits = record {
    effect = Effect.unchanged refl;
    follows = after_call-Follows ready error p.name p ps n _ s.db _ h waits;
  }

  closing-Advanced :
      (u : Update) (n : Notification V) (s : Sys DB X)
      → (h : WasRead n) (m : Messaged orm s.db n.id) → core m.row ≡ core h.row
      → Advanced (closing u n) s
  unfolding advance apply_update is_terminal entity_of
  closing-Advanced u n s h m kept = elim (Bool-cases (status_is_terminal n.status)) [
    | inl over ↦ record { effect = rw over (Effect.unchanged refl); follows = tt }
    | inr live ↦
        let now = host.now s.outside in
        elim (Result-cases (save orm (mark_update u now n) now s.db)) [
          | inr (e, broke) ↦ record {
            effect = rw (live, broke, close_update) (Effect.unchanged refl);
            follows = tt;
          }
          | inl (db, saved) ↦ record {
            effect =
                rw (live, saved, close_update)
                  (Effect.wrote n.id
                    (Wrote-update orm laws u n now s.db db h m kept (rw h.same at live) saved)
                    (inr m));
            follows = tt;
          }
        ]
  ]

  pub advance-Advanced :
      (stage : Stage V X) (s : Sys DB X) → Holds orm s.db stage → Advanced stage s
  advance-Advanced (queuing ready n) s (h, fresh) = queuing-Advanced ready n s h fresh
  advance-Advanced (trying ready error ps n) s (h, waits) =
      trying-Advanced ready error ps n s h waits
  advance-Advanced (settling n) s (h, waits) = settling-Advanced n s h waits
  advance-Advanced (closing u n) s (h, m, kept) = closing-Advanced u n s h m kept
