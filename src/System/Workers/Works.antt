-- ===== src/System/Workers/Works.antt =====
-- The workers' tasks, each of which is as it should be.
use mathlib.Core.Option.{some-injective}
use notifyfork.Common.{
  ℕ, ◌≡◌, ◌≢◌, refl, sym, ap, subst, ◌∙◌, Option, none, some, nat_eq, nat_eq_iff, Bool-cases, inl,
  inr,
}
use notifyfork.Python.Result.{>>=-eq-ok, ok-injective, Result, ok, err}
use notifyfork.Domain.Notification.{mark_queued}
use notifyfork.Application.Dto.{Payload, make_dto}
use notifyfork.Application.Dto.Range.{InRange, make_dto-InRange}
use notifyfork.Application.Interfaces.Provider.{Provider, Host}
use notifyfork.Application.Interfaces.Database.{Orm, OrmLaws}
use notifyfork.Application.UseCase.{require_template, resolve_providers, Sys, new_notification}
use notifyfork.Infrastructure.Repository.{get_template}
use notifyfork.Common.{List}
use notifyfork.System.{IsFreshId}
use notifyfork.System.Workers.{Stage, Ready, queuing, begin_ready, prepare, advance}
use notifyfork.System.Workers.Scene.{owned, stage_of, put_worker}
use notifyfork.System.Workers.Holds.{Holds, Messaged-not_owned, Wrote-Holds}
use notifyfork.System.Workers.Advances.{Effect, unchanged, wrote, Follows, advance-Advanced}

module _ {V X : Type 0} where
  -- What a worker does after one worker's stage was put: that, or what it did.
  pub put_worker-cases :
      (w v : ℕ) (stage : Option (Stage V X)) (workers : ℕ → Option (Stage V X))
      (P : ℕ → Option (Stage V X) → Type 0)
      → P w stage
      → (v ≢ w → P v (workers v))
      → P v (put_worker w stage workers v)
  put_worker-cases w v stage workers P at off = elim (Bool-cases (nat_eq v w)) [
    | inl here ↦ rw here (subst (λ i. P i stage) (sym ((nat_eq_iff v w).0 here)) at)
    | inr other ↦ rw other (off (λ same. cc ((nat_eq_iff v w).1 same)))
  ]

module _ {V DB X : Type 0} (orm : Orm V DB) where
  -- Every worker's task is as it should be, and no two workers own one notification.
  pub record Works (db : DB) (workers : ℕ → Option (Stage V X)) : Type 0 where
    pub holds : (w : ℕ) (stage : Stage V X) → workers w ≡ some stage → Holds orm db stage
    pub apart :
        (w v i : ℕ) (stage other : Stage V X)
        → workers w ≡ some stage
        → workers v ≡ some other
        → owned stage ≡ some i
        → owned other ≡ some i
        → w ≡ v

  -- One worker gets another stage, or none, while the others keep what holds of theirs.
  pub Works-put :
      (db db' : DB) (workers : ℕ → Option (Stage V X)) (w : ℕ) (now : Option (Stage V X))
      → Works db workers
      → ((v : ℕ) (stage : Stage V X) → v ≢ w → workers v ≡ some stage → Holds orm db' stage)
      → ((stage : Stage V X) → now ≡ some stage → Holds orm db' stage)
      → ((v i : ℕ) (stage other : Stage V X)
          → v ≢ w
          → now ≡ some stage
          → workers v ≡ some other
          → owned stage ≡ some i
          → owned other ≢ some i)
      → Works db' (put_worker w now workers)
  Works-put db db' workers w now g others new apart = record {
    holds = λ v stage.
        put_worker-cases w v now workers (λ v o. o ≡ some stage → Holds orm db' stage) (new stage)
          (λ ne e. others v stage ne e);
    apart = λ v u i stage other.
        put_worker-cases w v now workers
          (λ v o.
            o ≡ some stage
            → put_worker w now workers u ≡ some other
            → owned stage ≡ some i
            → owned other ≡ some i
            → v ≡ u)
          (λ here.
            put_worker-cases w u now workers
              (λ u o. o ≡ some other → owned stage ≡ some i → owned other ≡ some i → w ≡ u)
              (λ also a b. refl) (λ ne there a b. absurd (apart u i stage other ne here there a b)))
          (λ ne here.
            put_worker-cases w u now workers
              (λ u o. o ≡ some other → owned stage ≡ some i → owned other ≡ some i → v ≡ u)
              (λ there a b. absurd (apart v i other stage ne there here b a))
              (λ ne' there a b. g.apart v u i stage other here there a b));
  }

  pub Works-none :
      (db : DB) (workers : ℕ → Option (Stage V X)) (w : ℕ)
      → Works db workers
      → Works db (put_worker w none workers)
  Works-none db workers w g =
      Works-put db db workers w none g (λ v stage ne e. g.holds v stage e) (λ stage e. cc (e))
        (λ v i stage other ne e. cc (e))

  -- Another task keeps what holds of it.
  Holds-Effect :
      (db db' : DB) (stage other : Stage V X)
      → Effect orm db db' stage
      → ((i : ℕ) → owned stage ≡ some i → owned other ≢ some i)
      → Holds orm db other
      → Holds orm db' other
  Holds-Effect db db' stage other (unchanged same) apart h =
      subst (λ d. Holds orm d other) (sym same) h
  Holds-Effect db db' stage other (wrote i w (inl own)) apart h =
      Wrote-Holds orm db db' i other w (apart i own) h
  Holds-Effect db db' stage other (wrote i w (inr m)) apart h =
      Wrote-Holds orm db db' i other w (Messaged-not_owned orm db i other h m) h

  pub Follows-some :
      (db : DB) (stage next : Stage V X) (o : Option (Stage V X))
      → Follows orm db stage o
      → o ≡ some next
      → Holds orm db next × (owned next ≡ owned stage)
  Follows-some db stage next none f e = cc (e)
  Follows-some db stage next (some now) f e =
      subst (λ t. Holds orm db t × (owned t ≡ owned stage)) (some-injective now next e) f

  module _ (host : Host X) where
    pub Works-begin :
        (workers : ℕ → Option (Stage V X)) (w : ℕ) (s : Sys DB X) (r : Result (Ready V X))
        → ((ready : Ready V X) → r ≡ ok ready → InRange ready.dto.max_attempts)
        → IsFreshId orm host s
        → ((v : ℕ) (stage : Stage V X)
            → workers v ≡ some stage
            → owned stage ≢ some (host.uuid4 s.outside).0)
        → Works s.db workers
        → Works s.db (put_worker w (stage_of (begin_ready orm host r s).0) workers)
    unfolding begin_ready mark_queued new_notification
    Works-begin workers w s (err e) ranges fresh free g = Works-none s.db workers w g
    Works-begin workers w s (ok ready) ranges fresh free g =
        let (id, x) = host.uuid4 s.outside in
        let n = mark_queued (new_notification ready.dto id (host.now x)) in
        Works-put s.db s.db workers w (some (queuing ready n)) g (λ v stage ne e. g.holds v stage e)
          (λ stage e. subst (Holds orm s.db) (some-injective (queuing ready n) stage e) (
            record {
              dto = ready.dto;
              id = id;
              start = host.now x;
              range = ranges ready refl;
              same = refl;
            },
            fresh,
          ))
          (λ v i stage other ne e there own also.
            let same : owned (queuing ready n) ≡ owned stage =
              ap owned (some-injective (queuing ready n) stage e) in
            free v other there (also ∙ sym own ∙ sym same))

    pub Works-advance :
        (laws : OrmLaws orm) (workers : ℕ → Option (Stage V X)) (w : ℕ) (s : Sys DB X)
        (stage : Stage V X)
        → workers w ≡ some stage
        → Works s.db workers
        → Works
            (advance orm host stage s).1.db
            (put_worker w (stage_of (advance orm host stage s).0) workers)
    Works-advance laws workers w s stage here g =
        let a = advance-Advanced orm laws host stage s (g.holds w stage here) in
        let db' = (advance orm host stage s).1.db in
        let next = stage_of (advance orm host stage s).0 in
        Works-put s.db db' workers w next g
          (λ v other ne e.
            Holds-Effect s.db db' stage other a.effect
              (λ i own also. ne (g.apart v w i other stage e here also own)) (g.holds v other e))
          (λ now e. (Follows-some db' stage now next a.follows e).0)
          (λ v i now other ne e there own also. ne (
            g.apart v w i other stage there here also
              (sym (Follows-some db' stage now next a.follows e).1 ∙ own)))

module _ {V DB X : Type 0} (orm : Orm V DB) (host : Host X) where
  pub begin_ready_db :
      (r : Result (Ready V X)) (s : Sys DB X) → (begin_ready orm host r s).1.db ≡ s.db
  unfolding begin_ready
  begin_ready_db (err e) s = refl
  begin_ready_db (ok ready) s = refl

module _ {V DB X : Type 0} (orm : Orm V DB) (host : Host X) where
  pub prepare-InRange :
      (providers : Result (List (Provider V X))) (payload : Payload V) (ready : Ready V X) (db : DB)
      → prepare orm host providers payload db ≡ ok ready
      → InRange ready.dto.max_attempts
  unfolding prepare
  prepare-InRange providers payload ready db h =
      let (dto, made, e1) = >>=-eq-ok (make_dto payload) _ h in
      let (registered, given, e2) = >>=-eq-ok providers _ e1 in
      let (found, read, e3) = >>=-eq-ok (get_template orm dto.template_id db) _ e2 in
      let (template, there, e4) = >>=-eq-ok (require_template dto.template_id found) _ e3 in
      let (candidates, resolved, e5) = >>=-eq-ok (resolve_providers registered dto.channel) _ e4 in
      let same : dto ≡ ready.dto = ap (λ (r : Ready V X). r.dto) (ok-injective _ ready e5) in
      rw (← same) (make_dto-InRange payload dto made)
