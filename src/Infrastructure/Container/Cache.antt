-- ===== src/Infrastructure/Container/Cache.antt =====
-- The `lru_cache` of `Container.providers` and the `cache_clear` of the decorator `provider`: what
-- a reader sees while providers are registered.
use notifyfork.Common.{String, ◌≡◌, refl, sym, ap, ◌∙◌, Option, none, some, List, [], ◌∷◌, ◌++◌}
use notifyfork.Python.Dict.{Dict}
use notifyfork.Python.Result.{Result, ok, err}
use notifyfork.Infrastructure.Container.{
  Config, Registry, build_providers, through_cache, provider, providers,
}

-- What a program does with the container: it registers a provider, or asks for the list.
pub data Use (P : Type 0) : Type 0 where
  registers : P → Use P
  reads : Use P

module _ {P : Type 0} (name : P → String) (make : Config → Result P) (env : Dict String) where
  -- The lists that the readers get, in order, from the container.
  unfoldable pub seen : List (Use P) → Registry P → List (Result (List P))
  unfolding provider providers
  seen [] r = []
  seen (registers p ∷ us) r = seen us (provider p r)
  seen (reads ∷ us) r = let now = providers name make env r in now.0 ∷ seen us now.1

  -- What they would get if every read built the list again.
  unfoldable pub rebuilt : List (Use P) → List P → List (Result (List P))
  unfolding build_providers
  rebuilt [] extra = []
  rebuilt (registers p ∷ us) extra = rebuilt us (extra ++ p ∷ [])
  rebuilt (reads ∷ us) extra = build_providers name make env extra ∷ rebuilt us extra

  -- A cached list is the one that building it now would give.
  pub IsFresh : Registry P → Type 0
  IsFresh r = (ps : List P) → r.cached ≡ some ps → build_providers name make env r.extra ≡ ok ps

  through_cache_lem :
      (cached : Option (List P)) (built : Result (List P)) (r : Registry P)
      → r.cached ≡ cached
      → build_providers name make env r.extra ≡ built
      → IsFresh r
      → ((through_cache cached built r).0 ≡ built)
        × ((through_cache cached built r).1.extra ≡ r.extra)
        × IsFresh (through_cache cached built r).1
  unfolding through_cache IsFresh
  through_cache_lem (some ps) built r full e fresh = (sym (fresh ps full) ∙ e, refl, fresh)
  through_cache_lem none (ok ps) r empty e fresh = (refl, refl, λ qs same. cc)
  through_cache_lem none (err x) r empty e fresh = (refl, refl, fresh)

  providers_lem :
      (r : Registry P)
      → IsFresh r
      → ((providers name make env r).0 ≡ build_providers name make env r.extra)
        × ((providers name make env r).1.extra ≡ r.extra)
        × IsFresh (providers name make env r).1
  unfolding providers
  providers_lem r fresh = through_cache_lem r.cached _ r refl refl fresh

  seen-rebuilt : (us : List (Use P)) (r : Registry P) → IsFresh r → seen us r ≡ rebuilt us r.extra
  unfolding seen rebuilt provider IsFresh
  seen-rebuilt [] r fresh = refl
  seen-rebuilt (registers p ∷ us) r fresh = seen-rebuilt us (provider p r) (λ ps e. cc)
  seen-rebuilt (reads ∷ us) r fresh =
      let (e, kept, next) = providers_lem r fresh in
      rw e (
        ap (λ rest. build_providers name make env r.extra ∷ rest)
          (seen-rebuilt us _ next ∙ ap (rebuilt us) kept))

  -- Under a fixed environment, in any sequence of registrations and reads of the container, from
  -- the moment nothing is cached, every read returns what building the list at that moment would,
  -- an error included: no reader gets a
  -- list from before a registration.
  pub seen_lem :
      (us : List (Use P)) (extra : List P)
      → seen us (record { extra = extra; cached = none }) ≡ rebuilt us extra
  unfolding IsFresh
  seen_lem us extra = seen-rebuilt us _ (λ ps e. cc)
