-- ===== src/Application/UseCase/Candidates.antt =====
-- Which providers are tried, and when there are none.
use mathlib.Core.List.{Memᴰ}
use notifyfork.Common.{
  String, ◌≡◌, ◌≢◌, ◌↔◌, refl, sym, ap, ◌∙◌, ◌⊎◌, Bool, false, Option, none, some, List, [], ◌∷◌,
  All, filter, arith, if◌then◌else◌, Option-cases, inl, inr,
}
use notifyfork.Python.Result.{no_provider_available, attribute_error, Result, ok, err}
use notifyfork.Application.Interfaces.Provider.{Provider}
use notifyfork.Application.UseCase.{keep_supporting, supporting, require_some, resolve_providers}

abbrev answer_of : Option (String → Bool) → String → Bool
answer_of none channel = false
answer_of (some supports) channel = supports channel

module _ {V X : Type 0} where
  abbrev pub HasSupports : Provider V X → Type 0
  HasSupports p = p.supports ≢ none

  -- Whether a provider says that it supports a channel.
  abbrev pub serves : String → Provider V X → Bool
  serves channel p = answer_of p.supports channel

  -- Some listed provider has no method `supports`.
  abbrev pub SomeLack : List (Provider V X) → Type 0
  SomeLack ps = (p : Provider V X) × Memᴰ p ps × (p.supports ≡ none)

  supports_cases : (ps : List (Provider V X)) → All HasSupports ps ⊎ SomeLack ps
  supports_cases [] = inl tt
  supports_cases (p ∷ ps) = elim (Option-cases p.supports) [
    | inl lacks ↦ inr (p, Memᴰ.head refl, lacks)
    | inr (f, gives) ↦ elim (supports_cases ps) [
      | inl h ↦ inl (ground arith, h)
      | inr (q, m, lacks) ↦ inr (q, Memᴰ.tail m, lacks)
    ]
  ]

  keep_supporting_ok :
      (p : Provider V X) (o : Option (String → Bool)) (channel : String) (ps : List (Provider V X))
      → o ≢ none
      → keep_supporting p o channel (ok ps) ≡ ok (if answer_of o channel then p ∷ ps else ps)
  unfolding keep_supporting
  keep_supporting_ok p none channel ps h = absurd (h refl)
  keep_supporting_ok p (some f) channel ps h = refl

  supporting_ok :
      (ps : List (Provider V X)) (channel : String)
      → All HasSupports ps
      → supporting ps channel ≡ ok (filter (serves channel) ps)
  unfolding supporting
  supporting_ok [] channel h = refl
  supporting_ok (p ∷ ps) channel (has, h) =
      rw (supporting_ok ps channel h)
        (keep_supporting_ok p p.supports channel (filter (serves channel) ps) has)

  -- The error of a provider without a `supports`.
  abbrev pub lacking : Result (List (Provider V X))
  lacking = err (attribute_error "supports")

  keep_supporting_err :
      (p : Provider V X) (o : Option (String → Bool)) (channel : String)
      → keep_supporting p o channel lacking ≡ lacking
  unfolding keep_supporting
  keep_supporting_err p none channel = refl
  keep_supporting_err p (some f) channel = refl

  keep_supporting-none :
      (p : Provider V X) (o : Option (String → Bool)) (channel : String)
      (rest : Result (List (Provider V X)))
      → o ≡ none
      → keep_supporting p o channel rest ≡ lacking
  unfolding keep_supporting
  keep_supporting-none p none channel rest h = refl
  keep_supporting-none p (some f) channel rest h = cc

  supporting_err :
      (ps : List (Provider V X)) (channel : String) (p : Provider V X)
      → Memᴰ p ps
      → p.supports ≡ none
      → supporting ps channel ≡ lacking
  unfolding supporting
  supporting_err [] channel p m lacks = elim m [ ]
  supporting_err (q ∷ ps) channel p (Memᴰ.head same) lacks =
      keep_supporting-none q q.supports channel (supporting ps channel)
        (ap (λ (r : Provider V X). r.supports) (sym same) ∙ lacks)
  supporting_err (q ∷ ps) channel p (Memᴰ.tail m) lacks =
      rw (supporting_err ps channel p m lacks) (keep_supporting_err q q.supports channel)

  require_some_cases :
      (channel : String) (cs : List (Provider V X))
      → ((cs ≡ []) × (require_some channel (ok cs) ≡ err (no_provider_available channel)))
        ⊎ ((cs ≢ []) × (require_some channel (ok cs) ≡ ok cs))
  unfolding require_some
  require_some_cases channel [] = inl (refl, refl)
  require_some_cases channel (c ∷ cs) = inr (ground arith, refl)

  not-SomeLack : (ps : List (Provider V X)) → All HasSupports ps → ¬ SomeLack ps
  not-SomeLack [] h (p, m, lacks) = elim m [ ]
  not-SomeLack (q ∷ ps) h (p, Memᴰ.head same, lacks) =
      h.0 (ap (λ (r : Provider V X). r.supports) (sym same) ∙ lacks)
  not-SomeLack (q ∷ ps) h (p, Memᴰ.tail m, lacks) = not-SomeLack ps h.1 (p, m, lacks)

  -- The candidates for a channel.
  pub resolve_providers_lem :
      (ps : List (Provider V X)) (channel : String)
      → (All HasSupports ps
          → resolve_providers ps channel ≡ require_some channel (ok (filter (serves channel) ps)))
        × (SomeLack ps → resolve_providers ps channel ≡ lacking)
  unfolding resolve_providers require_some
  resolve_providers_lem ps channel = (
    λ h. ap (require_some channel) (supporting_ok ps channel h),
    λ (p, m, lacks). ap (require_some channel) (supporting_err ps channel p m lacks),
  )

  -- Where every registered provider has a `supports`, the candidates are those that say yes to the
  -- channel, in their order, and there is an error exactly when none does; a single provider
  -- without a `supports` makes every channel an error.
  pub resolve_providers_iff :
      (ps : List (Provider V X)) (channel : String) (cs : List (Provider V X))
      → ((resolve_providers ps channel ≡ ok cs) ↔ (
          All HasSupports ps
          × (filter (serves channel) ps ≢ [])
          × (cs ≡ filter (serves channel) ps)))
        × ((resolve_providers ps channel ≡ err (no_provider_available channel))
            ↔ (All HasSupports ps × (filter (serves channel) ps ≡ [])))
        × ((resolve_providers ps channel ≡ lacking) ↔ SomeLack ps)
  resolve_providers_iff ps channel cs = elim (supports_cases ps) [
    | inl h ↦
        let e = (resolve_providers_lem ps channel).0 h in
        rw e (elim (require_some_cases channel (filter (serves channel) ps)) [
          | inl (empty, r) ↦ rw r (
            (λ p. cc, λ p. absurd (p.1 empty)),
            (λ p. (h, empty), λ p. refl),
            (λ p. cc, λ lack. absurd (not-SomeLack ps h lack)),
          )
          | inr (some_left, r) ↦ rw r (
            (λ p. (h, some_left, cc), λ p. ap ok (sym p.2)),
            (λ p. cc, λ p. absurd (some_left p.1)),
            (λ p. cc, λ lack. absurd (not-SomeLack ps h lack)),
          )
        ])
    | inr lack ↦ rw ((resolve_providers_lem ps channel).1 lack) (
      (λ p. cc, λ p. absurd (not-SomeLack ps p.0 lack)),
      (λ p. cc, λ p. absurd (not-SomeLack ps p.0 lack)),
      (λ p. lack, λ p. refl),
    )
  ]
