-- ===== src/Domain/Template/Mapping.antt =====
-- Translating a context with a variable mapping: what a provider reads under the new keys.
use mathlib.Core.List.{Memᴰ}
use mathlib.Core.Option.{some-injective}
use notifyfork.Common.{
  String, ◌≡◌, ◌≢◌, ◌⊎◌, refl, sym, ap, ◌∙◌, Option, none, some, [], ◌∷◌, All, arith, ◌==◌, eq_iff,
  eq_refl, Bool-cases, inl, inr,
}
use notifyfork.Python.Dict.{Dict, get, get_or}
use notifyfork.Python.Dict.Laws.{last_get, get-put_all}
use notifyfork.Domain.Template.{VariableMapping, renamed, translate_items, translate}

-- The key under which the provider gets the variable `k`.
unfoldable pub provider_key : Dict String → String → String
provider_key mappings k = get_or (get k mappings) k

module _ {V : Type 0} (ms : Dict String) where
  -- No two keys of the context get the same provider key.
  abbrev pub HasDistinctKeys : Dict V → Type 0
  HasDistinctKeys [] = Unit
  HasDistinctKeys ((k, v) ∷ context) =
      All (λ e. provider_key ms e.0 ≢ provider_key ms k) context × HasDistinctKeys context

  last_get_skip :
      (k : String) (context : Dict V) (before : Option V)
      → All (λ e. provider_key ms e.0 ≢ provider_key ms k) context
      → last_get (provider_key ms k) (renamed ms context) before ≡ before
  unfolding last_get renamed provider_key
  last_get_skip k [] before h = refl
  last_get_skip k ((j, v) ∷ context) before (ne, h) =
      ground
        (arith, eq_iff (provider_key ms j) (provider_key ms k), last_get_skip k context before h)

  last_get-renamed :
      (k : String) (v : V) (context : Dict V) (before : Option V)
      → HasDistinctKeys context
      → get k context ≡ some v
      → last_get (provider_key ms k) (renamed ms context) before ≡ some v
  unfolding last_get renamed provider_key get
  last_get-renamed k v [] before h e = cc
  last_get-renamed k v ((j, w) ∷ context) before (ne, h) e = elim (Bool-cases (j == k)) [
    | inl same ↦
        let here : j ≡ k = (eq_iff j k).0 same in
        rw (here, eq_refl (provider_key ms k))
          (last_get_skip k context (some w) (rw here at ne) ∙ (rw (same, get) at e))
    | inr other ↦ last_get-renamed k v context _ h (rw (other, get) at e)
  ]

  last_get-mem :
      (j : String) (v : V) (context : Dict V) (before : Option V)
      → last_get j (renamed ms context) before ≡ some v
      → (before ≡ some v) ⊎ ((k : String) × (provider_key ms k ≡ j) × Memᴰ (k, v) context)
  unfolding last_get renamed provider_key
  last_get-mem j v [] before e = inl e
  last_get-mem j v ((k, w) ∷ context) before e = elim (last_get-mem j v context _ e) [
    | inr (i, same, mem) ↦ inr (i, same, Memᴰ.tail mem)
    | inl found ↦ elim (Bool-cases (provider_key ms k == j)) [
      | inl same ↦ inr (
        k,
        (eq_iff _ j).0 same,
        Memᴰ.head (ap (λ (x : V). (k, x)) (sym (some-injective _ _ (rw same at found)))),
      )
      | inr other ↦ inl (rw other at found)
    ]
  ]

module _ {V : Type 0} where
  mem_of_get : (k : String) (v : V) (d : Dict V) → get k d ≡ some v → Memᴰ (k, v) d
  unfolding get
  mem_of_get k v [] e = cc
  mem_of_get k v ((j, w) ∷ d) e = elim (Bool-cases (j == k)) [
    | inl same ↦
        let found : w ≡ v = some-injective w v (rw (same, get) at e) in
        Memᴰ.head (rw ((eq_iff j k).0 same, found))
    | inr other ↦ Memᴰ.tail (mem_of_get k v d (rw (other, get) at e))
  ]

  get-translate_items :
      (ms : Dict String) (context : Dict V) (k : String) (v : V)
      → HasDistinctKeys ms context
      → get k context ≡ some v
      → get (provider_key ms k) (translate_items ms context) ≡ some v
  unfolding translate_items provider_key get get_or
  get-translate_items [] context k v h e = e
  get-translate_items (m ∷ ms) context k v h e =
      get-put_all (provider_key (m ∷ ms) k) (renamed (m ∷ ms) context) []
      ∙ last_get-renamed (m ∷ ms) k v context none h e

  mem_of_get-translate_items :
      (ms : Dict String) (context : Dict V) (j : String) (v : V)
      → get j (translate_items ms context) ≡ some v
      → (k : String) × (provider_key ms k ≡ j) × Memᴰ (k, v) context
  unfolding translate_items provider_key get get_or
  mem_of_get-translate_items [] context j v e = (j, refl, mem_of_get j v context e)
  mem_of_get-translate_items (m ∷ ms) context j v e =
      elim (last_get-mem (m ∷ ms) j v context none (rw get-put_all at e)) [
        | inl nothing ↦ cc
        | inr found ↦ found
      ]

module _ {V : Type 0} (m : VariableMapping) (context : Dict V) where
  -- If no two variables of a context share a provider key, the provider reads each of them under
  -- its provider key, with its value.
  pub get-translate :
      (k : String) (v : V)
      → HasDistinctKeys m.mappings context
      → get k context ≡ some v
      → get (provider_key m.mappings k) (translate m context) ≡ some v
  unfolding translate
  get-translate k v h e = get-translate_items m.mappings context k v h e

  -- Whatever a provider reads in a translated context is the value of a variable of the context
  -- that has that provider key.
  pub mem_of_get-translate :
      (j : String) (v : V)
      → get j (translate m context) ≡ some v
      → (k : String) × (provider_key m.mappings k ≡ j) × Memᴰ (k, v) context
  unfolding translate
  mem_of_get-translate j v e = mem_of_get-translate_items m.mappings context j v e
