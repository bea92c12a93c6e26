-- ===== src/Python/Dict.antt =====
-- Python's `dict` with text keys: an association list in insertion order. Writing a key that is
-- there keeps its place, as Python does.
pub mod Laws
use notifyfork.Common.{String, Bool, Option, none, some, List, [], ◌∷◌, ◌==◌, if◌then◌else◌}

abbrev pub Dict {ℓ} : Type ℓ → Type ℓ
Dict V = List (String × V)

module _ {ℓ} {V : Type ℓ} where
  -- `d.get(k)`
  unfoldable pub get : String → Dict V → Option V
  get k [] = none
  get k ((j, v) ∷ d) = if j == k then some v else get k d

  -- `d[k] = v`
  unfoldable pub put : String → V → Dict V → Dict V
  put k v [] = (k, v) ∷ []
  put k v ((j, w) ∷ d) = let rest = put k v d in if j == k then (j, v) ∷ d else (j, w) ∷ rest

  -- `d.get(k, default)`
  unfoldable pub get_or : Option V → V → V
  get_or none default = default
  get_or (some v) default = v

  -- The writes of a dict comprehension or of `d.update(items)`, in the order of `items`.
  unfoldable pub put_all : List (String × V) → Dict V → Dict V
  put_all [] d = d
  put_all ((k, v) ∷ items) d = put_all items (put k v d)
