-- ===== src/Python/Dict/Laws.antt =====
-- Reading a dictionary after it is written.
use notifyfork.Common.{
  String, ◌≡◌, refl, Option, some, List, [], ◌∷◌, arith, ◌==◌, eq_iff, if◌then◌else◌,
}
use notifyfork.Python.Dict.{Dict, get, put, put_all}

module _ {ℓ} {V : Type ℓ} where
  pub get-put :
      (k j : String) (v : V) (d : Dict V) → get j (put k v d) ≡ (if k == j then some v else get j d)
  unfolding get put
  get-put k j v [] = refl
  get-put k j v ((i, w) ∷ d) = ground (arith, eq_iff k j, eq_iff i k, eq_iff i j, get-put k j v d)

  -- The last of the writes to a key is the one that is read.
  unfoldable pub last_get : String → List (String × V) → Option V → Option V
  last_get j [] before = before
  last_get j ((k, v) ∷ items) before = last_get j items (if k == j then some v else before)

  pub get-put_all :
      (j : String) (items : List (String × V)) (d : Dict V)
      → get j (put_all items d) ≡ last_get j items (get j d)
  unfolding put_all last_get
  get-put_all j [] d = refl
  get-put_all j ((k, v) ∷ items) d = rw (get-put_all j items (put k v d), get-put k j v d)
