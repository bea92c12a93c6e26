-- ===== src/Examples/Take.antt =====
-- `xs[:limit]`, and which elements it keeps.
use mathlib.Core.List.{Memᴰ}
use notifyfork.Common.{ℕ, zero, suc, ◌≤◌, ◌⊎◌, List, [], ◌∷◌, All, length, arith, inl, inr}

module _ {A : Type 0} where
  abbrev pub take : ℕ → List A → List A
  take zero xs = []
  take (suc n) [] = []
  take (suc n) (x ∷ xs) = x ∷ take n xs

  pub length-take : (n : ℕ) (xs : List A) → length (take n xs) ≤ n
  length-take zero xs = omega arith
  length-take (suc n) [] = omega arith
  length-take (suc n) (x ∷ xs) = omega (arith, length-take n xs)

  pub All-take : (P : A → Type 0) (n : ℕ) (xs : List A) → All P xs → All P (take n xs)
  All-take P zero xs h = tt
  All-take P (suc n) [] h = tt
  All-take P (suc n) (x ∷ xs) (p, h) = (p, All-take P n xs h)

  pub take_complete :
      (n : ℕ) (x : A) (xs : List A) → Memᴰ x xs → (n ≤ length (take n xs)) ⊎ Memᴰ x (take n xs)
  take_complete zero x xs m = inl (omega arith)
  take_complete (suc n) x [] m = elim m [ ]
  take_complete (suc n) x (y ∷ ys) (Memᴰ.head same) = inr (Memᴰ.head same)
  take_complete (suc n) x (y ∷ ys) (Memᴰ.tail m) = elim (take_complete n x ys m) [
    | inl full ↦ inl (omega arith)
    | inr kept ↦ inr (Memᴰ.tail kept)
  ]
