-- ===== src/Common/Lists.antt =====
-- Lists measured by native numbers, tested and filtered by Boolean functions.
use Prim.Native.Nat.{ℕ, suc, ◌+◌}
use mathlib.Core.Path.{◌≡◌, refl, sym, subst}
use mathlib.Core.Bool.{Bool, true, false, ◌||◌}
use mathlib.Core.List.{List, [], ◌∷◌, ◌++◌, Memᴰ}
use native.Mathlib.Omega.{arith}
use mathlib.Core.Logic.{◌≢◌, inl, inr}
use notifyfork.Common.Tests.{if◌then◌else◌, Bool-cases}

module _ {ℓ} {A : Type ℓ} where
  abbrev pub length : List A → ℕ
  length [] = 0
  length (x ∷ xs) = suc (length xs)

  abbrev pub any : (A → Bool) → List A → Bool
  any p [] = false
  any p (x ∷ xs) = p x || any p xs

  -- `[x for x in xs if p(x)]`
  abbrev pub filter : (A → Bool) → List A → List A
  filter p [] = []
  filter p (x ∷ xs) = let rest = filter p xs in if p x then x ∷ rest else rest

  pub length-append : (xs ys : List A) → length (xs ++ ys) ≡ length xs + length ys
  length-append [] ys = omega arith
  length-append (x ∷ xs) ys = omega (arith, length-append xs ys)

module _ {ℓ κ} {A : Type ℓ} (P : A → Type κ) where
  abbrev pub All : List A → Type κ
  All [] = Unit
  All (x ∷ xs) = P x × All xs

  pub All-append : (xs ys : List A) → All xs → All ys → All (xs ++ ys)
  All-append [] ys hx hy = hy
  All-append (x ∷ xs) ys (h, hx) hy = (h, All-append xs ys hx hy)

  pub All-of-append : (xs ys : List A) → All (xs ++ ys) → All xs × All ys
  All-of-append [] ys h = (tt, h)
  All-of-append (x ∷ xs) ys (p, h) = let (hx, hy) = All-of-append xs ys h in ((p, hx), hy)

  pub mem-All : (xs : List A) (x : A) → All xs → Memᴰ x xs → P x
  mem-All [] x h m = elim m [ ]
  mem-All (y ∷ ys) x (h, hs) (Memᴰ.head same) = subst P (sym same) h
  mem-All (y ∷ ys) x (h, hs) (Memᴰ.tail m) = mem-All ys x hs m

  pub All-of_mem : (xs : List A) → ((x : A) → Memᴰ x xs → P x) → All xs
  All-of_mem [] h = tt
  All-of_mem (x ∷ xs) h = (h x (Memᴰ.head refl), All-of_mem xs (λ y m. h y (Memᴰ.tail m)))

module _ {ℓ κ} {A : Type ℓ} (P Q : A → Type κ) (h : (a : A) → P a → Q a) where
  pub All-map : (xs : List A) → All P xs → All Q xs
  All-map [] t = tt
  All-map (x ∷ xs) (p, t) = (h x p, All-map xs t)

module _ {ℓ κ} {A : Type ℓ} (P : A → Type κ) (p : A → Bool) where
  pub All-filter : (xs : List A) → All P xs → All P (filter p xs)
  All-filter [] h = tt
  All-filter (x ∷ xs) (hx, hxs) = elim (Bool-cases (p x)) [
    | inl kept ↦ rw kept (hx, All-filter xs hxs)
    | inr left ↦ rw left (All-filter xs hxs)
  ]

module _ {ℓ} {A : Type ℓ} (p : A → Bool) where
  pub filter-of_mem : (xs : List A) (x : A) → Memᴰ x xs → p x ≡ true → filter p xs ≢ []
  filter-of_mem [] x m h e = elim m [ ]
  filter-of_mem (y ∷ ys) x (Memᴰ.head same) h e = let here = rw (same) at h in cc
  filter-of_mem (y ∷ ys) x (Memᴰ.tail m) h e = elim (Bool-cases (p y)) [
    | inl kept ↦ cc
    | inr left ↦ let same = rw left at e in filter-of_mem ys x m h same
  ]
