-- ===== src/Infrastructure/Container/Order.antt =====
-- `_ordered`: which of the providers are in the fallback list.
use mathlib.Core.List.{Memᴰ}
use mathlib.Core.Option.{some-injective}
use notifyfork.Common.{
  String, ◌≡◌, ◌≢◌, ◌↔◌, ◌⊎◌, refl, sym, ap, subst, ◌∙◌, Bool, true, not, Option, none, some, List,
  [], ◌∷◌, ◌++◌, map, any, filter, All, arith, ◌==◌, eq_iff, eq_refl, Bool-cases, Option-cases, inl,
  inr,
}
use notifyfork.Python.Dict.{Dict, get}
use notifyfork.Python.Dict.Laws.{last_get, get-put_all}
use notifyfork.Infrastructure.Container.{by_name, listed, remaining, ordered, provider_order}

module _ {ℓ} {A : Type ℓ} where
  mem-append_left : (x : A) (xs ys : List A) → Memᴰ x xs → Memᴰ x (xs ++ ys)
  mem-append_left x [] ys m = elim m [ ]
  mem-append_left x (y ∷ xs) ys (Memᴰ.head same) = Memᴰ.head same
  mem-append_left x (y ∷ xs) ys (Memᴰ.tail m) = Memᴰ.tail (mem-append_left x xs ys m)

  mem-append_right : (x : A) (xs ys : List A) → Memᴰ x ys → Memᴰ x (xs ++ ys)
  mem-append_right x [] ys m = m
  mem-append_right x (y ∷ xs) ys m = Memᴰ.tail (mem-append_right x xs ys m)

  mem-append_cases : (x : A) (xs ys : List A) → Memᴰ x (xs ++ ys) → Memᴰ x xs ⊎ Memᴰ x ys
  mem-append_cases x [] ys m = inr m
  mem-append_cases x (y ∷ xs) ys (Memᴰ.head same) = inl (Memᴰ.head same)
  mem-append_cases x (y ∷ xs) ys (Memᴰ.tail m) = elim (mem-append_cases x xs ys m) [
    | inl a ↦ inl (Memᴰ.tail a)
    | inr b ↦ inr b
  ]

  mem_of-filter : (p : A → Bool) (x : A) (xs : List A) → Memᴰ x (filter p xs) → Memᴰ x xs
  mem_of-filter p x [] m = m
  mem_of-filter p x (y ∷ xs) m = elim (Bool-cases (p y)) [
    | inl kept ↦ elim (rw kept at m) [
      | Memᴰ.head same ↦ Memᴰ.head same
      | Memᴰ.tail n ↦ Memᴰ.tail (mem_of-filter p x xs n)
    ]
    | inr dropped ↦ Memᴰ.tail (mem_of-filter p x xs (rw dropped at m))
  ]

  mem-filter : (p : A → Bool) (x : A) (xs : List A) → p x ≡ true → Memᴰ x xs → Memᴰ x (filter p xs)
  mem-filter p x [] h m = m
  mem-filter p x (y ∷ xs) h (Memᴰ.head same) = rw (ap p (sym same) ∙ h) (Memᴰ.head same)
  mem-filter p x (y ∷ xs) h (Memᴰ.tail m) = elim (Bool-cases (p y)) [
    | inl here ↦ rw here (Memᴰ.tail (mem-filter p x xs h m))
    | inr dropped ↦ rw dropped (mem-filter p x xs h m)
  ]

module _ {P : Type 0} (name : P → String) where
  -- No two providers have the same name.
  abbrev pub HasDistinctNames : List P → Type 0
  HasDistinctNames [] = Unit
  HasDistinctNames (p ∷ ps) = All (λ q. name q ≢ name p) ps × HasDistinctNames ps

  abbrev named : List P → List (String × P)
  named ps = map (λ p. (name p, p)) ps

  last_get-named_skip :
      (p : P) (ps : List P) (before : Option P)
      → All (λ q. name q ≢ name p) ps
      → last_get (name p) (named ps) before ≡ before
  unfolding last_get
  last_get-named_skip p [] before h = refl
  last_get-named_skip p (q ∷ ps) before (ne, h) =
      ground (arith, eq_iff (name q) (name p), last_get-named_skip p ps before h)

  last_get-named :
      (p : P) (ps : List P) (before : Option P)
      → HasDistinctNames ps
      → Memᴰ p ps
      → last_get (name p) (named ps) before ≡ some p
  unfolding last_get
  last_get-named p [] before h m = elim m [ ]
  last_get-named p (q ∷ ps) before (ne, h) (Memᴰ.head same) =
      subst (λ x. last_get (name x) (named (q ∷ ps)) before ≡ some x) (sym same)
        (rw (eq_refl (name q), last_get) (last_get-named_skip q ps (some q) ne))
  last_get-named p (q ∷ ps) before (ne, h) (Memᴰ.tail m) = last_get-named p ps _ h m

  last_get-named_cases :
      (n : String) (p : P) (ps : List P) (before : Option P)
      → last_get n (named ps) before ≡ some p
      → (before ≡ some p) ⊎ Memᴰ p ps
  unfolding last_get
  last_get-named_cases n p [] before e = inl e
  last_get-named_cases n p (q ∷ ps) before e = elim (last_get-named_cases n p ps _ e) [
    | inr m ↦ inr (Memᴰ.tail m)
    | inl found ↦ elim (Bool-cases (name q == n)) [
      | inl same ↦ inr (Memᴰ.head (sym (some-injective _ _ (rw same at found))))
      | inr other ↦ inl (rw other at found)
    ]
  ]

  mem_of-listed :
      (d : Dict P) (ps : List P)
      → ((n : String) (p : P) → get n d ≡ some p → Memᴰ p ps)
      → (order : List String) (p : P) → Memᴰ p (listed name order d)
      → Memᴰ p ps
  unfolding listed
  mem_of-listed d ps h [] p m = elim m [ ]
  mem_of-listed d ps h (n ∷ order) p m = elim (Option-cases (get n d)) [
    | inl nothing ↦ mem_of-listed d ps h order p (rw (nothing, listed) at m)
    | inr (q, found) ↦ elim (rw (found, listed) at m) [
      | Memᴰ.head same ↦ h n p (rw same found)
      | Memᴰ.tail rest ↦ mem_of-listed d ps h order p rest
    ]
  ]

  mem-listed :
      (d : Dict P) (p : P) (order : List String)
      → get (name p) d ≡ some p
      → any (λ n. n == name p) order ≡ true
      → Memᴰ p (listed name order d)
  unfolding listed
  mem-listed d p [] found h = cc
  mem-listed d p (n ∷ order) found h = elim (Bool-cases (n == name p)) [
    | inl same ↦ rw ((eq_iff n (name p)).0 same, found, listed) (Memᴰ.head refl)
    | inr other ↦
        let rest : Memᴰ p (listed name order d) = mem-listed d p order found (rw other at h) in
        elim (Option-cases (get n d)) [
          | inl nothing ↦ rw (nothing, listed) rest
          | inr (q, e) ↦ rw (e, listed) (Memᴰ.tail rest)
        ]
  ]

  pub mem_of-ordered :
      (raw : Option String) (ps : List P) (p : P) → Memᴰ p (ordered name raw ps) → Memᴰ p ps
  unfolding ordered by_name remaining get
  mem_of-ordered raw ps p m =
      elim (mem-append_cases p (listed name (provider_order raw) (by_name name ps)) _ m) [
        | inl a ↦
            mem_of-listed (by_name name ps) ps
              (λ n q e. elim (last_get-named_cases n q ps none (rw get-put_all at e)) [
                | inl nothing ↦ cc
                | inr found ↦ found
              ])
              (provider_order raw) p a
        | inr b ↦ mem_of-filter _ p ps b
      ]

  mem-ordered :
      (raw : Option String) (ps : List P) (p : P)
      → HasDistinctNames ps
      → Memᴰ p ps
      → Memᴰ p (ordered name raw ps)
  unfolding ordered by_name remaining get
  mem-ordered raw ps p distinct m =
      elim (Bool-cases (any (λ n. n == name p) (provider_order raw))) [
        | inl asked ↦ mem-append_left p _ _ (
            mem-listed (by_name name ps) p (provider_order raw)
              (get-put_all (name p) (named ps) [] ∙ last_get-named p ps none distinct m) asked)
        | inr not_asked ↦ mem-append_right p _ _ (mem-filter _ p ps (ap not not_asked) m)
      ]

  -- If no two providers share a name, then whatever NOTIFYFORK_PROVIDER_ORDER says, the fallback
  -- list has the same providers as the list that is ordered: none is added, and none is lost.
  pub mem-ordered_iff :
      (raw : Option String) (ps : List P) (p : P)
      → HasDistinctNames ps
      → Memᴰ p (ordered name raw ps) ↔ Memᴰ p ps
  mem-ordered_iff raw ps p distinct = (mem_of-ordered raw ps p, mem-ordered raw ps p distinct)
