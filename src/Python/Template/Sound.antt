-- ===== src/Python/Template/Sound.antt =====
-- When a substitution succeeds, what it fails with, and what it does not depend on.
use mathlib.Core.List.{Memᴰ}
use notifyfork.Common.{
  String, ◌≡◌, ◌⊎◌, ◌↔◌, refl, none, some, List, [], ◌∷◌, Option-cases, inl, inr, All,
}
use notifyfork.Python.Dict.{Dict, get}
use notifyfork.Python.Result.{Error, key_error, Result, ok, err, ◌>>=◌, >>=-eq-ok}
use notifyfork.Python.Template.{
  Piece, lit, var, bad, plain, scan, Str, fill, substitute, invalid_placeholder,
}
use Prim.Native.String

module _ {V : Type 0} where
  -- Every key that `context` binds is bound to the same value in `wider`.
  abbrev pub Extends : Dict V → Dict V → Type 0
  Extends context wider = (k : String) (v : V) → get k context ≡ some v → get k wider ≡ some v

  -- A piece that can be filled in.
  abbrev pub IsBound : Dict V → Piece → Type 0
  IsBound context (lit c) = Unit
  IsBound context (var n) = (v : V) × (get n context ≡ some v)
  IsBound context bad = ⊥

  -- What a failed substitution may raise: a placeholder of the template that the context lacks,
  -- or an invalid `$` of the template.
  abbrev pub Blame : Dict V → List Piece → Error → Type 0
  Blame context pieces e =
      ((e ≡ invalid_placeholder) × Memᴰ bad pieces)
      ⊎ ((n : String) × (e ≡ key_error n) × (get n context ≡ none) × Memᴰ (var n) pieces)

  Blame-cons :
      (context : Dict V) (p : Piece) (pieces : List Piece) (e : Error)
      → Blame context pieces e
      → Blame context (p ∷ pieces) e
  Blame-cons context p pieces e (inl (same, m)) = inl (same, Memᴰ.tail m)
  Blame-cons context p pieces e (inr (n, same, missing, m)) = inr (n, same, missing, Memᴰ.tail m)

>>=-ok-eq-err :
    {A B : Type 0} (m : Result A) (f : A → B) {e : Error}
    → (m >>= λ a. ok (f a)) ≡ err e
    → m ≡ err e
>>=-ok-eq-err (ok a) f h = cc
>>=-ok-eq-err (err x) f h = cc

module _ {V : Type 0} ⦃s : Str V⦄ where
  fill-Extends :
      (context wider : Dict V) (pieces : List Piece) (text : String)
      → Extends context wider
      → fill context pieces ≡ ok text
      → fill wider pieces ≡ ok text
  unfolding fill
  fill-Extends context wider [] text h e = e
  fill-Extends context wider (lit c ∷ pieces) text h e =
      let (rest, filled, same) = >>=-eq-ok (fill context pieces) (λ r. ok (String.◌∷◌ c r)) e in
      rw (fill-Extends context wider pieces rest h filled) same
  fill-Extends context wider (var n ∷ pieces) text h e = elim (Option-cases (get n context)) [
    | inl missing ↦ cc (rw (missing, fill) at e)
    | inr (v, bound) ↦
        let (rest, filled, same) =
          >>=-eq-ok (fill context pieces) (λ t. ok (String.◌++◌ (s.str v) t))
            (rw (bound, fill) at e) in
        rw (h n v bound, fill, fill-Extends context wider pieces rest h filled) same
  ]
  fill-Extends context wider (bad ∷ pieces) text h e = cc

  pub substitute-Extends :
      (template : String) (context wider : Dict V) (text : String)
      → Extends context wider
      → substitute template context ≡ ok text
      → substitute template wider ≡ ok text
  unfolding substitute
  substitute-Extends template context wider text h e =
      fill-Extends context wider (scan plain template) text h e

  fill-Blame :
      (context : Dict V) (pieces : List Piece) (e : Error)
      → fill context pieces ≡ err e
      → Blame context pieces e
  unfolding fill
  fill-Blame context [] e h = cc
  fill-Blame context (lit c ∷ pieces) e h =
      Blame-cons context (lit c) pieces e
        (fill-Blame context pieces e (>>=-ok-eq-err (fill context pieces) (String.◌∷◌ c) h))
  fill-Blame context (var n ∷ pieces) e h = elim (Option-cases (get n context)) [
    | inl missing ↦ inr (n, cc (rw (missing, fill) at h), missing, Memᴰ.head refl)
    | inr (v, bound) ↦ Blame-cons context (var n) pieces e (
        fill-Blame context pieces e
          (>>=-ok-eq-err (fill context pieces) (String.◌++◌ (s.str v)) (rw (bound, fill) at h)))
  ]
  fill-Blame context (bad ∷ pieces) e h = inl (cc, Memᴰ.head refl)

  pub substitute-Blame :
      (template : String) (context : Dict V) (e : Error)
      → substitute template context ≡ err e
      → Blame context (scan plain template) e
  unfolding substitute
  substitute-Blame template context e h = fill-Blame context (scan plain template) e h

  fill_total :
      (context : Dict V) (pieces : List Piece)
      → All (IsBound context) pieces
      → (text : String) × (fill context pieces ≡ ok text)
  unfolding fill
  fill_total context [] h = ("", refl)
  fill_total context (lit c ∷ pieces) h =
      let (rest, filled) = fill_total context pieces h.1 in (String.◌∷◌ c rest, rw filled)
  fill_total context (var n ∷ pieces) ((v, bound), h) =
      let (rest, filled) = fill_total context pieces h in
      (String.◌++◌ (s.str v) rest, rw (bound, fill, filled))
  fill_total context (bad ∷ pieces) h = absurd h.0

  fill-IsBound :
      (context : Dict V) (pieces : List Piece) (text : String)
      → fill context pieces ≡ ok text
      → All (IsBound context) pieces
  unfolding fill
  fill-IsBound context [] text e = tt
  fill-IsBound context (lit c ∷ pieces) text e =
      let (rest, filled, _) = >>=-eq-ok (fill context pieces) (λ r. ok (String.◌∷◌ c r)) e in
      (tt, fill-IsBound context pieces rest filled)
  fill-IsBound context (var n ∷ pieces) text e = elim (Option-cases (get n context)) [
    | inl missing ↦ cc (rw (missing, fill) at e)
    | inr (v, bound) ↦
        let (rest, filled, _) =
          >>=-eq-ok (fill context pieces) (λ t. ok (String.◌++◌ (s.str v) t))
            (rw (bound, fill) at e) in
        ((v, bound), fill-IsBound context pieces rest filled)
  ]
  fill-IsBound context (bad ∷ pieces) text e = cc

  -- A substitution succeeds exactly when the template has no invalid `$` and the context binds
  -- every placeholder.
  pub substitute_ok_iff :
      (template : String) (context : Dict V)
      → ((text : String) × (substitute template context ≡ ok text))
        ↔ All (IsBound context) (scan plain template)
  unfolding substitute
  substitute_ok_iff template context = (
    λ (text, e). fill-IsBound context (scan plain template) text e,
    λ h. fill_total context (scan plain template) h,
  )
