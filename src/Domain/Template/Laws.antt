-- ===== src/Domain/Template/Laws.antt =====
-- Rendering: when it succeeds, what it raises, and templates written with braces.
use mathlib.Core.List.{Memᴰ}
use notifyfork.Common.{
  String, ◌≡◌, ◌⊎◌, ◌↔◌, refl, true, false, none, List, Bool-cases, inl, inr, All,
}
use notifyfork.Python.Dict.{Dict, get}
use notifyfork.Python.Result.{Error, value_error, Result, ok, err, error_text}
use notifyfork.Python.Template.{
  Piece, var, bad, plain, scan, Str, fill, substitute, invalid_placeholder,
}
use notifyfork.Python.Template.Source.{source, IsProper, scan-source}
use notifyfork.Python.Template.Sound.{
  Blame, IsBound, Extends, substitute-Blame, substitute_ok_iff, substitute-Extends,
}
use notifyfork.Domain.Template.{
  NotificationTemplate, is_external, missing_error, name_missing, cannot_render, render,
}
use Prim.Native.String

name_missing-eq-ok :
    (prefix : String) (r : Result String) (text : String)
    → name_missing prefix r ≡ ok text
    → r ≡ ok text
unfolding name_missing
name_missing-eq-ok prefix (ok t) text e = e
name_missing-eq-ok prefix (err x) text e = cc

name_missing-eq-err :
    (prefix : String) (r : Result String) (e : Error)
    → name_missing prefix r ≡ err e
    → (x : Error) × (r ≡ err x) × (e ≡ missing_error prefix x)
unfolding name_missing
name_missing-eq-err prefix (ok t) e h = cc
name_missing-eq-err prefix (err x) e h = (x, refl, cc)

-- The ValueError of `render` for a placeholder that is not in the context.
abbrev pub missing_variable : String → Error
missing_variable n =
    value_error (String.◌++◌ "Missing template variable: " (String.◌++◌ "'" (String.◌++◌ n "'")))

module _ {V : Type 0} where
  abbrev pub RenderBlame : NotificationTemplate → Dict V → Error → Type 0
  RenderBlame t context e =
      ((is_external t ≡ true) × (e ≡ cannot_render))
      ⊎ ((e ≡ invalid_placeholder) × Memᴰ bad (scan plain t.body)
          ⊎ ((n : String) × (e ≡ missing_variable n)
              × (get n context ≡ none)
              × Memᴰ (var n) (scan plain t.body)))

  Blame-render :
      (t : NotificationTemplate) (context : Dict V) (x e : Error)
      → Blame context (scan plain t.body) x
      → e ≡ missing_error "Missing template variable: " x
      → RenderBlame t context e
  unfolding missing_error error_text
  Blame-render t context x e (inl (same, m)) h = inr (inl (rw same at h, m))
  Blame-render t context x e (inr (n, same, missing, m)) h = inr (inr (n, rw same at h, missing, m))

module _ {V : Type 0} ⦃s : Str V⦄ where
  -- `render` raises only for an EXTERNAL template, an invalid `$`, or a variable that is missing,
  -- and then the error names that variable; no KeyError leaves it.
  pub render-RenderBlame :
      (t : NotificationTemplate) (context : Dict V) (e : Error)
      → render t context ≡ err e
      → RenderBlame t context e
  unfolding render
  render-RenderBlame t context e h = elim (Bool-cases (is_external t)) [
    | inl ext ↦ inl (ext, cc (rw (ext, render) at h))
    | inr loc ↦
        let (x, failed, same) =
          name_missing-eq-err _ (substitute t.body context) e (rw (loc, render) at h) in
        Blame-render t context x e (substitute-Blame t.body context x failed) same
  ]

  render-eq-ok :
      (t : NotificationTemplate) (context : Dict V) (text : String)
      → render t context ≡ ok text
      → (is_external t ≡ false) × (substitute t.body context ≡ ok text)
  unfolding render
  render-eq-ok t context text h = elim (Bool-cases (is_external t)) [
    | inl ext ↦ cc (rw (ext, render) at h)
    | inr loc ↦ (loc, name_missing-eq-ok _ (substitute t.body context) text (rw (loc, render) at h))
  ]

  render_of_ok :
      (t : NotificationTemplate) (context : Dict V) (text : String)
      → is_external t ≡ false
      → substitute t.body context ≡ ok text
      → render t context ≡ ok text
  unfolding render name_missing
  render_of_ok t context text loc h = rw (loc, render, h)

  -- `render` succeeds exactly for a LOCAL template whose placeholders are all well formed and bound.
  pub render_ok_iff :
      (t : NotificationTemplate) (context : Dict V)
      → ((text : String) × (render t context ≡ ok text))
        ↔ ((is_external t ≡ false) × All (IsBound context) (scan plain t.body))
  render_ok_iff t context = (
    λ (text, e).
        let (loc, done) = render-eq-ok t context text e in
        (loc, (substitute_ok_iff t.body context).0 (text, done)),
    λ (loc, bound).
        let (text, done) = (substitute_ok_iff t.body context).1 bound in
        (text, render_of_ok t context text loc done),
  )

  -- What renders with a context renders to the same text with any context that gives the same
  -- values to its keys.
  pub render-Extends :
      (t : NotificationTemplate) (context wider : Dict V) (text : String)
      → Extends context wider
      → render t context ≡ ok text
      → render t wider ≡ ok text
  render-Extends t context wider text h e =
      let (loc, done) = render-eq-ok t context text e in
      render_of_ok t wider text loc (substitute-Extends t.body context wider text h done)

  -- A LOCAL body printed from pieces, `$` doubled and placeholders in braces, renders to those
  -- pieces filled in.
  pub render-source :
      (t : NotificationTemplate) (context : Dict V) (ps : List Piece) (text : String)
      → is_external t ≡ false
      → t.body ≡ source ps
      → All IsProper ps
      → fill context ps ≡ ok text
      → render t context ≡ ok text
  unfolding substitute
  render-source t context ps text loc printed proper filled =
      render_of_ok t context text loc (rw (printed, scan-source ps proper) filled)
