-- ===== src/Python/Template/Source.antt =====
-- Writing a template: the source that scans to given pieces.
use notifyfork.Common.{
  String, Char, ◌≡◌, refl, ◌∙◌, ap, true, List, [], ◌∷◌, if◌then◌else◌, Bool-cases, inl, inr, All,
}
use notifyfork.Python.Template.{
  Piece, lit, var, bad, plain, brace, char_is, id_start, id_part, push, scan, scan_char,
}
use Prim.Native.String
use text.Mathlib.TextLemmas.{nil-append, cons-append, append-nil, append_assoc}

-- `$` is doubled, and a placeholder is written in braces.
unfoldable pub source : List Piece → String
source [] = ""
source (lit c ∷ ps) =
    let rest = source ps in
    if char_is b'$' c then String.◌∷◌ "$" (String.◌∷◌ c rest) else String.◌∷◌ c rest
source (var n ∷ ps) = String.◌∷◌ "$" (String.◌∷◌ "{" (String.◌++◌ n (String.◌∷◌ "}" (source ps))))
source (bad ∷ ps) = "$"

-- The characters of `s` may all stand in an identifier.
abbrev pub AllPart : String → Type 0
AllPart String.[] = Unit
AllPart (String.◌∷◌ c s) = (id_part c ≡ true) × AllPart s

abbrev pub IsIdentifier : String → Type 0
IsIdentifier String.[] = ⊥
IsIdentifier (String.◌∷◌ c s) = (id_start c ≡ true) × AllPart s

abbrev pub IsProper : Piece → Type 0
IsProper (lit c) = Unit
IsProper (var n) = IsIdentifier n
IsProper bad = ⊥

push-append :
    (n : String) (c : Char) (s : String) → String.◌++◌ (push n c) s ≡ String.◌++◌ n (String.◌∷◌ c s)
push-append n c s = simp (append_assoc, cons-append, nil-append)

-- The scanner reads a braced name up to its brace.
scan-brace :
    (n s rest : String)
    → AllPart s
    → scan (brace n) (String.◌++◌ s (String.◌∷◌ "}" rest)) ≡ var (String.◌++◌ n s) ∷ scan plain rest
unfolding scan scan_char id_part id_start
scan-brace n String.[] rest h = simp (nil-append, append-nil)
scan-brace n (String.◌∷◌ c s) rest h =
    rw (cons-append, h.0)
      (scan-brace (push n c) s rest h.1 ∙ ap (λ t. var t ∷ scan plain rest) (push-append n c s))

-- Parsing a printed template gives back its pieces.
pub scan-source : (ps : List Piece) → All IsProper ps → scan plain (source ps) ≡ ps
unfolding source scan scan_char id_start
scan-source [] h = refl
scan-source (lit c ∷ ps) h = elim (Bool-cases (char_is b'$' c)) [
  | inl e ↦ rw (e, e) (ap (λ t. lit c ∷ t) (scan-source ps h.1))
  | inr e ↦ rw (e, e) (ap (λ t. lit c ∷ t) (scan-source ps h.1))
]
scan-source (var (String.◌∷◌ c s) ∷ ps) h =
    rw (cons-append, h.0.0)
      (scan-brace (push "" c) s (source ps) h.0.1
        ∙ ap (λ t. var t ∷ scan plain (source ps))
            (push-append "" c s ∙ nil-append (String.◌∷◌ c s))
        ∙ ap (λ t. var (String.◌∷◌ c s) ∷ t) (scan-source ps h.1))
scan-source (var String.[] ∷ ps) h = absurd h.0
scan-source (bad ∷ ps) h = absurd h.0
