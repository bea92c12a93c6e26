-- ===== src/Python/Template.antt =====
-- `string.Template(template).substitute(mapping)` of Python's standard library, with the default
-- delimiter `$` and the default identifiers: an ASCII letter or `_`, then ASCII letters, digits
-- and `_`. The scanner reads one character at a time and keeps what it has begun in a `Mode`.
pub mod Source
pub mod Sound
use notifyfork.Common.{
  ℕ, String, Char, code, Bool, ◌&&◌, ◌||◌, Option, none, some, List, [], ◌∷◌, ◌++◌, leb, nat_eq,
  if◌then◌else◌,
}
use notifyfork.Python.Dict.{Dict, get}
use notifyfork.Python.Result.{Error, value_error, key_error, Result, ok, err, ◌>>=◌}
use Prim.Native.String

-- What stands in a template: a character to copy, a placeholder, or an invalid `$`.
pub data Piece : Type 0 where
  lit : Char → Piece
  var : String → Piece
  bad : Piece

-- After a `$`, in a name, after `${`, in a name behind `${`; `dead` follows an invalid `$`.
pub data Mode : Type 0 where
  plain dollar : Mode
  name : String → Mode
  open_brace : Mode
  brace : String → Mode
  dead : Mode

abbrev pub char_is : ℕ → Char → Bool
char_is n c = nat_eq (code c) n

unfoldable pub id_start : Char → Bool
id_start c =
    (leb b'a' (code c) && leb (code c) b'z')
    || (leb b'A' (code c) && leb (code c) b'Z')
    || char_is b'_' c

unfoldable pub id_part : Char → Bool
id_part c = id_start c || (leb b'0' (code c) && leb (code c) b'9')

abbrev pub push : String → Char → String
push s c = String.◌++◌ s (String.◌∷◌ c "")

-- One character: what it adds to the pieces, and the mode after it.
unfoldable pub scan_char : Mode → Char → List Piece × Mode
unfolding id_part
scan_char plain c = if char_is b'$' c then ([], dollar) else (lit c ∷ [], plain)
scan_char dollar c =
    if char_is b'$' c
    then (lit c ∷ [], plain)
    else if id_start c
    then ([], name (push "" c))
    else if char_is b'{' c
    then ([], open_brace)
    else (bad ∷ [], dead)
scan_char (name n) c =
    if id_part c
    then ([], name (push n c))
    else if char_is b'$' c
    then (var n ∷ [], dollar)
    else (var n ∷ lit c ∷ [], plain)
scan_char open_brace c = if id_start c then ([], brace (push "" c)) else (bad ∷ [], dead)
scan_char (brace n) c =
    if id_part c
    then ([], brace (push n c))
    else if char_is b'}' c
    then (var n ∷ [], plain)
    else (bad ∷ [], dead)
scan_char dead c = ([], dead)

-- The end of the template.
unfoldable pub scan_end : Mode → List Piece
scan_end plain = []
scan_end dollar = bad ∷ []
scan_end (name n) = var n ∷ []
scan_end open_brace = bad ∷ []
scan_end (brace n) = bad ∷ []
scan_end dead = []

unfoldable pub scan : Mode → String → List Piece
unfolding scan_char scan_end
scan m String.[] = scan_end m
scan m (String.◌∷◌ c s) = let (out, m') = scan_char m c in out ++ scan m' s

-- `str(value)` of the values that a context holds.
pub record Str (V : Type 0) : Type 0 where
  pub str : V → String

abbrev pub invalid_placeholder : Error
invalid_placeholder = value_error "Invalid placeholder in string"

module _ {V : Type 0} ⦃s : Str V⦄ where
  unfoldable pub fill : Dict V → List Piece → Result String
  fill context [] = ok ""
  fill context (lit c ∷ pieces) = do rest ← fill context pieces; ok (String.◌∷◌ c rest)
  fill context (var n ∷ pieces) =
      let rest = fill context pieces in
      elim (get n context) [
        | none ↦ err (key_error n)
        | some v ↦ rest >>= λ tail. ok (String.◌++◌ (s.str v) tail)
      ]
  fill context (bad ∷ pieces) = err invalid_placeholder

  unfoldable pub substitute : String → Dict V → Result String
  unfolding fill scan
  substitute template context = fill context (scan plain template)
