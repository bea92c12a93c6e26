-- ===== src/Python/Int.antt =====
-- Python's integers, and `int(text)` for texts of ASCII digits.
use notifyfork.Common.{
  ℕ, zero, suc, ◌+◌, ◌-◌, String, Char, code, Bool, false, ◌&&◌, ◌||◌, Option, none, some, leb,
  nat_eq, if◌then◌else◌,
}
use notifyfork.Python.Text.{strip}
use Prim.Native.Nat.{◌*◌}

-- `negsuc n` is -(n + 1).
pub data ℤ : Type 0 where
  pos : ℕ → ℤ
  negsuc : ℕ → ℤ

abbrev is_digit : Char → Bool
is_digit c = leb b'0' (code c) && leb (code c) b'9'

-- Digits with single underscores between them; `after_digit` says what came last.
unfoldable pub digits : Bool → ℕ → String → Option ℕ
digits after_digit acc String.[] = if after_digit then some acc else none
digits after_digit acc (String.◌∷◌ c s) =
    let rest = digits (is_digit c) (if is_digit c then acc * 10 + (code c - b'0') else acc) s in
    if is_digit c || (nat_eq (code c) b'_' && after_digit) then rest else none

unfoldable pub negated : ℕ → ℤ
negated zero = pos 0
negated (suc n) = negsuc n

unfoldable pub signed : String → Option ℤ
unfolding digits negated
signed String.[] = none
signed (String.◌∷◌ c s) =
    if nat_eq (code c) b'-'
    then elim (digits false 0 s) [ none ↦ none | some n ↦ some (negated n) ]
    else elim (if nat_eq (code c) b'+' then digits false 0 s else digits false 0 (String.◌∷◌ c s)) [
      | none ↦ none
      | some n ↦ some (pos n)
    ]

-- `int(text)`; a text of another form raises ValueError, here `none`.
unfoldable pub int_of_text : String → Option ℤ
unfolding strip signed
int_of_text text = signed (strip text)
