-- ===== src/Python/Text.antt =====
-- Python's `str` methods that the program calls, by recursion on the characters.
use notifyfork.Common.{
  Option, none, some, ℕ, suc, String, Char, code, Bool, true, false, ◌&&◌, ◌||◌, List, [], ◌∷◌, leb,
  nat_eq, if◌then◌else◌, ◌==◌,
}
use Prim.Native.String

-- The characters for which `str.isspace` holds.
unfoldable pub is_space : Char → Bool
is_space c =
    (leb 9 n && leb n 13)
    || (leb 28 n && leb n 32)
    || nat_eq n 0x85
    || nat_eq n 0xa0
    || nat_eq n 0x1680
    || (leb 0x2000 n && leb n 0x200a)
    || nat_eq n 0x2028
    || nat_eq n 0x2029
    || nat_eq n 0x202f
    || nat_eq n 0x205f
    || nat_eq n 0x3000
  where
    n : ℕ
    n = code c

unfoldable pub lstrip : String → String
lstrip String.[] = ""
lstrip (String.◌∷◌ c s) = if is_space c then lstrip s else String.◌∷◌ c s

unfoldable pub rstrip : String → String
rstrip String.[] = ""
rstrip (String.◌∷◌ c s) =
    let rest = rstrip s in if is_space c && (rest == "") then "" else String.◌∷◌ c rest

-- `s.strip()`
unfoldable pub strip : String → String
unfolding lstrip rstrip
strip s = rstrip (lstrip s)

-- `s.split(sep)` for a separator of one character; `cur` is the part that is being read.
unfoldable pub split_from : ℕ → String → String → List String
split_from sep cur String.[] = cur ∷ []
split_from sep cur (String.◌∷◌ c s) =
    let closed = split_from sep "" s in
    let longer = split_from sep (String.◌++◌ cur (String.◌∷◌ c "")) s in
    if nat_eq (code c) sep then cur ∷ closed else longer

unfoldable pub split : ℕ → String → List String
unfolding split_from
split sep s = split_from sep "" s

-- The character that stands in `lowers` where `c` stands in `uppers`.
unfoldable pub paired : String → String → Char → Char
paired (String.◌∷◌ u uppers) (String.◌∷◌ l lowers) c =
    if nat_eq (code c) (code u) then l else paired uppers lowers c
paired String.[] lowers c = c
paired (String.◌∷◌ u uppers) String.[] c = c

-- `s.lower()` on the letters of ASCII. The program only asks whether the result is empty and whether
-- it is one of a few words in ASCII without a `k`, and no other character is lowered to such letters.
unfoldable pub lower : String → String
unfolding paired
lower String.[] = ""
lower (String.◌∷◌ c s) =
    String.◌∷◌ (paired "ABCDEFGHIJKLMNOPQRSTUVWXYZ" "abcdefghijklmnopqrstuvwxyz" c) (lower s)

-- `s.split(sep)[0]`; the list is never empty.
unfoldable pub first_part : List String → String
first_part [] = ""
first_part (part ∷ parts) = part

-- `s.startswith(prefix)`
unfoldable pub starts_with : String → String → Bool
starts_with String.[] s = true
starts_with (String.◌∷◌ p prefix) String.[] = false
starts_with (String.◌∷◌ p prefix) (String.◌∷◌ c s) =
    nat_eq (code p) (code c) && starts_with prefix s

-- `s.split()`: the runs of characters that are no white space; `cur` is the one that is being read.
unfoldable pub words_from : String → String → List String
unfolding is_space
words_from cur String.[] = if cur == "" then [] else cur ∷ []
words_from cur (String.◌∷◌ c s) =
    let closed = words_from "" s in
    let longer = words_from (String.◌++◌ cur (String.◌∷◌ c "")) s in
    if is_space c then (if cur == "" then closed else cur ∷ closed) else longer

unfoldable pub words : String → List String
unfolding words_from
words s = words_from "" s

-- `s.split(",", 1)[1]` where `"," in s`.
unfoldable pub after_comma : String → Option String
after_comma String.[] = none
after_comma (String.◌∷◌ c s) = if nat_eq (code c) b',' then some s else after_comma s

-- What follows the prefix, where `s` starts with it.
unfoldable pub after_prefix : String → String → Option String
after_prefix String.[] s = some s
after_prefix (String.◌∷◌ p prefix) String.[] = none
after_prefix (String.◌∷◌ p prefix) (String.◌∷◌ c s) =
    if nat_eq (code p) (code c) then after_prefix prefix s else none

-- `s.removeprefix(prefix)`
unfoldable pub removeprefix : String → String → String
unfolding after_prefix
removeprefix prefix s = elim (after_prefix prefix s) [ none ↦ s | some rest ↦ rest ]

-- `s.isascii()`
unfoldable pub is_ascii : String → Bool
is_ascii String.[] = true
is_ascii (String.◌∷◌ c s) = leb (code c) 127 && is_ascii s

-- `len(s)`
unfoldable pub len : String → ℕ
len String.[] = 0
len (String.◌∷◌ c s) = suc (len s)
