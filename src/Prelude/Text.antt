-- ===== src/Prelude/Text.antt =====
-- Python's `str` as the list of its code points, with the methods that the server calls. Case
-- mapping, white space and digits are those of ASCII.
pub mod Words
pub mod Search
pub mod Scan
pub mod Numerals
use Prim.Native.Char.{code}
use Prim.Native.String.{String}
use ax_server.Prelude.{
  ℕ, ◌+◌, ◌-◌, Bool, true, false, ◌&&◌, ◌||◌, List, [], ◌∷◌, ◌++◌, map, leb, ◌==◌, if◌then◌else◌,
  test, ℕ_discrete,
}

abbrev pub Str : Type 0
Str = List ℕ

-- The code points of a literal; shut, so that proofs do not carry the letters along.
unfoldable pub text : String → Str
text String.[] = []
text (String.◌∷◌ c s) = code c ∷ text s

unfoldable pub str_dec : Discrete Str
unfolding ℕ_discrete
str_dec = hlevel ℕ_discrete

abbrev pub str_eq : Str → Str → Bool
str_eq a b = test (str_dec a b)

-- `not s`
abbrev pub is_empty {ℓ} : {A : Type ℓ} → List A → Bool
is_empty [] = true
is_empty (x ∷ xs) = false

unfoldable pub lower_code : ℕ → ℕ
lower_code c = if leb b'A' c && leb c b'Z' then c + 32 else c

unfoldable pub upper_code : ℕ → ℕ
upper_code c = if leb b'a' c && leb c b'z' then c - 32 else c

-- `s.lower()` and `s.upper()`
abbrev pub lower : Str → Str
lower = map lower_code

abbrev pub upper : Str → Str
upper = map upper_code

unfoldable pub is_space : ℕ → Bool
is_space c = c == 32 || (leb 9 c && leb c 13) || (leb 28 c && leb c 31)

unfoldable pub lstrip : Str → Str
lstrip [] = []
lstrip (c ∷ s) = if is_space c then lstrip s else c ∷ s

-- White space is dropped from the end: a text of white space alone has none left.
unfoldable pub rstrip : Str → Str
rstrip [] = []
rstrip (c ∷ s) = let rest = rstrip s in if is_space c && is_empty rest then [] else c ∷ rest

-- `s.strip()`
unfoldable pub strip : Str → Str
unfolding lstrip rstrip is_space
strip s = rstrip (lstrip s)

-- What stands before and after the first occurrence of a character.
unfoldable pub until : ℕ → Str → Str
until sep [] = []
until sep (c ∷ s) = if c == sep then [] else c ∷ until sep s

-- `s.split(sep)` for a separator of one character
abbrev pub push_front : ℕ → List Str → List Str
push_front c [] = (c ∷ []) ∷ []
push_front c (x ∷ xs) = (c ∷ x) ∷ xs

unfoldable pub split : ℕ → Str → List Str
split sep [] = [] ∷ []
split sep (c ∷ s) = let rest = split sep s in if c == sep then [] ∷ rest else push_front c rest

-- `s.split()`: the pieces between runs of white space; `cur` is the piece being read.
split_words_from : Str → Str → List Str
split_words_from cur [] = if is_empty cur then [] else cur ∷ []
split_words_from cur (c ∷ s) =
    let rest = split_words_from [] s in
    let longer = split_words_from (cur ++ c ∷ []) s in
    if is_space c then (if is_empty cur then rest else cur ∷ rest) else longer

unfoldable pub split_words : Str → List Str
unfolding split_words_from is_space
split_words s = split_words_from [] s

-- `s.startswith(p)`
unfoldable pub starts_with : Str → Str → Bool
starts_with [] s = true
starts_with (c ∷ p) [] = false
starts_with (c ∷ p) (d ∷ s) = c == d && starts_with p s

-- `p in s`
unfoldable pub has_infix : Str → Str → Bool
unfolding starts_with
has_infix p [] = starts_with p []
has_infix p (c ∷ s) = starts_with p (c ∷ s) || has_infix p s

-- The value of a run of decimal digits, `int` of such a text.
unfoldable pub is_digit : ℕ → Bool
is_digit c = leb b'0' c && leb c b'9'
