-- ===== src/Prelude/Text/Search.antt =====
-- Regular expression search for a fixed prefix followed by a run of characters of a class, and
-- decimal numerals.
use ax_server.Prelude.{
  ℕ, zero, suc, ◌+◌, ◌-◌, ◌*◌, ◌/◌, ◌%◌, Bool, ◌&&◌, ◌||◌, not, [], ◌∷◌, ◌++◌, Option, none, some,
  ltb, leb, if◌then◌else◌, length, drop,
}
use ax_server.Prelude.Text.{Str, is_empty, starts_with, is_digit}

-- The first position, from the left, at which a pattern matches
unfoldable pub search {ℓ} : {A : Type ℓ} → (Str → Option A) → Str → Option A
search m [] = m []
search m (c ∷ s) = let rest = search m s in elim (m (c ∷ s)) [ some a ↦ some a | none ↦ rest ]

-- The longest run at the front: `[...]+` takes all it can.
unfoldable pub run_of : (ℕ → Bool) → Str → Str
run_of p [] = []
run_of p (c ∷ s) = if p c then c ∷ run_of p s else []

-- `prefix([...]+)`, and the group
unfoldable pub tagged : Str → (ℕ → Bool) → Str → Option Str
tagged prefix p s =
    if starts_with prefix s && not (is_empty (run_of p (drop (length prefix) s)))
    then some (run_of p (drop (length prefix) s))
    else none

unfoldable pub is_lower_hex : ℕ → Bool
is_lower_hex c = is_digit c || (leb b'a' c && leb c b'f')

unfoldable pub is_hex : ℕ → Bool
is_hex c = is_digit c || (leb b'a' c && leb c b'f') || (leb b'A' c && leb c b'F')

-- `s.split(needle)[0]`
unfoldable pub before : Str → Str → Str
before needle [] = []
before needle (c ∷ s) =
    let rest = before needle s in if starts_with needle (c ∷ s) then [] else c ∷ rest

-- `int` of a run of digits
unfoldable pub int_from : ℕ → Str → ℕ
int_from acc [] = acc
int_from acc (c ∷ s) = int_from (acc * 10 + (c - b'0')) s

unfoldable pub int_of : Str → ℕ
unfolding int_from
int_of = int_from 0

-- The decimal digits of a number; as many rounds as the number has units are enough.
unfoldable pub decimal_in : ℕ → ℕ → Str
decimal_in zero n = []
decimal_in (suc fuel) n =
    let front = decimal_in fuel (n / 10) in
    if ltb n 10 then (b'0' + n) ∷ [] else front ++ (b'0' + n % 10) ∷ []

unfoldable pub decimal : ℕ → Str
unfolding decimal_in
decimal n = decimal_in (suc n) n
