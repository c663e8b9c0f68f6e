-- ===== src/Prelude/Int.antt =====
-- Python's `int` where it can be negative, and its reading from a text.
use ax_server.Prelude.{
  ℕ, ◌+◌, ◌-◌, ◌*◌, ◌/◌, Bool, true, false, ◌&&◌, ◌==◌, Option, none, some, [], ◌∷◌, if◌then◌else◌,
  leb, length, keep_if,
}
use ax_server.Prelude.Text.{Str, strip, is_digit}
use ax_server.Prelude.Text.Search.{int_of}

-- `pos n` is n, and `negsuc n` is -(n + 1).
pub data ℤ : Type 0 where
  pos : ℕ → ℤ
  negsuc : ℕ → ℤ

-- m - n of two natural numbers
unfoldable pub minus : ℕ → ℕ → ℤ
minus m n = if leb n m then pos (m - n) else negsuc (n - m - 1)

-- m - i
unfoldable pub minus_int : ℕ → ℤ → ℤ
unfolding minus
minus_int m (pos n) = minus m n
minus_int m (negsuc n) = pos (m + (n + 1))

-- m * i
unfoldable pub times : ℕ → ℤ → ℤ
times m (pos n) = pos (m * n)
times m (negsuc n) = if m == 0 then pos 0 else negsuc (m * (n + 1) - 1)

-- `i // d` for a divisor above zero: the quotient is rounded down
unfoldable pub floor_div : ℤ → ℕ → ℤ
floor_div (pos n) d = pos (n / d)
floor_div (negsuc n) d = negsuc (n / d)

-- Digits with single underscores between them
unfoldable pub digits_from : Bool → Str → Bool
digits_from after_digit [] = after_digit
digits_from after_digit (c ∷ s) =
    let next = digits_from true s in
    let next_digit = digits_from false s in
    if is_digit c then next else if c == b'_' then after_digit && next_digit else false

-- `int` takes no more digits than the interpreter's limit.
abbrev pub digit_limit : ℕ
digit_limit = 4300

unfoldable pub magnitude : Str → Option ℕ
unfolding digits_from
magnitude s =
    let digits = keep_if is_digit s in
    if digits_from false s && leb (length digits) digit_limit then some (int_of digits) else none

unfoldable pub negated : Option ℕ → Option ℤ
negated none = none
negated (some n) = if n == 0 then some (pos 0) else some (negsuc (n - 1))

unfoldable pub plain : Option ℕ → Option ℤ
plain none = none
plain (some n) = some (pos n)

unfoldable pub signed : Str → Option ℤ
unfolding magnitude negated plain
signed [] = none
signed (c ∷ s) =
    if c == b'-'
    then negated (magnitude s)
    else if c == b'+'
    then plain (magnitude s)
    else plain (magnitude (c ∷ s))

-- `int(s)`, without the exception's text
unfoldable pub parse_int : Str → Option ℤ
unfolding signed
parse_int s = signed (strip s)
