-- ===== src/Prelude/Text/Numerals.antt =====
-- Decimal numerals: digits alone, and read back by `int`.
use ax_server.Prelude.{
  ℕ, zero, suc, ◌+◌, ◌-◌, ◌*◌, ◌/◌, ◌%◌, ◌<◌, ◌≡◌, refl, true, false, [], ◌∷◌, ◌++◌, arith, ltb,
  All, All-append, Bool-cases, inl, inr, ◌∙◌,
}
use ax_server.Prelude.Text.{Str, is_digit, is_empty}
use ax_server.Prelude.Text.Scan.{append-ne}
use ax_server.Prelude.Text.Search.{int_from, int_of, decimal_in, decimal}

abbrev pub IsDigits : Str → Type 0
IsDigits = All (λ c. is_digit c ≡ true)

digit_is : (d : ℕ) → d < 10 → is_digit (b'0' + d) ≡ true
unfolding is_digit
digit_is d h = ground arith

decimal_in-IsDigits : (fuel n : ℕ) → IsDigits (decimal_in fuel n)
unfolding decimal_in
decimal_in-IsDigits zero n = tt
decimal_in-IsDigits (suc fuel) n = elim (Bool-cases (ltb n 10)) [
  | inl small ↦ rw small (digit_is n (ground arith), tt)
  | inr large ↦ rw large (
      All-append (λ c. is_digit c ≡ true) (decimal_in fuel (n / 10)) _
        (decimal_in-IsDigits fuel (n / 10)) (digit_is (n % 10) (omega arith), tt))
]

pub decimal-IsDigits : (n : ℕ) → IsDigits (decimal n)
unfolding decimal
decimal-IsDigits n = decimal_in-IsDigits (suc n) n

int_from-append : (acc : ℕ) (xs ys : Str) → int_from acc (xs ++ ys) ≡ int_from (int_from acc xs) ys
unfolding int_from
int_from-append acc [] ys = refl
int_from-append acc (x ∷ xs) ys = int_from-append (acc * 10 + (x - b'0')) xs ys

int_from-decimal_in : (fuel n : ℕ) → n < fuel → int_from 0 (decimal_in fuel n) ≡ n
unfolding decimal_in int_from
int_from-decimal_in zero n h = elim h [ ]
int_from-decimal_in (suc fuel) n h = elim (Bool-cases (ltb n 10)) [
  | inl small ↦ rw small (omega arith)
  | inr large ↦
      let ten : 9 < n = ground arith in
      let front = int_from-decimal_in fuel (n / 10) (omega (arith, ten)) in
      rw large (int_from-append 0 (decimal_in fuel (n / 10)) _ ∙ rw front (omega arith))
]

pub int_of-decimal : (n : ℕ) → int_of (decimal n) ≡ n
unfolding int_of decimal
int_of-decimal n = int_from-decimal_in (suc n) n (omega arith)

pub decimal-ne : (n : ℕ) → is_empty (decimal n) ≡ false
unfolding decimal decimal_in
decimal-ne n = elim (Bool-cases (ltb n 10)) [
  | inl small ↦ rw small refl
  | inr large ↦ rw large (append-ne (decimal_in n (n / 10)) _ [])
]
