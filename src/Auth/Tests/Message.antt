-- ===== src/Auth/Tests/Message.antt =====
-- Messages that are built, read back and accepted, at concrete inputs.
use ax_server.Prelude.{
  ℕ, ◌+◌, ◌*◌, ◌/◌, ◌≤◌, length, ◌≡◌, ◌++◌, refl, none, some, [], ◌∷◌, arith, true, All, ap, Bool,
  all,
}
use ax_server.Prelude.Text.{Str, text, is_digit}
use ax_server.Prelude.Text.Search.{decimal, int_of, is_hex, is_lower_hex}
use ax_server.Prelude.Text.Numerals.{IsDigits, decimal-IsDigits, int_of-decimal, decimal-ne}
use ax_server.Prelude.Int.{pos}
use ax_server.Auth.Jwt.{second}
use ax_server.Prelude.Error.{ok}
use ax_server.Auth.Nonce.{NonceStore, generate}
use ax_server.Auth.Nonce.Fresh.{run}
use ax_server.Auth.Siwe.{Host, build_siwe_message, parse_siwe_message, verify_siwe, minute}
use ax_server.Auth.Siwe.RoundTrip.{is_iso, IsHex, IsLowerHex, parse_siwe_message-build_siwe_message}
use ax_server.Auth.Siwe.Accepted.{IsoLaws, verify_siwe-build_siwe_message}

abbrev digits : Str
digits = text "AbCdEf0123456789aBcDeF0123456789abcdef01"

abbrev nonce : Str
nonce = text "ab12cd34"

-- Times are written as numbers of microseconds, cut off to the second.
abbrev host : Host
host = record {
  recover = λ m s. ok (text "0x" ++ digits);
  isoformat = λ t. decimal (t / second * second);
  fromisoformat = λ s. ok (int_of s);
}

digit_iso : (c : ℕ) → is_digit c ≡ true → is_iso c ≡ true
digit_iso c h = rw h refl

digits_iso : (s : Str) → IsDigits s → All (λ c. is_iso c ≡ true) s
digits_iso [] h = tt
digits_iso (c ∷ s) h = (digit_iso c h.0, digits_iso s h.1)

host-IsoLaws : IsoLaws host
host-IsoLaws = record {
  plain = λ t. (
    decimal-ne (t / second * second),
    digits_iso (decimal (t / second * second)) (decimal-IsDigits (t / second * second)),
  );
  inverse = λ t. ap ok (int_of-decimal (t / second * second));
}

all_holds : (p : ℕ → Bool) (s : Str) → all p s ≡ true → All (λ c. p c ≡ true) s
all_holds p [] h = tt
all_holds p (c ∷ s) h = (ground (arith, h), all_holds p s (ground (arith, h)))

hex : IsHex digits
unfolding text is_hex is_digit
hex = all_holds is_hex digits refl

lower_hex : IsLowerHex nonce
unfolding text is_lower_hex is_digit
lower_hex = all_holds is_lower_hex nonce refl

short : length (decimal 137) ≤ 4300
unfolding decimal
short = omega arith

abbrev store : NonceStore
store = record { store = []; ttl = 300 }

parse_siwe_message-build_siwe_message_example :
    parse_siwe_message (build_siwe_message host (text "0x" ++ digits) nonce (pos 137) 5)
    ≡ ok (record {
      domain = text "athletex.io";
      address = text "0x" ++ digits;
      statement = [];
      uri = [];
      version = text "1";
      chain_id = 137;
      nonce = nonce;
      issued_at = [];
      expiration_time = some (decimal ((5 + 10 * minute) / second * second));
    })
unfolding text
parse_siwe_message-build_siwe_message_example =
    parse_siwe_message-build_siwe_message host digits nonce 137 5 host-IsoLaws.plain hex refl refl
      lower_hex short

verify_siwe-build_siwe_message_example :
    (verify_siwe host
      (run (generate store nonce 0 1) [])
      (build_siwe_message host (text "0x" ++ digits) nonce (pos 137) 5)
      (text "signature")
      none
      none
      7
      9).1
    ≡ ok (text "0x" ++ digits)
unfolding text
verify_siwe-build_siwe_message_example =
    verify_siwe-build_siwe_message host store digits nonce (text "signature") (text "0x" ++ digits)
      137 0 1 5 7 9 [] host-IsoLaws tt hex refl refl lower_hex short (omega arith) tt (omega arith)
      (omega arith) refl refl
