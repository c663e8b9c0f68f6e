-- ===== src/Auth/Siwe.antt =====
-- Sign-In with Ethereum: the messages and their verification, app/auth/siwe.py. The account
-- library and the ISO 8601 functions are parameters.
pub mod Verification
pub mod RoundTrip
pub mod Accepted
use ax_server.Prelude.{
  ℕ, ◌+◌, ◌*◌, Bool, true, false, ◌&&◌, not, Option, none, some, List, [], ◌∷◌, ◌++◌, ltb, leb,
  ◌==◌, length, take, drop, all, if◌then◌else◌,
}
use ax_server.Prelude.Text.{
  Str, text, lower, str_dec, str_eq, strip, split, starts_with, has_infix, is_digit, is_empty,
}
use ax_server.Prelude.Text.Search.{
  search, run_of, tagged, is_lower_hex, is_hex, before, int_of, decimal,
}
use ax_server.Prelude.Error.{Result, ok, err, ◌>>=◌, ◌>>◌, raise_if, or_raise}
use ax_server.Prelude.Int.{ℤ, digit_limit}
use ax_server.Chain.Eip7412.{int_str}
use ax_server.Auth.Jwt.{second}
use ax_server.Auth.Nonce.{NonceStore, validate}

-- What the source takes from `eth_account` and from `datetime`: the signer of a message, or the
-- text of the exception; a time in ISO 8601, cut off to the second, and its reading.
pub record Host : Type 0 where
  pub recover : Str → Str → Result Str Str
  pub isoformat : ℕ → Str
  pub fromisoformat : Str → Result Str ℕ

-- `class SIWEMessage`, which only the parser makes, with a chain of digits
pub record SiweMessage : Type 0 where
  pub domain : Str
  pub address : Str
  pub statement : Str
  pub uri : Str
  pub version : Str
  pub chain_id : ℕ
  pub nonce : Str
  pub issued_at : Str
  pub expiration_time : Option Str

abbrev newline : ℕ
newline = 10

-- `_EIP4361_WITH_EXPIRY.format(...)`, over the domain, the address, the statement, the URI, the
-- version, the chain, the nonce, the time of issue and the time of expiration
unfoldable pub render : Str → Str → Str → Str → Str → ℤ → Str → Str → Str → Str
render domain address statement uri version chain_id nonce issued_at expiration_time =
    domain
    ++ (text " wants you to sign in with your Ethereum account:"
        ++ newline
          ∷ (address
              ++ newline
                ∷ newline
                ∷ (statement
                    ++ newline
                      ∷ newline
                      ∷ (text "URI: "
                          ++ (uri
                              ++ newline
                                ∷ (text "Version: "
                                    ++ (version
                                        ++ newline
                                          ∷ (text "Chain ID: "
                                              ++ (int_str chain_id
                                                  ++ newline
                                                    ∷ (text "Nonce: "
                                                        ++ (nonce
                                                            ++ newline
                                                            ∷ (text "Issued At: "
                                                            ++ (issued_at
                                                            ++ newline
                                                            ∷ (text "Expiration Time: "
                                                            ++ expiration_time))))))))))))))

abbrev pub minute : ℕ
minute = 60 * second

-- `build_siwe_message`, with the defaults of its keyword arguments that the endpoint leaves. The
-- chain has at most the 4300 digits that a number of a request may have.
unfoldable pub build_siwe_message : Host → Str → Str → ℤ → ℕ → Str
unfolding render
build_siwe_message host address nonce chain_id now =
    render (text "athletex.io") address
      (text "Sign in to AthleteX to access your portfolio and place orders.")
      (text "https://athletex.io") (text "1") chain_id nonce (host.isoformat now)
      (host.isoformat (now + 10 * minute))

-- `0x[0-9a-fA-F]{40}`
unfoldable pub match_address : Str → Option Str
match_address s =
    if starts_with (text "0x") s && (length (take 42 s) == 42) && all is_hex (drop 2 (take 42 s))
    then some (take 42 s)
    else none

-- `_NONCE_RE`, `_CHAIN_RE` and `_EXPIRY_RE`
abbrev pub match_nonce : Str → Option Str
match_nonce = tagged (text "Nonce: ") is_lower_hex

abbrev pub match_chain : Str → Option Str
match_chain = tagged (text "Chain ID: ") is_digit

abbrev pub match_expiry : Str → Option Str
match_expiry = tagged (text "Expiration Time: ") (λ c. not (c == newline))

-- The first two lines of a message of eight lines or more
unfoldable pub first_lines : List Str → Option (Str × Str)
first_lines (a ∷ b ∷ lines) = if ltb (length lines) 6 then none else some (a, b)
first_lines _ = none

-- The text of the `ValueError` that `int` raises above the interpreter's limit
abbrev too_many_digits : Str → Str
too_many_digits digits =
    text "Exceeds the limit (4300 digits) for integer string conversion: value has "
    ++ decimal (length digits)
    ++ text " digits; use sys.set_int_max_str_digits() to increase the limit"

unfoldable pub chain_or_default : Option Str → Result Str ℕ
chain_or_default none = ok 137
chain_or_default (some digits) =
    if leb (length digits) digit_limit then ok (int_of digits) else err (too_many_digits digits)

-- `parse_siwe_message`
unfoldable pub parse_siwe_message : Str → Result Str SiweMessage
unfolding first_lines chain_or_default
parse_siwe_message message = do
  (first, second_line) ←
      or_raise (first_lines (split newline (strip message)))
        (text "Message too short to be valid EIP-4361")
  address ← or_raise (search match_address second_line) (text "No valid Ethereum address found")
  nonce ← or_raise (search match_nonce message) (text "No nonce found")
  chain_id ← chain_or_default (search match_chain message)
  ok (record {
    domain = before (text " wants you to sign in") first;
    address = address;
    statement = [];
    uri = [];
    version = text "1";
    chain_id = chain_id;
    nonce = nonce;
    issued_at = [];
    expiration_time = search match_expiry message;
  })

abbrev pub expired_message : Str
expired_message = text "SIWE message has expired"

-- The check of the expiration time. A text that is no time is let through with a warning, unless
-- the exception's own text has "expired" in it.
unfoldable pub check_expiry : Host → Option Str → ℕ → Result Str (Unit {0})
check_expiry host none now = ok tt
check_expiry host (some e) now = if is_empty e then ok tt else elim (host.fromisoformat e) [
  | ok expiry ↦ raise_if (ltb expiry now) expired_message
  | err m ↦ raise_if (has_infix (text "expired") m) m
]

unfoldable pub domain_mismatch : Option Str → Str → Bool
domain_mismatch none domain = false
domain_mismatch (some expected) domain = not (is_empty expected) && not (str_eq domain expected)

unfoldable pub chain_mismatch : Option ℕ → ℕ → Bool
chain_mismatch none chain = false
chain_mismatch (some expected) chain = not (expected == 0) && not (chain == expected)

unfoldable pub expected_got : {A : Type 0} → (A → Str) → Str → Option A → A → Str
expected_got show what none actual = what
expected_got show what (some expected) actual =
    what ++ text " mismatch: expected " ++ show expected ++ text ", got " ++ show actual

-- The checks of `verify_siwe` after the nonce
unfoldable pub check_parsed :
    Host → Str → Str → SiweMessage → Option Str → Option ℕ → ℕ → Result Str Str
check_parsed host message signature parsed expected_domain expected_chain_id now = do
  check_expiry host parsed.expiration_time now
  raise_if (domain_mismatch expected_domain parsed.domain)
      (expected_got (λ s. s) (text "Domain") expected_domain parsed.domain)
  raise_if (chain_mismatch expected_chain_id parsed.chain_id)
      (expected_got decimal (text "Chain ID") expected_chain_id parsed.chain_id)
  recovered ← elim (host.recover message signature) [
    | ok r ↦ ok r
    | err e ↦ err (text "Invalid signature: " ++ e)
  ]
  raise_if (not (str_eq (lower recovered) (lower parsed.address))) (
      text "Signer mismatch: message claims "
      ++ parsed.address
      ++ text ", but signature recovers "
      ++ recovered)
  ok recovered

-- `verify_siwe`: the nonce store afterwards, and the signer or the text of the `ValueError`.
-- `at_nonce` and `now` are the two times that the call reads.
unfoldable pub verify_siwe :
    Host → NonceStore → Str → Str → Option Str → Option ℕ → ℕ → ℕ → NonceStore × Result Str Str
verify_siwe host store message signature expected_domain expected_chain_id at_nonce now =
    elim (parse_siwe_message message) [
      | err e ↦ (store, err e)
      | ok parsed ↦
          let (store', valid) = validate store parsed.nonce at_nonce in
          (
            store',
            if valid
                then check_parsed host message signature parsed expected_domain expected_chain_id
                    now
                else err (text "Invalid or expired nonce: " ++ parsed.nonce),
          )
    ]
