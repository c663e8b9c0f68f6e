-- ===== src/Auth/Tests/SignIn.antt =====
-- Nonces and signed messages at concrete inputs.
use ax_server.Prelude.{ℕ, ◌*◌, ◌≡◌, ◌≢◌, ◌≤◌, ◌++◌, refl, true, none, List, [], ◌∷◌, arith, some}
use ax_server.Prelude.Text.{
  is_digit, Str, text, lower, str_dec, lower_code, strip, split, starts_with,
}
use ax_server.Prelude.Text.Search.{is_hex, run_of, is_lower_hex, int_of, search, tagged, before}
use ax_server.Prelude.Error.{ok}
use ax_server.Auth.Jwt.{second}
use ax_server.Auth.Nonce.{NonceStore, generate, validate, cleanup}
use ax_server.Auth.Nonce.SingleUse.{
  apply-IsValid, Op, gen, val, apply, acceptances, acceptances-le-one,
}
use ax_server.Auth.Nonce.Fresh.{run}
use ax_server.Auth.Siwe.{
  match_address, Host, SiweMessage, parse_siwe_message, verify_siwe, check_expiry, check_parsed,
  domain_mismatch, chain_mismatch,
}
use ax_server.Auth.Siwe.Verification.{verify_siwe_once}
use ax_server.Auth.Endpoints.Session.{session, verify_signature-get_session}
use ax_server.Auth.Tests.Plain.{plain, plain-JwtLaws}
use ax_server.Auth.Endpoints.{issue_tokens, Moments, verify_signature, get_session, default_chain}

abbrev n1 : Str
n1 = text "ab12cd34"

abbrev store : NonceStore
store = record { store = []; ttl = 300 }

abbrev calls : List Op
calls = val n1 1 ∷ gen (text "ffff0000") 2 3 ∷ val n1 4 ∷ []

acceptances-le-one_example : acceptances n1 (apply store (gen n1 0 1)).0 calls ≤ 1
unfolding text str_dec
acceptances-le-one_example =
    acceptances-le-one n1 (apply store (gen n1 0 1)).0 calls (apply-IsValid store (gen n1 0 1) tt)
      (refl, (refl, (refl, tt)))

abbrev address : Str
address = text "0xAbCdEf0123456789aBcDeF0123456789abcdef01"

abbrev lines : Str → Str
lines nonce =
    text "athletex.io wants you to sign in with your Ethereum account:"
    ++ 10
      ∷ (address
          ++ 10
            ∷ 10
            ∷ (text "Sign in"
                ++ 10
                  ∷ 10
                  ∷ (text "URI: https://athletex.io"
                      ++ 10
                        ∷ (text "Version: 1"
                            ++ 10 ∷ (text "Chain ID: 137" ++ 10 ∷ (text "Nonce: " ++ nonce))))))

abbrev host : Host
host = record {
  recover = λ message signature. ok address;
  isoformat = λ t. [];
  fromisoformat = λ s. ok 0;
}

abbrev parsed : SiweMessage
parsed = record {
  domain = text "athletex.io";
  address = address;
  statement = [];
  uri = [];
  version = text "1";
  chain_id = 137;
  nonce = n1;
  issued_at = [];
  expiration_time = none;
}

abbrev ready : NonceStore
ready = generate store n1 0 1

parse_lines : parse_siwe_message (lines n1) ≡ ok parsed
unfolding parse_siwe_message text strip split starts_with search match_address is_hex is_digit
    tagged run_of is_lower_hex before int_of
parse_lines = refl

abbrev moments : Moments
moments = record { at_nonce = 5; at_expiry = 6; at_access = 7; at_refresh = 8 }

accepts_lines : (now : ℕ) → (verify_siwe host ready (lines n1) [] none none 5 now).1 ≡ ok address
unfolding verify_siwe validate generate cleanup check_parsed check_expiry domain_mismatch
    chain_mismatch text str_dec lower_code
accepts_lines now = rw (verify_siwe, parse_lines) refl

verify_siwe_once_example :
    (verify_siwe host
      (run (verify_siwe host ready (lines n1) [] none none 5 6).0 [])
      (lines n1)
      []
      none
      none
      7
      8).1
    ≢ ok address
unfolding generate apply
verify_siwe_once_example =
    verify_siwe_once host ready (lines n1) [] (lines n1) [] none none none none 5 6 7 8 [] parsed
      parsed address (apply-IsValid store (gen n1 0 1) tt) parse_lines parse_lines refl tt

signed_in :
    (verify_signature plain none host ready (lines n1) [] moments).1
    ≡ ok (issue_tokens plain none address default_chain 7 8)
unfolding verify_signature
signed_in = rw (accepts_lines 6) refl

verify_signature-get_session_example :
    (p : SiweMessage) × (parse_siwe_message (lines n1) ≡ ok p)
    × ((validate ready p.nonce 5).1 ≡ true)
    × (host.recover (lines n1) [] ≡ ok address)
    × (lower address ≡ lower p.address)
    × (get_session plain none
          (some (issue_tokens plain none address default_chain 7 8).access_token)
          (1 * second)
        ≡ ok (session address default_chain))
unfolding issue_tokens
verify_signature-get_session_example =
    verify_signature-get_session plain plain-JwtLaws none host ready (lines n1) [] moments
      (issue_tokens plain none address default_chain 7 8) (1 * second) signed_in (omega arith)
      (omega arith)
