-- ===== src/Auth/Tests.antt =====
-- The sign-in at concrete inputs, with a JWT library that does not sign.
pub mod Plain
mod SignIn
mod Message
use ax_server.Prelude.{
  ℕ, ◌*◌, ◌≡◌, ◌≤◌, ◌++◌, refl, true, false, Option, some, none, List, [], ◌∷◌, arith,
  if◌then◌else◌, ltb, ◌/◌, ◌+◌, ◌↔◌,
}
use ax_server.Prelude.Text.{is_space, Str, text, str_dec, str_eq}
use ax_server.Prelude.Error.{ok, err}
use ax_server.Auth.Jwt.{second}
use ax_server.Auth.Tokens.{
  TokenPayload, hour, day, create_access_token, create_refresh_token, verify_token, type_message,
}
use ax_server.Auth.Tokens.Laws.{verify_token-create_access}
use ax_server.Auth.Deps.{
  extract_token, get_required_auth, get_optional_auth, require_market_maker, auth_insufficient_tier,
  auth_invalid, auth_expired,
}
use ax_server.Auth.Deps.Laws.{
  extract_token-bearer, get_required_auth-get_optional_auth, require_market_maker_iff,
  get_required_auth-create_access, get_required_auth-create_refresh,
}
use ax_server.Auth.Endpoints.{issue_tokens, get_session}
use ax_server.Auth.Endpoints.Session.{
  session, access_end, renew, renew-get_session, require_market_maker-issue_tokens,
}
use ax_server.Auth.Tests.Plain.{plain, plain-JwtLaws}

abbrev alice : Str
alice = 48 ∷ 120 ∷ 65 ∷ []

abbrev basic_tier : Str
basic_tier = 66 ∷ []

get_required_auth-create_access_example :
    get_required_auth plain none
      (some (create_access_token plain none alice 137 basic_tier 24 1_500_000))
      (2 * second)
    ≡ (if ltb (2 * second) ((1_500_000 + 24 * hour) / second * second)
        then ok (record {
          wallet = alice;
          chain_id = 137;
          tier = basic_tier;
          issued_at = 1_500_000 / second;
          expires_at = (1_500_000 + 24 * hour) / second;
          token_type = text "access";
        })
        else err auth_expired)
get_required_auth-create_access_example =
    get_required_auth-create_access plain plain-JwtLaws none alice 137 basic_tier 24 1_500_000
      (2 * second) (omega arith)

abbrev renewals : List (ℕ × ℕ × ℕ)
renewals = (5 * second, 6 * second, 7 * second) ∷ (8 * second, 9 * second, 10 * second) ∷ []

renew-get_session_example :
    (r : _) × (renew plain none (issue_tokens plain none alice 137 0 0) renewals ≡ ok r)
    × (get_session plain none (some r.access_token) (20 * second) ≡ ok (session alice 137))
renew-get_session_example =
    renew-get_session plain plain-JwtLaws none alice 137 0 0 (20 * second) renewals
      (omega arith, omega arith, (omega arith, omega arith, tt)) (omega arith) (omega arith)
