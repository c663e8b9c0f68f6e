-- ===== src/Auth/Tokens.antt =====
-- Session tokens: app/auth/tokens.py.
pub mod Laws
use mathlib.Core.Option
use ax_server.Prelude.{ℕ, ◌+◌, ◌*◌, ◌/◌, Bool, Option, none, some, ◌++◌, not, []}
use ax_server.Prelude.Text.{Str, text, lower, str_eq, str_dec}
use ax_server.Prelude.Error.{Result, ok, err, ◌>>=◌, ◌>>◌, raise_if, map_err}
use ax_server.Auth.Jwt.{Claims, Jwt, JwtError, expired_signature, invalid_token, second}

abbrev pub default_secret : Str
default_secret = text "ax-server-dev-secret-change-me"

-- `class TokenPayload`
pub record TokenPayload : Type 0 where
  pub wallet : Str
  pub chain_id : ℕ
  pub tier : Str
  pub issued_at : ℕ
  pub expires_at : ℕ
  pub token_type : Str

-- `_get_secret`, over the value of the variable JWT_SECRET
unfoldable pub get_secret : Option Str → Str
get_secret env = Option.get_or env default_secret

abbrev pub hour : ℕ
hour = 3600 * second

abbrev pub day : ℕ
day = 24 * hour

-- The claims of an access token
unfoldable pub access_claims : Str → ℕ → Str → ℕ → ℕ → Claims
access_claims wallet chain_id tier expires_hours now = record {
  sub = some (lower wallet);
  wallet = some wallet;
  chain_id = some chain_id;
  tier = some tier;
  token_type = some (text "access");
  iat = some (now / second);
  exp = some ((now + expires_hours * hour) / second);
}

unfoldable pub refresh_claims : Str → ℕ → ℕ → ℕ → Claims
refresh_claims wallet chain_id expires_days now = record {
  sub = some (lower wallet);
  wallet = some wallet;
  chain_id = some chain_id;
  tier = none;
  token_type = some (text "refresh");
  iat = some (now / second);
  exp = some ((now + expires_days * day) / second);
}

-- The texts of the two `except` clauses
unfoldable pub jwt_message : JwtError → Str
jwt_message expired_signature = text "Token has expired"
jwt_message (invalid_token e) = text "Invalid token: " ++ e

unfoldable pub type_message : Str → Str → Str
type_message expected actual = text "Expected " ++ expected ++ text " token, got " ++ actual

module _ (jwt : Jwt) (env : Option Str) where
  unfoldable pub create_access_token : Str → ℕ → Str → ℕ → ℕ → Str
  create_access_token wallet chain_id tier expires_hours now =
      jwt.encode (get_secret env) (access_claims wallet chain_id tier expires_hours now)

  unfoldable pub create_refresh_token : Str → ℕ → ℕ → ℕ → Str
  create_refresh_token wallet chain_id expires_days now =
      jwt.encode (get_secret env) (refresh_claims wallet chain_id expires_days now)

  unfoldable pub verify_token : Str → Str → ℕ → Result Str TokenPayload
  verify_token token expected_type now = do
    payload ← map_err jwt_message (jwt.decode (get_secret env) now token)
    let token_type = Option.get_or payload.token_type (text "access")
    raise_if (not (str_eq token_type expected_type)) (type_message expected_type token_type)
    ok (record {
      wallet = Option.get_or payload.wallet [];
      chain_id = Option.get_or payload.chain_id 137;
      tier = Option.get_or payload.tier (text "BASIC");
      issued_at = Option.get_or payload.iat 0;
      expires_at = Option.get_or payload.exp 0;
      token_type = token_type;
    })
