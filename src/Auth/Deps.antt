-- ===== src/Auth/Deps.antt =====
-- The authentication dependencies of the endpoints: app/auth/deps.py.
pub mod Laws
use mathlib.Core.Option
use ax_server.Prelude.{
  ℕ, ◌≡◌, Bool, true, false, Option, none, some, List, [], ◌∷◌, not, ◌||◌, if◌then◌else◌, ◌++◌,
}
use ax_server.Prelude.Text.{Str, text, lower, str_eq, split_words, has_infix, is_empty}
use ax_server.Prelude.Error.{Result, ok, err, ApiError, map_err, ◌>>=◌, ◌>>◌, raise_if}
use ax_server.Auth.Jwt.{Jwt}
use ax_server.Auth.Tokens.{TokenPayload, verify_token}

-- The two parts of a header `Bearer <token>`
bearer : List Str → Option Str
bearer (scheme ∷ token ∷ []) = if str_eq (lower scheme) (text "bearer") then some token else none
bearer _ = none

-- `_extract_token`
unfoldable pub extract_token : Option Str → Option Str
unfolding bearer
extract_token none = none
extract_token (some authorization) =
    if is_empty authorization then none else bearer (split_words authorization)

abbrev pub auth_required : ApiError
auth_required = record {
  code = text "AUTH_REQUIRED";
  message = text "Authentication required. Sign in with SIWE to get a token.";
  status_code = 401;
  details = none;
}

abbrev pub auth_expired : ApiError
auth_expired = record {
  code = text "AUTH_EXPIRED";
  message = text "Token has expired. Please sign in again or use your refresh token.";
  status_code = 401;
  details = none;
}

abbrev pub auth_invalid : Str → ApiError
auth_invalid e = record {
  code = text "AUTH_INVALID";
  message = text "Invalid authentication token: " ++ e;
  status_code = 401;
  details = none;
}

abbrev pub auth_insufficient_tier : ApiError
auth_insufficient_tier = record {
  code = text "AUTH_INSUFFICIENT_TIER";
  message = text "This endpoint requires MARKET_MAKER tier access.";
  status_code = 403;
  details = none;
}

-- The `except` clause of `_get_required_auth`
unfoldable pub auth_error : Str → ApiError
auth_error e = if has_infix (text "expired") (lower e) then auth_expired else auth_invalid e

module _ (jwt : Jwt) (env : Option Str) where
  -- `if not token` of the two functions below: a missing token, or an empty one
  abbrev pub present : Option Str → Option Str
  present none = none
  present (some token) = if is_empty token then none else some token

  -- `_get_optional_auth`
  unfoldable pub get_optional_auth : Option Str → ℕ → Option TokenPayload
  get_optional_auth token now = elim (present token) [
    | none ↦ none
    | some t ↦ elim (verify_token jwt env t (text "access") now) [ ok p ↦ some p | err e ↦ none ]
  ]

  -- `_get_required_auth`
  unfoldable pub get_required_auth : Option Str → ℕ → Result ApiError TokenPayload
  get_required_auth token now = elim (present token) [
    | none ↦ err auth_required
    | some t ↦ map_err auth_error (verify_token jwt env t (text "access") now)
  ]

  -- `_get_wallet` and `_get_optional_wallet`
  unfoldable pub get_wallet : Option Str → ℕ → Result ApiError Str
  get_wallet token now = do auth ← get_required_auth token now; ok auth.wallet

  unfoldable pub get_optional_wallet : Option Str → ℕ → Option Str
  get_optional_wallet token now = Option.map (λ p. p.wallet) (get_optional_auth token now)

  -- `_require_market_maker`
  unfoldable pub require_market_maker : Option Str → ℕ → Result ApiError TokenPayload
  require_market_maker token now = do
    auth ← get_required_auth token now
    raise_if (not (str_eq auth.tier (text "MARKET_MAKER"))) auth_insufficient_tier
    ok auth
