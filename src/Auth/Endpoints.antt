-- ===== src/Auth/Endpoints.antt =====
-- The sign-in endpoints: app/api/v1/auth.py. The nonce store is the one state they share; each
-- handler takes the times that its calls read, in their order.
pub mod Session
use ax_server.Prelude.{ℕ, ◌*◌, Option, none, ◌++◌, not, if◌then◌else◌}
use ax_server.Prelude.Text.{Str, text}
use ax_server.Prelude.Error.{Result, ok, err, ApiError, map_err, ◌>>=◌}
use ax_server.Prelude.Int.{ℤ}
use ax_server.Chain.{Web3}
use ax_server.Auth.Jwt.{Jwt}
use ax_server.Auth.Tokens.{create_access_token, create_refresh_token, verify_token}
use ax_server.Auth.Deps.{get_required_auth}
use ax_server.Auth.Nonce.{NonceStore, generate}
use ax_server.Auth.Siwe.{Host, build_siwe_message, verify_siwe}

-- `class SIWEMessageResponse`
pub record SiweMessageResponse : Type 0 where
  pub message : Str
  pub nonce : Str

-- `class AuthTokenResponse`
pub record AuthTokenResponse : Type 0 where
  pub access_token : Str
  pub refresh_token : Str
  pub token_type : Str
  pub expires_in : ℕ
  pub wallet : Str
  pub tier : Str

-- `class SessionInfo`, without the constant `authenticated`
pub record SessionInfo : Type 0 where
  pub wallet : Str
  pub chain_id : ℕ
  pub tier : Str

-- The times of one call: when the nonce is checked, when the expiration time is, and when the two
-- tokens are made
pub record Moments : Type 0 where
  pub at_nonce : ℕ
  pub at_expiry : ℕ
  pub at_access : ℕ
  pub at_refresh : ℕ

-- `get_nonce`
unfoldable pub get_nonce : NonceStore → Str → ℕ → ℕ → NonceStore × Str
get_nonce store nonce now at_cleanup = (generate store nonce now at_cleanup, nonce)

abbrev pub invalid_wallet_address : Str → ApiError
invalid_wallet_address address = record {
  code = text "INVALID_WALLET_ADDRESS";
  message = text "Invalid Ethereum address: " ++ address;
  status_code = 400;
  details = none;
}

-- `build_message`
unfoldable pub build_message :
    Web3
    → Host
    → NonceStore
    → Str
    → ℤ
    → Str
    → ℕ
    → ℕ
    → ℕ
    → NonceStore × Result ApiError SiweMessageResponse
build_message web3 host store address chain_id nonce now at_cleanup at_message =
    if not (web3.is_address address) then (store, err (invalid_wallet_address address)) else (
      generate store nonce now at_cleanup,
      ok (record {
        message =
            build_siwe_message host (web3.to_checksum_address address) nonce chain_id at_message;
        nonce = nonce;
      }),
    )

abbrev pub auth_failure : Str → Str → ApiError
auth_failure what e = record {
  code = text "AUTH_INVALID";
  message = what ++ e;
  status_code = 401;
  details = none;
}

abbrev pub advanced_tier : Str
advanced_tier = text "ADVANCED"

-- The default of `create_access_token` and of `create_refresh_token` for the chain
abbrev pub default_chain : ℕ
default_chain = 137

module _ (jwt : Jwt) (env : Option Str) where
  -- The two tokens and the answer of the two handlers below
  unfoldable pub issue_tokens : Str → ℕ → ℕ → ℕ → AuthTokenResponse
  issue_tokens wallet chain_id at_access at_refresh = record {
    access_token = create_access_token jwt env wallet chain_id advanced_tier 24 at_access;
    refresh_token = create_refresh_token jwt env wallet chain_id 30 at_refresh;
    token_type = text "Bearer";
    expires_in = 24 * 3600;
    wallet = wallet;
    tier = advanced_tier;
  }

  -- `verify_signature`
  unfoldable pub verify_signature :
      Host → NonceStore → Str → Str → Moments → NonceStore × Result ApiError AuthTokenResponse
  verify_signature host store message signature t =
      let (store', signer) =
        verify_siwe host store message signature none none t.at_nonce t.at_expiry in
      (
        store',
        do
          wallet ← map_err (auth_failure (text "SIWE verification failed: ")) signer
          ok (issue_tokens wallet default_chain t.at_access t.at_refresh),
      )

  -- `refresh_access_token`
  unfoldable pub refresh_access_token : Str → ℕ → ℕ → ℕ → Result ApiError AuthTokenResponse
  refresh_access_token refresh_token now at_access at_refresh = do
    payload ←
        map_err (auth_failure (text "Invalid refresh token: "))
          (verify_token jwt env refresh_token (text "refresh") now)
    ok (issue_tokens payload.wallet payload.chain_id at_access at_refresh)

  -- `get_session`, with the dependency that it declares
  unfoldable pub get_session : Option Str → ℕ → Result ApiError SessionInfo
  get_session token now = do
    auth ← get_required_auth jwt env token now
    ok (record { wallet = auth.wallet; chain_id = auth.chain_id; tier = auth.tier })
