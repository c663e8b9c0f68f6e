-- ===== src/Auth/Endpoints/Session.antt =====
-- What a sign-in gives: a session of the signer, its renewals, and no market maker rights.
use ax_server.Prelude.{
  ℕ, ◌+◌, ◌*◌, ◌/◌, ◌≤◌, ◌<◌, ◌≡◌, refl, true, Option, some, none, List, [], ◌∷◌, arith, ltb, inl,
  inr, if◌then◌else◌, lt→ltb, test_holds,
}
use ax_server.Prelude.Text.{Str, text, lower, str_dec}
use ax_server.Prelude.Error.{◌>>=◌, Result, ok, err, ApiError, Result-cases}
use ax_server.Auth.Jwt.{Jwt, JwtLaws, second}
use ax_server.Auth.Tokens.{hour, day, create_refresh_token}
use ax_server.Auth.Tokens.Laws.{verify_token-create_refresh}
use ax_server.Auth.Deps.{require_market_maker, auth_insufficient_tier, auth_expired}
use ax_server.Auth.Deps.Laws.{get_required_auth-create_access}
use ax_server.Auth.Nonce.{NonceStore, validate}
use ax_server.Auth.Siwe.{Host, SiweMessage, parse_siwe_message, verify_siwe}
use ax_server.Auth.Siwe.Verification.{verify_siwe-ok}
use ax_server.Auth.Endpoints.{
  AuthTokenResponse, SessionInfo, Moments, advanced_tier, default_chain, issue_tokens,
  verify_signature, refresh_access_token, get_session,
}

abbrev pub session : Str → ℕ → SessionInfo
session wallet chain_id = record { wallet = wallet; chain_id = chain_id; tier = advanced_tier }

-- The second in which an access token expires, and a refresh token
abbrev pub access_end : ℕ → ℕ
access_end created = (created + 24 * hour) / second * second

abbrev pub refresh_end : ℕ → ℕ
refresh_end created = (created + 30 * day) / second * second

-- Each exchange comes before the refresh token at hand expires.
abbrev pub InTime : ℕ → List (ℕ × ℕ × ℕ) → Type 0
InTime created [] = Unit
InTime created ((now, at_access, at_refresh) ∷ times) =
    (created ≤ now) × (now < refresh_end created) × InTime at_refresh times

abbrev pub last_access : ℕ → List (ℕ × ℕ × ℕ) → ℕ
last_access created [] = created
last_access created ((now, at_access, at_refresh) ∷ times) = last_access at_access times

module _ (jwt : Jwt) (env : Option Str) where
  -- A list of renewals, each at its three times: the refresh token of one answer is exchanged for
  -- the next answer.
  unfoldable pub renew : AuthTokenResponse → List (ℕ × ℕ × ℕ) → Result ApiError AuthTokenResponse
  renew r [] = ok r
  renew r ((now, at_access, at_refresh) ∷ times) = do
    r' ← refresh_access_token jwt env r.refresh_token now at_access at_refresh
    renew r' times

module _ (jwt : Jwt) (laws : JwtLaws jwt) (env : Option Str) where
  get_session-issue_tokens :
      (wallet : Str) (chain_id at_access at_refresh now : ℕ)
      → at_access ≤ now
      → now < access_end at_access
      → get_session jwt env
          (some (issue_tokens jwt env wallet chain_id at_access at_refresh).access_token)
          now
        ≡ ok (session wallet chain_id)
  unfolding get_session issue_tokens
  get_session-issue_tokens wallet chain_id at_access at_refresh now h k = rw (
    get_required_auth-create_access jwt laws env wallet chain_id advanced_tier 24 at_access now h,
    lt→ltb now (access_end at_access) k,
  )

  refresh_access_token-issue_tokens :
      (wallet : Str) (chain_id created now at_access at_refresh : ℕ)
      → created ≤ now
      → now < refresh_end created
      → refresh_access_token jwt env
          (create_refresh_token jwt env wallet chain_id 30 created)
          now
          at_access
          at_refresh
        ≡ ok (issue_tokens jwt env wallet chain_id at_access at_refresh)
  unfolding refresh_access_token
  refresh_access_token-issue_tokens wallet chain_id created now at_access at_refresh h k =
      rw
        (
          verify_token-create_refresh jwt laws env wallet chain_id 30 created now (text "refresh") h
              k,
          test_holds (str_dec (text "refresh") (text "refresh")) refl,
        )
        refl

  refresh_step :
      (wallet : Str) (chain_id a r now a' r' : ℕ)
      → r ≤ now
      → now < refresh_end r
      → refresh_access_token jwt env
          (issue_tokens jwt env wallet chain_id a r).refresh_token
          now
          a'
          r'
        ≡ ok (issue_tokens jwt env wallet chain_id a' r')
  unfolding issue_tokens
  refresh_step wallet chain_id a r now a' r' h k =
      refresh_access_token-issue_tokens wallet chain_id r now a' r' h k

  verify_signature-ok :
      (host : Host) (store : NonceStore) (message signature : Str) (t : Moments)
      (r : AuthTokenResponse)
      → (verify_signature jwt env host store message signature t).1 ≡ ok r
      → (w : Str) × ((verify_siwe host store message signature none none t.at_nonce t.at_expiry).1
          ≡ ok w)
        × (r ≡ issue_tokens jwt env w default_chain t.at_access t.at_refresh)
  unfolding verify_signature
  verify_signature-ok host store message signature t r h =
      elim (Result-cases
        (verify_siwe host store message signature none none t.at_nonce t.at_expiry).1) [
          | inl (w, e) ↦ (w, e, ground arith)
          | inr (m, e) ↦ absurd (ground arith)
        ]

  -- A sign-in that succeeds has a message whose nonce was valid and which the wallet of the answer
  -- signed; the message's address is that wallet's, up to case. Until it expires, the access token
  -- of the answer opens a session of that wallet.
  pub verify_signature-get_session :
      (host : Host) (store : NonceStore) (message signature : Str) (t : Moments)
      (r : AuthTokenResponse) (now : ℕ)
      → (verify_signature jwt env host store message signature t).1 ≡ ok r
      → t.at_access ≤ now
      → now < access_end t.at_access
      → (p : SiweMessage) × (parse_siwe_message message ≡ ok p)
        × ((validate store p.nonce t.at_nonce).1 ≡ true)
        × (host.recover message signature ≡ ok r.wallet)
        × (lower r.wallet ≡ lower p.address)
        × (get_session jwt env (some r.access_token) now ≡ ok (session r.wallet default_chain))
  unfolding issue_tokens
  verify_signature-get_session host store message signature t r now h a b =
      let (w, signed, same) = verify_signature-ok host store message signature t r h in
      let (p, parsed, valid, _, recovered, claimed) =
        verify_siwe-ok host store message signature none none t.at_nonce t.at_expiry w signed in
      rw same (
        p,
        parsed,
        valid,
        recovered,
        claimed,
        get_session-issue_tokens w default_chain t.at_access t.at_refresh now a b,
      )

  -- However often the tokens of a wallet are renewed, each time before the refresh token at hand
  -- expires, the access token obtained last opens a session of the same wallet on the same chain
  -- until it expires.
  pub renew-get_session :
      (wallet : Str) (chain_id at_access at_refresh now : ℕ) (times : List (ℕ × ℕ × ℕ))
      → InTime at_refresh times
      → last_access at_access times ≤ now
      → now < access_end (last_access at_access times)
      → (r : AuthTokenResponse) × (renew jwt env
            (issue_tokens jwt env wallet chain_id at_access at_refresh)
            times
          ≡ ok r)
        × (get_session jwt env (some r.access_token) now ≡ ok (session wallet chain_id))
  unfolding renew
  renew-get_session wallet chain_id a r now [] i h k =
      (_, refl, get_session-issue_tokens wallet chain_id a r now h k)
  renew-get_session wallet chain_id a r now ((n, a', r') ∷ times) i h k =
      rw (refresh_step wallet chain_id a r n a' r' i.0 i.1)
        (renew-get_session wallet chain_id a' r' now times i.2 h k)

  -- No access token that these endpoints issue has market maker rights: at any time from its issue
  -- on, the check refuses it, with the 403 while it lasts and as expired after that.
  pub require_market_maker-issue_tokens :
      (wallet : Str) (chain_id at_access at_refresh now : ℕ)
      → at_access ≤ now
      → require_market_maker jwt env
          (some (issue_tokens jwt env wallet chain_id at_access at_refresh).access_token)
          now
        ≡ err (if ltb now (access_end at_access) then auth_insufficient_tier else auth_expired)
  unfolding require_market_maker issue_tokens text str_dec
  require_market_maker-issue_tokens wallet chain_id at_access at_refresh now h =
      rw
        (get_required_auth-create_access jwt laws env wallet chain_id advanced_tier 24 at_access now
          h)
        (ground arith)
