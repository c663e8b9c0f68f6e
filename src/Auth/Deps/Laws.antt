-- ===== src/Auth/Deps/Laws.antt =====
-- Which requests the authentication dependencies let through, and with which error they answer
-- the others.
use ax_server.Prelude.{
  ℕ, ◌+◌, ◌*◌, ◌/◌, ◌≤◌, ◌≡◌, ◌↔◌, refl, false, Option, some, [], ◌++◌, arith, if◌then◌else◌, All,
  ltb, Bool-cases, inl, inr, ltb→lt, test_holds, ◌∙◌,
}
use ax_server.Prelude.Text.Words.{split_words-pair}
use ax_server.Prelude.Text.{Str, text, lower_code, str_eq, str_dec, is_empty, is_space, has_infix}
use ax_server.Prelude.Error.{ok, err, map_err}
use ax_server.Auth.Jwt.{Jwt, JwtLaws, second}
use ax_server.Auth.Tokens.{
  TokenPayload, hour, day, create_access_token, create_refresh_token, type_message, verify_token,
}
use ax_server.Auth.Tokens.Laws.{
  verify_token-create_access, verify_token-create_refresh, verify_token-expired,
}
use ax_server.Auth.Deps.{
  extract_token, auth_error, auth_expired, auth_invalid, auth_insufficient_tier, get_optional_auth,
  get_required_auth, require_market_maker,
}

-- A header `Bearer <token>` or `bearer <token>` gives its token, if that has no white space in it
-- and is not empty.
pub extract_token-bearer :
    (token : Str)
    → All (λ c. is_space c ≡ false) token
    → is_empty token ≡ false
    → (extract_token (some (text "Bearer " ++ token)) ≡ some token)
      × (extract_token (some (text "bearer " ++ token)) ≡ some token)
unfolding extract_token text is_space lower_code str_dec
extract_token-bearer token h ne = (
  rw (
      split_words-pair (text "Bearer") token (refl, (refl, (refl, (refl, (refl, (refl, tt)))))) h
        refl ne),
  rw (
      split_words-pair (text "bearer") token (refl, (refl, (refl, (refl, (refl, (refl, tt)))))) h
        refl ne),
)

module _ (jwt : Jwt) (env : Option Str) where
  -- Required and optional authentication accept the same requests with the same payload.
  pub get_required_auth-get_optional_auth :
      (token : Option Str) (now : ℕ) (p : TokenPayload)
      → (get_required_auth jwt env token now ≡ ok p)
        ↔ (get_optional_auth jwt env token now ≡ some p)
  unfolding get_required_auth get_optional_auth
  get_required_auth-get_optional_auth token now p = (λ h. ground arith, λ h. ground arith)

  -- A request passes the market maker check exactly if it is authenticated with that tier; an
  -- authenticated request of any other tier gets the 403.
  pub require_market_maker_iff :
      (token : Option Str) (now : ℕ) (p : TokenPayload)
      → get_required_auth jwt env token now ≡ ok p
      → require_market_maker jwt env token now
        ≡ (if str_eq p.tier (text "MARKET_MAKER") then ok p else err auth_insufficient_tier)
  unfolding require_market_maker
  require_market_maker_iff token now p h = rw h (ground arith)

refresh_ne_access : str_eq (text "refresh") (text "access") ≡ false
unfolding text str_dec
refresh_ne_access = refl

expired_code : auth_error (text "Token has expired") ≡ auth_expired
unfolding auth_error text lower_code has_infix
expired_code = refl

refresh_code :
    auth_error (type_message (text "access") (text "refresh"))
    ≡ auth_invalid (type_message (text "access") (text "refresh"))
unfolding auth_error text lower_code has_infix type_message
refresh_code = refl

module _ (jwt : Jwt) (laws : JwtLaws jwt) (env : Option Str) where
  required_of_nonempty :
      (t : Str) (now : ℕ)
      → is_empty t ≡ false
      → get_required_auth jwt env (some t) now
        ≡ map_err auth_error (verify_token jwt env t (text "access") now)
  unfolding get_required_auth
  required_of_nonempty t now h = rw (h, get_required_auth)

  access_nonempty :
      (w : Str) (c : ℕ) (t : Str) (h n : ℕ)
      → is_empty (create_access_token jwt env w c t h n) ≡ false
  unfolding create_access_token
  access_nonempty w c t h n = laws.encode_nonempty _ _

  refresh_nonempty : (w : Str) (c d n : ℕ) → is_empty (create_refresh_token jwt env w c d n) ≡ false
  unfolding create_refresh_token
  refresh_nonempty w c d n = laws.encode_nonempty _ _

  -- From its issue on, an access token passes required authentication until it expires and gets
  -- AUTH_EXPIRED from then on.
  pub get_required_auth-create_access :
      (wallet : Str) (chain_id : ℕ) (tier : Str) (hours created now : ℕ)
      → created ≤ now
      → let exp = (created + hours * hour) / second in
        get_required_auth jwt env
          (some (create_access_token jwt env wallet chain_id tier hours created))
          now
        ≡ (if ltb now (exp * second)
            then ok (record {
              wallet = wallet;
              chain_id = chain_id;
              tier = tier;
              issued_at = created / second;
              expires_at = exp;
              token_type = text "access";
            })
            else err auth_expired)
  get_required_auth-create_access wallet chain_id tier hours created now h =
      let end = (created + hours * hour) / second * second in
      required_of_nonempty _ now (access_nonempty wallet chain_id tier hours created)
      ∙ (elim (Bool-cases (ltb now end)) [
        | inl e ↦ rw (
          e,
          verify_token-create_access jwt laws env wallet chain_id tier hours created now
              (text "access") h (ltb→lt now end e),
          test_holds (str_dec (text "access") (text "access")) refl,
        )
        | inr e ↦ rw (
          e,
          (verify_token-expired jwt laws env wallet chain_id tier hours created now (text "access")
                h).0
              (ground arith),
          expired_code,
        )
      ])

  -- A refresh token never passes for an access token: it gets AUTH_INVALID while it lasts, and
  -- AUTH_EXPIRED after that.
  pub get_required_auth-create_refresh :
      (wallet : Str) (chain_id days created now : ℕ)
      → created ≤ now
      → get_required_auth jwt env
          (some (create_refresh_token jwt env wallet chain_id days created))
          now
        ≡ err (
            if ltb now ((created + days * day) / second * second)
            then auth_invalid (type_message (text "access") (text "refresh"))
            else auth_expired)
  get_required_auth-create_refresh wallet chain_id days created now h =
      let end = (created + days * day) / second * second in
      required_of_nonempty _ now (refresh_nonempty wallet chain_id days created)
      ∙ (elim (Bool-cases (ltb now end)) [
        | inl e ↦ rw (
          e,
          verify_token-create_refresh jwt laws env wallet chain_id days created now (text "access")
              h (ltb→lt now end e),
          refresh_ne_access,
          refresh_code,
        )
        | inr e ↦ rw (
          e,
          (verify_token-expired jwt laws env wallet chain_id [] days created now (text "access")
                h).1
              (ground arith),
          expired_code,
        )
      ])
