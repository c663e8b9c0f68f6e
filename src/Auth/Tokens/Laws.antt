-- ===== src/Auth/Tokens/Laws.antt =====
-- What a token that the server issued is worth when it comes back.
use native.Mathlib.Nat.{div-mul-le_self}
use ax_server.Prelude.{ℕ, ◌+◌, ◌*◌, ◌/◌, ◌≤◌, ◌<◌, ◌≡◌, refl, Option, arith, if◌then◌else◌}
use ax_server.Prelude.Text.{Str, text, str_eq}
use ax_server.Prelude.Error.{ok, err}
use ax_server.Auth.Jwt.{Jwt, JwtLaws, second}
use ax_server.Auth.Tokens.{
  get_secret, hour, day, access_claims, create_access_token, refresh_claims, create_refresh_token,
  jwt_message, type_message, verify_token,
}

module _ (jwt : Jwt) (laws : JwtLaws jwt) (env : Option Str) where
  -- An access token, verified from its issue until it expires, gives back the wallet, the chain
  -- and the tier that it was issued for where an access token is expected, and is refused with
  -- the type error where another type is.
  pub verify_token-create_access :
      (wallet : Str) (chain_id : ℕ) (tier : Str) (hours created now : ℕ) (expected : Str)
      → created ≤ now
      → now < (created + hours * hour) / second * second
      → verify_token jwt env
          (create_access_token jwt env wallet chain_id tier hours created)
          expected
          now
        ≡ (if str_eq (text "access") expected
            then ok (record {
              wallet = wallet;
              chain_id = chain_id;
              tier = tier;
              issued_at = created / second;
              expires_at = (created + hours * hour) / second;
              token_type = text "access";
            })
            else err (type_message expected (text "access")))
  unfolding verify_token create_access_token access_claims
  verify_token-create_access wallet chain_id tier hours created now expected h k =
      rw
        (laws.decode-encode (get_secret env) (access_claims wallet chain_id tier hours created) _ _
          now refl refl (omega (arith, div-mul-le_self created second)) k)
        (ground arith)

  -- A refresh token gives back the wallet and the chain where a refresh token is expected, with
  -- the tier BASIC; as an access token it is refused.
  pub verify_token-create_refresh :
      (wallet : Str) (chain_id days created now : ℕ) (expected : Str)
      → created ≤ now
      → now < (created + days * day) / second * second
      → verify_token jwt env
          (create_refresh_token jwt env wallet chain_id days created)
          expected
          now
        ≡ (if str_eq (text "refresh") expected
            then ok (record {
              wallet = wallet;
              chain_id = chain_id;
              tier = text "BASIC";
              issued_at = created / second;
              expires_at = (created + days * day) / second;
              token_type = text "refresh";
            })
            else err (type_message expected (text "refresh")))
  unfolding verify_token create_refresh_token refresh_claims
  verify_token-create_refresh wallet chain_id days created now expected h k =
      rw
        (laws.decode-encode (get_secret env) (refresh_claims wallet chain_id days created) _ _ now
          refl refl (omega (arith, div-mul-le_self created second)) k)
        (ground arith)

  -- From the second in which it expires on, a token of either kind is refused as expired, whatever
  -- type is expected.
  pub verify_token-expired :
      (wallet : Str) (chain_id : ℕ) (tier : Str) (span created now : ℕ) (expected : Str)
      → created ≤ now
      → ((created + span * hour) / second * second ≤ now
          → verify_token jwt env
              (create_access_token jwt env wallet chain_id tier span created)
              expected
              now
            ≡ err (text "Token has expired"))
        × ((created + span * day) / second * second ≤ now
            → verify_token jwt env
                (create_refresh_token jwt env wallet chain_id span created)
                expected
                now
              ≡ err (text "Token has expired"))
  unfolding verify_token create_access_token access_claims create_refresh_token refresh_claims
      jwt_message
  verify_token-expired wallet chain_id tier span created now expected h =
      let issued : created / second * second ≤ now =
        omega (arith, div-mul-le_self created second) in
      (
        λ k.
            rw
              (laws.decode-encode_expired (get_secret env)
                (access_claims wallet chain_id tier span created) _ _ now refl refl issued k)
              refl,
        λ k.
            rw
              (laws.decode-encode_expired (get_secret env)
                (refresh_claims wallet chain_id span created) _ _ now refl refl issued k)
              refl,
      )
