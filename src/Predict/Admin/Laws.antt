-- ===== src/Predict/Admin/Laws.antt =====
-- Who can change the registry, and what a change leaves.
use ax_server.Prelude.{
  ℕ, ◌≡◌, ◌≤◌, refl, inl, inr, Option, none, some, List, [], ◌∷◌, arith, All, map,
}
use ax_server.Prelude.Text.{Str}
use ax_server.Prelude.Error.{Result, err, ApiError, Result-cases}
use ax_server.Auth.Jwt.{Jwt, JwtLaws}
use ax_server.Auth.Deps.{require_market_maker}
use ax_server.Auth.Endpoints.{issue_tokens}
use ax_server.Auth.Endpoints.Session.{require_market_maker-issue_tokens}
use ax_server.Predict.Registry.{RegistryFile, get_registered_markets}
use ax_server.Predict.Registry.Laws.{IsApart, register_market-IsApart}
use ax_server.Predict.Registry.Update.{update_market_status-IsApart}
use ax_server.Predict.Admin.{
  lp_pairs, market_info, resolve_and_record, after, Contracts, Settings, RegisterMarketRequest,
  Handler, build_resolve_tx, deploy_market, register_existing_market, initialize_market,
  resolve_market, patch_market_status,
}

-- A request to one of the endpoints that can change state
pub data Call : Type 0 where
  deploy : Call
  register : RegisterMarketRequest → Str → Call
  initialize : Str → Call
  resolve : Str → Str → Str → Call
  patch_status : Str → Str → Call

refused :
    {A B : Type 0} (r : Result ApiError B) (body : Handler A) (file : RegistryFile) (e : ApiError)
    → r ≡ err e
    → (after r body file).0 ≡ file
refused r body file e h = rw h refl

abbrev Apart : RegistryFile → Type 0
Apart file = IsApart (get_registered_markets file)

resolve_and_record-IsApart :
    (contracts : Contracts) (addr outcome at : Str) (file : RegistryFile)
    → Apart file
    → Apart (resolve_and_record contracts addr outcome at file).0
unfolding resolve_and_record
resolve_and_record-IsApart contracts addr outcome at file h =
    elim (Result-cases (build_resolve_tx contracts addr outcome)) [
      | inl (tx, e) ↦ rw (resolve_and_record, e) (update_market_status-IsApart file _ _ _ _ h)
      | inr (m, e) ↦ rw (resolve_and_record, e) h
    ]

module _ (jwt : Jwt) (env : Option Str) (contracts : Contracts) (settings : Settings) where
  -- The registry after a request with a token at a time
  unfoldable pub registry_after : Option Str → ℕ → Call → RegistryFile → RegistryFile
  registry_after token now deploy file = (deploy_market jwt env contracts settings token now file).0
  registry_after token now (register body at) file =
      (register_existing_market jwt env contracts settings token now body at file).0
  registry_after token now (initialize addr) file =
      (initialize_market jwt env contracts settings token now addr file).0
  registry_after token now (resolve addr outcome at) file =
      (resolve_market jwt env contracts settings token now addr outcome at file).0
  registry_after token now (patch_status addr status) file =
      (patch_market_status jwt env contracts settings token now addr status file).0

  -- A request that the market maker check refuses leaves the registry alone.
  registry_after-refused :
      (token : Option Str) (now : ℕ) (call : Call) (file : RegistryFile) (e : ApiError)
      → require_market_maker jwt env token now ≡ err e
      → registry_after token now call file ≡ file
  unfolding registry_after deploy_market register_existing_market initialize_market resolve_market
      patch_market_status
  registry_after-refused token now deploy file e h = refused _ _ file e h
  registry_after-refused token now (register body at) file e h = refused _ _ file e h
  registry_after-refused token now (initialize addr) file e h = refused _ _ file e h
  registry_after-refused token now (resolve addr outcome at) file e h = refused _ _ file e h
  registry_after-refused token now (patch_status addr status) file e h = refused _ _ file e h

  -- A request, whatever its token, keeps the addresses of the entries apart.
  registry_after-IsApart :
      (token : Option Str) (now : ℕ) (call : Call) (file : RegistryFile)
      → IsApart (get_registered_markets file)
      → IsApart (get_registered_markets (registry_after token now call file))
  unfolding registry_after deploy_market register_existing_market initialize_market resolve_market
      patch_market_status
  registry_after-IsApart token now deploy file h = ground arith
  registry_after-IsApart token now (register body at) file h =
      let pairs = lp_pairs contracts body.yes_token body.no_token settings.usd_proxy in
      ground (arith, register_market-IsApart file (market_info body at pairs.0 pairs.1) h)
  registry_after-IsApart token now (initialize addr) file h = ground arith
  registry_after-IsApart token now (resolve addr outcome at) file h =
      ground (arith, resolve_and_record-IsApart contracts addr outcome at file h)
  registry_after-IsApart token now (patch_status addr status) file h =
      ground (arith, update_market_status-IsApart file addr (some status) none none h)

  -- A sequence of requests, each with its token and time
  unfoldable pub run_calls : List (Option Str × ℕ × Call) → RegistryFile → RegistryFile
  run_calls [] file = file
  run_calls ((token, now, call) ∷ calls) file = run_calls calls (registry_after token now call file)

  -- Whatever requests arrive, with whatever tokens, no two entries of the registry come to have the
  -- same address.
  pub run_calls-IsApart :
      (calls : List (Option Str × ℕ × Call)) (file : RegistryFile)
      → IsApart (get_registered_markets file)
      → IsApart (get_registered_markets (run_calls calls file))
  unfolding run_calls
  run_calls-IsApart [] file h = h
  run_calls-IsApart ((token, now, call) ∷ calls) file h =
      run_calls-IsApart calls (registry_after token now call file)
        (registry_after-IsApart token now call file h)

-- What the sign-in endpoints issued the token for, and the time at which it is used
pub record Use : Type 0 where
  pub wallet : Str
  pub chain_id : ℕ
  pub issued_at : ℕ
  pub used_at : ℕ
  pub call : Call

-- Requests with access tokens that the sign-in endpoints issued, none used before its issue, never
-- change the registry.
pub run_calls-issue_tokens :
    (jwt : Jwt) (laws : JwtLaws jwt) (env : Option Str) (contracts : Contracts)
    (settings : Settings) (uses : List Use) (file : RegistryFile)
    → All (λ u. u.issued_at ≤ u.used_at) uses
    → run_calls jwt env contracts settings
        (map
          (λ u. (
            some (issue_tokens jwt env u.wallet u.chain_id u.issued_at u.issued_at).access_token,
            u.used_at,
            u.call,
          ))
          uses)
        file
      ≡ file
unfolding run_calls
run_calls-issue_tokens jwt laws env contracts settings [] file h = refl
run_calls-issue_tokens jwt laws env contracts settings (u ∷ uses) file h =
    rw
      (
        run_calls,
        registry_after-refused jwt env contracts settings _ u.used_at u.call file _ (
            require_market_maker-issue_tokens jwt laws env u.wallet u.chain_id u.issued_at
              u.issued_at u.used_at h.0),
      )
      (run_calls-issue_tokens jwt laws env contracts settings uses file h.1)
