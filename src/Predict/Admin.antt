-- ===== src/Predict/Admin.antt =====
-- The administration endpoints: app/api/v1/admin.py. The registry file is the one state; web3 and
-- the contracts are a parameter.
pub mod Laws
pub mod Resolve
pub mod Listing
use ax_server.Prelude.{ℕ, Bool, not, Option, none, some, List, [], ◌∷◌, ◌++◌, if◌then◌else◌, ◌||◌}
use ax_server.Prelude.Text.{Str, text, upper, str_eq, str_dec, is_empty}
use ax_server.Prelude.Error.{Result, ok, err, ApiError, ◌>>=◌, ◌>>◌, raise_if, or_raise, map_err}
use ax_server.Auth.Jwt.{Jwt}
use ax_server.Auth.Deps.{require_market_maker}
use ax_server.Predict.Registry.{
  RegisteredMarket, RegistryFile, register_market, update_market_status, settlement_price,
}

-- What the handlers ask of the contracts: the calldata of `adminInitialize()` and of
-- `ownerResolve(price)`, and the pair of two tokens, or the text of the exception
pub record Contracts : Type 0 where
  pub initialize_calldata : Str → Result Str Str
  pub resolve_calldata : Str → ℕ → Result Str Str
  pub get_pair : Str → Str → Result Str (Option Str)

-- `settings.agent_private_key` and `settings.addresses.usd_proxy`
pub record Settings : Type 0 where
  pub agent_private_key : Str
  pub usd_proxy : Str

-- `class UnsignedTx`
pub record UnsignedTx : Type 0 where
  pub to : Str
  pub data_field : Str
  pub value : Str
  pub chain_id : ℕ

-- `class TxResponse`, with the keys of its metadata
pub record TxResponse : Type 0 where
  pub transaction : UnsignedTx
  pub action : Str
  pub market_address : Str
  pub outcome : Option Str

-- `class RegisterMarketRequest`
pub record RegisterMarketRequest : Type 0 where
  pub contract_address : Str
  pub yes_token : Str
  pub no_token : Str
  pub question : Str
  pub category : Str
  pub details : Str
  pub resolve_by : Str
  pub pair_name : Str

abbrev api_error : Str → Str → ℕ → Option Str → ApiError
api_error code message status_code details = record {
  code = code;
  message = message;
  status_code = status_code;
  details = details;
}

-- `_get_deployer`, for a key that the account library accepts if there is one
unfoldable pub get_deployer : Settings → Result ApiError (Unit {0})
get_deployer settings = raise_if (is_empty settings.agent_private_key) (
    api_error (text "AGENT_KEY_MISSING")
      (text "Agent private key not configured. Set AGENT_PRIVATE_KEY in .env.") 500 none)

-- `PredictionDeployer.build_initialize_tx` and `build_resolve_tx`
unfoldable pub build_tx : Str → Str → UnsignedTx
build_tx market_address calldata = record {
  to = market_address;
  data_field = calldata;
  value = text "0";
  chain_id = 137;
}

unfoldable pub build_resolve_tx : Contracts → Str → Str → Result Str UnsignedTx
build_resolve_tx contracts market_address outcome = do
  price ←
      or_raise (settlement_price outcome)
        (text "Invalid outcome '" ++ outcome ++ text "'. Must be YES, NO, or SPLIT.")
  calldata ← contracts.resolve_calldata market_address price
  ok (build_tx market_address calldata)

-- `body.outcome.upper() in OUTCOME_MAP`, and `body.status in VALID_STATUSES`
unfoldable pub is_outcome : Str → Bool
is_outcome outcome =
    str_eq (upper outcome) (text "YES")
    || str_eq (upper outcome) (text "NO")
    || str_eq (upper outcome) (text "SPLIT")

unfoldable pub is_status : Str → Bool
is_status status =
    str_eq status (text "active")
    || str_eq status (text "paused")
    || str_eq status (text "resolved")
    || str_eq status (text "settled")

-- The market's dictionary of `register_existing_market`
unfoldable pub market_info :
    RegisterMarketRequest → Str → Option Str → Option Str → RegisteredMarket
market_info body registered_at yes_pair no_pair = record {
  market_address = some body.contract_address;
  yes_token = some body.yes_token;
  no_token = some body.no_token;
  question = body.question;
  category = body.category;
  details = body.details;
  resolve_by = body.resolve_by;
  pair_name = body.pair_name;
  yes_pair_address = yes_pair;
  no_pair_address = no_pair;
  registered_at = registered_at;
  status = none;
  outcome = none;
  resolved_at = none;
}

-- The `try` around the two calls of `get_pair`: an exception leaves both addresses empty.
unfoldable pub lp_pairs : Contracts → Str → Str → Str → Option Str × Option Str
lp_pairs contracts yes_token no_token axusd = elim (contracts.get_pair yes_token axusd) [
  | err e ↦ (some [], some [])
  | ok yes_pair ↦ elim (contracts.get_pair no_token axusd) [
    | err e ↦ (some [], some [])
    | ok no_pair ↦ (yes_pair, no_pair)
  ]
]

-- The dependencies of a handler, and its body on the registry
abbrev pub Handler : Type 0 → Type 0
Handler A = RegistryFile → RegistryFile × Result ApiError A

abbrev pub after : {A B : Type 0} → Result ApiError B → Handler A → Handler A
after (err e) body file = (file, err e)
after (ok b) body file = body file

abbrev pub deploy_error : Str → Str → ApiError
deploy_error what e = api_error (text "DEPLOY_ERROR") (what ++ e) 400 none

-- The transaction of `resolve_market`, and the update of the registry that follows it: a market
-- that is not in the registry is only logged.
unfoldable pub resolve_and_record : Contracts → Str → Str → Str → Handler TxResponse
resolve_and_record contracts market_address outcome resolved_at file =
    elim (build_resolve_tx contracts market_address outcome) [
      | err e ↦ (file, err (deploy_error (text "Failed to build resolve TX: ") e))
      | ok tx ↦ (
        (update_market_status file market_address (some (text "resolved")) (some (upper outcome))
            (some resolved_at)).0,
        ok (record {
          transaction = tx;
          action = text "ownerResolve";
          market_address = market_address;
          outcome = some (upper outcome);
        }),
      )
    ]

module _ (jwt : Jwt) (env : Option Str) (contracts : Contracts) (settings : Settings) where
  -- `deploy_market`: `PredictionDeployer.deploy_market` raises `NotImplementedError` at once.
  unfoldable pub deploy_market : Option Str → ℕ → Handler (Unit {0})
  deploy_market token now = after (require_market_maker jwt env token now) (
      after (get_deployer settings) (λ file. (
        file,
        err (
            api_error (text "DEPLOY_ERROR")
              (text
                "Contract bytecode not available — use /admin/register-market for existing contracts")
              501
              (some (
                text "Use POST /admin/register-market to register an already-deployed contract."))),
      )))

  -- `register_existing_market`
  unfoldable pub register_existing_market :
      Option Str → ℕ → RegisterMarketRequest → Str → Handler RegisteredMarket
  register_existing_market token now body registered_at =
      after (require_market_maker jwt env token now) (
        after (get_deployer settings) (λ file.
          let (yes_pair, no_pair) =
            lp_pairs contracts body.yes_token body.no_token settings.usd_proxy in
          let info = market_info body registered_at yes_pair no_pair in
          (register_market file info, ok info)))

  -- `initialize_market`
  unfoldable pub initialize_market : Option Str → ℕ → Str → Handler TxResponse
  initialize_market token now market_address = after (require_market_maker jwt env token now) (
      after (get_deployer settings) (λ file. (
        file,
        do
          calldata ←
              map_err (deploy_error (text "Failed to build initialize TX: "))
                (contracts.initialize_calldata market_address)
          ok (record {
            transaction = build_tx market_address calldata;
            action = text "adminInitialize";
            market_address = market_address;
            outcome = none;
          }),
      )))

  -- `resolve_market`
  unfoldable pub resolve_market : Option Str → ℕ → Str → Str → Str → Handler TxResponse
  resolve_market token now market_address outcome resolved_at =
      after (require_market_maker jwt env token now) (
        after
          (raise_if (not (is_outcome outcome)) (
            api_error (text "INVALID_OUTCOME") (text "Outcome must be one of: NO, SPLIT, YES") 400
              none))
          (after (get_deployer settings)
            (resolve_and_record contracts market_address outcome resolved_at)))

  -- `update_market_status`, the endpoint
  unfoldable pub patch_market_status : Option Str → ℕ → Str → Str → Handler (Unit {0})
  patch_market_status token now market_address status =
      after (require_market_maker jwt env token now) (
        after
          (raise_if (not (is_status status)) (
            api_error (text "INVALID_STATUS")
              (text "Status must be one of: active, paused, resolved, settled") 400 none))
          (after (get_deployer settings) (λ file.
            let (file', r) = update_market_status file market_address (some status) none none in
            (file', map_err (λ e. api_error (text "MARKET_NOT_FOUND") e 404 none) r))))
