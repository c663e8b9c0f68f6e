-- ===== src/Predict/Orders/Builders.antt =====
-- The order builders of app/api/v1/predict_orders.py: buy, sell, mint, redeem and the quote. Each
-- takes the cache of the registry, the file at `_REGISTRY_PATH` and the request, and gives the cache
-- afterwards with the answer. The contracts are a parameter.
use ax_server.Prelude.{
  ℕ, ◌+◌, ◌-◌, ◌*◌, ◌/◌, Bool, not, ◌&&◌, ◌||◌, Option, none, some, List, [], ◌∷◌, ◌++◌, ltb,
  if◌then◌else◌,
}
use ax_server.Prelude.Int.{ℤ}
use ax_server.Prelude.Text.{Str, text, lower, upper, strip, str_eq}
use ax_server.Prelude.Text.Search.{decimal}
use ax_server.Prelude.Error.{
  Result, ok, err, Raised, api, exception, ◌>>=◌, ◌>>◌, raise_if, or_raise, map_err,
}
use ax_server.Predict.Registry.{RegisteredMarket, RegistryFile}
use ax_server.Predict.Orders.{
  Cache, Checksum, Tx, UnsignedTxPayload, api_error, validate_address, validate_amount,
  validate_outcome, lookup_market, resolve_token, apply_slippage, swap_deadline, build_tx_payload,
}

-- What the builders ask of the chain: each call gives its result, or the text of the exception. The
-- amounts of `getAmountsOut` are those before the last, and the last.
pub record Chain : Type 0 where
  pub checksum : Checksum
  pub estimate_gas : Str → Tx → Result Str ℕ
  pub allowance : Str → Str → Str → Result Str ℕ
  pub approve : Str → Str → Str → ℕ → Result Str Tx
  pub get_amounts_out : Str → ℕ → List Str → Result Str (ℕ × ℕ)
  pub swap : Str → ℕ → ℤ → List Str → Str → ℕ → Result Str Tx
  pub create : Str → Str → ℕ → Result Str Tx
  pub redeem : Str → Str → ℕ → Result Str Tx

pub record Settings : Type 0 where
  pub apt_router : Str
  pub usd_proxy : Str
  pub default_chain_id : ℕ

-- `class PredictBuyRequest` and `class PredictSellRequest`, whose amounts have two names
pub record SwapRequest : Type 0 where
  pub market_id : Str
  pub outcome : Str
  pub amount : Str
  pub wallet : Str
  pub slippage_bps : ℤ

-- `class PredictMintRequest` and `class PredictRedeemRequest`
pub record MintRequest : Type 0 where
  pub market_id : Str
  pub amount : Str
  pub wallet : Str

pub record BuildTxResponse : Type 0 where
  pub transactions : List UnsignedTxPayload
  pub chain_id : ℕ

pub record PredictQuote : Type 0 where
  pub amount_in : Str
  pub amount_out : Str
  pub price_impact_bps : Option ℕ
  pub path : List Str

-- The `except Exception` clauses
unfoldable pub contract_revert : Str → Str → Str → Raised
contract_revert kind market_id e = api (record {
  code = text "CONTRACT_REVERT";
  message = text "Failed to build " ++ kind ++ text " transaction for market " ++ market_id;
  status_code = 400;
  details = some e;
})

unfoldable pub quote_error : Str → Str → Raised
quote_error market_id e = api (record {
  code = text "CHAIN_ERROR";
  message = text "Failed to get quote for market " ++ market_id;
  status_code = 502;
  details = some e;
})

-- A handler's steps before `_lookup_market`, that call, and the rest
unfoldable pub with_market :
    {A B : Type 0}
    → Checksum
    → Cache
    → RegistryFile
    → Str
    → Result Raised A
    → (A → RegisteredMarket → Result Raised B)
    → Cache × Result Raised B
with_market checksum cache file market_id checks rest = elim checks [
  | err e ↦ (cache, err e)
  | ok a ↦
      let (cache', market) = lookup_market checksum cache file market_id in
      (cache', do m ← market; rest a m)
]

-- `side in ("buy", "sell")`, and the path of the quote
unfoldable pub is_side : Str → Bool
is_side side = str_eq side (text "buy") || str_eq side (text "sell")

abbrev pub invalid_side : Str → Raised
invalid_side side =
    api_error (text "INVALID_AMOUNT")
      (text "Invalid side: " ++ side ++ text ". Must be 'buy' or 'sell'.") 400

unfoldable pub quote_path : Str → Str → Str → List Str
quote_path side axusd token =
    if str_eq side (text "buy") then axusd ∷ token ∷ [] else token ∷ axusd ∷ []

-- The price impact, computed exactly: the deviation of out / in from 1 in basis points
unfoldable pub price_impact : ℕ → ℕ → Option ℕ
price_impact amount_in amount_out =
    if ltb 0 amount_in && ltb 0 amount_out
    then some (((amount_in - amount_out) + (amount_out - amount_in)) * 10_000 / amount_in)
    else none

module _ (chain : Chain) (settings : Settings) where
  -- The approval that a wallet still needs for a spender
  unfoldable pub approve_if_needed : Str → Str → Str → ℕ → Str → Result Str (List UnsignedTxPayload)
  approve_if_needed wallet token spender amount description = do
    allowance ← chain.allowance token wallet spender
    (if ltb allowance amount
        then (do
          tx ← chain.approve wallet token spender amount
          ok (build_tx_payload chain.estimate_gas tx wallet description ∷ []))
        else ok [])

  -- The `try` of buy and sell: an approval of the first token of the path, and the swap
  unfoldable pub swap_transactions :
      Str → ℕ → Str → Str → Str → ℤ → Str → Str → ℕ → Result Str (List UnsignedTxPayload)
  swap_transactions wallet amount router token_in token_out slippage_bps approving swapping now = do
    approvals ← approve_if_needed wallet token_in router amount approving
    (_, quoted) ← chain.get_amounts_out router amount (token_in ∷ token_out ∷ [])
    tx ←
        chain.swap router amount (apply_slippage quoted slippage_bps) (token_in ∷ token_out ∷ [])
          wallet (swap_deadline now)
    ok (approvals ++ build_tx_payload chain.estimate_gas tx wallet swapping ∷ [])

  -- The checks of a swap request
  unfoldable pub swap_checks : SwapRequest → Str → Result Raised (Str × ℕ × Str)
  swap_checks body amount_field = do
    wallet ← validate_address chain.checksum body.wallet (text "wallet")
    amount ← validate_amount body.amount amount_field
    outcome ← validate_outcome body.outcome
    ok (wallet, amount, outcome)

  -- The configured router and axUSD, and the outcome's token
  unfoldable pub swap_addresses : RegisteredMarket → Str → Result Raised (Str × Str × Str)
  swap_addresses market outcome = do
    router ← validate_address chain.checksum settings.apt_router (text "apt_router")
    axusd ← validate_address chain.checksum settings.usd_proxy (text "usd_proxy")
    token ← resolve_token chain.checksum market outcome
    ok (router, axusd, token)

  -- `build_predict_buy`
  unfoldable pub build_predict_buy :
      Cache → RegistryFile → SwapRequest → ℕ → Cache × Result Raised BuildTxResponse
  build_predict_buy cache file body now =
      with_market chain.checksum cache file body.market_id (swap_checks body (text "axusd_amount"))
        (λ (wallet, amount, outcome) market. do
          (router, axusd, token) ← swap_addresses market outcome
          transactions ← map_err (contract_revert (text "buy") body.market_id) (
              swap_transactions wallet amount router axusd token body.slippage_bps
                (text "Approve axUSD for router") (text "Buy " ++ upper outcome ++ text " tokens")
                now)
          ok (record { transactions = transactions; chain_id = settings.default_chain_id }))

  -- `build_predict_sell`
  unfoldable pub build_predict_sell :
      Cache → RegistryFile → SwapRequest → ℕ → Cache × Result Raised BuildTxResponse
  build_predict_sell cache file body now =
      with_market chain.checksum cache file body.market_id (swap_checks body (text "token_amount"))
        (λ (wallet, amount, outcome) market. do
          (router, axusd, token) ← swap_addresses market outcome
          transactions ← map_err (contract_revert (text "sell") body.market_id) (
              swap_transactions wallet amount router token axusd body.slippage_bps
                (text "Approve " ++ upper outcome ++ text " token for router")
                (text "Sell " ++ upper outcome ++ text " tokens") now)
          ok (record { transactions = transactions; chain_id = settings.default_chain_id }))

  -- The `try` of the mint
  unfoldable pub mint_transactions : Str → ℕ → Str → Str → Result Str (List UnsignedTxPayload)
  mint_transactions wallet amount market_addr axusd = do
    approvals ← approve_if_needed wallet axusd market_addr amount (text "Approve axUSD for market")
    tx ← chain.create wallet market_addr amount
    ok (
        approvals
        ++ build_tx_payload chain.estimate_gas tx wallet (text "Mint YES + NO tokens") ∷ [])

  -- `build_predict_mint`
  unfoldable pub build_predict_mint :
      Cache → RegistryFile → MintRequest → Cache × Result Raised BuildTxResponse
  build_predict_mint cache file body =
      with_market chain.checksum cache file body.market_id
        (do
          wallet ← validate_address chain.checksum body.wallet (text "wallet")
          amount ← validate_amount body.amount (text "axusd_amount")
          ok (wallet, amount))
        (λ (wallet, amount) market. do
          market_address ← or_raise market.market_address (exception (text "'market_address'"))
          market_addr ← validate_address chain.checksum market_address (text "market_address")
          axusd ← validate_address chain.checksum settings.usd_proxy (text "usd_proxy")
          transactions ←
              map_err (contract_revert (text "mint") body.market_id)
                (mint_transactions wallet amount market_addr axusd)
          ok (record { transactions = transactions; chain_id = settings.default_chain_id }))

  -- `build_predict_redeem`
  unfoldable pub build_predict_redeem :
      Cache → RegistryFile → MintRequest → Cache × Result Raised BuildTxResponse
  build_predict_redeem cache file body =
      with_market chain.checksum cache file body.market_id
        (do
          wallet ← validate_address chain.checksum body.wallet (text "wallet")
          amount ← validate_amount body.amount (text "token_amount")
          ok (wallet, amount))
        (λ (wallet, amount) market. do
          market_address ← or_raise market.market_address (exception (text "'market_address'"))
          market_addr ← validate_address chain.checksum market_address (text "market_address")
          tx ←
              map_err (contract_revert (text "redeem") body.market_id)
                (chain.redeem wallet market_addr amount)
          ok (record {
            transactions =
                build_tx_payload chain.estimate_gas tx wallet (text "Redeem YES + NO for axUSD")
                ∷ [];
            chain_id = settings.default_chain_id;
          }))

  -- `get_predict_quote`: the market's address is checked twice, the second time in the lookup.
  unfoldable pub get_predict_quote :
      Cache → RegistryFile → Str → Str → Str → Str → Cache × Result Raised PredictQuote
  get_predict_quote cache file market_id outcome amount side =
      with_market chain.checksum cache file market_id
        (do
          _ ← validate_address chain.checksum market_id (text "market_id")
          validated_amount ← validate_amount amount (text "amount")
          outcome' ← validate_outcome outcome
          ok (validated_amount, outcome'))
        (λ (validated_amount, outcome') market. do
          raise_if (not (is_side (strip (lower side)))) (invalid_side (strip (lower side)))
          (router, axusd, token) ← swap_addresses market outcome'
          let path = quote_path (strip (lower side)) axusd token
          (first, last) ←
              map_err (quote_error market_id) (chain.get_amounts_out router validated_amount path)
          ok (record {
            amount_in = decimal first;
            amount_out = decimal last;
            price_impact_bps = price_impact validated_amount last;
            path = path;
          }))
