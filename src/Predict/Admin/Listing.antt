-- ===== src/Predict/Admin/Listing.antt =====
-- The listing of app/api/v1/admin.py, and the end of its `deploy_market`, which no call reaches as
-- long as the deployment itself raises.
use ax_server.Prelude.{ℕ, ◌/◌, ◌||◌, Option, none, some, List, [], map, if◌then◌else◌}
use ax_server.Prelude.Text.{Str, is_empty}
use ax_server.Prelude.Error.{Result, ok, err}
use ax_server.Predict.Registry.{
  RegisteredMarket, RegistryFile, get_registered_markets, register_market,
}
use ax_server.Predict.Admin.{Settings, get_deployer, Handler, after}
use ax_server.Predict.Markets.{Decimals}
use ax_server.Chain.Uniswap.{Network, Transaction, Action, lift, ◌>>=◌, ◌>>◌}
use ax_server.Predict.Deploy.{
  Addresses, MarketReads, MarketData, get_market_data, create_initial_tokens, create_lp_pools,
}
use mathlib.Core.Option

module _ (net : Network) (addresses : Addresses) where
  -- An entry with its data on the chain, if its addresses are there and the chain can be read
  module _ {F : Type 0} (dec : Decimals F) (reads : MarketReads) (sent : List Transaction) where
    unfoldable pub on_chain_of : RegisteredMarket → Option (MarketData F)
    on_chain_of m =
        let market_address = Option.get_or m.market_address [] in
        let yes_token = Option.get_or m.yes_token [] in
        let no_token = Option.get_or m.no_token [] in
        if is_empty market_address || is_empty yes_token || is_empty no_token
        then none
        else elim (get_market_data dec net addresses reads market_address yes_token no_token
            sent).1 [ err e ↦ none | ok data_read ↦ some data_read ]

    -- `list_registered_markets`
    unfoldable pub list_registered_markets :
        Settings → Handler (List (RegisteredMarket × Option (MarketData F)))
    list_registered_markets settings =
        after (get_deployer settings)
          (λ file. (file, ok (map (λ m. (m, on_chain_of m)) (get_registered_markets file))))

  -- The end of `deploy_market`: the first tokens, half of the liquidity for each pool, and the entry
  unfoldable pub finish_deployment :
      RegisteredMarket → Str → Str → Str → ℕ → ℕ → Action RegisteredMarket
  finish_deployment market_info contract_address long_token short_token liquidity_wei now = do
    create_initial_tokens net addresses contract_address liquidity_wei
    lp_result ← create_lp_pools net addresses long_token short_token (liquidity_wei / 2) now
    lift (
        ok (record market_info {
          yes_pair_address = lp_result.yes_pair_address;
          no_pair_address = lp_result.no_pair_address;
        }))

  -- The registry after it: an exception leaves it as it was.
  unfoldable pub registered_after : RegistryFile → Result Str RegisteredMarket → RegistryFile
  registered_after file (err e) = file
  registered_after file (ok market) = register_market file market
