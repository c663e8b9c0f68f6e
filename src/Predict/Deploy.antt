-- ===== src/Predict/Deploy.antt =====
-- The transactions of `PredictionDeployer` in app/chain/prediction_deployer.py: approvals, the first
-- tokens of a market and its two pools; and its reads of a deployed market.
pub mod Steps
mod Tests
use ax_server.Prelude.{ℕ, ◌+◌, ◌&&◌, Bool, Option, none, some, List, if◌then◌else◌, ltb}
use ax_server.Prelude.Text.{Str, str_eq}
use ax_server.Prelude.Error.{Result, ok, err}
use ax_server.Predict.Markets.{Decimals}
use ax_server.Chain.Uniswap.{
  Network, Dex, Action, Transaction, Receipt, ContractCall, approve, create, lift, ask, ◌>>=◌, ◌>>◌,
  transact, get_pair, add_liquidity_of,
}

-- `settings.addresses` of the deployer
pub record Addresses : Type 0 where
  pub usd_proxy : Str
  pub apt_router : Str
  pub dex : Dex

-- The dictionary of `create_lp_pools`
pub record LpPools : Type 0 where
  pub yes_pair_address : Option Str
  pub no_pair_address : Option Str
  pub yes_tx : Str
  pub no_tx : Str

module _ (net : Network) (addresses : Addresses) where
  -- `_approve_token`
  unfoldable pub approve_token : Str → Str → ℕ → Action Str
  approve_token token_address spender amount = do
    token ← lift (net.checksum token_address)
    allowed ← lift (net.checksum spender)
    done ← transact net token (approve allowed amount)
    lift (ok done.0)

  -- `create_initial_tokens`
  unfoldable pub create_initial_tokens : Str → ℕ → Action Str
  create_initial_tokens market_address axusd_amount_wei = do
    approve_token addresses.usd_proxy market_address axusd_amount_wei
    market ← lift (net.checksum market_address)
    done ← transact net market (create axusd_amount_wei)
    lift (ok done.0)

  -- The three transactions of one pool
  unfoldable pub create_pool : Str → ℕ → ℕ → Action Receipt
  create_pool token amount deadline = do
    approve_token token addresses.apt_router amount
    approve_token addresses.usd_proxy addresses.apt_router amount
    add_liquidity_of net addresses.dex token addresses.usd_proxy amount amount 1 1 net.agent
        deadline

  -- `create_lp_pools`, at a time
  unfoldable pub create_lp_pools : Str → Str → ℕ → ℕ → Action LpPools
  create_lp_pools yes_token no_token axusd_per_pool_wei now = do
    yes_receipt ← create_pool yes_token axusd_per_pool_wei (now + 600)
    no_receipt ← create_pool no_token axusd_per_pool_wei (now + 600)
    yes_pair ← get_pair net addresses.dex yes_token addresses.usd_proxy
    no_pair ← get_pair net addresses.dex no_token addresses.usd_proxy
    lift (
        ok (record {
          yes_pair_address = yes_pair;
          no_pair_address = no_pair;
          yes_tx = yes_receipt.transaction_hash;
          no_tx = no_receipt.transaction_hash;
        }))

-- The reads of `get_market_data`: the market, the supply of a token, and a pool
pub record MarketReads : Type 0 where
  pub price_requested : Str → Result Str Bool
  pub market_resolved : Str → Result Str Bool
  pub settlement_price : Str → Result Str ℕ
  pub total_supply : Str → Result Str ℕ
  pub reserves : Str → Result Str (ℕ × ℕ)
  pub token0 : Str → Result Str Str

-- Its answer; the numbers are texts there.
pub record MarketData (F : Type 0) : Type 0 where
  pub price_requested : Bool
  pub market_resolved : Bool
  pub settlement_price : ℕ
  pub yes_total_supply : ℕ
  pub no_total_supply : ℕ
  pub yes_price : F
  pub no_price : F

module _ {F : Type 0} (dec : Decimals F) (net : Network) (addresses : Addresses)
    (reads : MarketReads) where
  -- The price from the pool of a token: the share of axUSD in it, a half where there is none
  unfoldable pub pool_share : ℕ → ℕ → Bool → F
  pool_share r0 r1 axusd_first =
      if ltb 0 r0 && ltb 0 r1
      then dec.ratio (if axusd_first then r0 else r1) (r0 + r1)
      else dec.half

  unfoldable pub price_of : Str → Action F
  price_of token = do
    pair ← get_pair net addresses.dex token addresses.usd_proxy
    elim pair [
      | none ↦ lift (ok dec.half)
      | some address ↦ do
        r ← lift (reads.reserves address)
        first ← lift (reads.token0 address)
        a ← lift (if ltb 0 r.0 && ltb 0 r.1 then net.checksum first else ok first)
        b ← lift (
            if ltb 0 r.0 && ltb 0 r.1
            then net.checksum addresses.usd_proxy
            else ok addresses.usd_proxy)
        lift (ok (pool_share r.0 r.1 (str_eq a b)))
    ]

  -- `get_market_data`
  unfoldable pub get_market_data : Str → Str → Str → Action (MarketData F)
  get_market_data market_address yes_token no_token = do
    market ← lift (net.checksum market_address)
    yes_erc ← lift (net.checksum yes_token)
    no_erc ← lift (net.checksum no_token)
    requested ← lift (reads.price_requested market)
    resolved ← lift (reads.market_resolved market)
    settlement ← lift (reads.settlement_price market)
    yes_supply ← lift (reads.total_supply yes_erc)
    no_supply ← lift (reads.total_supply no_erc)
    yes_price ← price_of yes_token
    no_price ← price_of no_token
    lift (
        ok (record {
          price_requested = requested;
          market_resolved = resolved;
          settlement_price = settlement;
          yes_total_supply = yes_supply;
          no_total_supply = no_supply;
          yes_price = dec.round yes_price 6;
          no_price = dec.round no_price 6;
        }))
