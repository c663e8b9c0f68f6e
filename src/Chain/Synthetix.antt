-- ===== src/Chain/Synthetix.antt =====
-- The transactions that the client of app/chain/synthetix.py builds for the core and the spot market
-- proxy. The encoding of a call and the chain's id are a parameter, and either may fail.
use ax_server.Prelude.{ℕ, ◌*◌, ◌^◌}
use ax_server.Prelude.Int.{ℤ}
use ax_server.Prelude.Text.{Str, text}
use ax_server.Prelude.Error.{Result, ok, ◌>>=◌}

-- The calls of the two contracts, with the arguments in the contract's order
pub data CoreCall : Type 0 where
  create_account : CoreCall
  deposit : ℤ → Str → ℤ → CoreCall
  withdraw : ℤ → Str → ℤ → CoreCall
  delegate_collateral : ℤ → ℤ → Str → ℤ → ℕ → CoreCall
  mint_usd : ℤ → ℤ → Str → ℤ → CoreCall
  burn_usd : ℤ → ℤ → Str → ℤ → CoreCall

pub data SpotCall : Type 0 where
  buy : ℤ → ℤ → ℤ → Str → SpotCall
  sell : ℤ → ℤ → ℤ → Str → SpotCall
  wrap : ℤ → ℤ → ℤ → SpotCall
  unwrap : ℤ → ℤ → ℤ → SpotCall

-- What the client calls: `Web3.to_checksum_address`, the two contracts and `w3.eth.chain_id`
pub record Contracts : Type 0 where
  pub core_proxy : Str
  pub spot_market_proxy : Str
  pub checksum : Str → Result Str Str
  pub encode_core : CoreCall → Result Str Str
  pub encode_spot : SpotCall → Result Str Str
  pub chain_id : Result Str ℕ

-- The dictionary of a transaction
pub record TxData : Type 0 where
  pub to : Str
  pub calldata : Str
  pub value : Str
  pub chain_id : ℕ

-- `1 * 10**18`
abbrev pub default_leverage : ℕ
default_leverage = 1 * 10 ^ 18

module _ (contracts : Contracts) where
  -- The dictionary of a call of the core proxy, and of the spot market proxy
  unfoldable pub core_tx : CoreCall → Result Str TxData
  core_tx call = do
    encoded ← contracts.encode_core call
    id ← contracts.chain_id
    ok (record { to = contracts.core_proxy; calldata = encoded; value = text "0"; chain_id = id })

  unfoldable pub spot_tx : SpotCall → Result Str TxData
  spot_tx call = do
    encoded ← contracts.encode_spot call
    id ← contracts.chain_id
    ok (record {
      to = contracts.spot_market_proxy;
      calldata = encoded;
      value = text "0";
      chain_id = id;
    })

  -- `build_create_account_tx`
  unfoldable pub build_create_account_tx : Result Str TxData
  build_create_account_tx = core_tx create_account

  -- `build_deposit_tx`
  unfoldable pub build_deposit_tx : ℤ → Str → ℤ → Result Str TxData
  build_deposit_tx account_id collateral_type amount = do
    ct ← contracts.checksum collateral_type
    core_tx (deposit account_id ct amount)

  -- `build_withdraw_tx`
  unfoldable pub build_withdraw_tx : ℤ → Str → ℤ → Result Str TxData
  build_withdraw_tx account_id collateral_type amount = do
    ct ← contracts.checksum collateral_type
    core_tx (withdraw account_id ct amount)

  -- `build_delegate_tx`, and `build_undelegate_tx`, which has the same body
  unfoldable pub build_delegate_tx : ℤ → ℤ → Str → ℤ → ℕ → Result Str TxData
  build_delegate_tx account_id pool_id collateral_type amount leverage = do
    ct ← contracts.checksum collateral_type
    core_tx (delegate_collateral account_id pool_id ct amount leverage)

  unfoldable pub build_undelegate_tx : ℤ → ℤ → Str → ℤ → ℕ → Result Str TxData
  build_undelegate_tx account_id pool_id collateral_type amount leverage = do
    ct ← contracts.checksum collateral_type
    core_tx (delegate_collateral account_id pool_id ct amount leverage)

  -- `build_mint_usd_tx`
  unfoldable pub build_mint_usd_tx : ℤ → ℤ → Str → ℤ → Result Str TxData
  build_mint_usd_tx account_id pool_id collateral_type amount = do
    ct ← contracts.checksum collateral_type
    core_tx (mint_usd account_id pool_id ct amount)

  -- `build_burn_usd_tx`
  unfoldable pub build_burn_usd_tx : ℤ → ℤ → Str → ℤ → Result Str TxData
  build_burn_usd_tx account_id pool_id collateral_type amount = do
    ct ← contracts.checksum collateral_type
    core_tx (burn_usd account_id pool_id ct amount)

  -- `build_buy_tx`
  unfoldable pub build_buy_tx : ℤ → ℤ → ℤ → Str → Result Str TxData
  build_buy_tx market_id usd_amount min_received referrer = do
    r ← contracts.checksum referrer
    spot_tx (buy market_id usd_amount min_received r)

  -- `build_sell_tx`
  unfoldable pub build_sell_tx : ℤ → ℤ → ℤ → Str → Result Str TxData
  build_sell_tx market_id synth_amount min_received referrer = do
    r ← contracts.checksum referrer
    spot_tx (sell market_id synth_amount min_received r)

  -- `build_wrap_tx` and `build_unwrap_tx`
  unfoldable pub build_wrap_tx : ℤ → ℤ → ℤ → Result Str TxData
  build_wrap_tx market_id wrap_amount min_received =
      spot_tx (wrap market_id wrap_amount min_received)

  unfoldable pub build_unwrap_tx : ℤ → ℤ → ℤ → Result Str TxData
  build_unwrap_tx market_id unwrap_amount min_received =
      spot_tx (unwrap market_id unwrap_amount min_received)
