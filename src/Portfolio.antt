-- ===== src/Portfolio.antt =====
-- The portfolio endpoints: app/api/v1/portfolio.py. The reads of the chain and of the subgraph are a
-- parameter that returns or fails, and F is the type of floats with the operations that are used.
mod Positions
mod Tests
pub mod Builders
use ax_server.Prelude.{
  ℕ, zero, suc, ◌+◌, ◌*◌, ◌/◌, ◌^◌, Bool, not, Option, none, some, List, [], ◌∷◌, ◌++◌, map,
  if◌then◌else◌, ◌==◌, ltb,
}
use ax_server.Prelude.Int.{ℤ, pos, negsuc}
use ax_server.Prelude.Text.{Str, text, is_empty}
use ax_server.Prelude.Text.Search.{decimal}
use ax_server.Prelude.Error.{
  Result, ok, err, Raised, api, exception, ◌>>=◌, ◌>>◌, raise_if, map_err,
}
use ax_server.Predict.Orders.{Checksum, is_address_text, api_error}
use ax_server.Chain.Eip7412.{int_str}

pub record AccountState : Type 0 where
  pub account_id : Str
  pub collateral_deposited : Str
  pub collateral_assigned : Str
  pub collateral_available : Str
  pub debt : Str
  pub c_ratio : Option Str

pub record Position : Type 0 where
  pub market_id : ℕ
  pub symbol : Str
  pub synth_address : Str
  pub balance : Str
  pub value_usd : Option Str

pub record PositionsResponse : Type 0 where
  pub wallet : Str
  pub positions : List Position

-- The fields whose values do not vary are left out.
pub record BalanceResponse (F : Type 0) : Type 0 where
  pub wallet : Str
  pub ax : Str
  pub axusd : Str
  pub usdc : Str
  pub matic : Str
  pub gas_price_gwei : F
  pub unrealized_return_usd : Str
  pub unrealized_return_pct : Str
  pub accounts : List AccountState

-- The reads of the node, of the Synthetix contracts and of the account NFT
pub record Reads : Type 0 where
  pub checksum : Checksum
  pub native_balance : Str → Result Str ℕ
  pub gas_price : Result Str ℕ
  pub erc20_balance : Str → Str → Result Str ℕ
  pub account_count : Str → Result Str ℕ
  pub account_at : Str → ℕ → Result Str ℕ
  pub account_collateral : ℕ → Str → Result Str (ℕ × ℕ × ℕ)
  pub available_collateral : ℕ → Str → Result Str ℕ
  pub position_debt : ℕ → ℕ → Str → Result Str ℤ
  pub position_c_ratio : ℕ → ℕ → Str → Result Str ℕ
  pub synth_address : ℕ → Result Str Str
  pub synth_market_name : ℕ → Result Str Str
  pub index_price : ℕ → Result Str ℕ

-- `raw / 10 ** decimals`, `float(s)` of such a text over 10 ** 18, `+`, `-`, `*`, `/`, `> 0`, and the
-- two renderings
pub record Money (F : Type 0) : Type 0 where
  pub nothing : F
  pub one : F
  pub hundred : F
  pub scaled : ℕ → ℕ → F
  pub wei_text : Str → F
  pub add : F → F → F
  pub sub : F → F → F
  pub mul : F → F → F
  pub div : F → F → F
  pub positive : F → Bool
  pub round4 : F → F
  pub two_places : F → Str

-- `_validate_wallet`
unfoldable pub validate_wallet : Checksum → Str → Result Raised Str
validate_wallet checksum wallet = do
  raise_if (not (is_address_text wallet))
      (api_error (text "INVALID_WALLET_ADDRESS") (text "Invalid Ethereum address: " ++ wallet) 400)
  map_err exception (checksum wallet)

abbrev pub usdc_native : Str
usdc_native = text "0x3c499c542cEF5E3811e1192ce70d8cC03d5c3359"

abbrev pub usdc_bridged : Str
usdc_bridged = text "0x2791Bca1f2de4661ED88A30C99A7a9449Aa84174"

-- `_POOL_ID`
abbrev pool : ℕ
pool = 1

-- `[1, 2, 3, 4, 5]`
abbrev pub known_ids : List ℕ
known_ids = 1 ∷ 2 ∷ 3 ∷ 4 ∷ 5 ∷ []

unfoldable pub chain_error : Str → Raised
chain_error e = api (record {
  code = text "CHAIN_ERROR";
  message = text "Failed to read on-chain balances";
  status_code = 502;
  details = some e;
})

abbrev or_zero : Result Str ℕ → ℕ
or_zero (ok n) = n
or_zero (err e) = 0

module _ (reads : Reads) where
  -- `_read_erc20_balance`
  unfoldable pub read_erc20_balance : Str → Str → Result Str ℕ
  read_erc20_balance token_address wallet = do
    token ← reads.checksum token_address
    reads.erc20_balance token wallet

  -- `_safe_usdc_balance`: a contract that cannot be read counts as nothing.
  unfoldable pub safe_usdc_balance : Str → ℕ
  safe_usdc_balance wallet =
      or_zero (read_erc20_balance usdc_native wallet)
      + or_zero (read_erc20_balance usdc_bridged wallet)

  -- The loop of `_enumerate_accounts`, with some accounts left from a number on
  unfoldable pub accounts_from : Str → ℕ → ℕ → Result Str (List ℕ)
  accounts_from wallet i zero = ok []
  accounts_from wallet i (suc left) =
      let rest = accounts_from wallet (i + 1) left in
      do id ← reads.account_at wallet i; ids ← rest; ok (id ∷ ids)

  -- `_enumerate_accounts`
  unfoldable pub enumerate_accounts : Str → Result Str (List ℕ)
  enumerate_accounts wallet = do count ← reads.account_count wallet; accounts_from wallet 0 count

  -- A ratio that cannot be read is left out, and so is zero.
  unfoldable pub c_ratio_of : Result Str ℕ → Option Str
  c_ratio_of (err e) = none
  c_ratio_of (ok cr) = if ltb 0 cr then some (decimal cr) else none

  -- `_read_account_state`
  unfoldable pub read_account_state : ℕ → Str → ℕ → Result Str AccountState
  read_account_state account_id collateral_type pool_id = do
    (deposited, assigned, _) ← reads.account_collateral account_id collateral_type
    available ← reads.available_collateral account_id collateral_type
    debt ← reads.position_debt account_id pool_id collateral_type
    ok (record {
      account_id = decimal account_id;
      collateral_deposited = decimal deposited;
      collateral_assigned = decimal assigned;
      collateral_available = decimal available;
      debt = int_str debt;
      c_ratio = c_ratio_of (reads.position_c_ratio account_id pool_id collateral_type);
    })

  -- The accounts whose state can be read
  unfoldable pub readable_states : Str → List ℕ → List AccountState
  readable_states collateral_type [] = []
  readable_states collateral_type (id ∷ ids) =
      let rest = readable_states collateral_type ids in
      elim (read_account_state id collateral_type pool) [ ok state ↦ state ∷ rest | err e ↦ rest ]

  unfoldable pub account_states : Str → Str → List AccountState
  account_states wallet collateral_type = elim (enumerate_accounts wallet) [
    | ok ids ↦ readable_states collateral_type ids
    | err e ↦ []
  ]

  -- The name of a market where there is one, and else a made-up symbol
  unfoldable pub symbol_of : ℕ → Str
  symbol_of mid = elim (reads.synth_market_name mid) [
    | err e ↦ text "sAX-" ++ decimal mid
    | ok name ↦ if is_empty name then text "sAX-" ++ decimal mid else name
  ]

  unfoldable pub value_of : ℕ → ℕ → Option Str
  value_of mid balance = elim (reads.index_price mid) [
    | err e ↦ none
    | ok price ↦ some (decimal (balance * price / 10 ^ 18))
  ]

  -- One round of the loop over the markets, none for a balance of zero
  unfoldable pub read_position : Str → ℕ → Result Str (Option Position)
  read_position wallet mid = do
    address ← reads.synth_address mid
    synth_address ← reads.checksum address
    balance ← read_erc20_balance synth_address wallet
    (if balance == 0
        then ok none
        else ok (
            some (record {
              market_id = mid;
              symbol = symbol_of mid;
              synth_address = synth_address;
              balance = decimal balance;
              value_usd = value_of mid balance;
            })))

  -- The loop: a market that cannot be read is skipped.
  unfoldable pub readable_positions : Str → List ℕ → List Position
  readable_positions wallet [] = []
  readable_positions wallet (mid ∷ mids) =
      let rest = readable_positions wallet mids in
      elim (read_position wallet mid) [ err e ↦ rest | ok none ↦ rest | ok (some p) ↦ p ∷ rest ]

  -- `get_wallet_positions`
  unfoldable pub get_wallet_positions : Str → Result Raised PositionsResponse
  get_wallet_positions wallet = do
    wallet' ← validate_wallet reads.checksum wallet
    ok (record { wallet = wallet'; positions = readable_positions wallet' known_ids })

  -- The first `try` of the balance: the native balance, AX, axUSD, USDC and the gas price
  unfoldable pub read_balances : Str → Str → Str → Result Str (ℕ × ℕ × ℕ × ℕ × ℕ)
  read_balances ax_token usd_proxy wallet = do
    matic_raw ← reads.native_balance wallet
    ax_raw ← read_erc20_balance ax_token wallet
    axusd_raw ← read_erc20_balance usd_proxy wallet
    gas_price ← reads.gas_price
    ok (matic_raw, ax_raw, axusd_raw, safe_usdc_balance wallet, gas_price)

  module _ {F : Type 0} (money : Money F) where
    -- The sum over the accounts' collateral, at a price of one
    unfoldable pub collateral_value : F → List AccountState → F
    collateral_value total [] = total
    collateral_value total (a ∷ accounts) =
        collateral_value
          (money.add total (money.mul (money.wei_text a.collateral_deposited) money.one)) accounts

    unfoldable pub portfolio_value : ℕ → ℕ → ℕ → ℕ → List AccountState → F
    portfolio_value matic_raw ax_raw axusd_raw usdc_raw accounts =
        money.add
          (money.add
            (money.add
              (money.add (money.mul (money.scaled usdc_raw 6) money.one)
                (money.mul (money.scaled axusd_raw 18) money.one))
              (money.mul (money.scaled matic_raw 18) money.one))
            (money.mul (money.scaled ax_raw 18) money.one))
          (collateral_value money.nothing accounts)

    unfoldable pub return_pct : F → F → F
    return_pct unrealized net_inflow =
        if money.positive net_inflow
        then money.mul (money.div unrealized net_inflow) money.hundred
        else money.nothing

    -- `get_wallet_balance`, over the inflow that the subgraph knows of; a failure there counts as zero.
    unfoldable pub get_wallet_balance :
        Str → Str → (Str → Result Str F) → Str → Result Raised (BalanceResponse F)
    get_wallet_balance ax_token usd_proxy net_inflow_of wallet = do
      wallet' ← validate_wallet reads.checksum wallet
      (matic_raw, ax_raw, axusd_raw, usdc_raw, gas_price) ←
          map_err chain_error (read_balances ax_token usd_proxy wallet')
      let accounts = account_states wallet' ax_token
      let net_inflow = elim (net_inflow_of wallet') as (λ r. F) [ ok v ↦ v | err e ↦ money.nothing ]
      let unrealized =
          money.sub (portfolio_value matic_raw ax_raw axusd_raw usdc_raw accounts) net_inflow
      ok (record {
        wallet = wallet';
        ax = decimal ax_raw;
        axusd = decimal axusd_raw;
        usdc = decimal usdc_raw;
        matic = decimal matic_raw;
        gas_price_gwei = money.round4 (money.scaled gas_price 9);
        unrealized_return_usd = money.two_places unrealized;
        unrealized_return_pct = money.two_places (return_pct unrealized net_inflow);
        accounts = accounts;
      })
