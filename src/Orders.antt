-- ===== src/Orders.antt =====
-- The order builders for spot markets and collateral: app/api/v1/orders.py. `_validate_address` and
-- `_validate_amount` have the text of their namesakes in app/api/v1/predict_orders.py. The node and
-- the contracts are a parameter.
pub mod Spot
mod Failures
pub mod Account
mod Tests
use ax_server.Prelude.{ℕ, zero, Option, none, some, ◌++◌, if◌then◌else◌}
use ax_server.Prelude.Int.{ℤ, pos, negsuc, parse_int}
use ax_server.Prelude.Text.{Str, text, str_eq}
use ax_server.Prelude.Text.Search.{decimal}
use ax_server.Prelude.Error.{
  Result, ok, err, Raised, api, exception, ◌>>=◌, ◌>>◌, raise_if, or_raise, map_err,
}
use ax_server.Chain.Synthetix.{
  Contracts, TxData, build_buy_tx, build_sell_tx, build_deposit_tx, build_withdraw_tx,
  build_delegate_tx, build_mint_usd_tx, build_burn_usd_tx, default_leverage,
}
use ax_server.Chain.Eip7412.{ChainError, Oracle, try_resolve_eip7412, int_str}
use ax_server.Predict.Orders.{validate_address, validate_amount}

-- `class BuildBuyRequest` and `class BuildSellRequest`, whose amounts have two names
pub record SpotRequest : Type 0 where
  pub market_id : ℤ
  pub amount : Str
  pub min_received : Str
  pub wallet : Str

-- `class BuildApproveRequest`
pub record ApproveRequest : Type 0 where
  pub token_address : Str
  pub spender : Str
  pub amount : Str
  pub wallet : Str

-- `class BuildDepositRequest` and `class BuildWithdrawRequest`
pub record CollateralRequest : Type 0 where
  pub account_id : ℤ
  pub collateral_type : Str
  pub amount : Str
  pub wallet : Str

-- `class BuildDelegateRequest`, `class BuildMintUsdRequest` and `class BuildBurnUsdRequest`
pub record PoolRequest : Type 0 where
  pub account_id : ℤ
  pub pool_id : ℤ
  pub collateral_type : Str
  pub amount : Str
  pub wallet : Str

pub record UnsignedTransaction : Type 0 where
  pub to : Str
  pub calldata : Str
  pub value : Str
  pub gas_estimate : Option ℕ
  pub chain_id : ℕ

-- The arguments of `estimate_gas`
pub record GasQuery : Type 0 where
  pub sender : Str
  pub to : Str
  pub calldata : Str
  pub value : ℤ

-- The transaction that web3 builds for an approval; of its keys the handler reads four.
pub record BuiltTx : Type 0 where
  pub to : Str
  pub calldata : Str
  pub value : Option ℕ
  pub gas : Option ℕ

-- The client of the contracts, the oracle, the node, and `approve(...).build_transaction`
pub record Node : Type 0 where
  pub contracts : Contracts
  pub oracle : Oracle
  pub estimate_gas : GasQuery → Result ChainError ℕ
  pub build_approve : Str → Str → ℕ → Str → Result Str BuiltTx

-- The `except Exception` clauses
unfoldable pub revert_error : Str → Str → Raised
revert_error message e = api (record {
  code = text "CONTRACT_REVERT";
  message = message;
  status_code = 400;
  details = some e;
})

-- `int(body.min_received) if body.min_received != "0" else 0`, which is outside every `try`
unfoldable pub least_received : Str → Result Raised ℤ
least_received s =
    if str_eq s (text "0")
    then ok (pos 0)
    else or_raise (parse_int s) (exception (text "invalid literal for int() with base 10"))

unfoldable pub estimate_or_none : Result ChainError ℕ → Option ℕ
estimate_or_none (ok gas) = some gas
estimate_or_none (err e) = none

abbrev pub gas_query : Str → TxData → ℤ → GasQuery
gas_query wallet tx value = record {
  sender = wallet;
  to = tx.to;
  calldata = tx.calldata;
  value = value;
}

unfoldable pub answer_of : TxData → Str → Option ℕ → UnsignedTransaction
answer_of tx value gas = record {
  to = tx.to;
  calldata = tx.calldata;
  value = value;
  gas_estimate = gas;
  chain_id = tx.chain_id;
}

module _ (node : Node) where
  -- The second estimate, whose value is read from the text in the same `try`
  unfoldable pub estimate_resolved : Str → TxData → Option ℕ
  estimate_resolved wallet tx = elim (parse_int tx.value) [
    | none ↦ none
    | some value ↦ estimate_or_none (node.estimate_gas (gas_query wallet tx value))
  ]

  -- What follows where the estimate of buy or sell failed: the transaction that is resolved, or the
  -- one that was built
  unfoldable pub answer_resolved :
      Str → TxData → Result Str (Option TxData) → Result Str UnsignedTransaction
  answer_resolved wallet tx (ok (some resolved)) =
      ok (answer_of resolved resolved.value (estimate_resolved wallet resolved))
  answer_resolved wallet tx (ok none) = ok (answer_of tx tx.value none)
  answer_resolved wallet tx (err x) = err x

  -- The inner `try` of buy and sell: an estimate that fails is tried again with the oracle's data, and
  -- the transaction is then the one with that data. An exception of `try_resolve_eip7412` is raised in
  -- the `except` clause, and the outer `try` catches it.
  unfoldable pub estimate_or_resolve : Str → TxData → Result Str UnsignedTransaction
  estimate_or_resolve wallet tx = elim (node.estimate_gas (gas_query wallet tx (pos 0))) [
    | ok gas ↦ ok (answer_of tx tx.value (some gas))
    | err e ↦ answer_resolved wallet tx (try_resolve_eip7412 node.oracle e tx)
  ]

  -- The checks of buy and sell
  unfoldable pub spot_checks : SpotRequest → Str → Result Raised (Str × ℕ × ℤ)
  spot_checks body amount_field = do
    wallet ← validate_address node.contracts.checksum body.wallet (text "wallet")
    amount ← validate_amount body.amount amount_field
    min_received ← least_received body.min_received
    ok (wallet, amount, min_received)

  -- `build_buy_transaction`
  unfoldable pub build_buy_transaction : SpotRequest → Result Raised UnsignedTransaction
  build_buy_transaction body = do
    (wallet, usd_amount, min_received) ← spot_checks body (text "usd_amount")
    map_err
        (revert_error
          (text "Failed to build buy transaction for market " ++ int_str body.market_id))
        (do
          tx ← build_buy_tx node.contracts body.market_id (pos usd_amount) min_received wallet
          estimate_or_resolve wallet tx)

  -- `build_sell_transaction`
  unfoldable pub build_sell_transaction : SpotRequest → Result Raised UnsignedTransaction
  build_sell_transaction body = do
    (wallet, synth_amount, min_received) ← spot_checks body (text "synth_amount")
    map_err
        (revert_error
          (text "Failed to build sell transaction for market " ++ int_str body.market_id))
        (do
          tx ← build_sell_tx node.contracts body.market_id (pos synth_amount) min_received wallet
          estimate_or_resolve wallet tx)

  -- `build_approve_transaction`: where the estimate fails the transaction's own gas stays.
  unfoldable pub build_approve_transaction : ℕ → ApproveRequest → Result Raised UnsignedTransaction
  build_approve_transaction default_chain_id body = do
    wallet ← validate_address node.contracts.checksum body.wallet (text "wallet")
    token ← validate_address node.contracts.checksum body.token_address (text "token_address")
    spender ← validate_address node.contracts.checksum body.spender (text "spender")
    amount ← validate_amount body.amount (text "amount")
    tx ←
        map_err (revert_error (text "Failed to build approve transaction"))
          (node.build_approve token spender amount wallet)
    ok (record {
      to = tx.to;
      calldata = tx.calldata;
      value = elim tx.value [ none ↦ text "0" | some v ↦ decimal v ];
      gas_estimate =
          elim (node.estimate_gas
            (record { sender = wallet; to = tx.to; calldata = tx.calldata; value = pos 0 })) [
              | ok gas ↦ some gas
              | err e ↦ tx.gas
            ];
      chain_id = default_chain_id;
    })

  -- The checks of the collateral handlers, and their `try`
  unfoldable pub collateral_checks : Str → Str → Str → Result Raised (Str × Str × ℕ)
  collateral_checks wallet collateral_type amount = do
    wallet' ← validate_address node.contracts.checksum wallet (text "wallet")
    collateral ← validate_address node.contracts.checksum collateral_type (text "collateral_type")
    amount' ← validate_amount amount (text "amount")
    ok (wallet', collateral, amount')

  unfoldable pub collateral_answer :
      Str → Str → Result Str TxData → Result Raised UnsignedTransaction
  collateral_answer wallet message built = do
    tx ← map_err (revert_error message) built
    ok (
        answer_of tx (text "0")
          (estimate_or_none (node.estimate_gas (gas_query wallet tx (pos 0)))))

  -- `build_deposit_transaction`
  unfoldable pub build_deposit_transaction : CollateralRequest → Result Raised UnsignedTransaction
  build_deposit_transaction body = do
    (wallet, collateral, amount) ← collateral_checks body.wallet body.collateral_type body.amount
    collateral_answer wallet (text "Failed to build deposit transaction")
        (build_deposit_tx node.contracts body.account_id collateral (pos amount))

  -- `build_withdraw_transaction`
  unfoldable pub build_withdraw_transaction : CollateralRequest → Result Raised UnsignedTransaction
  build_withdraw_transaction body = do
    (wallet, collateral, amount) ← collateral_checks body.wallet body.collateral_type body.amount
    collateral_answer wallet (text "Failed to build withdraw transaction")
        (build_withdraw_tx node.contracts body.account_id collateral (pos amount))

  -- `build_delegate_transaction`
  unfoldable pub build_delegate_transaction : PoolRequest → Result Raised UnsignedTransaction
  build_delegate_transaction body = do
    (wallet, collateral, amount) ← collateral_checks body.wallet body.collateral_type body.amount
    collateral_answer wallet (text "Failed to build delegate transaction") (
        build_delegate_tx node.contracts body.account_id body.pool_id collateral (pos amount)
          default_leverage)

  -- `build_mint_usd_transaction`
  unfoldable pub build_mint_usd_transaction : PoolRequest → Result Raised UnsignedTransaction
  build_mint_usd_transaction body = do
    (wallet, collateral, amount) ← collateral_checks body.wallet body.collateral_type body.amount
    collateral_answer wallet (text "Failed to build mint-usd transaction")
        (build_mint_usd_tx node.contracts body.account_id body.pool_id collateral (pos amount))

  -- `build_burn_usd_transaction`
  unfoldable pub build_burn_usd_transaction : PoolRequest → Result Raised UnsignedTransaction
  build_burn_usd_transaction body = do
    (wallet, collateral, amount) ← collateral_checks body.wallet body.collateral_type body.amount
    collateral_answer wallet (text "Failed to build burn-usd transaction")
        (build_burn_usd_tx node.contracts body.account_id body.pool_id collateral (pos amount))
