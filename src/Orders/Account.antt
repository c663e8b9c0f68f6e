-- ===== src/Orders/Account.antt =====
-- What the answers to the five collateral requests of app/api/v1/orders.py hold.
use ax_server.Prelude.{ℕ, ◌≡◌, refl, sym, ◌∙◌, ◌≤◌}
use ax_server.Prelude.Text.{Str, text}
use ax_server.Prelude.Error.{Result, Raised, ◌>>=◌, >>=-ok, ok-injective, map_err-ok}
use ax_server.Chain.Synthetix.{
  CoreCall, deposit, withdraw, delegate_collateral, mint_usd, burn_usd, core_tx, default_leverage,
  build_deposit_tx, build_withdraw_tx, build_delegate_tx, build_mint_usd_tx, build_burn_usd_tx,
  Contracts, TxData,
}
use ax_server.Predict.Orders.Checks.{validate_amount-ok}
use ax_server.Orders.{
  Node, CollateralRequest, PoolRequest, UnsignedTransaction, collateral_checks, collateral_answer,
  build_deposit_transaction, build_withdraw_transaction, build_delegate_transaction,
  build_mint_usd_transaction, build_burn_usd_transaction, validate_address, ok, answer_of,
  parse_int, some, validate_amount, pos, map_err, revert_error, ℤ,
}
use mathlib.Core.Path.{subst}

-- The five endpoints
pub data AccountRequest : Type 0 where
  depositing : CollateralRequest → AccountRequest
  withdrawing : CollateralRequest → AccountRequest
  delegating : PoolRequest → AccountRequest
  minting : PoolRequest → AccountRequest
  burning : PoolRequest → AccountRequest

unfoldable pub build_account : Node → AccountRequest → Result Raised UnsignedTransaction
build_account node (depositing body) = build_deposit_transaction node body
build_account node (withdrawing body) = build_withdraw_transaction node body
build_account node (delegating body) = build_delegate_transaction node body
build_account node (minting body) = build_mint_usd_transaction node body
build_account node (burning body) = build_burn_usd_transaction node body

-- The wallet, the collateral and the amount as the request spells them
pub record Spelled : Type 0 where
  pub wallet : Str
  pub collateral_type : Str
  pub amount : Str

unfoldable pub spelled : AccountRequest → Spelled
spelled (depositing b) = record {
  wallet = b.wallet;
  collateral_type = b.collateral_type;
  amount = b.amount;
}
spelled (withdrawing b) = record {
  wallet = b.wallet;
  collateral_type = b.collateral_type;
  amount = b.amount;
}
spelled (delegating b) = record {
  wallet = b.wallet;
  collateral_type = b.collateral_type;
  amount = b.amount;
}
spelled (minting b) = record {
  wallet = b.wallet;
  collateral_type = b.collateral_type;
  amount = b.amount;
}
spelled (burning b) = record {
  wallet = b.wallet;
  collateral_type = b.collateral_type;
  amount = b.amount;
}

-- The call of the core proxy that a request asks for; a delegation has the leverage 1.
unfoldable pub core_call : AccountRequest → Str → ℤ → CoreCall
core_call (depositing b) ct amount = deposit b.account_id ct amount
core_call (withdrawing b) ct amount = withdraw b.account_id ct amount
core_call (delegating b) ct amount =
    delegate_collateral b.account_id b.pool_id ct amount default_leverage
core_call (minting b) ct amount = mint_usd b.account_id b.pool_id ct amount
core_call (burning b) ct amount = burn_usd b.account_id b.pool_id ct amount

message_of : AccountRequest → Str
message_of (depositing b) = text "Failed to build deposit transaction"
message_of (withdrawing b) = text "Failed to build withdraw transaction"
message_of (delegating b) = text "Failed to build delegate transaction"
message_of (minting b) = text "Failed to build mint-usd transaction"
message_of (burning b) = text "Failed to build burn-usd transaction"

-- All five are one block for their request.
build_account-block :
    (node : Node) (request : AccountRequest)
    → build_account node request ≡ (
        collateral_checks node
          (spelled request).wallet
          (spelled request).collateral_type
          (spelled request).amount
        >>= λ c. collateral_answer node (c.0) (message_of request) (
            node.contracts.checksum (c.1) >>= λ ct.
            core_tx node.contracts (core_call request ct (pos (c.2)))))
unfolding build_account spelled core_call message_of build_deposit_transaction
    build_withdraw_transaction build_delegate_transaction build_mint_usd_transaction
    build_burn_usd_transaction build_deposit_tx build_withdraw_tx build_delegate_tx
    build_mint_usd_tx build_burn_usd_tx
build_account-block node (depositing b) = refl
build_account-block node (withdrawing b) = refl
build_account-block node (delegating b) = refl
build_account-block node (minting b) = refl
build_account-block node (burning b) = refl

-- An answer to a collateral request
pub record AccountAnswer (node : Node) (request : AccountRequest) (answer : UnsignedTransaction)
    : Type 0 where
  pub wallet : Str
  pub collateral : Str
  pub collateral_type : Str
  pub amount : ℕ
  pub wallet_is :
      validate_address node.contracts.checksum (spelled request).wallet (text "wallet") ≡ ok wallet
  pub collateral_is :
      validate_address node.contracts.checksum
        (spelled request).collateral_type
        (text "collateral_type")
      ≡ ok collateral
  pub type_is : node.contracts.checksum collateral ≡ ok collateral_type
  pub amount_is : parse_int (spelled request).amount ≡ some (pos amount)
  pub positive : 1 ≤ amount
  pub target_is : answer.to ≡ node.contracts.core_proxy
  pub encoded :
      node.contracts.encode_core (core_call request collateral_type (pos amount))
      ≡ ok answer.calldata
  pub sends_nothing : answer.value ≡ text "0"
  pub chain_is : node.contracts.chain_id ≡ ok answer.chain_id

-- A transaction of the core proxy with the calldata of a call
record IsCoreTx (contracts : Contracts) (call : CoreCall) (tx : TxData) : Type 0 where
  target_is : tx.to ≡ contracts.core_proxy
  encoded : contracts.encode_core call ≡ ok tx.calldata
  chain_is : contracts.chain_id ≡ ok tx.chain_id

core_tx-ok :
    (contracts : Contracts) (call : CoreCall) (tx : TxData)
    → core_tx contracts call ≡ ok tx
    → IsCoreTx contracts call tx
unfolding core_tx
core_tx-ok contracts call tx h =
    let (encoded, e1, h1) = >>=-ok (contracts.encode_core call) _ tx h in
    let (id, e2, h2) = >>=-ok contracts.chain_id _ tx h1 in
    subst (IsCoreTx contracts call) (ok-injective h2)
      (record { target_is = refl; encoded = e1; chain_is = e2 })

record Checked (node : Node) (wallet collateral_type amount : Str) (c : Str × Str × ℕ)
    : Type 0 where
  wallet_is : validate_address node.contracts.checksum wallet (text "wallet") ≡ ok (c.0)
  collateral_is :
      validate_address node.contracts.checksum collateral_type (text "collateral_type") ≡ ok (c.1)
  amount_is : parse_int amount ≡ some (pos (c.2))
  positive : 1 ≤ c.2

collateral_checks-ok :
    (node : Node) (wallet collateral_type amount : Str) (c : Str × Str × ℕ)
    → collateral_checks node wallet collateral_type amount ≡ ok c
    → Checked node wallet collateral_type amount c
unfolding collateral_checks
collateral_checks-ok node wallet collateral_type amount c h =
    let (w, e1, h1) =
      >>=-ok (validate_address node.contracts.checksum wallet (text "wallet")) _ c h in
    let (ct, e2, h2) =
      >>=-ok (validate_address node.contracts.checksum collateral_type (text "collateral_type")) _ c
        h1 in
    let (n, e3, h3) = >>=-ok (validate_amount amount (text "amount")) _ c h2 in
    let parsed = validate_amount-ok amount (text "amount") n e3 in
    subst (Checked node wallet collateral_type amount) (ok-injective h3)
      (record { wallet_is = e1; collateral_is = e2; amount_is = parsed.0; positive = parsed.1 })

-- An answer to a deposit, withdrawal, delegation, mint or burn has a checked wallet, collateral and
-- amount, and the amount is above zero. Its calldata is the call of the core proxy that the request
-- asks for with just these, on the node's chain, and it sends no wei.
pub build_account-ok :
    (node : Node) (request : AccountRequest) (answer : UnsignedTransaction)
    → build_account node request ≡ ok answer
    → AccountAnswer node request answer
unfolding collateral_answer answer_of
build_account-ok node request answer h =
    let s = spelled request in
    let (c, e1, h1) =
      >>=-ok (collateral_checks node s.wallet s.collateral_type s.amount) _ answer
        (sym (build_account-block node request) ∙ h) in
    let (tx, e2, h2) = >>=-ok (map_err (revert_error (message_of request)) _) _ answer h1 in
    let (ct, e3, h3) = >>=-ok (node.contracts.checksum (c.1)) _ tx (map_err-ok _ _ tx e2) in
    let own = core_tx-ok node.contracts (core_call request ct (pos (c.2))) tx h3 in
    let checked = collateral_checks-ok node s.wallet s.collateral_type s.amount c e1 in
    subst (AccountAnswer node request) (ok-injective h2) (record {
      wallet = c.0;
      collateral = c.1;
      collateral_type = ct;
      amount = c.2;
      wallet_is = checked.wallet_is;
      collateral_is = checked.collateral_is;
      type_is = e3;
      amount_is = checked.amount_is;
      positive = checked.positive;
      target_is = own.target_is;
      encoded = own.encoded;
      sends_nothing = refl;
      chain_is = own.chain_is;
    })
