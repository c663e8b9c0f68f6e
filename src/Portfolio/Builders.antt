-- ===== src/Portfolio/Builders.antt =====
-- The transaction builders of app/api/v1/portfolio.py, which check no more than that an amount is an
-- integer, against those of app/api/v1/orders.py.
use ax_server.Prelude.{Bool-cases, inl, inr, ◌≡◌, refl, sym, ◌∙◌}
use mathlib.Core.Path.{subst}
use ax_server.Prelude.Int.{ℤ, pos, parse_int}
use ax_server.Prelude.Text.{Str, text}
use ax_server.Prelude.Error.{
  exception, ok≢err, Result, ok, ◌>>=◌, or_raise, map_err-ok, ok-injective,
}
use ax_server.Chain.Synthetix.{
  Contracts, TxData, build_create_account_tx, build_deposit_tx, build_withdraw_tx,
  build_delegate_tx, build_undelegate_tx, build_mint_usd_tx, build_wrap_tx, default_leverage,
  core_tx,
}
use ax_server.Predict.Orders.{validate_address, is_address_text}
use ax_server.Orders.{Node, ApproveRequest, CollateralRequest, PoolRequest, UnsignedTransaction}
use ax_server.Orders.Account.{
  AccountRequest, depositing, withdrawing, delegating, minting, build_account, build_account-ok,
  spelled, core_call,
}

pub record WrapRequest : Type 0 where
  pub market_id : ℤ
  pub wrap_amount : Str
  pub wallet : Str

abbrev int_amount : Str → Result Str ℤ
int_amount s = or_raise (parse_int s) (text "invalid literal for int() with base 10")

module _ (contracts : Contracts) where
  -- `build_approve`, over the encoding of the call
  unfoldable pub build_approve :
      (Str → Str → ℤ → Result Str Str) → ApproveRequest → Result Str TxData
  build_approve encode_approve req = do
    spender_addr ← contracts.checksum req.spender
    token_addr ← contracts.checksum req.token_address
    amount_wei ← int_amount req.amount
    encoded ← encode_approve token_addr spender_addr amount_wei
    id ← contracts.chain_id
    ok (record { to = token_addr; calldata = encoded; value = text "0"; chain_id = id })

  -- `build_deposit`
  unfoldable pub build_deposit : CollateralRequest → Result Str TxData
  build_deposit req = do
    amount ← int_amount req.amount
    build_deposit_tx contracts req.account_id req.collateral_type amount

  -- `build_withdraw`
  unfoldable pub build_withdraw : CollateralRequest → Result Str TxData
  build_withdraw req = do
    amount ← int_amount req.amount
    build_withdraw_tx contracts req.account_id req.collateral_type amount

  -- `build_delegate`
  unfoldable pub build_delegate : PoolRequest → Result Str TxData
  build_delegate req = do
    amount ← int_amount req.amount
    build_delegate_tx contracts req.account_id req.pool_id req.collateral_type amount
        default_leverage

  -- `build_undelegate`
  unfoldable pub build_undelegate : PoolRequest → Result Str TxData
  build_undelegate req = do
    amount ← int_amount req.amount
    build_undelegate_tx contracts req.account_id req.pool_id req.collateral_type amount
        default_leverage

  -- `build_create_account`
  unfoldable pub build_create_account : Str → Result Str TxData
  build_create_account wallet = build_create_account_tx contracts

  -- `build_mint`
  unfoldable pub build_mint : PoolRequest → Result Str TxData
  build_mint req = do
    amount ← int_amount req.amount
    build_mint_usd_tx contracts req.account_id req.pool_id req.collateral_type amount

  -- `build_wrap`
  unfoldable pub build_wrap : WrapRequest → Result Str TxData
  build_wrap req = do
    amount ← int_amount req.wrap_amount
    build_wrap_tx contracts req.market_id amount (pos 0)

-- The four requests that both modules serve
pub data SharedRequest : Type 0 where
  deposits : CollateralRequest → SharedRequest
  withdraws : CollateralRequest → SharedRequest
  delegates : PoolRequest → SharedRequest
  mints : PoolRequest → SharedRequest

abbrev pub as_account : SharedRequest → AccountRequest
as_account (deposits b) = depositing b
as_account (withdraws b) = withdrawing b
as_account (delegates b) = delegating b
as_account (mints b) = minting b

unfoldable pub build_shared : Contracts → SharedRequest → Result Str TxData
build_shared contracts (deposits b) = build_deposit contracts b
build_shared contracts (withdraws b) = build_withdraw contracts b
build_shared contracts (delegates b) = build_delegate contracts b
build_shared contracts (mints b) = build_mint contracts b

build_shared-block :
    (contracts : Contracts) (request : SharedRequest)
    → build_shared contracts request ≡ (
        int_amount (spelled (as_account request)).amount >>= λ amount.
        contracts.checksum (spelled (as_account request)).collateral_type >>= λ ct.
        core_tx contracts (core_call (as_account request) ct amount))
unfolding build_shared spelled core_call build_deposit build_withdraw build_delegate build_mint
    build_deposit_tx build_withdraw_tx build_delegate_tx build_mint_usd_tx
build_shared-block contracts (deposits b) = refl
build_shared-block contracts (withdraws b) = refl
build_shared-block contracts (delegates b) = refl
build_shared-block contracts (mints b) = refl

validate_address-checksum :
    (checksum : Str → Result Str Str) (a field b : Str)
    → validate_address checksum a field ≡ ok b
    → checksum a ≡ ok b
unfolding validate_address
validate_address-checksum checksum a field b h = elim (Bool-cases (is_address_text a)) [
  | inl t ↦ map_err-ok exception (checksum a) b (rw (t, validate_address) at h)
  | inr t ↦ absurd (ok≢err (sym (rw (t, validate_address) at h)))
]

-- Where a checksummed address is its own checksum, a request that the order builders answer is built
-- here too, as the same call of the same contract on the same chain.
pub build_shared-build_account :
    (node : Node) (request : SharedRequest) (answer : UnsignedTransaction)
    → ((a b : Str) → node.contracts.checksum a ≡ ok b → node.contracts.checksum b ≡ ok b)
    → build_account node (as_account request) ≡ ok answer
    → build_shared node.contracts request
      ≡ ok (record {
        to = answer.to;
        calldata = answer.calldata;
        value = answer.value;
        chain_id = answer.chain_id;
      })
unfolding core_tx
build_shared-build_account node request answer idempotent h =
    let a = build_account-ok node (as_account request) answer h in
    let checksum = node.contracts.checksum in
    let own : checksum (spelled (as_account request)).collateral_type ≡ ok a.collateral =
      validate_address-checksum checksum _ _ a.collateral a.collateral_is in
    let same : a.collateral_type ≡ a.collateral =
      ok-injective (sym a.type_is ∙ idempotent _ a.collateral own) in
    let encoded : node.contracts.encode_core
          (core_call (as_account request) a.collateral (pos a.amount))
        ≡ ok answer.calldata =
      subst
        (λ ct.
          node.contracts.encode_core (core_call (as_account request) ct (pos a.amount))
          ≡ ok answer.calldata)
        same a.encoded in
    build_shared-block node.contracts request
    ∙ rw (a.amount_is, own, core_tx, encoded, a.chain_is, a.target_is, a.sends_nothing) refl
