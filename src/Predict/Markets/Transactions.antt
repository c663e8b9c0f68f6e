-- ===== src/Predict/Markets/Transactions.antt =====
-- The two transactions of app/api/v1/predict.py: `build_predict_approve` and `build_predict_create`.
-- The chain is a parameter, or absent.
use ax_server.Prelude.{ℕ, Option, none, some, ◌++◌}
use ax_server.Prelude.Int.{ℤ, parse_int}
use ax_server.Prelude.Text.{Str, text}
use ax_server.Prelude.Error.{Result, ok, err, ◌>>=◌, or_raise, map_err}
use ax_server.Predict.Admin.{UnsignedTx}

-- `class PredictApproveRequest`, and `class PredictCreateRequest`, which has no address
pub record PredictApproveRequest : Type 0 where
  pub wallet : Str
  pub market_address : Str
  pub amount : Str

pub record PredictCreateRequest : Type 0 where
  pub wallet : Str
  pub market_id : ℤ
  pub long_amount : Str
  pub short_amount : Str

-- The contract at an address with a function of one call, `encodeABI`, and `w3.eth.chain_id`
pub record Web3Chain : Type 0 where
  pub checksum : Str → Result Str Str
  pub encode_approve : Str → Str → ℤ → Result Str Str
  pub encode_create : Str → ℤ → Result Str Str
  pub chain_id : Result Str ℕ

-- `HTTPException`, or an exception that nothing catches
pub data Failure : Type 0 where
  http_exception : ℕ → Str → Failure
  uncaught : Str → Failure

abbrev pub axusd : Str
axusd = text "0x1Ea27b8fa8D9Fb4370Dd654ffFad4734D0960fA6"

abbrev unavailable : Failure
unavailable = http_exception 500 (text "Chain provider unavailable")

abbrev int_of_amount : Str → Result Str ℤ
int_of_amount s = or_raise (parse_int s) (text "invalid literal for int() with base 10")

-- The statements after the check of the chain
unfoldable pub approve_tx : Web3Chain → PredictApproveRequest → Result Str UnsignedTx
approve_tx chain req = do
  contract ← chain.checksum axusd
  amount_wei ← int_of_amount req.amount
  spender ← chain.checksum req.market_address
  encoded ← chain.encode_approve contract spender amount_wei
  id ← chain.chain_id
  ok (record { to = axusd; data_field = encoded; value = text "0"; chain_id = id })

-- `build_predict_approve`
unfoldable pub build_predict_approve :
    Option Web3Chain → PredictApproveRequest → Result Failure UnsignedTx
build_predict_approve none req = err unavailable
build_predict_approve (some chain) req = map_err uncaught (approve_tx chain req)

-- `req.market_address` and `req.amount`, which the model does not declare
unfoldable pub undeclared : Str → PredictCreateRequest → Result Str Str
undeclared field req =
    err (text "'PredictCreateRequest' object has no attribute '" ++ field ++ text "'")

unfoldable pub create_tx : Web3Chain → PredictCreateRequest → Result Str UnsignedTx
create_tx chain req = do
  market_address ← undeclared (text "market_address") req
  contract ← chain.checksum market_address
  amount ← undeclared (text "amount") req
  amount_wei ← int_of_amount amount
  encoded ← chain.encode_create contract amount_wei
  id ← chain.chain_id
  ok (record { to = market_address; data_field = encoded; value = text "0"; chain_id = id })

-- `build_predict_create`
unfoldable pub build_predict_create :
    Option Web3Chain → PredictCreateRequest → Result Failure UnsignedTx
build_predict_create none req = err unavailable
build_predict_create (some chain) req = map_err uncaught (create_tx chain req)
