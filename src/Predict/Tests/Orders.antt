-- ===== src/Predict/Tests/Orders.antt =====
-- The order builders at concrete inputs.
use ax_server.Prelude.{ℕ, ◌≡◌, ◌*◌, refl, some, none, [], ◌∷◌}
use ax_server.Prelude.Text.Search.{is_hex, int_of, decimal}
use ax_server.Prelude.Int.{
  minus_int, minus, times, floor_div, signed, plain, magnitude, pos, parse_int,
}
use ax_server.Prelude.Text.{
  starts_with, is_digit, strip, upper_code, Str, text, str_dec, lower_code,
}
use ax_server.Prelude.Error.{ok, err}
use ax_server.Predict.Registry.{RegisteredMarket, markets_object}
use ax_server.Predict.Orders.{
  is_address_text, validate_amount, validate_outcome, load_registry, index_file, by_address,
  resolve_token, swap_deadline, Tx, UnsignedTxPayload, validate_address, lookup_market,
  apply_slippage, build_tx_payload,
}
use ax_server.Predict.Orders.Builders.{
  with_market, swap_checks, swap_addresses, swap_transactions, approve_if_needed, Chain, Settings,
  SwapRequest, BuildTxResponse, build_predict_buy, build_predict_sell,
}
use ax_server.Predict.Orders.Checks.{SwapChecked, Addresses}
use ax_server.Predict.Orders.Plans.{SwapPlan, build_predict_buy-ok}
use ax_server.Predict.Tests.{blank}

abbrev address : Str
address = text "0xAbCdEf0123456789aBcDeF0123456789abcdef01"

abbrev tx : Tx
tx = record { to = address; calldata = []; value = 0; gas = none }

abbrev chain : Chain
chain = record {
  checksum = λ a. ok a;
  estimate_gas = λ wallet t. err [];
  allowance = λ token owner spender. ok 5;
  approve = λ wallet token spender amount. ok tx;
  get_amounts_out = λ router amount path. ok (amount, 2 * amount);
  swap = λ router amount least path wallet deadline. ok tx;
  create = λ wallet market amount. ok tx;
  redeem = λ wallet market amount. ok tx;
}

abbrev settings : Settings
settings = record { apt_router = address; usd_proxy = address; default_chain_id = 137 }

abbrev market : RegisteredMarket
market = record blank {
  market_address = some address;
  yes_token = some address;
  no_token = some address;
}

abbrev order : SwapRequest
order = record {
  market_id = address;
  outcome = text "Yes";
  amount = text "1000";
  wallet = address;
  slippage_bps = pos 100;
}

abbrev payload : Str → UnsignedTxPayload
payload description = record {
  to = address;
  calldata = [];
  value = text "0";
  gas_estimate = none;
  description = description;
}

address_valid : (field : Str) → validate_address chain.checksum address field ≡ ok address
unfolding validate_address text is_address_text starts_with is_hex is_digit
address_valid field = refl

abbrev answer : BuildTxResponse
answer = record {
  transactions = payload (text "Approve axUSD for router") ∷ payload (text "Buy YES tokens") ∷ [];
  chain_id = 137;
}

bought :
    (build_predict_buy chain settings none (markets_object (market ∷ [])) order 0).1 ≡ ok answer
unfolding build_predict_buy with_market swap_checks validate_address validate_amount
    validate_outcome lookup_market load_registry index_file by_address swap_addresses resolve_token
    swap_transactions approve_if_needed apply_slippage build_tx_payload decimal parse_int text strip
    is_address_text starts_with is_hex is_digit str_dec lower_code upper_code int_of minus_int minus
    times floor_div swap_deadline signed plain magnitude
bought = refl

sold :
    (build_predict_sell chain settings none (markets_object (market ∷ [])) order 0).1
    ≡ ok (record answer {
      transactions =
          payload (text "Approve YES token for router") ∷ payload (text "Sell YES tokens") ∷ [];
    })
unfolding build_predict_sell with_market swap_checks validate_address validate_amount
    validate_outcome lookup_market load_registry index_file by_address swap_addresses resolve_token
    swap_transactions approve_if_needed apply_slippage build_tx_payload decimal parse_int text strip
    is_address_text starts_with is_hex is_digit str_dec lower_code upper_code int_of minus_int minus
    times floor_div swap_deadline signed plain magnitude
sold = refl

build_predict_buy-ok_example :
    (c : Str × ℕ × Str) × (m : RegisteredMarket) × (a : Str × Str × Str) × SwapChecked chain order
      c.0 c.1 c.2
    × ((lookup_market chain.checksum none (markets_object (market ∷ [])) address).1 ≡ ok m)
    × Addresses chain settings m c.2 a.0 a.1 a.2
    × SwapPlan chain c.0 c.1 a.0 a.1 a.2 (pos 100) 0 answer.transactions
    × (answer.chain_id ≡ settings.default_chain_id)
build_predict_buy-ok_example =
    build_predict_buy-ok chain settings none (markets_object (market ∷ [])) order 0 answer bought

abbrev spelling : Str
spelling = text "0xabcdef0123456789abcdef0123456789abcdef01"

abbrev spelled : RegisteredMarket
spelled = record blank { market_address = some spelling }
