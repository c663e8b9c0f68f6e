-- ===== src/Orders/Tests.antt =====
-- The order builders for spot markets and collateral at concrete inputs.
use ax_server.Prelude.{ℕ, ◌≡◌, ◌≢◌, ap, ◌∙◌, refl, some, none, [], ◌∷◌}
use ax_server.Prelude.Int.{parse_int, signed, magnitude, plain, pos}
use ax_server.Prelude.Text.{Str, text, is_digit, starts_with, strip, is_space, str_dec}
use ax_server.Prelude.Text.Search.{is_hex, decimal, int_of}
use ax_server.Predict.Orders.{is_address_text, validate_address, validate_amount, invalid_amount}
use ax_server.Prelude.Error.{ok, err, err-injective, some-injective}
use ax_server.Chain.Synthetix.{Contracts, TxData, build_buy_tx, spot_tx, build_mint_usd_tx, core_tx}
use ax_server.Chain.Eip7412.{
  text_datum, other_datum, to_hex, ChainError, Oracle, no_payload, text_payload,
  try_resolve_eip7412, extract_revert_data, resolve_revert, multicall_of, fulfill_call,
  original_call, int_value, from_hex, strip_0x, int_str, plus_int,
}
use ax_server.Chain.Eip7412.Calls.{CallsBoth, try_resolve_eip7412-some}
use ax_server.Orders.{
  answer_resolved, Node, SpotRequest, PoolRequest, UnsignedTransaction, GasQuery,
  build_buy_transaction, spot_checks, validate_address, least_received, build_sell_transaction,
  Result, build_mint_usd_transaction, collateral_checks, collateral_answer, estimate_or_resolve,
  estimate_resolved, estimate_or_none, answer_of,
}
use ax_server.Orders.Failures.{IsReadable, build_spot-err}
use ax_server.Orders.Spot.{buying, selling, build_spot, SpotAnswer, build_spot-ok}
use ax_server.Orders.Account.{minting, build_account}

abbrev address : Str
address = text "0xAbCdEf0123456789aBcDeF0123456789abcdef01"

abbrev contracts : Contracts
contracts = record {
  core_proxy = text "0xcore";
  spot_market_proxy = text "0xspot";
  checksum = λ a. ok a;
  encode_core = λ call. ok (text "0x01");
  encode_spot = λ call. ok (text "0xab");
  chain_id = ok 137;
}

abbrev oracle : Oracle
oracle = record {
  decode_revert = λ bytes. ok (address, []);
  decode_query = λ bytes. ok (1, []);
  decode_feed = λ bytes. ok (7 ∷ [], 60);
  latest_update = λ url. ok (text "beef");
  encode_fulfill = λ target update. ok (text "0x02");
  encode_aggregate = λ calls. ok (text "0x03");
}

abbrev needs_oracle : ChainError
needs_oracle = record {
  attached = text_payload (text "0xc2a825f5");
  first_arg = no_payload;
  shown = [];
}

abbrev node : Node
node = record {
  contracts = contracts;
  oracle = oracle;
  estimate_gas = λ query. err needs_oracle;
  build_approve = λ token spender amount wallet. err [];
}

abbrev own : TxData
own = record { to = text "0xspot"; calldata = text "0xab"; value = text "0"; chain_id = 137 }

abbrev resolved : TxData
resolved = record {
  to = text "0xcA11bde05977b3631167028862bE2a173976CA11";
  calldata = text "0x03";
  value = text "1";
  chain_id = 137;
}

resolves : try_resolve_eip7412 oracle needs_oracle own ≡ ok (some resolved)
unfolding try_resolve_eip7412 extract_revert_data resolve_revert multicall_of fulfill_call
    original_call int_value from_hex is_hex is_digit strip_0x starts_with int_str plus_int parse_int
    signed magnitude plain strip is_space decimal int_of text to_hex
resolves = refl

try_resolve_eip7412-some_example : CallsBoth oracle needs_oracle own resolved
try_resolve_eip7412-some_example =
    try_resolve_eip7412-some oracle needs_oracle own resolved resolves

abbrev order : SpotRequest
order = record { market_id = pos 3; amount = text "25"; min_received = text "0"; wallet = address }

abbrev answer : UnsignedTransaction
answer = record {
  to = text "0xcA11bde05977b3631167028862bE2a173976CA11";
  calldata = text "0x03";
  value = text "1";
  gas_estimate = none;
  chain_id = 137;
}

bought : build_spot buying node order ≡ ok answer
unfolding build_spot build_buy_transaction spot_checks validate_address is_address_text
    validate_amount least_received build_buy_tx spot_tx estimate_or_resolve estimate_resolved
    estimate_or_none answer_of answer_resolved try_resolve_eip7412 extract_revert_data
    resolve_revert multicall_of fulfill_call original_call int_value from_hex is_hex is_digit
    strip_0x starts_with int_str plus_int parse_int signed magnitude plain strip is_space decimal
    int_of text to_hex str_dec
bought = refl

build_spot-ok_example : SpotAnswer buying node order answer
build_spot-ok_example = build_spot-ok buying node order answer bought

-- An order without an amount fails in the same way whatever the node answers.
abbrev no_amount : SpotRequest
no_amount = record order { amount = text "0" }

refused : build_spot selling node no_amount ≡ err (invalid_amount (text "0") (text "synth_amount"))
unfolding build_spot build_sell_transaction spot_checks validate_address is_address_text
    validate_amount starts_with parse_int signed magnitude plain strip is_space int_of text is_hex
    is_digit
refused = refl

abbrev estimates : GasQuery → Result ChainError ℕ
estimates query = ok 21000

text_datum≢other_datum : (s x : Str) → text_datum s ≢ other_datum x
text_datum≢other_datum s x h = cc h

estimates-IsReadable :
    (query : GasQuery) (x : ChainError) → node.estimate_gas query ≡ err x → IsReadable x
unfolding extract_revert_data text
estimates-IsReadable query x h y q =
    text_datum≢other_datum _ y (some-injective (ap extract_revert_data (err-injective h) ∙ q))

build_spot-err_example :
    build_spot selling (record node { oracle = oracle; estimate_gas = estimates }) no_amount
    ≡ err (invalid_amount (text "0") (text "synth_amount"))
build_spot-err_example =
    build_spot-err selling node no_amount oracle estimates
      (invalid_amount (text "0") (text "synth_amount")) estimates-IsReadable refused

abbrev mint : PoolRequest
mint = record {
  account_id = pos 9;
  pool_id = pos 1;
  collateral_type = address;
  amount = text "40";
  wallet = address;
}

abbrev minted_answer : UnsignedTransaction
minted_answer = record {
  to = text "0xcore";
  calldata = text "0x01";
  value = text "0";
  gas_estimate = none;
  chain_id = 137;
}

minted : build_account node (minting mint) ≡ ok minted_answer
unfolding build_account build_mint_usd_transaction collateral_checks collateral_answer
    build_mint_usd_tx core_tx validate_address is_address_text validate_amount estimate_or_none
    answer_of starts_with parse_int signed magnitude plain strip is_space int_of text is_hex
    is_digit
minted = refl
