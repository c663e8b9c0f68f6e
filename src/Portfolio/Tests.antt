-- ===== src/Portfolio/Tests.antt =====
-- The portfolio endpoints at concrete inputs.
use ax_server.Prelude.{◌≡◌, refl, none, [], ◌*◌, ◌^◌, map, if◌then◌else◌, ◌==◌}
use ax_server.Prelude.Int.{pos, parse_int, signed, magnitude, plain}
use ax_server.Prelude.Text.{str_eq, Str, text, starts_with, is_digit, strip, is_space}
use ax_server.Prelude.Text.Search.{is_hex, decimal, int_of}
use ax_server.Prelude.Error.{ok, err}
use ax_server.Chain.Synthetix.{Contracts, build_deposit_tx, core_tx}
use ax_server.Chain.Eip7412.{no_payload, ChainError}
use ax_server.Predict.Orders.{is_address_text, validate_address, validate_amount}
use ax_server.Orders.{
  Node, CollateralRequest, UnsignedTransaction, build_deposit_transaction, collateral_checks,
  collateral_answer, estimate_or_none, answer_of,
}
use ax_server.Orders.Account.{build_account}
use ax_server.Portfolio.{Reads, PositionsResponse, validate_wallet, get_wallet_positions, known_ids}
use ax_server.Portfolio.Positions.{holdings, entry, get_wallet_positions-holdings}
use ax_server.Portfolio.Builders.{deposits, as_account, build_shared, build_shared-build_account}

abbrev wallet : Str
wallet = text "0xAbCdEf0123456789aBcDeF0123456789abcdef01"

-- Market 2 cannot be read, and only market 3 has a balance.
abbrev reads : Reads
reads = record {
  checksum = λ a. ok a;
  native_balance = λ w. ok 0;
  gas_price = ok 0;
  erc20_balance = λ token w. if str_eq token (text "3") then ok 7 else ok 0;
  account_count = λ w. ok 0;
  account_at = λ w i. err [];
  account_collateral = λ id ct. err [];
  available_collateral = λ id ct. err [];
  position_debt = λ id pool ct. err [];
  position_c_ratio = λ id pool ct. err [];
  synth_address = λ mid. if mid == 2 then err (text "revert") else ok (decimal mid);
  synth_market_name = λ mid. err [];
  index_price = λ mid. ok (2 * 10 ^ 18);
}

valid : validate_wallet reads.checksum wallet ≡ ok wallet
unfolding validate_wallet is_address_text starts_with is_hex is_digit text
valid = refl

get_wallet_positions-holdings_example :
    (r : PositionsResponse) × (get_wallet_positions reads wallet ≡ ok r)
    × (map (entry reads) r.positions ≡ holdings reads wallet known_ids)
get_wallet_positions-holdings_example = get_wallet_positions-holdings reads wallet wallet valid

abbrev contracts : Contracts
contracts = record {
  core_proxy = text "0xcore";
  spot_market_proxy = text "0xspot";
  checksum = λ a. ok a;
  encode_core = λ call. ok (text "0x01");
  encode_spot = λ call. ok (text "0xab");
  chain_id = ok 137;
}

abbrev failure : ChainError
failure = record { attached = no_payload; first_arg = no_payload; shown = [] }

abbrev node : Node
node = record {
  contracts = contracts;
  oracle = record {
    decode_revert = λ bytes. err [];
    decode_query = λ bytes. err [];
    decode_feed = λ bytes. err [];
    latest_update = λ url. err [];
    encode_fulfill = λ target update. err [];
    encode_aggregate = λ calls. err [];
  };
  estimate_gas = λ query. err failure;
  build_approve = λ token spender amount w. err [];
}

abbrev request : CollateralRequest
request = record {
  account_id = pos 9;
  collateral_type = wallet;
  amount = text "40";
  wallet = wallet;
}

abbrev answer : UnsignedTransaction
answer = record {
  to = text "0xcore";
  calldata = text "0x01";
  value = text "0";
  gas_estimate = none;
  chain_id = 137;
}

deposited : build_account node (as_account (deposits request)) ≡ ok answer
unfolding build_account build_deposit_transaction collateral_checks collateral_answer
    build_deposit_tx core_tx validate_address is_address_text validate_amount estimate_or_none
    answer_of starts_with parse_int signed magnitude plain strip is_space int_of text is_hex
    is_digit
deposited = refl

build_shared-build_account_example :
    build_shared contracts (deposits request)
    ≡ ok (record { to = text "0xcore"; calldata = text "0x01"; value = text "0"; chain_id = 137 })
build_shared-build_account_example =
    build_shared-build_account node (deposits request) answer (λ a b h. refl) deposited
