-- ===== src/Predict/Tests.antt =====
-- The registry and its administration at concrete inputs.
mod Orders
use ax_server.Prelude.{
  ℕ, ◌≡◌, ◌≤◌, true, Option, some, none, List, [], ◌∷◌, arith, map, if◌then◌else◌, ◌&&◌, not, ◌*◌,
}
use ax_server.Prelude.Text.{Str, text, str_eq, lower_code, upper_code, is_empty}
use ax_server.Prelude.Error.{Result, ok}
use ax_server.Auth.Jwt.{second}
use ax_server.Auth.Tests.Plain.{plain, plain-JwtLaws}
use ax_server.Auth.Tokens.{create_access_token}
use ax_server.Auth.Endpoints.{issue_tokens}
use ax_server.Predict.Registry.{
  RegisteredMarket, RegistryFile, missing, markets_object, get_registered_markets, has_address,
  register_market,
}
use ax_server.Predict.Registry.Laws.{find, any, IsApart}
use ax_server.Predict.Registry.Update.{update_market_status-shadowed}
use ax_server.Predict.Admin.{Contracts, Settings, TxResponse}
use ax_server.Prelude.Text.{lower_code, upper_code}
use ax_server.Prelude.{◌^◌}
use ax_server.Predict.Admin.Laws.{
  Call, resolve, patch_status, Use, run_calls, run_calls-IsApart, run_calls-issue_tokens,
}

abbrev pub blank : RegisteredMarket
blank = record {
  market_address = none;
  yes_token = some (text "0xb1");
  no_token = some (text "0xb2");
  question = [];
  category = [];
  details = [];
  resolve_by = [];
  pair_name = [];
  yes_pair_address = none;
  no_pair_address = none;
  registered_at = [];
  status = none;
  outcome = none;
  resolved_at = none;
}

abbrev upper_address : Str
upper_address = text "0xAB"

abbrev lower_address : Str
lower_address = text "0xab"

abbrev first : RegisteredMarket
first = record blank { market_address = some upper_address }

abbrev second_market : RegisteredMarket
second_market = record blank { market_address = some lower_address }

abbrev file : RegistryFile
file = markets_object (first ∷ [])

abbrev contracts : Contracts
contracts = record {
  initialize_calldata = λ a. ok [];
  resolve_calldata = λ a price. ok (price ∷ []);
  get_pair = λ a b. ok none;
}

abbrev settings : Settings
settings = record { agent_private_key = text "key"; usd_proxy = [] }

abbrev maker_token : Option Str
maker_token = some (create_access_token plain none (text "0x1") 137 (text "MARKET_MAKER") 24 0)

abbrev calls : List (Option Str × ℕ × Call)
calls =
    (maker_token, 2 * second, patch_status upper_address (text "paused"))
    ∷ (none, 3 * second, resolve upper_address (text "YES") [])
    ∷ []

run_calls-IsApart_example :
    IsApart (get_registered_markets (run_calls plain none contracts settings calls file))
unfolding get_registered_markets
run_calls-IsApart_example = run_calls-IsApart plain none contracts settings calls file (tt, tt)

abbrev uses : List Use
uses =
    record {
      wallet = text "0x1";
      chain_id = 137;
      issued_at = 0;
      used_at = 5;
      call = patch_status upper_address (text "paused");
    }
    ∷ []

run_calls-issue_tokens_example :
    run_calls plain none contracts settings
      (map
        (λ u. (
          some (issue_tokens plain none u.wallet u.chain_id u.issued_at u.issued_at).access_token,
          u.used_at,
          u.call,
        ))
        uses)
      file
    ≡ file
run_calls-issue_tokens_example =
    run_calls-issue_tokens plain plain-JwtLaws none contracts settings uses file (omega arith, tt)

abbrev answer : TxResponse
answer = record {
  transaction = record {
    to = upper_address;
    data_field = 10 ^ 18 ∷ [];
    value = text "0";
    chain_id = 137;
  };
  action = text "ownerResolve";
  market_address = upper_address;
  outcome = some (text "YES");
}
