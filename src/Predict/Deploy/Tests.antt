-- ===== src/Predict/Deploy/Tests.antt =====
-- The deployer at concrete inputs.
use ax_server.Prelude.{◌≡◌, ◌++◌, refl, some, [], length, if◌then◌else◌, ltb}
use ax_server.Prelude.Text.{Str, text}
use ax_server.Prelude.Error.{ok, err}
use ax_server.Chain.Uniswap.{
  Network, build_transaction, submit, sign_and_send, transact, router, add_liquidity_of, get_pair,
}
use ax_server.Predict.Deploy.{Addresses, LpPools, approve_token, create_pool, create_lp_pools}
use ax_server.Predict.Deploy.Steps.{Follows, pool_steps, create_lp_pools-Follows}

-- A node that loses the receipt of the fifth transaction
abbrev net : Network
net = record {
  agent = text "0xagent";
  checksum = λ a. ok a;
  transaction_count = λ sent a. ok (length sent);
  fill_in = λ sent tx. ok tt;
  estimate_gas = λ sent tx. ok 50000;
  send_raw = λ sent tx. ok (text "hash");
  receipt_of = λ sent hash.
      if ltb 4 (length sent)
      then err (text "timeout")
      else ok (record { transaction_hash = hash; status = 1 });
  pair_of = λ sent a b. ok (text "0xpair");
}

abbrev addresses : Addresses
addresses = record {
  usd_proxy = text "0xusd";
  apt_router = text "0xrouter";
  dex = record {
    router_address = some (text "0xrouter");
    factory_address = some (text "0xfactory");
  };
}

abbrev yes_token : Str
yes_token = text "0xyes"

abbrev no_token : Str
no_token = text "0xno"

create_lp_pools-Follows_example :
    Follows LpPools
      (create_lp_pools net addresses yes_token no_token 1000 5 [])
      []
      (pool_steps net addresses yes_token 1000 605 ++ pool_steps net addresses no_token 1000 605)
create_lp_pools-Follows_example = create_lp_pools-Follows net addresses yes_token no_token 1000 5 []

five_sent : length (create_lp_pools net addresses yes_token no_token 1000 5 []).0 ≡ 5
unfolding create_lp_pools create_pool approve_token transact build_transaction submit sign_and_send
    router add_liquidity_of get_pair
five_sent = refl
