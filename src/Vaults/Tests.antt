-- ===== src/Vaults/Tests.antt =====
-- The vault endpoints at concrete inputs.
use ax_server.Prelude.{ℕ, ◌≡◌, ◌+◌, ◌*◌, refl, none, [], ◌∷◌, ltb, arith}
use ax_server.Prelude.Int.{pos}
use ax_server.Prelude.Text.{text}
use ax_server.Prelude.Error.{ok, err}
use ax_server.Vaults.{
  CoreReads, VaultFloats, VaultData, get_platform_tvl, get_vault_list, get_vault_apy, vault_row,
  balance_of, vault_account,
}
use ax_server.Vaults.Tvl.{get_vault_list-get_platform_tvl}

-- Values in units of 10^-18
abbrev floats : VaultFloats ℕ
floats = record {
  zero = 0;
  hundred = 100;
  fallback_tvl = 1100000;
  of_nat = λ n. n;
  wei = λ n. n;
  add = λ x y. x + y;
  mul = λ x y. x * y;
  div = λ x y. x;
  is_positive = λ x. ltb 0 x;
}

abbrev reads : CoreReads
reads = record {
  ax_token = text "0xax";
  core_proxy = text "0xcore";
  rewards_distributor = [];
  checksum = λ a. ok a;
  preferred_pool = ok 3;
  pool_name = λ p. err (text "no name");
  vault_collateral = λ p c. ok (5, 70);
  reward_rate = λ p c d. ok 0;
  account_token = err (text "no token");
  token_balance = λ t o. ok 0;
  token_of_owner = λ t o i. ok 0;
  account_collateral = λ id c. ok (0, 0, 0);
  position_debt = λ id p c. ok (pos 0);
  position_c_ratio = λ id p c. ok 0;
  collateral_price = λ c. ok 0;
  block_time = ok 0;
}

add_zero : (x : ℕ) → 0 + x ≡ x
add_zero x = omega arith

get_vault_list-get_platform_tvl_example :
    (v : VaultData ℕ) × (vault_row reads floats 3 0 0 9 ∷ [] ≡ v ∷ [])
    × (v.pool_id ≡ 3)
    × (v.tvl ≡ get_platform_tvl reads floats)
unfolding get_vault_list get_vault_apy balance_of vault_account
get_vault_list-get_platform_tvl_example =
    get_vault_list-get_platform_tvl floats reads none 9 3 (vault_row reads floats 3 0 0 9 ∷ [])
      add_zero refl refl
