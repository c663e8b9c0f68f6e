-- ===== src/Vaults.antt =====
-- The vault endpoints app/api/v1/vaults.py, with the reads of app/chain/synthetix.py that compute:
-- the account of a wallet and the yield of a vault. The contracts are a parameter whose calls return
-- or raise; floats and their arithmetic are an abstract type.
pub mod Tvl
mod Tests
use ax_server.Prelude.{
  ℕ, ◌+◌, ◌==◌, Bool, Option, none, some, List, [], ◌∷◌, if◌then◌else◌, ltb, not, ◌||◌,
}
use ax_server.Prelude.Int.{ℤ, pos, minus}
use ax_server.Prelude.Text.{Str, text, is_empty}
use ax_server.Prelude.Text.Search.{decimal}
use ax_server.Prelude.Error.{Result, ok, err, ◌>>=◌}
use ax_server.Chain.Eip7412.{int_str}

-- The floats of the endpoints; `wei n` is n / 1e18.
pub record VaultFloats (F : Type 0) : Type 0 where
  pub zero : F
  pub hundred : F
  pub fallback_tvl : F
  pub of_nat : ℕ → F
  pub wei : ℕ → F
  pub add : F → F → F
  pub mul : F → F → F
  pub div : F → F → F
  pub is_positive : F → Bool

-- The calls of the core proxy, of the account token and of the node, and the addresses
pub record CoreReads : Type 0 where
  pub ax_token : Str
  pub core_proxy : Str
  pub rewards_distributor : Str
  pub checksum : Str → Result Str Str
  pub preferred_pool : Result Str ℕ
  pub pool_name : ℕ → Result Str Str
  pub vault_collateral : ℕ → Str → Result Str (ℕ × ℕ)
  pub reward_rate : ℕ → Str → Str → Result Str ℕ
  pub account_token : Result Str Str
  pub token_balance : Str → Str → Result Str ℕ
  pub token_of_owner : Str → Str → ℕ → Result Str ℕ
  pub account_collateral : ℤ → Str → Result Str (ℕ × ℕ × ℕ)
  pub position_debt : ℤ → ℤ → Str → Result Str ℤ
  pub position_c_ratio : ℤ → ℤ → Str → Result Str ℕ
  pub collateral_price : Str → Result Str ℕ
  pub block_time : Result Str ℕ

-- The answers
pub record VaultPool : Type 0 where
  pub pool_id : ℕ
  pub name : Str
  pub collateral_types : List Str

pub record VaultData (F : Type 0) : Type 0 where
  pub symbol : Str
  pub balance : F
  pub tvl : F
  pub apy : F
  pub vault_address : Str
  pub collateral_address : Str
  pub pool_id : ℕ
  pub timestamp : Str

pub record AccountCollateral : Type 0 where
  pub account_id : ℤ
  pub collateral_token : Str
  pub deposited : Str
  pub delegated : Str
  pub available : Str

pub record AccountDebt (F : Type 0) : Type 0 where
  pub account_id : ℤ
  pub debt : Str
  pub c_ratio : Option F

pub record CollateralPrice (F : Type 0) : Type 0 where
  pub token : Str
  pub price_usd : F
  pub timestamp : ℕ

-- `except Exception: x = default`
abbrev pub or_constant : {A : Type 0} → Result Str A → A → A
or_constant (ok a) b = a
or_constant (err e) b = b

module _ (reads : CoreReads) where
  -- `get_account_id`: the token and the checksum stand outside the `try`.
  unfoldable pub get_account_id : Str → Result Str (Option ℕ)
  get_account_id wallet = do
    token ← reads.account_token
    owner ← reads.checksum wallet
    ok (elim (reads.token_balance token owner) [
      | err e ↦ none
      | ok balance ↦
          if ltb 0 balance
          then elim (reads.token_of_owner token owner 0) [ err e ↦ none | ok id ↦ some id ]
          else none
    ])

  -- `list_pools`
  unfoldable pub list_pools : List VaultPool
  list_pools =
      let main : VaultPool = record {
        pool_id = 1;
        name = text "AthleteX Main Pool";
        collateral_types = reads.ax_token ∷ [];
      } in
      let read : Result Str VaultPool = do
        preferred ← reads.preferred_pool
        pool_name ← reads.pool_name preferred
        ok (record {
          pool_id = preferred;
          name = pool_name;
          collateral_types = reads.ax_token ∷ [];
        })
      in or_constant read main ∷ []

  -- `resolve_account_id`: the id 0 counts as none.
  unfoldable pub resolve_account_id : Str → Result Str (Option Str)
  resolve_account_id wallet = do
    account_id ← get_account_id wallet
    ok (elim account_id [ none ↦ none | some id ↦ if id == 0 then none else some (decimal id) ])

  -- `get_account_collateral` of the endpoints
  unfoldable pub get_account_collateral : ℤ → Str → AccountCollateral
  get_account_collateral account_id collateral =
      let read : Result Str (ℕ × ℕ × ℤ) = do
        c ← reads.account_collateral account_id collateral
        ok (c.0, c.1, minus c.0 (c.1 + c.2))
      in let shown = or_constant read (0, 0, pos 0) in
        record {
          account_id = account_id;
          collateral_token = collateral;
          deposited = decimal shown.0;
          delegated = decimal shown.1;
          available = int_str shown.2;
        }

  module _ {F : Type 0} (floats : VaultFloats F) where
    -- `get_vault_apy`: the checksums stand outside the `try`.
    unfoldable pub get_vault_apy : ℕ → Str → F → Result Str F
    get_vault_apy pool_id collateral_type tvl =
        if is_empty reads.rewards_distributor || not (floats.is_positive tvl)
        then ok floats.zero
        else do
          ct ← reads.checksum collateral_type
          distributor ← reads.checksum reads.rewards_distributor
          ok (elim (reads.reward_rate pool_id ct distributor) [
            | err e ↦ floats.zero
            | ok rate_raw ↦
                let per_day = floats.mul (floats.wei rate_raw) (floats.of_nat 365) in
                let annual_rewards =
                  floats.mul (floats.mul per_day (floats.of_nat 24)) (floats.of_nat 3600) in
                if rate_raw == 0
                then floats.zero
                else floats.mul (floats.div annual_rewards tvl) floats.hundred
          ])

    -- `get_platform_tvl`, whose one collateral is the AX token
    unfoldable pub get_platform_tvl : F
    get_platform_tvl =
        let read : Result Str F = do
          pool_id ← reads.preferred_pool
          c ← reads.vault_collateral pool_id reads.ax_token
          ok (floats.add floats.zero (floats.wei c.1))
        in or_constant read floats.fallback_tvl

    -- The account of `get_vault_list`, and the balance of it
    unfoldable pub vault_account : Option Str → Option ℕ
    vault_account none = none
    vault_account (some wallet) =
        if is_empty wallet then none else or_constant (get_account_id wallet) none

    unfoldable pub balance_of : Option ℕ → F
    balance_of none = floats.zero
    balance_of (some id) =
        if id == 0 then floats.zero else elim (reads.account_collateral (pos id) reads.ax_token) [
          | err e ↦ floats.zero
          | ok c ↦ floats.wei c.1
        ]

    -- The value of a vault, and its row
    unfoldable pub tvl_of : ℕ → F
    tvl_of pool_id = elim (reads.vault_collateral pool_id reads.ax_token) [
      | err e ↦ floats.fallback_tvl
      | ok c ↦ floats.wei c.1
    ]

    unfoldable pub vault_row : ℕ → F → F → ℕ → VaultData F
    vault_row pool_id balance apy now = record {
      symbol = text "AX";
      balance = balance;
      tvl = tvl_of pool_id;
      apy = apy;
      vault_address = reads.core_proxy;
      collateral_address = reads.ax_token;
      pool_id = pool_id;
      timestamp = decimal now;
    }

    -- `get_vault_list`, at a time
    unfoldable pub get_vault_list : Option Str → ℕ → Result Str (List (VaultData F))
    get_vault_list wallet now =
        let pool_id = or_constant reads.preferred_pool 1 in
        do
          apy ← get_vault_apy pool_id reads.ax_token (tvl_of pool_id)
          ok (vault_row pool_id (balance_of (vault_account wallet)) apy now ∷ [])

    -- `get_collateral_price`
    unfoldable pub get_collateral_price : Str → CollateralPrice F
    get_collateral_price token = record {
      token = token;
      price_usd = elim (reads.collateral_price token) [
        | err e ↦ floats.zero
        | ok price_raw ↦ floats.wei price_raw
      ];
      timestamp = or_constant reads.block_time 0;
    }

    -- `get_account_debt`
    unfoldable pub get_account_debt : ℤ → ℤ → Str → AccountDebt F
    get_account_debt account_id pool_id collateral = record {
      account_id = account_id;
      debt = elim (reads.position_debt account_id pool_id collateral) [
        | err e ↦ text "0"
        | ok debt_raw ↦ int_str debt_raw
      ];
      c_ratio = elim (reads.position_c_ratio account_id pool_id collateral) [
        | err e ↦ none
        | ok cr ↦ if ltb 0 cr then some (floats.wei cr) else none
      ];
    }
