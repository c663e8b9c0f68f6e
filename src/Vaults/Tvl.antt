-- ===== src/Vaults/Tvl.antt =====
-- The two answers that carry the value locked: app/api/v1/vaults.py.
use ax_server.Prelude.{ℕ, ◌≡◌, refl, Option, List, [], ◌∷◌, inl, inr, ◌∙◌, sym, ap}
use ax_server.Prelude.Text.{Str}
use ax_server.Prelude.Error.{ok-injective, ok, Result-cases, >>=-ok}
use ax_server.Vaults.{
  CoreReads, VaultFloats, VaultData, get_platform_tvl, get_vault_list, tvl_of, vault_row,
  balance_of, vault_account, or_constant, get_vault_apy,
}

module _ {F : Type 0} (floats : VaultFloats F) (reads : CoreReads) where
  platform-tvl_of :
      (pool_id : ℕ)
      → ((x : F) → floats.add floats.zero x ≡ x)
      → reads.preferred_pool ≡ ok pool_id
      → get_platform_tvl reads floats ≡ tvl_of reads floats pool_id
  unfolding get_platform_tvl tvl_of
  platform-tvl_of pool_id neutral pool =
      rw pool (elim (Result-cases (reads.vault_collateral pool_id reads.ax_token)) [
        | inl (c, e) ↦ rw e (neutral (floats.wei c.1))
        | inr (m, e) ↦ rw e refl
      ])

  -- Where the preferred pool can be read and 0.0 is neutral for the addition, the list of vaults, if
  -- it succeeds, has one vault, of that pool, and its value is the platform's, also when the value
  -- cannot be read.
  pub get_vault_list-get_platform_tvl :
      (wallet : Option Str) (now pool_id : ℕ) (vaults : List (VaultData F))
      → ((x : F) → floats.add floats.zero x ≡ x)
      → reads.preferred_pool ≡ ok pool_id
      → get_vault_list reads floats wallet now ≡ ok vaults
      → (v : VaultData F) × (vaults ≡ v ∷ [])
        × (v.pool_id ≡ pool_id)
        × (v.tvl ≡ get_platform_tvl reads floats)
  unfolding get_vault_list vault_row
  get_vault_list-get_platform_tvl wallet now pool_id vaults neutral pool h =
      let p = or_constant reads.preferred_pool 1 in
      let balance = balance_of reads floats (vault_account reads floats wallet) in
      let (apy, yield_ok, rest) =
        >>=-ok (get_vault_apy reads floats p reads.ax_token (tvl_of reads floats p))
          (λ apy. ok (vault_row reads floats p balance apy now ∷ [])) vaults h in
      let chosen : p ≡ pool_id = rw pool refl in
      (
        vault_row reads floats p balance apy now,
        sym (ok-injective rest),
        chosen,
        ap (tvl_of reads floats) chosen ∙ sym (platform-tvl_of pool_id neutral pool),
      )
