-- ===== src/Predict/Orders/Checks.antt =====
-- What the checks of the order builders let through.
use ax_server.Prelude.{ℕ, ◌≤◌, ◌≡◌, refl, arith, some, inl, inr, Option-cases}
use mathlib.Core.Path.{subst}
use ax_server.Prelude.Int.{pos, negsuc, parse_int}
use ax_server.Prelude.Text.{Str, text}
use ax_server.Prelude.Error.{>>=-ok, ok-injective, Result, ok, err, Raised}
use ax_server.Predict.Registry.{RegisteredMarket, RegistryFile}
use ax_server.Predict.Orders.{
  Cache, validate_address, validate_amount, validate_outcome, lookup_market, resolve_token,
}
use ax_server.Predict.Orders.Builders.{
  Chain, Settings, SwapRequest, with_market, swap_checks, swap_addresses,
}

-- The checked wallet, amount and outcome of a swap request
pub record SwapChecked (chain : Chain) (body : SwapRequest) (wallet : Str) (amount : ℕ)
    (outcome : Str) : Type 0 where
  pub wallet_is : validate_address chain.checksum body.wallet (text "wallet") ≡ ok wallet
  pub amount_is : parse_int body.amount ≡ some (pos amount)
  pub positive : 1 ≤ amount
  pub outcome_is : validate_outcome body.outcome ≡ ok outcome

pub validate_amount-ok :
    (s field : Str) (n : ℕ)
    → validate_amount s field ≡ ok n
    → (parse_int s ≡ some (pos n)) × (1 ≤ n)
unfolding validate_amount
validate_amount-ok s field n h = elim (Option-cases (parse_int s)) [
  | inl e ↦ absurd (ground arith)
  | inr (negsuc k, e) ↦ absurd (ground arith)
  | inr (pos k, e) ↦ (ground arith, ground arith)
]

pub swap_checks-ok :
    (chain : Chain) (settings : Settings) (body : SwapRequest) (field : Str) (c : Str × ℕ × Str)
    → swap_checks chain settings body field ≡ ok c
    → SwapChecked chain body c.0 c.1 c.2
unfolding swap_checks
swap_checks-ok chain settings body field c h =
    let (w, e1, h1) = >>=-ok (validate_address chain.checksum body.wallet (text "wallet")) _ c h in
    let (n, e2, h2) = >>=-ok (validate_amount body.amount field) _ c h1 in
    let (o, e3, h3) = >>=-ok (validate_outcome body.outcome) _ c h2 in
    let parsed = validate_amount-ok body.amount field n e2 in
    subst (λ x. SwapChecked chain body x.0 x.1 x.2) (ok-injective h3)
      (record { wallet_is = e1; amount_is = parsed.0; positive = parsed.1; outcome_is = e3 })

pub with_market-ok :
    {A B : Type 0} (chain : Chain) (cache : Cache) (file : RegistryFile) (market_id : Str)
    (checks : Result Raised A) (rest : A → RegisteredMarket → Result Raised B) (b : B)
    → (with_market chain.checksum cache file market_id checks rest).1 ≡ ok b
    → (a : A) × (m : RegisteredMarket) × (checks ≡ ok a)
      × ((lookup_market chain.checksum cache file market_id).1 ≡ ok m)
      × (rest a m ≡ ok b)
unfolding with_market
with_market-ok chain cache file market_id (err e) rest b h = absurd (ground arith)
with_market-ok chain cache file market_id (ok a) rest b h =
    let (m, found, done) =
      >>=-ok ((lookup_market chain.checksum cache file market_id).1) (rest a) b h in
    (a, m, refl, found, done)

-- The configured addresses and the outcome's token of an order
pub record Addresses (chain : Chain) (settings : Settings) (market : RegisteredMarket)
    (outcome router axusd token : Str) : Type 0 where
  pub router_is :
      validate_address chain.checksum settings.apt_router (text "apt_router") ≡ ok router
  pub axusd_is : validate_address chain.checksum settings.usd_proxy (text "usd_proxy") ≡ ok axusd
  pub token_is : resolve_token chain.checksum market outcome ≡ ok token

pub swap_addresses-ok :
    (chain : Chain) (settings : Settings) (market : RegisteredMarket) (outcome : Str)
    (a : Str × Str × Str)
    → swap_addresses chain settings market outcome ≡ ok a
    → Addresses chain settings market outcome a.0 a.1 a.2
unfolding swap_addresses
swap_addresses-ok chain settings market outcome a h =
    let (r, e1, h1) =
      >>=-ok (validate_address chain.checksum settings.apt_router (text "apt_router")) _ a h in
    let (u, e2, h2) =
      >>=-ok (validate_address chain.checksum settings.usd_proxy (text "usd_proxy")) _ a h1 in
    let (t, e3, h3) = >>=-ok (resolve_token chain.checksum market outcome) _ a h2 in
    subst (λ x. Addresses chain settings market outcome x.0 x.1 x.2) (ok-injective h3)
      (record { router_is = e1; axusd_is = e2; token_is = e3 })
