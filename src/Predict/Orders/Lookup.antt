-- ===== src/Predict/Orders/Lookup.antt =====
-- Which markets the order builders find.
use ax_server.Prelude.{◌≡◌, refl, none, some, List, [], ◌∷◌, arith, inl, inr, if◌then◌else◌, ◌+◌}
use ax_server.Prelude.Dict.{Dict, lookup-insert}
use ax_server.Prelude.Text.{Str, text, lower, str_dec}
use ax_server.Prelude.Error.{or_raise, Result, ok, err, Raised, Result-cases}
use ax_server.Predict.Registry.{RegisteredMarket, RegistryFile, missing, register_market}
use ax_server.Predict.Orders.{
  market_not_found, Cache, Checksum, validate_address, index_file, load_registry, lookup_market,
  Bool, false, true, ℕ,
}
use ax_server.Predict.Orders.Builders.{
  with_market, SwapRequest, Chain, build_predict_buy, Settings, build_predict_sell, MintRequest,
  build_predict_mint, build_predict_redeem, get_predict_quote,
}
use ax_server.Prelude.Dict

pub lookup_market-valid :
    (checksum : Checksum) (cache : Cache) (file : RegistryFile) (market_id addr : Str)
    → validate_address checksum market_id (text "market_id") ≡ ok addr
    → lookup_market checksum cache file market_id ≡ (
      some (load_registry cache file),
      or_raise
          (Dict.lookup str_dec (lower addr) (load_registry cache file))
          (market_not_found addr),
    )
unfolding lookup_market
lookup_market-valid checksum cache file market_id addr v = rw (lookup_market, v) refl

lookup_market-invalid :
    (checksum : Checksum) (cache : Cache) (file : RegistryFile) (market_id : Str) (e : Raised)
    → validate_address checksum market_id (text "market_id") ≡ err e
    → lookup_market checksum cache file market_id ≡ (cache, err e)
unfolding lookup_market
lookup_market-invalid checksum cache file market_id e v = rw (lookup_market, v) refl

-- After a lookup with a valid address the builders never see the file again: a market that is
-- registered later changes no lookup.
pub lookup_market-stale :
    (checksum : Checksum) (cache : Cache) (file : RegistryFile) (m : RegisteredMarket)
    (first_id market_id addr : Str)
    → validate_address checksum first_id (text "market_id") ≡ ok addr
    → let cache' = (lookup_market checksum cache file first_id).0 in
      lookup_market checksum cache' (register_market file m) market_id
      ≡ lookup_market checksum cache' file market_id
unfolding load_registry lookup_market
lookup_market-stale checksum cache file m first_id market_id addr v =
    rw (lookup_market-valid checksum cache file first_id addr v) refl

-- Nothing was loaded, or an empty registry was
abbrev pub IsBare : Cache → Type 0
IsBare none = Unit
IsBare (some registry) = registry ≡ []

abbrev pub is_ok : {E A : Type 0} → Result E A → Bool
is_ok (ok a) = true
is_ok (err e) = false

with_market-missing :
    {A B : Type 0} (checksum : Checksum) (cache : Cache) (market_id : Str)
    (checks : Result Raised A) (rest : A → RegisteredMarket → Result Raised B)
    → IsBare cache
    → let r = with_market checksum cache missing market_id checks rest in
      IsBare r.0 × (is_ok r.1 ≡ false)
unfolding with_market load_registry index_file
with_market-missing checksum cache market_id (err e) rest h = (h, refl)
with_market-missing checksum none market_id (ok a) rest h =
    elim (Result-cases (validate_address checksum market_id (text "market_id"))) [
      | inr (e, v) ↦
          rw (with_market, lookup_market-invalid checksum none missing market_id e v) (tt, refl)
      | inl (addr, v) ↦
          rw (with_market, lookup_market-valid checksum none missing market_id addr v) (refl, refl)
    ]
with_market-missing checksum (some registry) market_id (ok a) rest h =
    elim (Result-cases (validate_address checksum market_id (text "market_id"))) [
      | inr (e, v) ↦
          rw (with_market, lookup_market-invalid checksum (some registry) missing market_id e v)
            (h, refl)
      | inl (addr, v) ↦
          rw (with_market, lookup_market-valid checksum (some registry) missing market_id addr v, h)
            (refl, refl)
    ]

-- A request to one of the builders
pub data Order : Type 0 where
  buy : SwapRequest → ℕ → Order
  sell : SwapRequest → ℕ → Order
  mint : MintRequest → Order
  redeem : MintRequest → Order
  quote : Str → Str → Str → Str → Order

module _ (chain : Chain) (settings : Settings) (file : RegistryFile) where
  abbrev outcome_of : {B : Type 0} → Cache × Result Raised B → Cache × Bool
  outcome_of (cache, r) = (cache, is_ok r)

  -- The cache after an order, and whether it got an answer that is no error
  unfoldable pub serve_order : Cache → Order → Cache × Bool
  serve_order cache (buy body now) =
      outcome_of (build_predict_buy chain settings cache file body now)
  serve_order cache (sell body now) =
      outcome_of (build_predict_sell chain settings cache file body now)
  serve_order cache (mint body) = outcome_of (build_predict_mint chain settings cache file body)
  serve_order cache (redeem body) = outcome_of (build_predict_redeem chain settings cache file body)
  serve_order cache (quote market_id outcome amount side) =
      outcome_of (get_predict_quote chain settings cache file market_id outcome amount side)

  unfoldable pub answered : Cache → List Order → ℕ
  answered cache [] = 0
  answered cache (order ∷ orders) =
      let (cache', hit) = serve_order cache order in (if hit then 1 else 0) + answered cache' orders

serve_order-missing :
    (chain : Chain) (settings : Settings) (cache : Cache) (order : Order)
    → IsBare cache
    → IsBare (serve_order chain settings missing cache order).0
      × ((serve_order chain settings missing cache order).1 ≡ false)
unfolding serve_order build_predict_buy build_predict_sell build_predict_mint build_predict_redeem
    get_predict_quote
serve_order-missing chain settings cache (buy body now) h =
    with_market-missing chain.checksum cache body.market_id _ _ h
serve_order-missing chain settings cache (sell body now) h =
    with_market-missing chain.checksum cache body.market_id _ _ h
serve_order-missing chain settings cache (mint body) h =
    with_market-missing chain.checksum cache body.market_id _ _ h
serve_order-missing chain settings cache (redeem body) h =
    with_market-missing chain.checksum cache body.market_id _ _ h
serve_order-missing chain settings cache (quote market_id outcome amount side) h =
    with_market-missing chain.checksum cache market_id _ _ h

-- While there is no file at `_REGISTRY_PATH`, and nothing was loaded before, no order of any kind
-- gets an answer, whatever the chain says.
pub answered-missing :
    (chain : Chain) (settings : Settings) (cache : Cache) (orders : List Order)
    → IsBare cache
    → answered chain settings missing cache orders ≡ 0
unfolding answered
answered-missing chain settings cache [] h = refl
answered-missing chain settings cache (order ∷ orders) h =
    let (bare, none_here) = serve_order-missing chain settings cache order h in
    rw (answered, none_here)
      (omega (
        arith,
        answered-missing chain settings (serve_order chain settings missing cache order).0 orders
            bare,
      ))
