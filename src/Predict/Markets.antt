-- ===== src/Predict/Markets.antt =====
-- The market endpoints of app/api/v1/predict.py: the list, one market, its price, and the two
-- transactions. F is the type of floats with the operations that the handlers use; the pools on the
-- chain and the encoding of calls are a parameter.
pub mod Seeds
pub mod Points
pub mod Transactions
mod Listing
mod Tests
use ax_server.Prelude.{
  ℕ, zero, suc, ◌+◌, ◌-◌, ◌*◌, ◌/◌, ◌%◌, Bool, true, false, ◌&&◌, ◌==◌, Option, none, some, List,
  [], ◌∷◌, ◌++◌, map, if◌then◌else◌, ltb, length, keep_if,
}
use ax_server.Prelude.Int.{ℤ, parse_int}
use ax_server.Prelude.Dict.{Dict}
use ax_server.Prelude.Dict
use ax_server.Prelude.Text.{Str, text, lower, is_empty, str_eq, str_dec}
use ax_server.Prelude.Text.Search.{decimal}
use ax_server.Prelude.Error.{Result, ok, err, ◌>>=◌, or_raise, map_err}
use ax_server.Predict.Registry.{RegisteredMarket, RegistryFile, matches_address}
use ax_server.Predict.Stats.{load_markets}
use ax_server.Predict.Markets.Seeds.{Seed, Deployed, seed_markets}
use ax_server.Store.{Client, VolumeStats, get_volume_stats_by_pair}
use mathlib.Core.Option

-- The floats 0.0, 0.5 and 1.0, the arithmetic, the quotient of two integers, and `round`
pub record Decimals (F : Type 0) : Type 0 where
  pub zero : F
  pub half : F
  pub one : F
  pub add : F → F → F
  pub sub : F → F → F
  pub div : F → F → F
  pub ratio : ℕ → ℕ → F
  pub round : F → ℕ → F
  pub lt : F → F → Bool

-- `class PredictMarket`, without the fields that keep their defaults
pub record PredictMarket (F : Type 0) : Type 0 where
  pub id : ℕ
  pub prompt : Str
  pub details : Str
  pub market_address : Str
  pub yes_token_address : Str
  pub no_token_address : Str
  pub yes_price : F
  pub no_price : F
  pub trading_volume : F
  pub lifetime_volume : F
  pub end_date : Str
  pub category : Str

pub record PredictPrice (F : Type 0) : Type 0 where
  pub market_id : Str
  pub yes_price : F
  pub no_price : F
  pub timestamp : ℕ

abbrev upper_digit : ℕ → ℕ
upper_digit n = if ltb n 10 then b'0' + n else b'A' + (n - 10)

-- The hexadecimal digits of a number that are its last `width`
unfoldable pub hex_digits : ℕ → ℕ → Str
hex_digits zero n = []
hex_digits (suc width) n = hex_digits width (n / 16) ++ upper_digit (n % 16) ∷ []

-- `f"0x{n:040X}"`, of a number below 16 ** 40
unfoldable pub synthetic_address : ℕ → Str
synthetic_address n = text "0x" ++ hex_digits 40 n

-- The addresses of a seed: its own, or synthetic ones
unfoldable pub addresses_of : Seed → Deployed
addresses_of m = elim m.deployed [
  | some d ↦ d
  | none ↦ record {
    market_address = synthetic_address m.id;
    yes_token = synthetic_address (m.id * 2 + 1);
    no_token = synthetic_address (m.id * 2 + 2);
  }
]

-- The pools: `getReserves` and `token0` of a pair
pub record Pairs : Type 0 where
  pub reserves : Str → Result Str (ℕ × ℕ)
  pub token0 : Str → Result Str Str

-- `get_chain_provider_optional(request)`: the function takes no argument, and the `TypeError` is
-- caught.
unfoldable pub call_with_request : Result Str (Option Pairs)
call_with_request =
    err (text "get_chain_provider_optional() takes 0 positional arguments but 1 was given")

unfoldable pub chain_of_request : Option Pairs
chain_of_request = elim call_with_request [ ok chain ↦ chain | err e ↦ none ]

-- The reserves of a token and of the dollar in a pair
unfoldable pub token_reserves : Pairs → Str → Option Str → Result Str (ℕ × ℕ)
token_reserves pairs pair token = do
  (r0, r1) ← pairs.reserves pair
  token0 ← pairs.token0 pair
  own ← or_raise token (text "KeyError")
  ok (if str_eq (lower token0) (lower own) then (r0, r1) else (r1, r0))

-- The updates of one market
pub record Updates (F : Type 0) : Type 0 where
  pub volumes : Option (F × F)
  pub yes_price : Option F
  pub no_price : Option F

-- The first market of the registry at an address, up to the case
unfoldable pub first_match : Str → List RegisteredMarket → Option RegisteredMarket
first_match address [] = none
first_match address (m ∷ ms) =
    let rest = first_match address ms in if matches_address address m then some m else rest

-- `(...)[0]`
unfoldable pub first_of : {F : Type 0} → List (PredictMarket F) → Result Str (PredictMarket F)
first_of [] = err (text "list index out of range")
first_of (m ∷ ms) = ok m

module _ {F : Type 0} (dec : Decimals F) where
  -- One round of `_build_markets`
  unfoldable pub build_market : Seed → PredictMarket F
  build_market m =
      let d = addresses_of m in
      record {
        id = m.id;
        prompt = m.prompt;
        details = m.details;
        market_address = d.market_address;
        yes_token_address = d.yes_token;
        no_token_address = d.no_token;
        yes_price = dec.half;
        no_price = dec.half;
        trading_volume = dec.zero;
        lifetime_volume = dec.zero;
        end_date = m.end_date;
        category = m.category;
      }

  -- `_get_markets`: built once, which changes no answer
  unfoldable pub get_markets : List Seed → List (PredictMarket F)
  get_markets = map build_market

  -- The price of the token in its pool
  abbrev pool_price : ℕ × ℕ → F
  pool_price r = dec.round (dec.ratio (r.1) (r.0)) 4

  -- The price of the YES pool, which also gives that of NO
  unfoldable pub yes_updates : ℕ × ℕ → Updates F → Updates F
  yes_updates r u =
      let yes_price = pool_price r in
      if ltb 0 (r.0)
      then record u {
        yes_price = some yes_price;
        no_price = some (
            if dec.lt yes_price dec.one then dec.round (dec.sub dec.one yes_price) 4 else dec.zero);
      }
      else u

  -- The price of the NO pool; with both the prices are scaled to a sum of one.
  unfoldable pub normalised : F → F → Updates F → Updates F
  normalised yes_price no_price u =
      let total = dec.add yes_price no_price in
      if dec.lt dec.zero total
      then record u {
        yes_price = some (dec.round (dec.div yes_price total) 4);
        no_price = some (dec.round (dec.div no_price total) 4);
      }
      else record u { no_price = some no_price }

  unfoldable pub no_updates : ℕ × ℕ → Updates F → Updates F
  no_updates r u =
      if ltb 0 (r.0)
      then elim u.yes_price [
        | none ↦ record u { no_price = some (pool_price r) }
        | some yes_price ↦ normalised yes_price (pool_price r) u
      ]
      else u

  -- The prices on the chain: a failure of the NO pool leaves what the YES pool gave.
  unfoldable pub price_updates : Option Pairs → RegisteredMarket → Str → Str → Updates F → Updates F
  price_updates none rm yes_pair no_pair u = u
  price_updates (some pairs) rm yes_pair no_pair u =
      elim (token_reserves pairs yes_pair rm.yes_token) [
        | err e ↦ u
        | ok yes_pool ↦ elim (token_reserves pairs no_pair rm.no_token) [
          | err e ↦ yes_updates yes_pool u
          | ok no_pool ↦ no_updates no_pool (yes_updates yes_pool u)
        ]
      ]

  abbrev empty_stats : VolumeStats F
  empty_stats = record { day = dec.zero; lifetime = dec.zero }

  -- The volumes of the two pairs
  unfoldable pub volume_updates : Dict Str (VolumeStats F) → Str → Str → Updates F
  volume_updates volumes yes_pair no_pair =
      let yes_stats = Option.get_or (Dict.lookup str_dec (lower yes_pair) volumes) empty_stats in
      let no_stats = Option.get_or (Dict.lookup str_dec (lower no_pair) volumes) empty_stats in
      record {
        volumes = some (
          dec.round (dec.add yes_stats.day no_stats.day) 2,
          dec.round (dec.add yes_stats.lifetime no_stats.lifetime) 2,
        );
        yes_price = none;
        no_price = none;
      }

  -- `model_copy(update=updates)`
  unfoldable pub updated : Updates F → PredictMarket F → PredictMarket F
  updated u m = record m {
    trading_volume = elim u.volumes [ none ↦ m.trading_volume | some v ↦ v.0 ];
    lifetime_volume = elim u.volumes [ none ↦ m.lifetime_volume | some v ↦ v.1 ];
    yes_price = Option.get_or u.yes_price m.yes_price;
    no_price = Option.get_or u.no_price m.no_price;
  }

  abbrev no_updates_at_all : Updates F
  no_updates_at_all = record { volumes = none; yes_price = none; no_price = none }

  unfoldable pub updates_of :
      Option Pairs → Dict Str (VolumeStats F) → Option RegisteredMarket → Updates F
  updates_of chain volumes none = no_updates_at_all
  updates_of chain volumes (some rm) =
      let yes_pair = Option.get_or rm.yes_pair_address [] in
      let no_pair = Option.get_or rm.no_pair_address [] in
      if is_empty yes_pair
      then no_updates_at_all
      else if is_empty no_pair
      then no_updates_at_all
      else price_updates chain rm yes_pair no_pair (volume_updates volumes yes_pair no_pair)

  -- The volumes of the database: none without it, or when the query raises
  unfoldable pub volumes_from : Option (Client F) → Dict Str (VolumeStats F)
  volumes_from none = []
  volumes_from (some qdb) = elim (get_volume_stats_by_pair dec.zero qdb (text "predict")) [
    | ok stats ↦ stats
    | err e ↦ []
  ]

  unfoldable pub enrich_market :
      Option Pairs
      → Dict Str (VolumeStats F)
      → List RegisteredMarket
      → PredictMarket F
      → PredictMarket F
  enrich_market chain volumes registry m =
      updated (updates_of chain volumes (first_match m.market_address registry)) m

  -- `_enrich_markets`
  unfoldable pub enrich_markets :
      Option (Client F)
      → RegistryFile
      → List (PredictMarket F)
      → Result Str (List (PredictMarket F))
  enrich_markets qdb file markets = do
    registry ← load_markets file
    ok (map (enrich_market chain_of_request (volumes_from qdb) registry) markets)

  -- `if category: markets = [m for m in markets if m.category == category.lower()]`
  unfoldable pub in_category : Option Str → List (PredictMarket F) → List (PredictMarket F)
  in_category none markets = markets
  in_category (some category) markets =
      if is_empty category
      then markets
      else keep_if (λ m. str_eq m.category (lower category)) markets

  -- `list_prediction_markets`
  unfoldable pub list_prediction_markets :
      Option (Client F)
      → RegistryFile
      → List Seed
      → Option Str
      → Result Str (List (PredictMarket F))
  list_prediction_markets qdb file seeds category =
      enrich_markets qdb file (in_category category (get_markets seeds))

  -- The loop over the markets that looks for an id
  unfoldable pub find_market : ℕ → List (PredictMarket F) → Option (PredictMarket F)
  find_market id [] = none
  find_market id (m ∷ ms) = let rest = find_market id ms in if m.id == id then some m else rest

  -- `get_prediction_market`: an exception, or no market for a 404
  unfoldable pub get_prediction_market :
      Option (Client F) → RegistryFile → List Seed → ℕ → Result Str (Option (PredictMarket F))
  get_prediction_market qdb file seeds market_id =
      elim (find_market market_id (get_markets seeds)) [
        | none ↦ ok none
        | some m ↦ (do
          enriched ← enrich_markets qdb file (m ∷ [])
          only ← first_of enriched
          ok (some only))
      ]

  -- `get_prediction_price`, at a time in seconds: no answer is a 404.
  unfoldable pub get_prediction_price : List Seed → ℕ → ℕ → Option (PredictPrice F)
  get_prediction_price seeds market_id now = elim (find_market market_id (get_markets seeds)) [
    | none ↦ none
    | some m ↦ some (record {
      market_id = decimal market_id;
      yes_price = m.yes_price;
      no_price = m.no_price;
      timestamp = now;
    })
  ]
