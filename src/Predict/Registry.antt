-- ===== src/Predict/Registry.antt =====
-- The registry of deployed markets: the JSON file that app/chain/prediction_deployer.py keeps.
pub mod Laws
pub mod Update
use ax_server.Prelude.{
  ℕ, ◌*◌, ◌^◌, Bool, true, false, not, Option, none, some, List, [], ◌∷◌, ◌++◌, keep_if,
  if◌then◌else◌,
}
use ax_server.Prelude.Text.{Str, text, lower, upper, str_eq, str_dec}
use ax_server.Prelude.Dict.{Dict}
use ax_server.Prelude.Error.{Result, ok, err}
use mathlib.Core.Option

-- A market's dictionary: `none` is a missing key, or null. No operation writes a null
-- `market_address`, at which the comparison of `update_market_status` would raise.
pub record RegisteredMarket : Type 0 where
  pub market_address : Option Str
  pub yes_token : Option Str
  pub no_token : Option Str
  pub question : Str
  pub category : Str
  pub details : Str
  pub resolve_by : Str
  pub pair_name : Str
  pub yes_pair_address : Option Str
  pub no_pair_address : Option Str
  pub registered_at : Str
  pub status : Option Str
  pub outcome : Option Str
  pub resolved_at : Option Str

-- The file: missing, `{"markets": [...]}`, a bare list, another object, or other JSON
pub data RegistryFile : Type 0 where
  missing : RegistryFile
  markets_object : List RegisteredMarket → RegistryFile
  bare_list : List RegisteredMarket → RegistryFile
  keyed_object : Dict Str RegisteredMarket → RegistryFile
  other_json : RegistryFile

-- `get_registered_markets`
unfoldable pub get_registered_markets : RegistryFile → List RegisteredMarket
get_registered_markets missing = []
get_registered_markets (markets_object markets) = markets
get_registered_markets (bare_list markets) = markets
get_registered_markets (keyed_object markets) = []
get_registered_markets other_json = []

-- `m.get("market_address") == addr`
unfoldable pub has_address : Str → RegisteredMarket → Bool
has_address addr m = elim m.market_address [ none ↦ false | some a ↦ str_eq a addr ]

abbrev pub address_of : RegisteredMarket → Str
address_of m = Option.get_or m.market_address []

-- `register_market`
unfoldable pub register_market : RegistryFile → RegisteredMarket → RegistryFile
register_market file market_info =
    let markets =
      keep_if (λ m. not (has_address (address_of market_info) m)) (get_registered_markets file) in
    markets_object (markets ++ market_info ∷ [])

-- `m.get("market_address", "").lower() == market_address.lower()`
unfoldable pub matches_address : Str → RegisteredMarket → Bool
matches_address market_address m = str_eq (lower (address_of m)) (lower market_address)

-- The keys that a status update sets
abbrev or_keep : Option Str → Option Str → Option Str
or_keep none old = old
or_keep (some new) old = some new

unfoldable pub with_status :
    Option Str → Option Str → Option Str → RegisteredMarket → RegisteredMarket
with_status status outcome resolved_at m = record m {
  status = or_keep status m.status;
  outcome = or_keep outcome m.outcome;
  resolved_at = or_keep resolved_at m.resolved_at;
}

-- The loop over the markets, which ends at the first that matches: `none` is its `else`
unfoldable pub update_first :
    (RegisteredMarket → Bool)
    → (RegisteredMarket → RegisteredMarket)
    → List RegisteredMarket
    → Option (List RegisteredMarket)
update_first p f [] = none
update_first p f (m ∷ ms) =
    let rest = update_first p f ms in if p m then some (f m ∷ ms) else Option.map (λ r. m ∷ r) rest

abbrev pub not_in_registry : Str → Str
not_in_registry market_address = text "Market " ++ market_address ++ text " not found in registry"

-- `PredictionDeployer.update_market_status`: the file afterwards, or the text of the `ValueError`
unfoldable pub update_market_status :
    RegistryFile → Str → Option Str → Option Str → Option Str → RegistryFile × Result Str (Unit {0})
update_market_status file market_address status outcome resolved_at =
    elim (update_first (matches_address market_address) (with_status status outcome resolved_at)
      (get_registered_markets file)) [
        | none ↦ (file, err (not_in_registry market_address))
        | some markets ↦ (markets_object markets, ok tt)
      ]

-- `price_map.get(outcome.upper())`
unfoldable pub settlement_price : Str → Option ℕ
settlement_price outcome =
    if str_eq (upper outcome) (text "YES")
    then some (10 ^ 18)
    else if str_eq (upper outcome) (text "NO")
    then some 0
    else if str_eq (upper outcome) (text "SPLIT")
    then some (5 * 10 ^ 17)
    else none
