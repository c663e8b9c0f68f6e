-- ===== src/Predict/Orders.antt =====
-- The helpers of the order builders: validation, the registry's cache, slippage and payloads of
-- app/api/v1/predict_orders.py. The contracts and the address functions are a parameter.
pub mod Slippage
pub mod Builders
pub mod Checks
pub mod Plans
pub mod Lookup
pub mod Registered
use ax_server.Prelude.{
  ℕ, ◌+◌, ◌/◌, Bool, true, false, not, ◌&&◌, ◌||◌, Option, none, some, List, [], ◌∷◌, ◌++◌,
  if◌then◌else◌, ◌==◌, all, take, drop, length,
}
use ax_server.Prelude.Int.{ℤ, pos, negsuc, minus_int, times, floor_div, parse_int}
use ax_server.Prelude.Dict.{Dict}
use ax_server.Prelude.Dict
use ax_server.Prelude.Text.{Str, text, lower, strip, str_eq, str_dec, starts_with}
use ax_server.Prelude.Text.Search.{is_hex, decimal}
use ax_server.Prelude.Error.{
  Result, ok, err, Raised, api, exception, ApiError, ◌>>=◌, ◌>>◌, raise_if, or_raise, map_err,
}
use ax_server.Predict.Registry.{
  RegisteredMarket, RegistryFile, missing, markets_object, bare_list, keyed_object, other_json,
}
use ax_server.Auth.Jwt.{second}

-- `_ADDRESS_RE.match`: the pattern's `$` also stands before a newline at the end.
unfoldable pub is_address_text : Str → Bool
is_address_text s =
    let digits = drop 42 s in
    starts_with (text "0x") s
    && (length (take 42 s) == 42)
    && all is_hex (drop 2 (take 42 s))
    && (elim digits [ [] ↦ true | c ∷ rest ↦ c == 10 && (length rest == 0) ])

abbrev pub api_error : Str → Str → ℕ → Raised
api_error code message status_code =
    api (record { code = code; message = message; status_code = status_code; details = none })

abbrev pub Checksum : Type 0
Checksum = Str → Result Str Str

-- `_validate_address`, over `Web3.to_checksum_address`
unfoldable pub validate_address : Checksum → Str → Str → Result Raised Str
validate_address checksum addr field_name = do
  raise_if (not (is_address_text addr)) (
      api_error (text "INVALID_WALLET_ADDRESS") (text "Invalid " ++ field_name ++ text ": " ++ addr)
        400)
  map_err exception (checksum addr)

abbrev pub invalid_amount : Str → Str → Raised
invalid_amount amount field_name =
    api_error (text "INVALID_AMOUNT")
      (text "Invalid "
        ++ field_name
        ++ text ": "
        ++ amount
        ++ text ". Must be a positive integer (wei).")
      400

-- `_validate_amount`
unfoldable pub validate_amount : Str → Str → Result Raised ℕ
validate_amount amount field_name = elim (parse_int amount) [
  | none ↦ err (invalid_amount amount field_name)
  | some (negsuc n) ↦ err (invalid_amount amount field_name)
  | some (pos n) ↦ if n == 0 then err (invalid_amount amount field_name) else ok n
]

-- `_validate_outcome`
unfoldable pub validate_outcome : Str → Result Raised Str
validate_outcome raw =
    let outcome = strip (lower raw) in
    if str_eq outcome (text "yes") || str_eq outcome (text "no")
    then ok outcome
    else err (
        api_error (text "INVALID_AMOUNT")
          (text "Invalid outcome: " ++ outcome ++ text ". Must be 'yes' or 'no'.") 400)

-- `_REGISTRY_CACHE`: `none` until the first use
abbrev pub Cache : Type 0
Cache = Option (Dict Str RegisteredMarket)

-- The dictionary of the markets that have an address; of two with one address the later stays.
unfoldable pub by_address :
    List RegisteredMarket → Dict Str RegisteredMarket → Dict Str RegisteredMarket
by_address [] d = d
by_address (m ∷ ms) d = elim m.market_address [
  | none ↦ by_address ms d
  | some a ↦ by_address ms (Dict.insert str_dec (lower a) m d)
]

unfoldable pub lower_keys :
    Dict Str RegisteredMarket → Dict Str RegisteredMarket → Dict Str RegisteredMarket
lower_keys [] d = d
lower_keys ((k, m) ∷ entries) d = lower_keys entries (Dict.insert str_dec (lower k) m d)

unfoldable pub index_file : RegistryFile → Dict Str RegisteredMarket
index_file missing = []
index_file (markets_object markets) = by_address markets []
index_file (bare_list markets) = []
index_file (keyed_object markets) = lower_keys markets []
index_file other_json = []

-- `_load_registry`, of the file at `_REGISTRY_PATH`: the cache afterwards
unfoldable pub load_registry : Cache → RegistryFile → Dict Str RegisteredMarket
load_registry none file = index_file file
load_registry (some registry) file = registry

abbrev pub market_not_found : Str → Raised
market_not_found addr = api_error (text "MARKET_NOT_FOUND") (text "Market not found: " ++ addr) 404

-- `_lookup_market`
unfoldable pub lookup_market :
    Checksum → Cache → RegistryFile → Str → Cache × Result Raised RegisteredMarket
lookup_market checksum cache file market_id =
    elim (validate_address checksum market_id (text "market_id")) [
      | err e ↦ (cache, err e)
      | ok addr ↦
          let registry = load_registry cache file in
          (
            some registry,
            or_raise (Dict.lookup str_dec (lower addr) registry) (market_not_found addr),
          )
    ]

-- `_resolve_token`: a missing key is a `KeyError`.
unfoldable pub resolve_token : Checksum → RegisteredMarket → Str → Result Raised Str
resolve_token checksum market outcome =
    if str_eq outcome (text "yes")
    then (do
      token ← or_raise market.yes_token (exception (text "'yes_token'"))
      map_err exception (checksum token))
    else (do
      token ← or_raise market.no_token (exception (text "'no_token'"))
      map_err exception (checksum token))

-- `_apply_slippage`, in Python's integers
unfoldable pub apply_slippage : ℕ → ℤ → ℤ
apply_slippage amount slippage_bps = floor_div (times amount (minus_int 10_000 slippage_bps)) 10_000

-- `_swap_deadline`
unfoldable pub swap_deadline : ℕ → ℕ
swap_deadline now = now / second + 1200

-- A transaction that web3 built, and the payload of the answer
pub record Tx : Type 0 where
  pub to : Str
  pub calldata : Str
  pub value : ℕ
  pub gas : Option ℕ

pub record UnsignedTxPayload : Type 0 where
  pub to : Str
  pub calldata : Str
  pub value : Str
  pub gas_estimate : Option ℕ
  pub description : Str

-- `_build_tx_payload`, over the gas estimation: where that fails the transaction's own gas stays.
unfoldable pub build_tx_payload : (Str → Tx → Result Str ℕ) → Tx → Str → Str → UnsignedTxPayload
build_tx_payload estimate_gas tx wallet description = record {
  to = tx.to;
  calldata = tx.calldata;
  value = decimal tx.value;
  gas_estimate = elim (estimate_gas wallet tx) [ ok g ↦ some g | err e ↦ tx.gas ];
  description = description;
}
