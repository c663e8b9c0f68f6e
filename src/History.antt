-- ===== src/History.antt =====
-- The price history endpoints: app/api/v1/history.py. The database client is that of Store, or absent;
-- F is the type of floats, and the reading of ISO times a parameter.
mod Answers
mod Tests
use ax_server.Prelude.{
  ℕ, ◌+◌, ◌-◌, ◌*◌, ◌/◌, Bool, ◌==◌, Option, none, some, List, [], ◌∷◌, ◌++◌, map, if◌then◌else◌,
  not,
}
use ax_server.Prelude.Int.{ℤ, pos, negsuc, minus, parse_int}
use ax_server.Prelude.Text.{Str, text, is_empty}
use ax_server.Prelude.Error.{
  Result, ok, err, Raised, api, exception, ◌>>=◌, ◌>>◌, raise_if, or_raise, map_err,
}
use ax_server.Predict.Orders.{api_error}
use ax_server.Store.{
  Client, CandleRec, TradeRec, Row, TimeArg, seconds, attributes, items, is_timeframe,
}
use ax_server.Store

-- `class MarketType`
pub data MarketType : Type 0 where
  spot : MarketType
  predict : MarketType
  perps : MarketType

pub record Candle (F : Type 0) : Type 0 where
  pub t : ℕ
  pub o : F
  pub h : F
  pub l : F
  pub c : F
  pub v : F

pub record CandleResponse (F : Type 0) : Type 0 where
  pub market_id : Str
  pub market_type : MarketType
  pub timeframe : Str
  pub candles : List (Candle F)

pub record TradeRecord (F : Type 0) : Type 0 where
  pub timestamp : ℕ
  pub price : F
  pub amount : F
  pub amount_usd : F
  pub side : Str
  pub tx_hash : Str

pub record TradeHistoryResponse (F : Type 0) : Type 0 where
  pub market_id : Str
  pub trades : List (TradeRecord F)

pub record LatestPriceResponse (F : Type 0) : Type 0 where
  pub market_id : Str
  pub price : F
  pub timestamp : ℕ
  pub market_type : MarketType

abbrev microsecond : ℕ
microsecond = 1_000_000

-- A list comprehension whose element may raise
unfoldable pub each : {A B : Type 0} → (A → Result Str B) → List A → Result Str (List B)
each f [] = ok []
each f (a ∷ rest_of) = let rest = each f rest_of in do b ← f a; bs ← rest; ok (b ∷ bs)

-- `value.replace("Z", "+00:00")`
unfoldable pub replace_z : Str → Str
replace_z [] = []
replace_z (c ∷ s) = let rest = replace_z s in if c == b'Z' then text "+00:00" ++ rest else c ∷ rest

abbrev pub invalid_timestamp : Str → Raised
invalid_timestamp value =
    api_error (text "INVALID_TIMESTAMP")
      (text "Cannot parse timestamp: '" ++ value ++ text "'. Use ISO-8601 or unix seconds.") 400

abbrev pub invalid_timeframe : Str → Raised
invalid_timeframe timeframe =
    api_error (text "INVALID_TIMEFRAME")
      (text "Invalid timeframe '" ++ timeframe ++ text "'. Allowed: 15m, 1d, 1h, 1m, 4h, 5m") 400

module _ (from_iso : Str → Option ℤ) where
  -- `_parse_timestamp`, over the seconds of `datetime.fromisoformat`
  unfoldable pub parse_timestamp : Str → Result Raised ℤ
  parse_timestamp value = elim (parse_int value) [
    | some n ↦ ok n
    | none ↦ or_raise (from_iso (replace_z value)) (invalid_timestamp value)
  ]

  -- `_parse_timestamp(start) if start else None`
  unfoldable pub parse_optional : Option Str → Result Raised (Option ℤ)
  parse_optional none = ok none
  parse_optional (some s) =
      let parsed = parse_timestamp s in if is_empty s then ok none else (do n ← parsed; ok (some n))

-- `if not start_ts`: zero counts as absent.
unfoldable pub or_default : Option ℤ → ℤ → ℤ
or_default none default = default
or_default (some (pos n)) default = if n == 0 then default else pos n
or_default (some (negsuc n)) default = negsuc n

abbrev pub week : ℕ
week = 7 * 86_400

-- `except Exception: candles = []`
unfoldable pub or_empty : {A : Type 0} → Result Str (List A) → List A
or_empty (ok l) = l
or_empty (err e) = []

abbrev pub service_unavailable : Raised
service_unavailable =
    api_error (text "SERVICE_UNAVAILABLE") (text "Price history service is not available") 503

abbrev pub no_price : Str → Raised
no_price market_id =
    api_error (text "NOT_FOUND") (text "No price data found for market '" ++ market_id ++ text "'")
      404

abbrev pub query_failed : Raised
query_failed = api_error (text "QUERY_FAILED") (text "Failed to fetch latest price") 502

module _ {F : Type 0} where
  -- One candle, which reads attributes of the row
  unfoldable pub candle_of : Row (CandleRec F) → Result Str (Candle F)
  candle_of row = do
    r ← attributes row
    ok (record {
      t = r.ts / microsecond;
      o = r.open_price;
      h = r.high;
      l = r.low;
      c = r.close;
      v = r.volume;
    })

  unfoldable pub trade_of : Row (TradeRec F) → Result Str (TradeRecord F)
  trade_of row = do
    r ← items row
    ok (record {
      timestamp = r.ts / microsecond;
      price = r.price;
      amount = r.amount;
      amount_usd = r.amount_usd;
      side = r.side;
      tx_hash = r.tx_hash;
    })

  -- The query of `get_candles` and its `except`
  unfoldable pub candles_from : Option (Client F) → Str → Str → ℤ → ℤ → ℕ → List (Candle F)
  candles_from none market_id timeframe start_ts end_ts limit = []
  candles_from (some qdb) market_id timeframe start_ts end_ts limit = or_empty (do
    rows ← Store.get_candles qdb market_id timeframe (seconds start_ts) (seconds end_ts) limit
    each candle_of rows)

  -- `get_candles`, at a time in seconds
  unfoldable pub get_candles :
      (Str → Option ℤ)
      → Option (Client F)
      → ℕ
      → Str
      → Str
      → MarketType
      → Option Str
      → Option Str
      → ℕ
      → Result Raised (CandleResponse F)
  get_candles from_iso qdb now market_id timeframe market_type start end limit = do
    raise_if (not (is_timeframe timeframe)) (invalid_timeframe timeframe)
    start_ts ← parse_optional from_iso start
    end_ts ← parse_optional from_iso end
    ok (record {
      market_id = market_id;
      market_type = market_type;
      timeframe = timeframe;
      candles =
          candles_from qdb market_id timeframe (or_default start_ts (minus now week))
            (or_default end_ts (pos now)) limit;
    })

  -- `get_trades`
  unfoldable pub get_trades : Option (Client F) → Str → ℕ → TradeHistoryResponse F
  get_trades none market_id limit = record { market_id = market_id; trades = [] }
  get_trades (some qdb) market_id limit = record {
    market_id = market_id;
    trades = or_empty (do rows ← Store.get_trade_history qdb market_id limit; each trade_of rows);
  }

  -- `get_latest_price`: any exception but the API error is answered with 502.
  unfoldable pub get_latest_price :
      Option (Client F) → Str → MarketType → Result Raised (LatestPriceResponse F)
  get_latest_price none market_id market_type = err service_unavailable
  get_latest_price (some qdb) market_id market_type = do
    row ← map_err (λ e. query_failed) (Store.get_latest_price qdb market_id)
    found ← or_raise row (no_price market_id)
    r ← map_err (λ e. query_failed) (items found)
    ok (record {
      market_id = market_id;
      price = r.price;
      timestamp = r.ts / microsecond;
      market_type = market_type;
    })

  -- `get_perps_candles`
  unfoldable pub get_perps_candles : Str → Str → ℕ → CandleResponse F
  get_perps_candles market_id timeframe limit = record {
    market_id = market_id;
    market_type = perps;
    timeframe = timeframe;
    candles = [];
  }
