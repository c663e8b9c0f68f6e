-- ===== src/Store.antt =====
-- The reads of the time series database: app/services/questdb_client.py. The connection pool is a
-- parameter whose queries return rows or fail, and F is the type of floats.
pub mod Lines
use ax_server.Prelude.{ℕ, Bool, ◌||◌, Option, none, some, List, [], ◌∷◌, map, if◌then◌else◌, not}
use ax_server.Prelude.Int.{ℤ}
use ax_server.Prelude.Dict.{Dict}
use ax_server.Prelude.Text.{Str, text, str_eq, str_dec, lower, is_empty}
use ax_server.Prelude.Error.{Result, ok, err, ◌>>=◌, ◌>>◌, raise_if, or_raise}
use ax_server.Prelude.Dict

-- Rows of the database; times are in microseconds.
pub record CandleRec (F : Type 0) : Type 0 where
  pub ts : ℕ
  pub open_price : F
  pub high : F
  pub low : F
  pub close : F
  pub volume : F
  pub trade_count : ℕ

pub record TradeRec (F : Type 0) : Type 0 where
  pub ts : ℕ
  pub price : F
  pub amount : F
  pub amount_usd : F
  pub side : Str
  pub tx_hash : Str

pub record VolumeRec (F : Type 0) : Type 0 where
  pub pair_address : Option Str
  pub vol_24h : Option F
  pub vol_lifetime : Option F

pub record VolumeStats (F : Type 0) : Type 0 where
  pub day : F
  pub lifetime : F

-- An argument of a query for a time: a `datetime`, or a number of seconds
pub data TimeArg : Type 0 where
  datetime : ℕ → TimeArg
  seconds : ℤ → TimeArg

-- What the reads give: `dict(r)`. Its keys are no attributes.
pub data Row (A : Type 0) : Type 0 where
  dict_row : A → Row A
  object_row : A → Row A

unfoldable pub items : {A : Type 0} → Row A → Result Str A
items (dict_row a) = ok a
items (object_row a) = err (text "object is not subscriptable")

unfoldable pub attributes : {A : Type 0} → Row A → Result Str A
attributes (dict_row a) = err (text "'dict' object has no attribute 'ts'")
attributes (object_row a) = ok a

-- The queries, by the column that they filter, its value, the interval, the times and the limit
pub record Pool (F : Type 0) : Type 0 where
  pub fetch_candles : Str → Str → Str → TimeArg → TimeArg → ℕ → Result Str (List (CandleRec F))
  pub fetch_volumes : Str → Result Str (List (VolumeRec F))
  pub fetch_latest : Str → Result Str (Option (TradeRec F))
  pub fetch_trades : Str → ℕ → Result Str (List (TradeRec F))
  pub fetch_market_types : Result Str (List Str)

-- `_pool`: none before `init`, and after it where the database is out of reach
abbrev pub Client : Type 0 → Type 0
Client F = Option (Pool F)

-- `OSError` and `PostgresError` are caught, and no other.
pub data ConnectError : Type 0 where
  unreachable : Str → ConnectError
  other_error : Str → ConnectError

-- `ALLOWED_TIMEFRAMES`
unfoldable pub is_timeframe : Str → Bool
is_timeframe t =
    str_eq t (text "1m")
    || str_eq t (text "5m")
    || str_eq t (text "15m")
    || str_eq t (text "1h")
    || str_eq t (text "4h")
    || str_eq t (text "1d")

unfoldable pub handled : ConnectError → Result Str (Unit {0})
handled (unreachable e) = ok tt
handled (other_error e) = err e

-- `r["vol_24h"] or 0.0`
abbrev or_zero : {F : Type 0} → F → Option F → F
or_zero zero none = zero
or_zero zero (some v) = v

-- The lower-case pairs with their volumes; rows without a pair are skipped.
unfoldable pub volume_stats :
    {F : Type 0} → F → List (VolumeRec F) → Dict Str (VolumeStats F) → Dict Str (VolumeStats F)
volume_stats zero [] stats = stats
volume_stats zero (r ∷ rows) stats = elim r.pair_address [
  | none ↦ volume_stats zero rows stats
  | some pair ↦
      let stats' =
        Dict.insert str_dec (lower pair)
          (record { day = or_zero zero r.vol_24h; lifetime = or_zero zero r.vol_lifetime }) stats in
      volume_stats zero rows (if is_empty pair then stats else stats')
]

module _ {F : Type 0} where
  -- `init`: the pool stays when the tables cannot be made.
  unfoldable pub init :
      Result ConnectError (Pool F)
      → (Pool F → Result ConnectError (Unit {0}))
      → Client F
      → Client F × Result Str (Unit {0})
  init (err e) ensure_tables client = (client, handled e)
  init (ok pool) ensure_tables client =
      (some pool, elim (ensure_tables pool) [ ok done ↦ ok tt | err e ↦ handled e ])

  -- `close`: the pool stays when its own closing raises.
  unfoldable pub close :
      (Pool F → Result Str (Unit {0})) → Client F → Client F × Result Str (Unit {0})
  close close_pool none = (none, ok tt)
  close close_pool (some pool) = elim (close_pool pool) [
    | ok done ↦ (none, ok tt)
    | err e ↦ (some pool, err e)
  ]

  -- `_require_pool`
  unfoldable pub require_pool : Client F → Result Str (Pool F)
  require_pool client = or_raise client (text "QuestDB client not initialised — call init() first")

  -- `get_candles` and `get_candles_by_pair`, which differ in the column alone
  unfoldable pub candles_by :
      Str → Client F → Str → Str → TimeArg → TimeArg → ℕ → Result Str (List (Row (CandleRec F)))
  candles_by column client value timeframe start_ts end_ts limit = do
    raise_if (not (is_timeframe timeframe)) (text "Invalid timeframe")
    pool ← require_pool client
    rows ← pool.fetch_candles column value timeframe start_ts end_ts limit
    ok (map dict_row rows)

  unfoldable pub get_candles :
      Client F → Str → Str → TimeArg → TimeArg → ℕ → Result Str (List (Row (CandleRec F)))
  get_candles = candles_by (text "market_id")

  unfoldable pub get_candles_by_pair :
      Client F → Str → Str → TimeArg → TimeArg → ℕ → Result Str (List (Row (CandleRec F)))
  get_candles_by_pair = candles_by (text "pair_address")

  -- `self._get_pool`: the class has no attribute of this name.
  unfoldable pub get_pool : Client F → Result Str (Pool F)
  get_pool client = err (text "'QuestDBClient' object has no attribute '_get_pool'")

  -- `get_volume_stats_by_pair`
  unfoldable pub get_volume_stats_by_pair :
      F → Client F → Str → Result Str (Dict Str (VolumeStats F))
  get_volume_stats_by_pair zero client market_type = do
    pool ← get_pool client
    rows ← pool.fetch_volumes market_type
    ok (volume_stats zero rows [])

  -- `get_latest_price`
  unfoldable pub get_latest_price : Client F → Str → Result Str (Option (Row (TradeRec F)))
  get_latest_price client market_id = do
    pool ← require_pool client
    row ← pool.fetch_latest market_id
    ok (elim row [ none ↦ none | some r ↦ some (dict_row r) ])

  -- `get_trade_history`
  unfoldable pub get_trade_history : Client F → Str → ℕ → Result Str (List (Row (TradeRec F)))
  get_trade_history client market_id limit = do
    pool ← require_pool client
    rows ← pool.fetch_trades market_id limit
    ok (map dict_row rows)

  -- `get_market_types`
  unfoldable pub get_market_types : Client F → Result Str (List Str)
  get_market_types client = do pool ← require_pool client; pool.fetch_market_types
