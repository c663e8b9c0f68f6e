-- ===== src/Store/Lines.antt =====
-- The bulk write of app/services/questdb_client.py, and the daily volumes that no code asks for. The
-- sender of the ingestion protocol is a parameter that takes all lines or raises.
use ax_server.Prelude.{ℕ, ◌*◌, ◌^◌, Option, none, some, List, [], ◌∷◌, map, if◌then◌else◌}
use ax_server.Prelude.Dict.{Dict}
use ax_server.Prelude.Text.{Str, text, str_dec, is_empty}
use ax_server.Prelude.Error.{Result, ok, ◌>>=◌}
use ax_server.Ingest.{TradeRow, Ratio, MarketType, spot, predict, perps, Side, buy, sell}
use ax_server.Store.{Client, get_pool}
use ax_server.Prelude.Dict

-- A line for the sender: the table, the symbols, the columns, and the time in nanoseconds
pub record Line : Type 0 where
  pub table : Str
  pub market_id : Str
  pub market_type : Str
  pub side : Str
  pub tx_hash : Str
  pub pair_address : Str
  pub price : Ratio
  pub amount : Ratio
  pub amount_usd : ℕ
  pub at : ℕ

unfoldable pub market_type_text : MarketType → Str
market_type_text spot = text "spot"
market_type_text predict = text "predict"
market_type_text perps = text "perps"

unfoldable pub side_text : Side → Str
side_text buy = text "buy"
side_text sell = text "sell"

-- The row of a trade, whose time is in seconds
unfoldable pub line_of : TradeRow → Line
line_of t = record {
  table = text "trades";
  market_id = t.market_id;
  market_type = market_type_text t.market_type;
  side = side_text t.side;
  tx_hash = t.tx_hash;
  pair_address = t.pair_address;
  price = t.price;
  amount = t.amount;
  amount_usd = t.amount_usd;
  at = t.ts * 10 ^ 9;
}

-- `ingest_trades`: a failure of the sender is logged and raised again.
unfoldable pub ingest_trades :
    (List Line → Result Str (Unit {0})) → List TradeRow → Result Str (Unit {0})
ingest_trades send trades = if is_empty trades then ok tt else send (map line_of trades)

-- A row of the query of `get_24h_volume`
pub record DayVolume (F : Type 0) : Type 0 where
  pub market_id : Str
  pub volume_usd : Option F

module _ {F : Type 0} (zero : F) where
  unfoldable pub day_volumes : List (DayVolume F) → Dict Str F → Dict Str F
  day_volumes [] result = result
  day_volumes (r ∷ rows) result =
      let vol : F = elim r.volume_usd [ none ↦ zero | some v ↦ v ] in
      day_volumes rows (Dict.insert str_dec r.market_id vol result)

  -- `get_24h_volume`, which asks for the pool by the missing attribute too
  unfoldable pub get_24h_volume :
      Client F → (Str → Result Str (List (DayVolume F))) → Str → Result Str (Dict Str F)
  get_24h_volume client fetch market_type = do
    pool ← get_pool client
    rows ← fetch market_type
    ok (day_volumes rows [])
