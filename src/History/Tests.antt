-- ===== src/History/Tests.antt =====
-- The price history endpoints at concrete inputs.
use ax_server.Prelude.{ℕ, ◌≡◌, refl, some, none, [], ◌∷◌, Option}
use ax_server.Prelude.Int.{ℤ}
use ax_server.Prelude.Text.{Str, text}
use ax_server.Prelude.Error.{ok, err}
use ax_server.Store.{Client, Pool, CandleRec, is_timeframe, require_pool, items}
use ax_server.History.{
  spot, get_candles, get_latest_price, query_failed, get_trades, or_empty, each,
}
use ax_server.History.Answers.{CandlesAnswer, get_candles-cases}
use ax_server.Store

abbrev candle : CandleRec ℕ
candle = record {
  ts = 1_700_000_000_000_000;
  open_price = 1;
  high = 4;
  low = 1;
  close = 3;
  volume = 20;
  trade_count = 2;
}

abbrev pool : Pool ℕ
pool = record {
  fetch_candles = λ column value interval start end limit. ok (candle ∷ []);
  fetch_volumes = λ market_type. ok [];
  fetch_latest = λ market_id. err (text "timeout");
  fetch_trades = λ market_id limit. ok [];
  fetch_market_types = ok [];
}

abbrev no_iso : Str → Option ℤ
no_iso s = none

-- The database has a candle, and the answer has none.
get_candles-cases_example : CandlesAnswer no_iso (text "1h") none none (
    get_candles no_iso
      (some (some pool))
      1_700_000_000
      (text "axBTC")
      (text "1h")
      spot
      none
      none
      500)
get_candles-cases_example =
    get_candles-cases no_iso (some (some pool)) 1_700_000_000 (text "axBTC") (text "1h") spot none
      none 500

failed : get_latest_price (some (some pool)) (text "axBTC") spot ≡ err query_failed
unfolding get_latest_price Store.get_latest_price require_pool
failed = refl

unknown :
    get_trades (some (some pool)) (text "axBTC") 10
    ≡ record { market_id = text "axBTC"; trades = [] }
unfolding get_trades Store.get_trade_history require_pool or_empty each
unknown = refl
