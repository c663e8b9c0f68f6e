-- ===== src/Ingest/Backfill.antt =====
-- The backfill and the loop of the worker in app/services/price_ingest.py. An answer of the subgraph
-- that cannot be read, such as a reserve that is no number, is one that fails: either has the same
-- effect in the source. Reserves and volumes are in units of 10^-18.
pub mod Runs
use ax_server.Prelude.{
  ℕ, ◌*◌, Bool, true, false, Option, List, [], ◌∷◌, ◌++◌, map, leb, ltb, ◌&&◌, if◌then◌else◌,
}
use ax_server.Prelude.Text.{Str, text, is_empty}
use ax_server.Prelude.Text.Search.{decimal}
use ax_server.Prelude.Error.{Result, ok, err}
use ax_server.Ingest.{Swap, Ratio, TradeRow, buy, classify_market, Worker, poll_swaps}

-- A pair of the subgraph, and a day of it
pub record BackfillPair : Type 0 where
  pub id : Str
  pub symbol0 : Str
  pub symbol1 : Str

pub record DayData : Type 0 where
  pub date : ℕ
  pub reserve0 : ℕ
  pub reserve1 : ℕ
  pub daily_volume_usd : ℕ

-- What a backfill meets: the answers of the subgraph, and whether a write succeeds
pub record BackfillAnswers : Type 0 where
  pub get_all_pairs : Result Str (List BackfillPair)
  pub get_pair_day_data : Str → Result Str (List DayData)
  pub ingest_trades : List TradeRow → Bool

abbrev nought : Ratio
nought = record { num = 0; den = 1 }

-- `r1 / r0`, or 0.0
unfoldable pub day_price : DayData → Ratio
day_price dd = if ltb 0 dd.reserve0 then record { num = dd.reserve1; den = dd.reserve0 } else nought

-- `vol / max(price, 0.001) if price > 0 else 0`
unfoldable pub day_amount : DayData → Ratio
day_amount dd =
    if ltb 0 dd.reserve0 && ltb 0 dd.reserve1
    then (if leb dd.reserve0 (1000 * dd.reserve1)
        then record { num = dd.daily_volume_usd * dd.reserve0; den = dd.reserve1 }
        else record { num = dd.daily_volume_usd * 1000; den = 1 })
    else nought

-- The row of a day
unfoldable pub day_trade : BackfillPair → DayData → TradeRow
day_trade pair dd = record {
  ts = dd.date;
  market_id = pair.symbol0 ++ text "-" ++ pair.symbol1;
  market_type = classify_market pair.symbol0 pair.symbol1;
  price = day_price dd;
  amount = day_amount dd;
  amount_usd = dd.daily_volume_usd;
  side = buy;
  tx_hash = text "backfill-" ++ pair.id ++ text "-" ++ decimal dd.date;
  pair_address = pair.id;
}

-- The `try` of one pair, on the rows that QuestDB has
unfoldable pub backfill_pair : BackfillAnswers → BackfillPair → List TradeRow → List TradeRow
backfill_pair history pair rows = elim (history.get_pair_day_data pair.id) [
  | err e ↦ rows
  | ok day_datas ↦
      let trades = map (day_trade pair) day_datas in
      if is_empty day_datas
      then rows
      else if history.ingest_trades trades
      then rows ++ trades
      else rows
]

unfoldable pub backfill_pairs : BackfillAnswers → List BackfillPair → List TradeRow → List TradeRow
backfill_pairs history [] rows = rows
backfill_pairs history (pair ∷ pairs) rows =
    backfill_pairs history pairs (backfill_pair history pair rows)

-- `_backfill`: nothing that it meets is raised.
unfoldable pub backfill : BackfillAnswers → List TradeRow → List TradeRow
backfill history rows = elim history.get_all_pairs [
  | err e ↦ rows
  | ok pairs ↦ backfill_pairs history pairs rows
]

-- `_running`, `_backfilled`, and the rest of the worker
pub record IngestTask : Type 0 where
  pub running : Bool
  pub backfilled : Bool
  pub worker : Worker

-- What a round of the loop meets
pub record Round : Type 0 where
  pub history : BackfillAnswers
  pub swaps : Option (List Swap)
  pub written : Bool

-- `start` and `stop`
unfoldable pub start_ingest : IngestTask → IngestTask
start_ingest t = record t { running = true }

unfoldable pub stop_ingest : IngestTask → IngestTask
stop_ingest t = record t { running = false }

-- The one-time backfill of a round
unfoldable pub ensure_backfilled : BackfillAnswers → IngestTask → IngestTask
ensure_backfilled history t = if t.backfilled then t else record t {
  backfilled = true;
  worker = record t.worker { rows = backfill history t.worker.rows };
}

-- A round of `_run`
unfoldable pub ingest_round : IngestTask → Round → IngestTask
ingest_round t r =
    let u = ensure_backfilled r.history t in
    record u { worker = poll_swaps u.worker r.swaps r.written }

-- `_run`, for some rounds
unfoldable pub run_ingest : IngestTask → List Round → IngestTask
run_ingest t [] = t
run_ingest t (r ∷ rounds) = run_ingest (if t.running then ingest_round t r else t) rounds
