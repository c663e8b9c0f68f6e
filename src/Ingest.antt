-- ===== src/Ingest.antt =====
-- The price ingest worker: app/services/price_ingest.py. Amounts are in units of 10^-18, the
-- subgraph's precision; prices and the amounts of rows are exact ratios. The subgraph and QuestDB are arguments: what a
-- query returned, and whether a write succeeded.
pub mod Once
pub mod Late
pub mod Backfill
mod Tests
use ax_server.Prelude.{
  ℕ, ◌+◌, Bool, ◌&&◌, ◌||◌, Option, none, some, List, [], ◌∷◌, ◌++◌, keep_if, ltb, max,
  if◌then◌else◌,
}
use ax_server.Prelude.Text.{Str, text, upper, has_infix, is_empty}

-- A swap of the subgraph
pub record Swap : Type 0 where
  pub id : Str
  pub timestamp : ℕ
  pub pair_id : Str
  pub symbol0 : Str
  pub symbol1 : Str
  pub amount0_in : ℕ
  pub amount1_in : ℕ
  pub amount0_out : ℕ
  pub amount1_out : ℕ
  pub amount_usd : ℕ

pub data MarketType : Type 0 where
  spot predict perps : MarketType

-- The two tests of the loop in `_classify_market`, for one symbol
unfoldable pub class_of : Str → Option MarketType
class_of s =
    if has_infix (text "YES") s || has_infix (text "NO") s || has_infix (text "PREDICT") s
    then some predict
    else if has_infix (text "PERP") s || has_infix (text "LONG") s || has_infix (text "SHORT") s
    then some perps
    else none

-- `_classify_market`
unfoldable pub classify_market : Str → Str → MarketType
classify_market token0_symbol token1_symbol = elim (class_of (upper token0_symbol)) [
  | some t ↦ t
  | none ↦ elim (class_of (upper token1_symbol)) [ some t ↦ t | none ↦ spot ]
]

pub data Side : Type 0 where
  buy sell : Side

-- A price or an amount n / d
pub record Ratio : Type 0 where
  pub num : ℕ
  pub den : ℕ

-- `TradeRow`
pub record TradeRow : Type 0 where
  pub ts : ℕ
  pub market_id : Str
  pub market_type : MarketType
  pub price : Ratio
  pub amount : Ratio
  pub amount_usd : ℕ
  pub side : Side
  pub tx_hash : Str
  pub pair_address : Str

abbrev trade : Swap → Ratio → Side → ℕ → TradeRow
trade s price side amount = record {
  ts = s.timestamp;
  market_id = s.symbol0 ++ text "-" ++ s.symbol1;
  market_type = classify_market s.symbol0 s.symbol1;
  price = price;
  amount = record { num = amount; den = 1 };
  amount_usd = s.amount_usd;
  side = side;
  tx_hash = s.id;
  pair_address = s.pair_id;
}

-- The body of the loop of `_poll_swaps`: `none` is its `continue`
unfoldable pub trade_of : Swap → Option TradeRow
trade_of s =
    if ltb 0 s.amount0_in && ltb 0 s.amount1_out
    then some (trade s (record { num = s.amount0_in; den = s.amount1_out }) sell s.amount1_out)
    else if ltb 0 s.amount1_in && ltb 0 s.amount0_out
    then some (trade s (record { num = s.amount1_in; den = s.amount0_out }) buy s.amount0_out)
    else none

unfoldable pub trades_of : List Swap → List TradeRow
trades_of [] = []
trades_of (s ∷ swaps) =
    let rest = trades_of swaps in elim (trade_of s) [ none ↦ rest | some t ↦ t ∷ rest ]

-- `max(int(s.get("timestamp", 0)) for s in new_swaps)`
unfoldable pub max_timestamp : List Swap → ℕ
max_timestamp [] = 0
max_timestamp (s ∷ swaps) = max s.timestamp (max_timestamp swaps)

-- The worker's high-water mark, and the rows that QuestDB has taken
pub record Worker : Type 0 where
  pub last_swap_ts : ℕ
  pub rows : List TradeRow

unfoldable pub new_swaps : ℕ → List Swap → List Swap
new_swaps mark swaps = keep_if (λ s. ltb mark s.timestamp) swaps

-- `_poll_swaps`: the swaps are `none` where the query raised; a write that fails raises and takes
-- nothing.
unfoldable pub poll_swaps : Worker → Option (List Swap) → Bool → Worker
poll_swaps w none written = w
poll_swaps w (some swaps) written =
    let fresh = new_swaps w.last_swap_ts swaps in
    if is_empty (trades_of fresh)
    then w
    else if written
    then record { last_swap_ts = max_timestamp fresh; rows = w.rows ++ trades_of fresh }
    else w
