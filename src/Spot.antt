-- ===== src/Spot.antt =====
-- The spot market endpoints: app/api/v1/spot.py. The reads of the contracts and of the node are a
-- parameter that returns or fails.
mod Pages
mod Tests
use ax_server.Prelude.{
  ℕ, zero, suc, ◌+◌, Bool, ◌&&◌, Option, none, some, List, [], ◌∷◌, ◌++◌, if◌then◌else◌, leb, ltb,
  length,
}
use ax_server.Prelude.Int.{ℤ, pos, negsuc, parse_int}
use ax_server.Prelude.Text.{Str, text, is_empty, str_eq}
use ax_server.Prelude.Text.Search.{decimal}
use ax_server.Prelude.Error.{Result, ok, err, Raised, exception, ◌>>=◌, or_raise}
use ax_server.Chain.Eip7412.{int_str, plus_int}

pub record SpotMarket : Type 0 where
  pub market_id : ℕ
  pub name : Str
  pub synth_address : Str

pub record PaginatedMarkets : Type 0 where
  pub markets : List SpotMarket
  pub next_cursor : Option Str
  pub has_more : Bool

-- The fees of a quote
pub record Fees : Type 0 where
  pub fixed_fees : ℕ
  pub utilization_fees : ℕ
  pub skew_fees : ℤ
  pub wrapper_fees : ℤ

pub record SpotQuote : Type 0 where
  pub market_id : ℤ
  pub side : Str
  pub amount_in : Str
  pub amount_out : Str
  pub fee : Str

pub record BatchPriceEntry : Type 0 where
  pub price : Str
  pub timestamp : ℕ

pub record SpotPrice (F : Type 0) : Type 0 where
  pub market_id : ℕ
  pub buy_price : F
  pub sell_price : F
  pub timestamp : ℕ

-- The client's reads, and the time of the latest block
pub record SpotReads : Type 0 where
  pub market_name : ℕ → Result Str Str
  pub synth_address : ℕ → Result Str Str
  pub index_price : ℕ → Result Str ℕ
  pub block_time : Result Str ℕ
  pub quote_buy : ℤ → ℤ → Result Str (ℕ × Fees)
  pub quote_sell : ℤ → ℤ → Result Str (ℕ × Fees)

-- `_MAX_MARKET_SCAN`, and the misses that end a scan
abbrev pub max_market_scan : ℕ
max_market_scan = 50

abbrev pub max_misses : ℕ
max_misses = 5

-- The variables of the loop
pub record Scan : Type 0 where
  pub markets : List SpotMarket
  pub consecutive_misses : ℕ
  pub last_found_id : Option ℕ

-- `a or b` of two texts
abbrev or_else : Str → Str → Str
or_else a b = if is_empty a then b else a

abbrev or_nought : Result Str ℕ → ℕ
or_nought (ok n) = n
or_nought (err e) = 0

abbrev cursor_text : Option ℕ → Option Str
cursor_text none = none
cursor_text (some id) = some (decimal id)

abbrev start_id : Option ℕ → ℕ
start_id none = 1
start_id (some cursor) = cursor + 1

abbrev pub empty_scan : Scan
empty_scan = record { markets = []; consecutive_misses = 0; last_found_id = none }

-- The answer after the loop
unfoldable pub page_of : ℕ → Scan → PaginatedMarkets
page_of limit s =
    let has_more = leb limit (length s.markets) && ltb s.consecutive_misses max_misses in
    record {
      markets = s.markets;
      next_cursor = if has_more then cursor_text s.last_found_id else none;
      has_more = has_more;
    }

abbrev magnitude_of : ℤ → ℕ
magnitude_of (pos n) = n
magnitude_of (negsuc n) = n + 1

unfoldable pub total_fee : Fees → ℕ
total_fee f =
    f.fixed_fees + f.utilization_fees + magnitude_of f.skew_fees + magnitude_of f.wrapper_fees

module _ (reads : SpotReads) where
  -- The `try` of one round
  unfoldable pub read_market : ℕ → Result Str SpotMarket
  read_market mid = do
    name ← reads.market_name mid
    address ← reads.synth_address mid
    ok (record {
      market_id = mid;
      name = or_else name (text "Synth " ++ decimal mid);
      synth_address = address;
    })

  -- The loop, with some ids left from one on
  unfoldable pub scan_markets : ℕ → ℕ → ℕ → Scan → Scan
  scan_markets limit zero mid s = s
  scan_markets limit (suc left) mid s =
      let missed : Scan = record s { consecutive_misses = s.consecutive_misses + 1 } in
      let after_miss = scan_markets limit left (mid + 1) missed in
      if leb limit (length s.markets) then s else elim (read_market mid) [
        | ok m ↦ scan_markets limit left (mid + 1) (record {
          markets = s.markets ++ m ∷ [];
          consecutive_misses = 0;
          last_found_id = some mid;
        })
        | err e ↦ if leb max_misses (s.consecutive_misses + 1) then missed else after_miss
      ]

  -- `list_spot_markets`
  unfoldable pub list_spot_markets : Option ℕ → ℕ → PaginatedMarkets
  list_spot_markets cursor limit =
      page_of limit (scan_markets limit max_market_scan (start_id cursor) empty_scan)

  unfoldable pub read_price : ℕ → Result Str BatchPriceEntry
  read_price mid = do
    price ← reads.index_price mid
    timestamp ← reads.block_time
    ok (record { price = decimal price; timestamp = timestamp })

  -- The loop of `get_batch_prices`, with some ids left from one on
  unfoldable pub batch_from : ℕ → ℕ → List (Str × BatchPriceEntry)
  batch_from zero mid = []
  batch_from (suc left) mid =
      let rest = batch_from left (mid + 1) in
      elim (read_price mid) [ ok entry ↦ (decimal mid, entry) ∷ rest | err e ↦ rest ]

  -- `get_batch_prices`
  unfoldable pub get_batch_prices : List (Str × BatchPriceEntry)
  get_batch_prices = batch_from 15 1

  -- `get_spot_quote`, whose side the framework has checked: a quote that fails is zero.
  unfoldable pub get_spot_quote : ℤ → Str → Str → Result Raised SpotQuote
  get_spot_quote market_id side amount = do
    amount_wei ←
        or_raise (parse_int amount) (exception (text "invalid literal for int() with base 10"))
    let quoted =
        if str_eq side (text "buy")
        then reads.quote_buy market_id amount_wei
        else reads.quote_sell market_id amount_wei
    let shown = elim quoted as (λ r. Str × Str) [
      | ok (out, fees) ↦ (decimal out, decimal (total_fee fees))
      | err e ↦ (text "0", text "0")
    ]
    ok (record {
      market_id = market_id;
      side = side;
      amount_in = amount;
      amount_out = shown.0;
      fee = shown.1;
    })

  -- `get_spot_price`, over the price as a float, which is zero where it cannot be read
  unfoldable pub get_spot_price : {F : Type 0} → (ℕ → F) → ℕ → SpotPrice F
  get_spot_price scaled market_id =
      let price = scaled (or_nought (reads.index_price market_id)) in
      record {
        market_id = market_id;
        buy_price = price;
        sell_price = price;
        timestamp = or_nought reads.block_time;
      }
