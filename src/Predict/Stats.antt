-- ===== src/Predict/Stats.antt =====
-- The statistics of app/api/v1/predict.py: recent trades and the leaderboard, from the swaps that the
-- subgraph has for the pairs of the registry. F is the type of floats with the operations that the
-- handlers use; the subgraph and the calendar are a parameter.
mod Totals
mod Ranking
mod Wallets
mod Accounts
mod Leaderboard
mod Tests
use ax_server.Prelude.{
  ℕ, ◌+◌, Bool, ◌||◌, Option, none, some, List, [], ◌∷◌, ◌++◌, map, if◌then◌else◌, take,
}
use ax_server.Prelude.Int.{ℤ, pos, parse_int}
use ax_server.Prelude.Dict.{Dict}
use ax_server.Prelude.Dict
use ax_server.Prelude.Text.{Str, text, lower, is_empty, str_dec, has_infix, until}
use ax_server.Prelude.Error.{Result, ok, err, ◌>>=◌, or_raise}
use ax_server.Predict.Registry.{
  RegisteredMarket, RegistryFile, missing, markets_object, bare_list, keyed_object, other_json,
}
use ax_server.History.{each}
use mathlib.Core.Option

-- `0`, `+`, `<`, and `float` of a text
pub record Floats (F : Type 0) : Type 0 where
  pub zero : F
  pub add : F → F → F
  pub lt : F → F → Bool
  pub parse : Str → Option F

-- A swap of the subgraph's answer: `none` is a missing key.
pub record Swap : Type 0 where
  pub id : Option Str
  pub sender : Option Str
  pub timestamp : Option Str
  pub amount0_in : Option Str
  pub amount_usd : Option Str
  pub symbol0 : Option Str
  pub symbol1 : Option Str

-- The answer to a query for some pairs, `none` for a status other than 200, and
-- `datetime.fromtimestamp(...).isoformat()`
pub record Outside : Type 0 where
  pub post : List Str → ℕ → Result Str (Option (List Swap))
  pub isoformat : ℤ → Result Str Str

-- `_load_registry`, of which the module's second definition is the one that is called
unfoldable pub load_markets : RegistryFile → Result Str (List RegisteredMarket)
load_markets missing = ok []
load_markets (markets_object markets) = ok markets
load_markets (bare_list markets) = err (text "'list' object has no attribute 'get'")
load_markets (keyed_object markets) = ok []
load_markets other_json = err (text "no object")

abbrev truthy : Option Str → List Str
truthy none = []
truthy (some s) = if is_empty s then [] else s ∷ []

-- The pools of all markets
unfoldable pub pair_addresses : List RegisteredMarket → List Str
pair_addresses [] = []
pair_addresses (m ∷ ms) = truthy m.yes_pair_address ++ truthy m.no_pair_address ++ pair_addresses ms

-- What the two handlers answer: the rows, and where they are from
pub record Sourced (A : Type 0) : Type 0 where
  pub rows : List A
  pub source : Str

abbrev no_rows : {A : Type 0} → Str → Sourced A
no_rows source = record { rows = []; source = source }

unfoldable pub with_swaps :
    {A : Type 0}
    → Outside
    → RegistryFile
    → ℕ
    → (List Swap → Result Str (List A))
    → Result Str (Sourced A)
with_swaps outside file first rows_of = do
  registry ← load_markets file
  (elim registry [
    | [] ↦ ok (no_rows (text "empty"))
    | m ∷ ms ↦ elim (pair_addresses (m ∷ ms)) [
      | [] ↦ ok (no_rows (text "no_pairs"))
      | p ∷ ps ↦ (do
        answer ← outside.post (p ∷ ps) first
        (elim answer [
          | none ↦ ok (no_rows (text "subgraph_error"))
          | some swaps ↦ (do
            rows ← rows_of swaps
            ok (record { rows = rows; source = text "subgraph" }))
        ]))
    ]
  ])

-- `except Exception`
unfoldable pub or_error : {A : Type 0} → Result Str (Sourced A) → Sourced A
or_error (ok answer) = answer
or_error (err e) = no_rows (text "error")

pub record Trader (F : Type 0) : Type 0 where
  pub wallet : Str
  pub total_volume : F
  pub trade_count : ℕ
  pub last_trade : Str

pub record Trade (F : Type 0) : Type 0 where
  pub wallet : Str
  pub side : Str
  pub amount_usd : F
  pub timestamp : Str
  pub tx_hash : Str
  pub token_symbol : Str
  pub market_name : Str

-- `"YES" in t or "NO" in t`
unfoldable pub is_outcome_token : Str → Bool
is_outcome_token t = has_infix (text "YES") t || has_infix (text "NO") t

abbrev pub sender_of : Swap → Str
sender_of s = lower (Option.get_or s.sender [])

module _ {F : Type 0} (floats : Floats F) where
  -- `float(s.get("amountUSD", 0))`
  unfoldable pub float_of : Option Str → Result Str F
  float_of none = ok floats.zero
  float_of (some s) = or_raise (floats.parse s) (text "could not convert string to float")

  abbrev pub new_trader : Swap → Trader F
  new_trader s = record {
    wallet = sender_of s;
    total_volume = floats.zero;
    trade_count = 0;
    last_trade = Option.get_or s.timestamp (text "0");
  }

  abbrev pub counted : F → Trader F → Trader F
  counted volume t = record t {
    total_volume = floats.add t.total_volume volume;
    trade_count = t.trade_count + 1;
  }

  -- One round of the aggregation by sender
  abbrev pub count_swap : Dict Str (Trader F) → Swap → F → Dict Str (Trader F)
  count_swap traders s volume =
      let known = Option.get_or (Dict.lookup str_dec (sender_of s) traders) (new_trader s) in
      Dict.insert str_dec (sender_of s) (counted volume known) traders

  unfoldable pub aggregate : List Swap → Dict Str (Trader F) → Result Str (Dict Str (Trader F))
  aggregate [] traders = ok traders
  aggregate (s ∷ swaps) traders = do
    volume ← float_of s.amount_usd
    aggregate swaps (count_swap traders s volume)

  -- `sorted(..., key=total_volume, reverse=True)`, which keeps the order of equals
  unfoldable pub insert_trader : Trader F → List (Trader F) → List (Trader F)
  insert_trader t [] = t ∷ []
  insert_trader t (u ∷ us) =
      let rest = insert_trader t us in
      if floats.lt t.total_volume u.total_volume then u ∷ rest else t ∷ u ∷ us

  unfoldable pub sort_traders : List (Trader F) → List (Trader F)
  sort_traders [] = []
  sort_traders (t ∷ ts) = insert_trader t (sort_traders ts)

  unfoldable pub values : Dict Str (Trader F) → List (Trader F)
  values [] = []
  values ((k, t) ∷ d) = t ∷ values d

  -- The last loop, which writes the time as ISO text
  unfoldable pub date_trader : Outside → Trader F → Result Str (Trader F)
  date_trader outside t = do
    ts ← or_raise (parse_int t.last_trade) (text "invalid literal for int() with base 10")
    date ← outside.isoformat ts
    ok (record t { last_trade = date })

  unfoldable pub leaders : Outside → ℕ → List Swap → Result Str (List (Trader F))
  leaders outside limit swaps = do
    traders ← aggregate swaps []
    each (date_trader outside) (take limit (sort_traders (values traders)))

  -- `get_prediction_leaderboard`, over at most 500 swaps
  unfoldable pub get_prediction_leaderboard : Outside → RegistryFile → ℕ → Sourced (Trader F)
  get_prediction_leaderboard outside file limit =
      or_error (with_swaps outside file 500 (leaders outside limit))

  -- One row of the trades
  unfoldable pub trade_row : Outside → Swap → Result Str (Trade F)
  trade_row outside s = do
    amount0 ← float_of s.amount0_in
    let t0 = Option.get_or s.symbol0 []
    let t1 = Option.get_or s.symbol1 []
    let token = if floats.lt floats.zero amount0 then t1 else t0
    amount_usd ← float_of s.amount_usd
    ts ←
        or_raise (elim s.timestamp [ none ↦ some (pos 0) | some x ↦ parse_int x ])
          (text "invalid literal for int() with base 10")
    date ← outside.isoformat ts
    ok (record {
      wallet = Option.get_or s.sender [];
      side = if is_outcome_token token then text "buy" else text "sell";
      amount_usd = amount_usd;
      timestamp = date;
      tx_hash = until b'-' (Option.get_or s.id []);
      token_symbol = token;
      market_name = t0 ++ text "/" ++ t1;
    })

  -- `get_prediction_trades`
  unfoldable pub get_prediction_trades : Outside → RegistryFile → ℕ → Sourced (Trade F)
  get_prediction_trades outside file limit =
      or_error (with_swaps outside file limit (each (trade_row outside)))
