-- ===== src/Predict/Markets/Tests.antt =====
-- The market endpoints at concrete inputs, with natural numbers for floats.
use ax_server.Prelude.{ℕ, ◌≡◌, ◌+◌, ◌-◌, ◌/◌, refl, some, none, [], ◌∷◌, ltb, List, ◌*◌}
use ax_server.Prelude.Text.{str_dec, Str, text}
use ax_server.Prelude.Error.{ok}
use ax_server.Predict.Registry.{missing}
use ax_server.History.{each}
use ax_server.Predict.Stats.{load_markets}
use ax_server.Predict.Markets.Seeds.{Seed}
use ax_server.Predict.Markets.{
  Decimals, PredictMarket, build_market, get_markets, in_category, list_prediction_markets,
  enrich_markets, find_market, get_prediction_market, synthetic_address, enrich_market, updated,
  updates_of, first_match,
}
use ax_server.Predict.Markets.Listing.{get_prediction_market-listed}
use ax_server.Predict.Markets.Points.{
  PricePoint, or_candidates, candidate_points, points_or_none, point_of, pool_points, find_pairs,
  first_pairs, query_points, market_points, PriceHistory, get_prediction_history,
}
use ax_server.Store.{Pool, candles_by, require_pool, is_timeframe, items}
use ax_server.Store

abbrev dec : Decimals ℕ
dec = record {
  zero = 0;
  half = 50;
  one = 100;
  add = λ a b. a + b;
  sub = λ a b. a - b;
  div = λ a b. a / b;
  ratio = λ a b. a / b;
  round = λ a n. a;
  lt = ltb;
}

abbrev seeds : List Seed
seeds =
    record {
      id = 1;
      prompt = [];
      details = [];
      category = text "football";
      end_date = [];
      deployed = none;
    }
    ∷ record {
      id = 3;
      prompt = [];
      details = [];
      category = text "soccer";
      end_date = [];
      deployed = none;
    }
    ∷ []

abbrev shown : List (PredictMarket ℕ)
shown = get_markets dec seeds

listed : list_prediction_markets dec none missing seeds none ≡ ok shown
unfolding list_prediction_markets enrich_markets enrich_market updated updates_of first_match
    in_category get_markets build_market load_markets
listed = refl

get_prediction_market-listed_example :
    get_prediction_market dec none missing seeds 3 ≡ ok (find_market dec 3 shown)
get_prediction_market-listed_example =
    get_prediction_market-listed dec none missing seeds 3 shown listed

-- The address of market 3 is the YES token of market 1.
shared_address : synthetic_address 3 ≡ synthetic_address (1 * 2 + 1)
shared_address = refl

abbrev time_text : ℕ → Str
time_text ts = text "2026-01-01T00:00:00"

-- A database that answers every query for candles with one candle
abbrev pool : Pool ℕ
pool = record {
  fetch_candles = λ column value interval start end limit. ok (
      record { ts = 9; open_price = 1; high = 4; low = 1; close = 3; volume = 20; trade_count = 2 }
      ∷ []);
  fetch_volumes = λ market_type. ok [];
  fetch_latest = λ market_id. ok none;
  fetch_trades = λ market_id limit. ok [];
  fetch_market_types = ok [];
}

abbrev point : PricePoint ℕ
point = record { timestamp = text "2026-01-01T00:00:00"; price = 3 }

abbrev history : ℕ → PriceHistory ℕ
history id = record { market_id = id; yes_history = point ∷ []; no_history = point ∷ [] }

history_1 :
    get_prediction_history dec time_text (some (some pool)) missing seeds 0 1 30 ≡ some (history 1)
unfolding get_prediction_history market_points query_points points_or_none or_candidates
    candidate_points pool_points point_of find_pairs first_pairs load_markets Store.get_candles
    candles_by require_pool is_timeframe items each find_market get_markets build_market text
    str_dec
history_1 = refl

history_3 :
    get_prediction_history dec time_text (some (some pool)) missing seeds 0 3 30 ≡ some (history 3)
unfolding get_prediction_history market_points query_points points_or_none or_candidates
    candidate_points pool_points point_of find_pairs first_pairs load_markets Store.get_candles
    candles_by require_pool is_timeframe items each find_market get_markets build_market text
    str_dec
history_3 = refl
