-- ===== src/Predict/Stats/Tests.antt =====
-- The leaderboard at concrete inputs, with natural numbers for floats.
use ax_server.Prelude.{
  ℕ, ◌≡◌, ◌⊎◌, refl, some, none, [], ◌∷◌, true, false, ltb, arith, keep_if, List, ◌+◌,
}
use ax_server.Prelude.Text.{Str, text, str_dec, lower_code}
use ax_server.Prelude.Text.Search.{int_of}
use ax_server.Prelude.Dict.{Dict}
use ax_server.Prelude.Error.{ok}
use ax_server.Predict.Registry.{RegistryFile, RegisteredMarket, markets_object}
use ax_server.Predict.Stats.{
  Floats, Swap, Trader, Outside, aggregate, float_of, pair_addresses, load_markets,
  get_prediction_leaderboard,
}
use ax_server.Predict.Stats.Totals.{account_of, sent_by, lookup-aggregate}
use ax_server.Predict.Stats.Leaderboard.{NoRows, get_prediction_leaderboard-IsLeaderboard}
use ax_server.Predict.Stats.Accounts.{IsLeaderboard}
use ax_server.Predict.Tests.{blank}
use ax_server.Prelude.Dict

abbrev floats : Floats ℕ
floats = record { zero = 0; add = λ a b. a + b; lt = ltb; parse = λ s. some (int_of s) }

abbrev swap : Str → Str → Swap
swap sender amount = record {
  id = none;
  sender = some sender;
  timestamp = some (text "1700000000");
  amount0_in = none;
  amount_usd = some amount;
  symbol0 = none;
  symbol1 = none;
}

abbrev swaps : List Swap
swaps =
    swap (text "0xA") (text "5") ∷ swap (text "0xB") (text "9") ∷ swap (text "0xa") (text "7") ∷ []

abbrev trader : Str → ℕ → ℕ → Trader ℕ
trader wallet volume count = record {
  wallet = wallet;
  total_volume = volume;
  trade_count = count;
  last_trade = text "1700000000";
}

abbrev traders : Dict Str (Trader ℕ)
traders = (text "0xa", trader (text "0xa") 12 2) ∷ (text "0xb", trader (text "0xb") 9 1) ∷ []

aggregated : aggregate floats swaps [] ≡ ok traders
unfolding aggregate float_of text lower_code int_of str_dec
aggregated = refl

lookup-aggregate_example :
    Dict.lookup str_dec (text "0xa") traders
    ≡ account_of floats (keep_if (sent_by floats (text "0xa")) swaps)
lookup-aggregate_example = lookup-aggregate floats swaps traders (text "0xa") aggregated

abbrev outside : Outside
outside = record {
  post = λ pairs first. ok (some swaps);
  isoformat = λ seconds. ok (text "2023-11-14T22:13:20+00:00");
}

abbrev file : RegistryFile
file = markets_object (record blank { yes_pair_address = some (text "0xpair") } ∷ [])

ltb-asymmetric : (a b : ℕ) → ltb a b ≡ true → ltb b a ≡ false
ltb-asymmetric a b h = ground arith

get_prediction_leaderboard-IsLeaderboard_example :
    let answer = get_prediction_leaderboard floats outside file 10 in
    ((answer.rows ≡ []) × NoRows floats outside file answer.source)
    ⊎ ((registry : List RegisteredMarket) × (seen : List Swap) × (load_markets file ≡ ok registry)
        × (outside.post (pair_addresses registry) 500 ≡ ok (some seen))
        × (answer.source ≡ text "subgraph")
        × IsLeaderboard floats 10 seen answer.rows)
get_prediction_leaderboard-IsLeaderboard_example =
    get_prediction_leaderboard-IsLeaderboard floats ltb-asymmetric outside file 10
