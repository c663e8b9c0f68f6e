-- ===== src/Chain/Subgraph/Queries.antt =====
-- The other queries of the client in app/chain/subgraph.py. A constructor stands for the text of a
-- query and holds its variables; what the subgraph answers to it is a parameter.
use ax_server.Prelude.{ℕ, Option, List, map, []}
use ax_server.Prelude.Text.{Str, lower}
use ax_server.Prelude.Error.{Result, ok, ◌>>=◌}
use mathlib.Core.Option

-- Pairs both of whose tokens are listed, pairs of a sport, the hours of a pair from a time on up to a
-- number, its days from a time on, both by rising time, and the latest swaps, of a pair or of all, up
-- to a number
pub data Query : Type 0 where
  pairs_among : List Str → Query
  pairs_by_sport : Str → Query
  pair_hours : Str → ℕ → ℕ → Query
  pair_days : Str → ℕ → Query
  recent_swaps : Option Str → ℕ → Query

-- The records under the key that a query names: none where the answer has no such key
module _ {R : Type 0} (execute : Query → Result Str (Option (List R))) where
  unfoldable pub rows_of : Query → Result Str (List R)
  rows_of query = do found ← execute query; ok (Option.get_or found [])

  -- `get_pairs`
  unfoldable pub get_pairs : List Str → Result Str (List R)
  get_pairs token_addresses = rows_of (pairs_among (map lower token_addresses))

  -- `get_pairs_by_sport`
  unfoldable pub get_pairs_by_sport : Str → Result Str (List R)
  get_pairs_by_sport sport = rows_of (pairs_by_sport sport)

  -- `get_pair_hour_data`
  unfoldable pub get_pair_hour_data : Str → ℕ → ℕ → Result Str (List R)
  get_pair_hour_data pair_address since limit =
      rows_of (pair_hours (lower pair_address) since limit)

  -- `get_pair_day_data`
  unfoldable pub get_pair_day_data : Str → ℕ → Result Str (List R)
  get_pair_day_data pair_address since = rows_of (pair_days (lower pair_address) since)

  -- `get_recent_swaps`
  unfoldable pub get_recent_swaps : Option Str → ℕ → Result Str (List R)
  get_recent_swaps pair_address limit = rows_of (recent_swaps (Option.map lower pair_address) limit)
