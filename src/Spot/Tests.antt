-- ===== src/Spot/Tests.antt =====
-- The spot market endpoints at concrete inputs.
use ax_server.Prelude.{◌≡◌, refl, none, [], true, leb, if◌then◌else◌, arith}
use ax_server.Prelude.Text.{text}
use ax_server.Prelude.Error.{ok, err}
use ax_server.Spot.{SpotReads, read_market, scan_markets, page_of, list_spot_markets}
use ax_server.Spot.Pages.{IsFollowed, list_spot_markets-IsFollowed}

-- Three markets
abbrev reads : SpotReads
reads = record {
  market_name = λ mid. if leb mid 3 then ok (text "sAX") else err [];
  synth_address = λ mid. ok [];
  index_price = λ mid. err [];
  block_time = err [];
  quote_buy = λ mid amount. err [];
  quote_sell = λ mid amount. err [];
}

has_more : (list_spot_markets reads none 2).has_more ≡ true
unfolding list_spot_markets page_of scan_markets read_market
has_more = refl

list_spot_markets-IsFollowed_example : IsFollowed reads none 2 5
list_spot_markets-IsFollowed_example =
    list_spot_markets-IsFollowed reads none 2 5 (omega arith) has_more
