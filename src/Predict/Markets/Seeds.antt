-- ===== src/Predict/Markets/Seeds.antt =====
-- The markets that app/api/v1/predict.py has in its text.
use ax_server.Prelude.{ℕ, Option, none, some, List, [], ◌∷◌}
use ax_server.Prelude.Text.{Str, text}

-- The addresses of a market on the chain and of its two tokens
pub record Deployed : Type 0 where
  pub market_address : Str
  pub yes_token : Str
  pub no_token : Str

-- One dictionary of `_MARKETS`
pub record Seed : Type 0 where
  pub id : ℕ
  pub prompt : Str
  pub details : Str
  pub category : Str
  pub end_date : Str
  pub deployed : Option Deployed

abbrev seed : ℕ → Str → Str → Str → Str → Option Deployed → Seed
seed id prompt details category end_date deployed = record {
  id = id;
  prompt = prompt;
  details = details;
  category = category;
  end_date = end_date;
  deployed = deployed;
}

-- `_MARKETS`
unfoldable pub seed_markets : List Seed
seed_markets =
    seed 1 (text "who will win superbowl 2026")
      (text "Projected championship odds for the 2026 Super Bowl field.") (text "football")
      (text "2026-02-08") none
    ∷ seed 2 (text "who will win the fifa world cup")
        (text "Outright winner market for the 2026 FIFA World Cup.") (text "soccer")
        (text "2026-07-19") none
    ∷ seed 3 (text "who will win the Winter Olympics")
        (text "Overall medal table leader for the 2026 Winter Games.") (text "exotic")
        (text "2026-02-22") none
    ∷ seed 4 (text "NFL Playoffs Bracket Set")
        (text "Market on the final AFC/NFC playoff bracket seeding.") (text "football")
        (text "2026-01-05") none
    ∷ seed 5 (text "2026 NBA Finals MVP") (text "MVP honors for the 2026 NBA Finals series.")
        (text "basketball") (text "2026-06-25") none
    ∷ seed 6 (text "2026 NBA Finals Champion") (text "Outright winner for the 2026 NBA title.")
        (text "basketball") (text "2026-06-20") none
    ∷ seed 7 (text "2026 World Series Winner")
        (text "Which club lifts the Commissioner's Trophy in 2026.") (text "baseball")
        (text "2026-11-05") none
    ∷ seed 8 (text "2026 Stanley Cup Champion")
        (text "NHL postseason futures for the 2026 Stanley Cup.") (text "hockey")
        (text "2026-06-15") none
    ∷ seed 9 (text "2026 March Madness Champion")
        (text "Who cuts down the nets at the 2026 NCAA tournament.") (text "college")
        (text "2026-04-06") none
    ∷ seed 10 (text "2026 College Football Champion") (text "CFP title odds for the 2026 season.")
        (text "college") (text "2026-01-12") none
    ∷ seed 11 (text "2026 UEFA Champions League Winner")
        (text "Outright UCL winner for the 2025/26 campaign.") (text "soccer") (text "2026-05-31")
        none
    ∷ seed 12 (text "2026 Copa America Winner")
        (text "Champion of the expanded 2026 Copa America field.") (text "soccer")
        (text "2026-07-12") none
    ∷ seed 13 (text "2026 Formula 1 Constructors Champion")
        (text "Team standings futures for the 2026 F1 season.") (text "exotic") (text "2026-12-01")
        none
    ∷ seed 14 (text "2026 Wimbledon Women's Champion")
        (text "Ladies' singles outright at Wimbledon 2026.") (text "exotic") (text "2026-07-11")
        none
    ∷ seed 15 (text "2026 US Open Men's Champion")
        (text "Mens singles outright at Flushing Meadows 2026.") (text "exotic") (text "2026-09-13")
        none
    ∷ seed 16 (text "Community pick: shorten shot clock to 22s?")
        (text "Community governance vote on pro basketball shot clocks.") (text "voted")
        (text "2026-03-15") none
    ∷ seed 17 (text "2026 NBA Draft #1 Pick") (text "Who goes first overall in the 2026 NBA Draft.")
        (text "basketball") (text "2026-06-10") none
    ∷ seed 18 (text "2026 AL MVP Winner") (text "American League MVP honors for the 2026 season.")
        (text "baseball") (text "2026-11-20") none
    ∷ seed 19 (text "2026 NHL Hart Trophy Winner")
        (text "League MVP futures for the 2025/26 NHL season.") (text "hockey") (text "2026-06-22")
        none
    ∷ seed 20 (text "2026 NFL Offensive Rookie of the Year")
        (text "OROY race for the incoming 2026 rookie class.") (text "football") (text "2027-02-10")
        none
    ∷ seed 21 (text "Will the Lakers win 50+ games?")
        (text "Regular season win total market for Los Angeles.") (text "basketball")
        (text "2026-04-15") none
    ∷ seed 22 (text "Will the Yankees make the postseason?")
        (text "New York Yankees playoff berth odds for 2026.") (text "baseball") (text "2026-10-02")
        none
    ∷ seed 23 (text "Will Messi score 20+ MLS goals in 2026?")
        (text "Goal-scoring prop for Lionel Messi's 2026 MLS season.") (text "soccer")
        (text "2026-10-20") none
    ∷ seed 24 (text "Will Colorado reach 8+ wins?")
        (text "Regular season win total for Colorado football.") (text "college")
        (text "2026-12-05") none
    ∷ seed 25 (text "Will Jelly Roll and Bunnie Xo finalize their divorce by August 1, 2026?")
        (text
          "Resolves YES if Jelly Roll (Jason DeFord) and Bunnie Xo have their divorce finalized by a court on or before August 1, 2026. Resolves NO otherwise.")
        (text "exotic") (text "2026-08-01")
        (some (record {
          market_address = text "0x164c1b6e1C9F3c088D3930eDE9fCA4ea8C11Ad9F";
          yes_token = text "0xAfa41dAd6Eeb7155c2A327c4a33E4503BF172D01";
          no_token = text "0xcf3558796C2e38B3277AbEAd647B341390d3e07d";
        }))
    ∷ []
