-- ===== src/Predict/Markets/Points.antt =====
-- The price history of a market: `get_prediction_history` of app/api/v1/predict.py. The format of a
-- time is a parameter.
use ax_server.Prelude.{
  ℕ, ◌-◌, ◌*◌, ◌≡◌, refl, sym, ap, ◌∙◌, Bool, Option, none, some, List, [], ◌∷◌, if◌then◌else◌, ltb,
  Option-cases, inl, inr,
}
use ax_server.Prelude.Text.{Str, text, lower, is_empty, str_eq}
use ax_server.Prelude.Error.{some-injective, none≢some, Result, ok, err, ◌>>=◌}
use ax_server.Predict.Registry.{RegisteredMarket, RegistryFile, missing}
use ax_server.Predict.Stats.{load_markets}
use ax_server.Store.{Client, CandleRec, Row, datetime, items, get_candles, get_candles_by_pair}
use ax_server.History.{each}
use ax_server.Predict.Markets.Seeds.{Seed}
use ax_server.Predict.Markets.{Decimals, PredictMarket, get_markets, find_market}
use mathlib.Core.Option

pub record PricePoint (F : Type 0) : Type 0 where
  pub timestamp : Str
  pub price : F

pub record PriceHistory (F : Type 0) : Type 0 where
  pub market_id : ℕ
  pub yes_history : List (PricePoint F)
  pub no_history : List (PricePoint F)

-- The two pools of a market, in lower case
abbrev pub PairNames : Type 0
PairNames = Str × Str

abbrev pairs_of : RegisteredMarket → PairNames
pairs_of rm =
    (lower (Option.get_or rm.yes_pair_address []), lower (Option.get_or rm.no_pair_address []))

unfoldable pub first_pairs : (RegisteredMarket → Bool) → List RegisteredMarket → Option PairNames
first_pairs p [] = none
first_pairs p (rm ∷ rms) = let rest = first_pairs p rms in if p rm then some (pairs_of rm) else rest

-- `rm.get("contract_address", "")`: no entry of the registry has this key.
abbrev contract_address : RegisteredMarket → Str
contract_address rm = []

abbrev no_pairs : PairNames
no_pairs = ([], [])

-- The two loops over the registry: by the contract's address, and where that gives no YES pool by the
-- YES token, which replaces both pools.
unfoldable pub find_pairs : {F : Type 0} → PredictMarket F → List RegisteredMarket → PairNames
find_pairs market registry =
    let by_contract =
      first_pairs (λ rm. str_eq (lower (contract_address rm)) (lower market.market_address))
        registry in
    let by_token =
      first_pairs
        (λ rm. str_eq (lower (Option.get_or rm.yes_token [])) (lower market.yes_token_address))
        registry in
    let found = Option.get_or by_contract no_pairs in
    if is_empty (found.0) then Option.get_or by_token found else found

abbrev pub day : ℕ
day = 86_400 * 1_000_000

module _ {F : Type 0} (dec : Decimals F) (strftime : ℕ → Str) where
  unfoldable pub point_of : Row (CandleRec F) → Result Str (PricePoint F)
  point_of row = do
    c ← items row
    ok (record { timestamp = strftime c.ts; price = dec.round c.close 4 })

  -- The arguments that all queries of one request share
  abbrev timeframe_of : ℕ → Str
  timeframe_of days = if ltb 7 days then text "1d" else text "1h"

  -- The points of a pool: none without a pool
  unfoldable pub pool_points : Client F → ℕ → ℕ → Str → Result Str (List (PricePoint F))
  pool_points qdb now days pair =
      let queried = (do
        rows ←
            get_candles_by_pair qdb pair (timeframe_of days) (datetime (now - days * day))
              (datetime now) 1000
        each point_of rows) in
      if is_empty pair then ok [] else queried

  -- The loop over the market ids of older rows: it ends at the first that has candles.
  unfoldable pub candidate_points : Client F → ℕ → ℕ → List Str → Result Str (List (PricePoint F))
  candidate_points qdb now days [] = ok []
  candidate_points qdb now days (id ∷ ids) =
      let rest = candidate_points qdb now days ids in
      do
        rows ←
            get_candles qdb id (timeframe_of days) (datetime (now - days * day)) (datetime now) 1000
        (elim rows [ [] ↦ rest | r ∷ rs ↦ each point_of (r ∷ rs) ])

  unfoldable pub or_candidates :
      Client F → ℕ → ℕ → List Str → List (PricePoint F) → Result Str (List (PricePoint F))
  or_candidates qdb now days ids [] = candidate_points qdb now days ids
  or_candidates qdb now days ids (p ∷ ps) = ok (p ∷ ps)

  -- The `try`
  unfoldable pub query_points :
      Client F
      → ℕ
      → ℕ
      → RegistryFile
      → PredictMarket F
      → Result Str (List (PricePoint F) × List (PricePoint F))
  query_points qdb now days file market = do
    registry ← load_markets file
    let pairs = find_pairs market registry
    own_yes ← pool_points qdb now days (pairs.0)
    own_no ← pool_points qdb now days (pairs.1)
    yes_points ← or_candidates qdb now days (text "axUSD-YES" ∷ text "YES-axUSD" ∷ []) own_yes
    no_points ← or_candidates qdb now days (text "axUSD-NO" ∷ text "NO-axUSD" ∷ []) own_no
    ok (yes_points, no_points)

  unfoldable pub points_or_none :
      Result Str (List (PricePoint F) × List (PricePoint F))
      → List (PricePoint F) × List (PricePoint F)
  points_or_none (ok points) = points
  points_or_none (err e) = ([], [])

  -- The points of a market: none without the database
  unfoldable pub market_points :
      Option (Client F)
      → ℕ
      → ℕ
      → RegistryFile
      → PredictMarket F
      → List (PricePoint F) × List (PricePoint F)
  market_points none now days file market = ([], [])
  market_points (some qdb) now days file market =
      points_or_none (query_points qdb now days file market)

  -- `get_prediction_history`, at a time in microseconds: no answer is a 404.
  unfoldable pub get_prediction_history :
      Option (Client F) → RegistryFile → List Seed → ℕ → ℕ → ℕ → Option (PriceHistory F)
  get_prediction_history qdb file seeds now market_id days =
      elim (find_market dec market_id (get_markets dec seeds)) [
        | none ↦ none
        | some market ↦
            let points = market_points qdb now days file market in
            some (record { market_id = market_id; yes_history = points.0; no_history = points.1 })
      ]

  market_points-missing :
      (qdb : Option (Client F)) (now days : ℕ) (m other : PredictMarket F)
      → market_points qdb now days missing m ≡ market_points qdb now days missing other
  unfolding market_points query_points load_markets find_pairs first_pairs
  market_points-missing none now days m other = refl
  market_points-missing (some qdb) now days m other = refl

  -- The market of an answer, whose points it has
  history_of :
      (qdb : Option (Client F)) (seeds : List Seed) (now id days : ℕ) (h : PriceHistory F)
      → get_prediction_history qdb missing seeds now id days ≡ some h
      → (m : PredictMarket F) × (market_points qdb now days missing m
          ≡ (h.yes_history, h.no_history))
  unfolding get_prediction_history
  history_of qdb seeds now id days h p =
      elim (Option-cases (find_market dec id (get_markets dec seeds))) [
        | inl e ↦ absurd (none≢some h (rw (e, get_prediction_history) at p))
        | inr (m, e) ↦ (
          m,
          ap (λ a. (a.yes_history, a.no_history))
              (some-injective (rw (e, get_prediction_history) at p)),
        )
      ]

  -- Without a registry any two markets have the same history, that of the ids which all markets share.
  pub get_prediction_history-shared :
      (qdb : Option (Client F)) (seeds : List Seed) (now id other days : ℕ) (h k : PriceHistory F)
      → get_prediction_history qdb missing seeds now id days ≡ some h
      → get_prediction_history qdb missing seeds now other days ≡ some k
      → (h.yes_history ≡ k.yes_history) × (h.no_history ≡ k.no_history)
  get_prediction_history-shared qdb seeds now id other days h k p q =
      let (m, own) = history_of qdb seeds now id days h p in
      let (n, others) = history_of qdb seeds now other days k q in
      let same = sym own ∙ market_points-missing qdb now days m n ∙ others in
      (ap (λ a. a.0) same, ap (λ a. a.1) same)
