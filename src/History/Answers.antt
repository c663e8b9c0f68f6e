-- ===== src/History/Answers.antt =====
-- How the endpoints of app/api/v1/history.py answer, whatever the database does.
use ax_server.Prelude.{
  contains, true, List, ℕ, ◌≡◌, inl, inr, refl, sym, ap, ◌∙◌, some, none, [], ◌∷◌, Option-cases,
  Bool-cases, map, not, false, arith,
}
use ax_server.Prelude.Int.{ℤ, parse_int}
use ax_server.Prelude.Text.{Str, text, is_empty, str_dec}
use ax_server.Prelude.Error.{
  Result, ok, err, Raised, >>=-ok, ok-injective, Result-cases, ◌>>=◌, raise_if, ok≢err,
  err-injective,
}
use ax_server.Store.{
  Client, Pool, CandleRec, TradeRec, Row, dict_row, TimeArg, seconds, is_timeframe, candles_by,
  require_pool, attributes, items,
}
use ax_server.History.{
  MarketType, CandleResponse, each, or_empty, candle_of, candles_from, parse_timestamp,
  parse_optional, invalid_timestamp, invalid_timeframe, get_candles, replace_z, List, Option,
  service_unavailable, get_latest_price, query_failed, no_price,
}
use mathlib.Core.Path.{subst}
use ax_server.Store

-- No row that the client gives has attributes.
each-candle_of :
    {F : Type 0} (rows : List (CandleRec F)) → or_empty (each candle_of (map dict_row rows)) ≡ []
unfolding each candle_of attributes or_empty
each-candle_of [] = refl
each-candle_of (r ∷ rows) = refl

candles_by-ok :
    {F : Type 0} (column : Str) (qdb : Client F) (value timeframe : Str) (start_ts end_ts : TimeArg)
    (limit : ℕ) (rows : List (Row (CandleRec F)))
    → candles_by column qdb value timeframe start_ts end_ts limit ≡ ok rows
    → (rs : List (CandleRec F)) × (map dict_row rs ≡ rows)
unfolding candles_by
candles_by-ok column qdb value timeframe start_ts end_ts limit rows h =
    let (u, e1, h1) =
      >>=-ok (raise_if (not (is_timeframe timeframe)) (text "Invalid timeframe")) _ rows h in
    let (pool, e2, h2) = >>=-ok (require_pool qdb) _ rows h1 in
    let (rs, e3, h3) =
      >>=-ok (pool.fetch_candles column value timeframe start_ts end_ts limit) _ rows h2 in
    (rs, ok-injective h3)

candles_from-empty :
    {F : Type 0} (qdb : Option (Client F)) (market_id timeframe : Str) (start_ts end_ts : ℤ)
    (limit : ℕ)
    → candles_from qdb market_id timeframe start_ts end_ts limit ≡ []
unfolding candles_from Store.get_candles or_empty
candles_from-empty none market_id timeframe start_ts end_ts limit = refl
candles_from-empty (some qdb) market_id timeframe start_ts end_ts limit =
    let column = text "market_id" in
    elim (Result-cases
      (candles_by column qdb market_id timeframe (seconds start_ts) (seconds end_ts) limit)) [
        | inl (rows, e) ↦
            let (rs, same) =
              candles_by-ok column qdb market_id timeframe (seconds start_ts) (seconds end_ts) limit
                rows e in
            ap (λ r. or_empty (r >>= each candle_of)) (e ∙ ap ok (sym same)) ∙ each-candle_of rs
        | inr (x, e) ↦ ap (λ r. or_empty (r >>= each candle_of)) e
      ]

-- A text that is no number and no ISO time
pub IsNoTime : (Str → Option ℤ) → Str → Type 0
IsNoTime from_iso s = (parse_int s ≡ none) × (from_iso (replace_z s) ≡ none)

-- A time that is not given, is empty, or is a number or an ISO time
pub data IsGood (from_iso : Str → Option ℤ) : Option Str → Type 0 where
  not_given : IsGood from_iso none
  blank : (s : Str) → is_empty s ≡ true → IsGood from_iso (some s)
  number : (s : Str) (n : ℤ) → parse_int s ≡ some n → IsGood from_iso (some s)
  iso : (s : Str) (n : ℤ) → from_iso (replace_z s) ≡ some n → IsGood from_iso (some s)

-- A time that is given, is not empty, and is no number and no ISO time
pub data IsBad (from_iso : Str → Option ℤ) : Option Str → Str → Type 0 where
  bad_text : (s : Str) → is_empty s ≡ false → IsNoTime from_iso s → IsBad from_iso (some s) s

abbrev pub offered : List Str
offered = text "1m" ∷ text "5m" ∷ text "15m" ∷ text "1h" ∷ text "4h" ∷ text "1d" ∷ []

-- How a request for candles is answered
pub data CandlesAnswer {F : Type 0} (from_iso : Str → Option ℤ) (timeframe : Str)
    (start end : Option Str) : Result Raised (CandleResponse F) → Type 0 where
  bad_timeframe :
      contains str_dec timeframe offered ≡ false
      → CandlesAnswer from_iso timeframe start end (err (invalid_timeframe timeframe))
  bad_start :
      (s : Str)
      → contains str_dec timeframe offered ≡ true
      → IsBad from_iso start s
      → CandlesAnswer from_iso timeframe start end (err (invalid_timestamp s))
  bad_end :
      (s : Str)
      → contains str_dec timeframe offered ≡ true
      → IsGood from_iso start
      → IsBad from_iso end s
      → CandlesAnswer from_iso timeframe start end (err (invalid_timestamp s))
  without_candles :
      (a : CandleResponse F)
      → contains str_dec timeframe offered ≡ true
      → IsGood from_iso start
      → IsGood from_iso end
      → a.candles ≡ []
      → CandlesAnswer from_iso timeframe start end (ok a)

is_timeframe-offered : (t : Str) → contains str_dec t offered ≡ is_timeframe t
unfolding is_timeframe
is_timeframe-offered t = ground arith

parse_timestamp-err :
    (from_iso : Str → Option ℤ) (s : Str) (e : Raised)
    → parse_timestamp from_iso s ≡ err e
    → IsNoTime from_iso s × (invalid_timestamp s ≡ e)
unfolding parse_timestamp IsNoTime
parse_timestamp-err from_iso s e h = elim (Option-cases (parse_int s)) [
  | inr (n, p) ↦ absurd (ok≢err (rw (p, parse_timestamp) at h))
  | inl p ↦ elim (Option-cases (from_iso (replace_z s))) [
    | inr (n, q) ↦ absurd (ok≢err (rw (p, q, parse_timestamp) at h))
    | inl q ↦ ((p, q), err-injective (rw (p, q, parse_timestamp) at h))
  ]
]

parse_timestamp-ok :
    (from_iso : Str → Option ℤ) (s : Str) (n : ℤ)
    → parse_timestamp from_iso s ≡ ok n
    → IsGood from_iso (some s)
unfolding parse_timestamp
parse_timestamp-ok from_iso s n h = elim (Option-cases (parse_int s)) [
  | inr (m, p) ↦ number s m p
  | inl p ↦ elim (Option-cases (from_iso (replace_z s))) [
    | inr (m, q) ↦ iso s m q
    | inl q ↦ absurd (ok≢err (sym (rw (p, q, parse_timestamp) at h)))
  ]
]

parse_optional-err :
    (from_iso : Str → Option ℤ) (o : Option Str) (e : Raised)
    → parse_optional from_iso o ≡ err e
    → (s : Str) × IsBad from_iso o s × (invalid_timestamp s ≡ e)
unfolding parse_optional
parse_optional-err from_iso none e h = absurd (ok≢err h)
parse_optional-err from_iso (some s) e h = elim (Bool-cases (is_empty s)) [
  | inl b ↦ absurd (ok≢err (rw (b, parse_optional) at h))
  | inr b ↦ elim (Result-cases (parse_timestamp from_iso s)) [
    | inl (n, p) ↦ absurd (ok≢err (rw (b, p, parse_optional) at h))
    | inr (x, p) ↦
        let (no_time, same) = parse_timestamp-err from_iso s x p in
        (s, bad_text s b no_time, same ∙ err-injective (rw (b, p, parse_optional) at h))
  ]
]

parse_optional-ok :
    (from_iso : Str → Option ℤ) (o : Option Str) (n : Option ℤ)
    → parse_optional from_iso o ≡ ok n
    → IsGood from_iso o
unfolding parse_optional
parse_optional-ok from_iso none n h = not_given
parse_optional-ok from_iso (some s) n h = elim (Bool-cases (is_empty s)) [
  | inl b ↦ blank s b
  | inr b ↦ elim (Result-cases (parse_timestamp from_iso s)) [
    | inl (m, p) ↦ parse_timestamp-ok from_iso s m p
    | inr (x, p) ↦ absurd (ok≢err (sym (rw (b, p, parse_optional) at h)))
  ]
]

-- A request for candles is answered with INVALID_TIMEFRAME for an interval that is not offered, else
-- with INVALID_TIMESTAMP for a start, and else for an end, that is given, not empty, and no number and
-- no ISO time; else it succeeds, and never with a candle, whatever the database holds.
pub get_candles-cases :
    {F : Type 0} (from_iso : Str → Option ℤ) (qdb : Option (Client F)) (now : ℕ)
    (market_id timeframe : Str) (market_type : MarketType) (start end : Option Str) (limit : ℕ)
    → CandlesAnswer from_iso timeframe start end
        (get_candles from_iso qdb now market_id timeframe market_type start end limit)
unfolding get_candles
get_candles-cases {F} from_iso qdb now market_id timeframe market_type start end limit =
    let listed = is_timeframe-offered timeframe in
    elim (Bool-cases (is_timeframe timeframe)) [
      | inr t ↦ rw (t, get_candles) (bad_timeframe (listed ∙ t))
      | inl t ↦ elim (Result-cases (parse_optional from_iso start)) [
        | inr (x, p) ↦
            let (s, bad, same) = parse_optional-err from_iso start x p in
            rw (t, p, get_candles)
              (subst (λ e. CandlesAnswer {F = F} from_iso timeframe start end (err e)) same
                (bad_start s (listed ∙ t) bad))
        | inl (s, p) ↦ elim (Result-cases (parse_optional from_iso end)) [
          | inr (x, q) ↦
              let (s, bad, same) = parse_optional-err from_iso end x q in
              rw (t, p, q, get_candles)
                (subst (λ e. CandlesAnswer {F = F} from_iso timeframe start end (err e)) same
                  (bad_end s (listed ∙ t) (parse_optional-ok from_iso start _ p) bad))
          | inl (e, q) ↦
              rw (t, p, q, get_candles)
                (without_candles _ (listed ∙ t) (parse_optional-ok from_iso start s p)
                  (parse_optional-ok from_iso end e q)
                  (candles_from-empty qdb market_id timeframe _ _ limit))
        ]
      ]
    ]

-- Why there is no latest price, and the error for it
pub data LatestFailure (F : Type 0) (market_id : Str) : Option (Client F) → Raised → Type 0 where
  no_client : LatestFailure F market_id none service_unavailable
  no_pool : LatestFailure F market_id (some none) query_failed
  query_error :
      (pool : Pool F) (x : Str)
      → pool.fetch_latest market_id ≡ err x
      → LatestFailure F market_id (some (some pool)) query_failed
  no_trade :
      (pool : Pool F)
      → pool.fetch_latest market_id ≡ ok none
      → LatestFailure F market_id (some (some pool)) (no_price market_id)

-- A request for the latest price fails only with 503 without a client, with 502 where the client has
-- no connection or the query fails, and with 404 where the market has no trade.
pub get_latest_price-err :
    {F : Type 0} (qdb : Option (Client F)) (market_id : Str) (market_type : MarketType) (e : Raised)
    → get_latest_price qdb market_id market_type ≡ err e
    → LatestFailure F market_id qdb e
unfolding get_latest_price Store.get_latest_price require_pool items
get_latest_price-err {F} none market_id market_type e h =
    subst (LatestFailure F market_id none) (err-injective h) no_client
get_latest_price-err {F} (some none) market_id market_type e h =
    subst (LatestFailure F market_id (some none)) (err-injective h) no_pool
get_latest_price-err {F} (some (some pool)) market_id market_type e h =
    let reason = LatestFailure F market_id (some (some pool)) in
    elim (Result-cases (pool.fetch_latest market_id)) [
      | inr (x, q) ↦
          subst reason (err-injective (rw (q, get_latest_price, Store.get_latest_price) at h))
            (query_error pool x q)
      | inl (none, q) ↦
          subst reason (err-injective (rw (q, get_latest_price, Store.get_latest_price) at h))
            (no_trade pool q)
      | inl (some r, q) ↦ absurd (ok≢err (rw (q, get_latest_price, Store.get_latest_price) at h))
    ]
