-- ===== src/RateLimit/Middleware.antt =====
-- `RateLimitMiddleware` of app/middleware/rate_limit.py. The table of tiers is a class attribute
-- in the source; there is one middleware, so it is a field of its state here.
pub mod Invariant
pub mod Cleanup
pub mod Follow
pub mod Refinement
use mathlib.Core.Option
use ax_server.Prelude.{
  ℕ, ◌+◌, ◌-◌, ◌*◌, ◌/◌, Bool, true, false, Option, none, some, List, [], ◌∷◌, ◌++◌, not, ◌&&◌, max,
  ltb, ◌==◌, length, drop, if◌then◌else◌,
}
use ax_server.Prelude.Dict
use ax_server.Prelude.Dict.{Dict}
use ax_server.Prelude.Text.{Str, text, str_dec, str_eq, upper, strip, until, starts_with, is_empty}
use ax_server.Prelude.Error.{Result, ok, err}
use ax_server.Auth.Tokens.{TokenPayload}
use ax_server.RateLimit.{
  RateTier, basic, advanced, market_maker, TokenBucket, unit, max_of, rate_of, new_bucket, consume,
  remaining, reset_in,
}

pub record Limiter : Type 0 where
  pub default_tier : RateTier
  pub cleanup_interval : ℕ
  pub buckets : Dict Str TokenBucket
  pub last_cleanup : ℕ
  pub ip_tiers : Dict Str RateTier

-- What the middleware reads of a request: two headers and the peer's host. `headers.get` of the
-- authorization has the empty text for a default.
pub record Request : Type 0 where
  pub forwarded_for : Option Str
  pub client_host : Option Str
  pub authorization : Str

-- The monotonic clock as one request reads it: in `_cleanup_stale`, for a bucket of a new tier,
-- for a new bucket, and in `consume`.
pub record Clock : Type 0 where
  pub at_cleanup : ℕ
  pub at_upgrade : ℕ
  pub at_create : ℕ
  pub at_consume : ℕ

-- `__init__`
unfoldable pub init : RateTier → ℕ → ℕ → Limiter
init default_tier cleanup_interval now = record {
  default_tier = default_tier;
  cleanup_interval = cleanup_interval;
  buckets = [];
  last_cleanup = now;
  ip_tiers = [];
}

peer : Option Str → Str
peer none = text "0.0.0.0"
peer (some host) = host

-- `_get_client_ip`: `split(",")[0]` is what stands before the first comma.
unfoldable pub get_client_ip : Request → Str
unfolding peer
get_client_ip r = elim r.forwarded_for [
  | none ↦ peer r.client_host
  | some forwarded ↦ if is_empty forwarded then peer r.client_host else strip (until b',' forwarded)
]

abbrev pub tier_of : Limiter → Str → RateTier
tier_of l ip = Option.get_or (Dict.lookup str_dec ip l.ip_tiers) l.default_tier

-- `TokenBucket(...)` as the two places that build one for a tier do
abbrev pub tier_bucket : RateTier → ℕ → TokenBucket
tier_bucket tier now = new_bucket (max_of tier) (rate_of tier) now

-- `_get_bucket`: the limiter afterwards, and the bucket
unfoldable pub get_bucket : Limiter → Str → ℕ → Limiter × TokenBucket
get_bucket l ip now = elim (Dict.lookup str_dec ip l.buckets) [
  | some b ↦ (l, b)
  | none ↦
      let b = tier_bucket (tier_of l ip) now in
      (record l { buckets = Dict.insert str_dec ip b l.buckets }, b)
]

abbrev pub is_stale : ℕ → TokenBucket → Bool
is_stale threshold b = ltb b.last_refill threshold

-- `_cleanup_stale`. The threshold `now - cleanup_interval` may lie before the clock's zero, where
-- no bucket is stale.
unfoldable pub cleanup_stale : Limiter → ℕ → Limiter
cleanup_stale l now = if ltb (now - l.last_cleanup) l.cleanup_interval then l else record l {
  buckets = Dict.keep_values (λ b. not (is_stale (now - l.cleanup_interval) b)) l.buckets;
  last_cleanup = now;
}

-- `RateTier(tier_name)` where `tier_name in RateTier.__members__`
unfoldable pub tier_of_name : Str → Option RateTier
tier_of_name name =
    if str_eq name (text "BASIC")
    then some basic
    else if str_eq name (text "ADVANCED")
    then some advanced
    else if str_eq name (text "MARKET_MAKER")
    then some market_maker
    else none

-- A known tier is stored for the address, and a bucket of another size is made anew.
unfoldable pub set_tier : Limiter → Str → RateTier → ℕ → Limiter
set_tier l ip tier now =
    let tiers = Dict.insert str_dec ip tier l.ip_tiers in
    elim (Dict.lookup str_dec ip l.buckets) [
      | none ↦ record l { ip_tiers = tiers }
      | some existing ↦
          if existing.max_tokens == max_of tier then record l { ip_tiers = tiers } else record l {
            ip_tiers = tiers;
            buckets = Dict.insert str_dec ip (tier_bucket tier now) l.buckets;
          }
    ]

-- The headers of the refusal
pub record Headers : Type 0 where
  pub limit : ℕ
  pub remaining : ℕ
  pub reset_ms : ℕ
  pub retry_after : Option ℕ

-- The 429 response, or the bucket with which the request goes on to the endpoint
pub data Verdict : Type 0 where
  limited : Headers → Verdict
  admitted : ℕ → TokenBucket → Verdict

-- `response.headers[...]` after the endpoint has answered: the bucket as it is by then
unfoldable pub attach_headers : ℕ → TokenBucket → Headers
attach_headers limit b = record {
  limit = limit;
  remaining = remaining b;
  reset_ms = reset_in 1000 b;
  retry_after = none;
}

-- The branch on `bucket.consume()`
unfoldable pub answer : ℕ → TokenBucket → Bool → Verdict
answer limit used true = admitted limit used
answer limit used false = limited (record {
  limit = limit;
  remaining = 0;
  reset_ms = reset_in 1000 used;
  retry_after = some (max 1 (reset_in 1 used));
})

module _ (verify_access : Str → Result Str TokenPayload) where
  -- The tier that a bearer token asks for, if it is a valid access token
  unfoldable pub token_tier : Str → Option RateTier
  token_tier header =
      if starts_with (text "Bearer ") header && ltb 10 (length header)
      then elim (verify_access (drop 7 header)) [
        | err e ↦ none
        | ok payload ↦ tier_of_name (upper payload.tier)
      ]
      else none

  unfoldable pub upgrade : Limiter → Str → Str → ℕ → Limiter
  upgrade l ip header now = elim (token_tier header) [
    | none ↦ l
    | some tier ↦ set_tier l ip tier now
  ]

  -- `dispatch` from the client's address to the call of the endpoint. The bucket is shared with the
  -- table, so what `consume` changes is written back.
  unfoldable pub serve : Limiter → Request → Clock → Limiter × Verdict
  serve l r t =
      let ip = get_client_ip r in
      let upgraded = upgrade l ip r.authorization t.at_upgrade in
      let (found, bucket) = get_bucket upgraded ip t.at_create in
      let limit = max_of (tier_of found ip) in
      let (used, allowed) = consume bucket t.at_consume in
      (
        record found { buckets = Dict.insert str_dec ip used found.buckets },
        answer limit used allowed,
      )

  -- `dispatch` up to the call of the endpoint
  unfoldable pub dispatch : Limiter → Request → Clock → Limiter × Verdict
  unfolding serve
  dispatch l r t = serve (cleanup_stale l t.at_cleanup) r t
