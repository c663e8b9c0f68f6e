-- ===== src/RateLimit/Tests.antt =====
-- The rate limiter at concrete inputs: the numbers of the BASIC tier and a few requests.
use ax_server.Prelude.{ℕ, ◌≡◌, refl, ◌≤◌, ◌+◌, ◌-◌, ◌*◌, none, some, List, [], ◌∷◌, arith}
use ax_server.Prelude.Text.{Str, text, str_dec, strip, until, starts_with, upper_code}
use ax_server.Prelude.Error.{Result, ok}
use ax_server.Auth.Tokens.{TokenPayload}
use ax_server.RateLimit.{basic, TokenBucket, unit, new_bucket, refilled, consume}
use ax_server.RateLimit.Bucket.{consume_all, last_time, consume_all_bound}
use ax_server.RateLimit.Middleware.{
  Request, Clock, Limiter, admitted, init, get_client_ip, get_bucket, cleanup_stale, tier_of_name,
  set_tier, answer, token_tier, upgrade, serve, dispatch,
}
use ax_server.RateLimit.Middleware.Invariant.{IsValid, init-IsValid, dispatch-IsValid}
use ax_server.RateLimit.Middleware.Refinement.{answers, dispatch-serve}

abbrev full : TokenBucket
full = record { max_tokens = 100; refill_rate = 10; tokens = 100 * unit; last_refill = 0 }

abbrev times : List ℕ
times = 0 ∷ 5 ∷ 1_000_000_000 ∷ []

consume_all_bound_example :
    (consume_all full times).1 * unit
    ≤ full.max_tokens * unit
      + (last_time full.last_refill times - full.last_refill) * full.refill_rate
consume_all_bound_example = consume_all_bound full times (omega arith) (omega arith)

abbrev verify_access : Str → Result Str TokenPayload
verify_access token = ok (record {
  wallet = [];
  chain_id = 137;
  tier = text "advanced";
  issued_at = 0;
  expires_at = 0;
  token_type = text "access";
})

abbrev guest : Request
guest = record {
  forwarded_for = some (text " 10.0.0.1, proxy");
  client_host = none;
  authorization = [];
}

abbrev member : Request
member = record guest { authorization = text "Bearer abcdef" }

abbrev at : ℕ → Clock
at t = record { at_cleanup = t; at_upgrade = t; at_create = t; at_consume = t }

abbrev start : Limiter
start = init basic (60 * unit) 0

dispatch-IsValid_example : IsValid (dispatch verify_access start member (at 1)).0
dispatch-IsValid_example =
    dispatch-IsValid verify_access member (at 1) (init-IsValid basic (60 * unit) 0)

dispatch-serve_example :
    answers verify_access
      (dispatch verify_access)
      start
      ((guest, at 1) ∷ (member, at (61 * unit)) ∷ [])
    ≡ answers verify_access
        (serve verify_access)
        start
        ((guest, at 1) ∷ (member, at (61 * unit)) ∷ [])
dispatch-serve_example =
    dispatch-serve verify_access basic (60 * unit) 0 ((guest, at 1) ∷ (member, at (61 * unit)) ∷ [])
      (omega arith) (omega arith)

-- A first request of a guest, and the same client with a token
first_guest :
    (dispatch verify_access start guest (at 1)).1
    ≡ admitted 100 (record full { tokens = 99 * unit; last_refill = 1 })
unfolding dispatch serve cleanup_stale init get_client_ip upgrade token_tier get_bucket new_bucket
    consume refilled answer text starts_with strip until str_dec
first_guest = refl

first_member :
    (dispatch verify_access start member (at 1)).1
    ≡ admitted 500
        (record { max_tokens = 500; refill_rate = 50; tokens = 499 * unit; last_refill = 1 })
unfolding dispatch serve cleanup_stale init get_client_ip upgrade token_tier tier_of_name set_tier
    get_bucket new_bucket consume refilled answer text starts_with strip until str_dec upper_code
first_member = refl
