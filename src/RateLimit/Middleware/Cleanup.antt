-- ===== src/RateLimit/Middleware/Cleanup.antt =====
-- The buckets that the cleanup deletes are as good as new, so that a table without them follows the
-- table with them.
use ax_server.Prelude.{
  sym, ◌∙◌, not, ltb, ltb→lt, ◌-◌, ℕ, ◌+◌, ◌*◌, ◌≤◌, ◌≡◌, refl, Option, none, some, arith,
  Option-cases, Bool-cases, inl, inr, ◌⊎◌,
}
use mathlib.Core.Path.{subst₂}
use ax_server.Prelude.Dict.Laws.{Distinct, lookup-keep_values}
use ax_server.Prelude.Dict.{Dict, lookup-insert}
use ax_server.Prelude.Text.{Str, str_dec}
use ax_server.RateLimit.{
  RateTier, TokenBucket, unit, max_of, rate_of, new_bucket, refilled, consume,
}
use ax_server.RateLimit.Bucket.{refilled_rested, refilled_new}
use ax_server.RateLimit.Middleware.{Limiter, tier_of, tier_bucket, cleanup_stale, is_stale}
use ax_server.RateLimit.Middleware.Invariant.{Fits, IsValid}
use ax_server.Prelude.Dict

-- A bucket that is as good as new from the time `since` on
pub record IsFull (tier : RateTier) (since : ℕ) (b : TokenBucket) : Type 0 where
  pub size : b.max_tokens ≡ max_of tier
  pub rate : b.refill_rate ≡ rate_of tier
  pub full : (now : ℕ) → since ≤ now → refilled b now ≡ b.max_tokens * unit

pub tier_bucket-IsFull :
    (tier : RateTier) (created since : ℕ) → IsFull tier since (tier_bucket tier created)
unfolding new_bucket
tier_bucket-IsFull tier created since = record {
  size = refl;
  rate = refl;
  full = λ now _. refilled_new (max_of tier) (rate_of tier) created now;
}

period_enough : (tier : RateTier) → max_of tier ≤ rate_of tier * 10
period_enough tier = ground arith

rested-IsFull :
    (tier : RateTier) (b : TokenBucket) (now : ℕ)
    → Fits tier b
    → b.last_refill + 10 * unit ≤ now
    → IsFull tier now b
rested-IsFull tier b now f rest = record {
  size = f.size;
  rate = f.rate;
  full = λ t h.
      refilled_rested b 10 t
        (subst₂ (λ m r. m ≤ r * 10) (sym f.size) (sym f.rate) (period_enough tier)) (omega arith);
}

-- All buckets that are as good as new act alike.
pub consume-IsFull :
    (tier : RateTier) (since : ℕ) (b c : TokenBucket) (now : ℕ)
    → IsFull tier since b
    → IsFull tier since c
    → since ≤ now
    → consume b now ≡ consume c now
unfolding consume
consume-IsFull tier since b c now f g h =
    rw (f.full now h, g.full now h, f.size, g.size, f.rate, g.rate)

-- The entry of the middleware and the entry of one that never deletes
abbrev pub Matches : RateTier → ℕ → Option TokenBucket → Option TokenBucket → Type 0
Matches tier since mine kept =
    (mine ≡ kept) ⊎ ((mine ≡ none) × (b : TokenBucket) × (kept ≡ some b) × IsFull tier since b)

pub record Follows (since : ℕ) (l m : Limiter) : Type 0 where
  pub tiers : l.ip_tiers ≡ m.ip_tiers
  pub default : l.default_tier ≡ m.default_tier
  pub patient : 10 * unit ≤ l.cleanup_interval
  pub entries :
      (ip : Str)
      → Matches
          (tier_of m ip)
          since
          (Dict.lookup str_dec ip l.buckets)
          (Dict.lookup str_dec ip m.buckets)

Matches-later :
    {tier : RateTier} (since now : ℕ) {x y : Option TokenBucket}
    → since ≤ now
    → Matches tier since x y
    → Matches tier now x y
Matches-later since now h (inl e) = inl e
Matches-later since now h (inr (e, b, k, f)) =
    inr (e, b, k, record { size = f.size; rate = f.rate; full = λ t q. f.full t (omega arith) })

pub Follows-later :
    {l m : Limiter} (since now : ℕ) → since ≤ now → Follows since l m → Follows now l m
Follows-later since now h f = record {
  tiers = f.tiers;
  default = f.default;
  patient = f.patient;
  entries = λ ip. Matches-later since now h (f.entries ip);
}

-- One entry when the stale ones go
Matches-keep :
    {tier : RateTier} (now interval : ℕ) (ip : Str) (d : Dict Str TokenBucket)
    (kept : Option TokenBucket)
    → Distinct str_dec d
    → ((b : TokenBucket) → kept ≡ some b → Fits tier b)
    → 10 * unit ≤ interval
    → Matches tier now (Dict.lookup str_dec ip d) kept
    → Matches tier now
        (Dict.lookup str_dec ip (Dict.keep_values (λ b. not (is_stale (now - interval) b)) d))
        kept
Matches-keep now interval ip d kept h fits long (inr (e, b, k, f)) = inr (
  lookup-keep_values str_dec (λ c. not (is_stale (now - interval) c)) ip d h ∙ ground arith,
  b,
  k,
  f,
)
Matches-keep {tier} now interval ip d kept h fits long (inl e) =
    rw (lookup-keep_values str_dec (λ c. not (is_stale (now - interval) c)) ip d h)
      (elim (Option-cases (Dict.lookup str_dec ip d)) [
        | inl n ↦ rw n (inl (sym n ∙ e))
        | inr (b, k) ↦ rw k (elim (Bool-cases (ltb b.last_refill (now - interval))) [
          | inl old ↦ rw old (
              inr (
                refl,
                b,
                sym e ∙ k,
                rested-IsFull tier b now (fits b (sym e ∙ k)) (omega (arith, ltb→lt _ _ old)),
              ))
          | inr young ↦ rw young (inl (sym k ∙ e))
        ])
      ])

pub Follows-cleanup_stale :
    {l m : Limiter} (now : ℕ)
    → Follows now l m
    → IsValid l
    → IsValid m
    → Follows now (cleanup_stale l now) m
unfolding cleanup_stale
Follows-cleanup_stale {l} {m} now f v w =
    elim (Bool-cases (ltb (now - l.last_cleanup) l.cleanup_interval)) [
      | inl recent ↦ rw (recent, cleanup_stale) f
      | inr due ↦
          rw (due, cleanup_stale)
            (record {
              tiers = f.tiers;
              default = f.default;
              patient = f.patient;
              entries = λ ip.
                  Matches-keep now l.cleanup_interval ip l.buckets _ v.distinct (w.fits ip)
                    f.patient (f.entries ip);
            })
    ]
