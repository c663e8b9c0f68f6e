-- ===== src/RateLimit/Middleware/Invariant.antt =====
-- The buckets of the middleware always have the size, the rate and the bound of their address's
-- tier, whatever requests arrive.
use ax_server.Prelude.{
  ℕ, ◌*◌, ◌≤◌, ◌≡◌, refl, some, not, arith, test, if◌then◌else◌, Option-cases, inl, inr, ◌==◌,
  Bool-cases, ltb, ◌-◌, sym, ap, ◌∙◌, test_holds, test_fails,
}
use mathlib.Core.Path.{subst, subst₂}
use ax_server.Prelude.Dict.{Dict, lookup-insert}
use ax_server.Prelude.Dict.Laws.{
  Distinct, insert-Distinct, lookup-keep_values, keep_values-Distinct,
}
use ax_server.Prelude.Text.{Str, str_dec}
use ax_server.Prelude.Error.{Result}
use ax_server.Auth.Tokens.{TokenPayload}
use ax_server.RateLimit.{RateTier, TokenBucket, unit, max_of, rate_of, new_bucket, consume}
use ax_server.RateLimit.Middleware.{
  Limiter, Request, Clock, init, tier_of, tier_bucket, get_bucket, get_client_ip, cleanup_stale,
  is_stale, set_tier, token_tier, upgrade, serve, dispatch,
}
use ax_server.Prelude.Dict
use ax_server.RateLimit.Bucket

-- A bucket as the tier has it
pub record Fits (tier : RateTier) (b : TokenBucket) : Type 0 where
  pub size : b.max_tokens ≡ max_of tier
  pub rate : b.refill_rate ≡ rate_of tier
  pub bounded : b.tokens ≤ b.max_tokens * unit

pub record IsValid (l : Limiter) : Type 0 where
  pub distinct : Distinct str_dec l.buckets
  pub fits :
      (ip : Str) (b : TokenBucket)
      → Dict.lookup str_dec ip l.buckets ≡ some b
      → Fits (tier_of l ip) b

pub tier_bucket-Fits : (tier : RateTier) (now : ℕ) → Fits tier (tier_bucket tier now)
unfolding new_bucket
tier_bucket-Fits tier now = record { size = refl; rate = refl; bounded = omega arith }

-- The size of a bucket tells its tier.
pub max_of-injective : (s t : RateTier) → max_of s ≡ max_of t → s ≡ t
max_of-injective s t h = ground arith

pub consume-Fits :
    (tier : RateTier) (b : TokenBucket) (now : ℕ) → Fits tier b → Fits tier (consume b now).0
unfolding consume
consume-Fits tier b now f = record {
  size = ground (arith, f.size);
  rate = ground (arith, f.rate);
  bounded = (Bucket.consume-IsValid b now).bounded;
}

pub init-IsValid : (tier : RateTier) (interval now : ℕ) → IsValid (init tier interval now)
unfolding init
init-IsValid tier interval now = record { distinct = tt; fits = λ ip b h. cc }

pub cleanup_stale-IsValid : {l : Limiter} (now : ℕ) → IsValid l → IsValid (cleanup_stale l now)
unfolding cleanup_stale
cleanup_stale-IsValid {l} now v =
    elim (Bool-cases (ltb (now - l.last_cleanup) l.cleanup_interval)) [
      | inl recent ↦ rw (recent, cleanup_stale) v
      | inr due ↦
          rw (due, cleanup_stale)
            (record {
              distinct =
                  keep_values-Distinct str_dec (λ b. not (is_stale (now - l.cleanup_interval) b))
                    l.buckets v.distinct;
              fits = λ ip b h. v.fits ip b (kept ip b h);
            })
    ]
  where
    kept :
        (ip : Str) (b : TokenBucket)
        → Dict.lookup str_dec ip
            (Dict.keep_values (λ b. not (is_stale (now - l.cleanup_interval) b)) l.buckets)
          ≡ some b
        → Dict.lookup str_dec ip l.buckets ≡ some b
    kept ip b h = ground (
      arith,
      lookup-keep_values str_dec (λ c. not (is_stale (now - l.cleanup_interval) c)) ip l.buckets
          v.distinct,
    )

-- What holds of the entry written and of the entries before holds of the entries after.
pub insert_cases {ℓ κ} :
    {V : Type ℓ} (P : Str → V → Type κ) (k q : Str) (v : V) (d : Dict Str V)
    → P k v
    → ((w : V) → Dict.lookup str_dec q d ≡ some w → P q w)
    → (w : V) → Dict.lookup str_dec q (Dict.insert str_dec k v d) ≡ some w
    → P q w
insert_cases P k q v d new old w h = elim (str_dec k q) [
  | yes e ↦ let same : v ≡ w = ground (arith, lookup-insert str_dec k q v d) in subst₂ P e same new
  | no ne ↦ old w (ground (arith, lookup-insert str_dec k q v d))
]

-- Writing a bucket that fits
pub insert-IsValid :
    {l : Limiter} (ip : Str) (b : TokenBucket)
    → IsValid l
    → Fits (tier_of l ip) b
    → IsValid (record l { buckets = Dict.insert str_dec ip b l.buckets })
insert-IsValid {l} ip b v f = record {
  distinct = insert-Distinct str_dec ip b l.buckets v.distinct;
  fits = λ q c h. insert_cases (λ k d. Fits (tier_of l k) d) ip q b l.buckets f (v.fits q) c h;
}

pub get_bucket-IsValid :
    {l : Limiter} (ip : Str) (now : ℕ) → IsValid l → IsValid (get_bucket l ip now).0
unfolding get_bucket
get_bucket-IsValid {l} ip now v = elim (Option-cases (Dict.lookup str_dec ip l.buckets)) [
  | inl new ↦ rw (new, get_bucket) (insert-IsValid ip _ v (tier_bucket-Fits (tier_of l ip) now))
  | inr (b, found) ↦ rw (found, get_bucket) v
]

pub get_bucket-Fits :
    {l : Limiter} (ip : Str) (now : ℕ)
    → IsValid l
    → Fits (tier_of (get_bucket l ip now).0 ip) (get_bucket l ip now).1
unfolding get_bucket
get_bucket-Fits {l} ip now v = elim (Option-cases (Dict.lookup str_dec ip l.buckets)) [
  | inl new ↦ rw (new, get_bucket) (tier_bucket-Fits (tier_of l ip) now)
  | inr (b, found) ↦ rw (found, get_bucket) (v.fits ip b found)
]

-- After a tier is stored, the address has it and the others have theirs.
pub tier_of-insert :
    (l : Limiter) (ip q : Str) (tier : RateTier)
    → tier_of (record l { ip_tiers = Dict.insert str_dec ip tier l.ip_tiers }) q
      ≡ (if test (str_dec ip q) then tier else tier_of l q)
tier_of-insert l ip q tier = ground (arith, lookup-insert str_dec ip q tier l.ip_tiers)

abbrev chosen : Limiter → Str → RateTier → Str → RateTier
chosen l ip tier q = if test (str_dec ip q) then tier else tier_of l q

retier-IsValid :
    (l : Limiter) (ip : Str) (tier : RateTier) (d : Dict Str TokenBucket)
    → Distinct str_dec d
    → ((q : Str) (b : TokenBucket) → Dict.lookup str_dec q d ≡ some b → Fits (chosen l ip tier q) b)
    → IsValid (record l { ip_tiers = Dict.insert str_dec ip tier l.ip_tiers; buckets = d })
retier-IsValid l ip tier d h f = record {
  distinct = h;
  fits = λ q b e. subst (λ t. Fits t b) (sym (tier_of-insert l ip q tier)) (f q b e);
}

same_size :
    {l : Limiter} (ip : Str) (tier : RateTier) (b : TokenBucket)
    → IsValid l
    → Dict.lookup str_dec ip l.buckets ≡ some b
    → b.max_tokens ≡ max_of tier
    → (q : Str) → tier_of l q ≡ chosen l ip tier q
same_size {l} ip tier b v found size q =
    let same : tier_of l ip ≡ tier = max_of-injective _ _ (sym (v.fits ip b found).size ∙ size) in
    elim (str_dec ip q) [
      | yes e ↦ rw (test_holds (str_dec ip q) e) (ap (tier_of l) (sym e) ∙ same)
      | no n ↦ rw (test_fails (str_dec ip q) n)
    ]

resized :
    {l : Limiter} (ip : Str) (tier : RateTier) (now : ℕ)
    → IsValid l
    → (q : Str) (b : TokenBucket)
    → Dict.lookup str_dec q (Dict.insert str_dec ip (tier_bucket tier now) l.buckets) ≡ some b
    → Fits (chosen l ip tier q) b
resized {l} ip tier now v q b e = elim (str_dec ip q) [
  | yes p ↦
      let new : tier_bucket tier now ≡ b =
        ground (arith, lookup-insert str_dec ip q (tier_bucket tier now) l.buckets) in
      rw (test_holds (str_dec ip q) p) (subst (Fits tier) new (tier_bucket-Fits tier now))
  | no n ↦
      rw (test_fails (str_dec ip q) n)
        (v.fits q b (ground (arith, lookup-insert str_dec ip q (tier_bucket tier now) l.buckets)))
]

pub set_tier-IsValid :
    {l : Limiter} (ip : Str) (tier : RateTier) (now : ℕ)
    → IsValid l
    → IsValid (set_tier l ip tier now)
unfolding set_tier
set_tier-IsValid {l} ip tier now v = elim (Option-cases (Dict.lookup str_dec ip l.buckets)) [
  | inl new ↦
      rw (new, set_tier)
        (retier-IsValid l ip tier l.buckets v.distinct λ q b e. elim (str_dec ip q) [
          | yes p ↦ absurd (ground (arith, ap (λ k. Dict.lookup str_dec k l.buckets) p))
          | no n ↦ rw (test_fails (str_dec ip q) n) (v.fits q b e)
        ])
  | inr (old, found) ↦
      rw (found, set_tier)
        (elim (Bool-cases (old.max_tokens == max_of tier)) [
          | inl same ↦ rw same (
              retier-IsValid l ip tier l.buckets v.distinct λ q b e.
                subst (λ t. Fits t b) (same_size ip tier old v found (ground arith) q)
                  (v.fits q b e))
          | inr other ↦ rw other (
              retier-IsValid l ip tier _ (insert-Distinct str_dec ip _ l.buckets v.distinct)
                (resized ip tier now v))
        ])
]

module _ (verify_access : Str → Result Str TokenPayload) where
  pub upgrade-IsValid :
      {l : Limiter} (ip header : Str) (now : ℕ)
      → IsValid l
      → IsValid (upgrade verify_access l ip header now)
  unfolding upgrade
  upgrade-IsValid {l} ip header now v = elim (Option-cases (token_tier verify_access header)) [
    | inl e ↦ rw (e, upgrade) v
    | inr (tier, e) ↦ rw (e, upgrade) (set_tier-IsValid ip tier now v)
  ]

  pub serve-IsValid :
      {l : Limiter} (r : Request) (t : Clock) → IsValid l → IsValid (serve verify_access l r t).0
  unfolding serve
  serve-IsValid {l} r t v =
      let ip = get_client_ip r in
      let upgraded = upgrade verify_access l ip r.authorization t.at_upgrade in
      let vu = upgrade-IsValid ip r.authorization t.at_upgrade v in
      let (found, bucket) = get_bucket upgraded ip t.at_create in
      insert-IsValid ip (consume bucket t.at_consume).0 (get_bucket-IsValid ip t.at_create vu)
        (consume-Fits _ bucket t.at_consume (get_bucket-Fits ip t.at_create vu))

  -- Every request keeps the table in order: no address twice, and every bucket with the size, the
  -- rate and the bound of its address's tier.
  pub dispatch-IsValid :
      {l : Limiter} (r : Request) (t : Clock) → IsValid l → IsValid (dispatch verify_access l r t).0
  unfolding dispatch
  dispatch-IsValid r t v = serve-IsValid r t (cleanup_stale-IsValid t.at_cleanup v)
