-- ===== src/RateLimit/Middleware/Follow.antt =====
-- The parts of a request on a limiter that deletes stale buckets and on one that keeps them.
use ax_server.Prelude.{
  sym, ap, ◌∙◌, test_holds, test_fails, ℕ, ◌≤◌, ◌≡◌, refl, some, arith, Option-cases, Bool-cases,
  inl, inr, ◌==◌,
}
use ax_server.RateLimit.Middleware.Invariant.{tier_of-insert, max_of-injective}
use mathlib.Core.Path.{subst, subst₂}
use ax_server.Prelude.Dict.{Dict, lookup-insert}
use ax_server.Prelude.Text.{Str, str_dec}
use ax_server.RateLimit.{RateTier, TokenBucket, max_of, consume}
use ax_server.RateLimit.Middleware.{Limiter, tier_of, tier_bucket, get_bucket, set_tier}
use ax_server.RateLimit.Middleware.Cleanup.{
  IsFull, tier_bucket-IsFull, consume-IsFull, Matches, Follows,
}
use ax_server.Prelude.Dict

pub tier_of-Follows :
    {l m : Limiter} {now : ℕ} (ip : Str) → Follows now l m → tier_of l ip ≡ tier_of m ip
tier_of-Follows ip f = ground (arith, f.tiers, f.default)

pub lookup-insert_ne :
    (ip q : Str) (b : TokenBucket) (d : Dict Str TokenBucket)
    → ¬ (ip ≡ q)
    → Dict.lookup str_dec q (Dict.insert str_dec ip b d) ≡ Dict.lookup str_dec q d
lookup-insert_ne ip q b d n = lookup-insert str_dec ip q b d ∙ rw (test_fails (str_dec ip q) n)

pub lookup-insert_self :
    (ip : Str) (b : TokenBucket) (d : Dict Str TokenBucket)
    → Dict.lookup str_dec ip (Dict.insert str_dec ip b d) ≡ some b
lookup-insert_self ip b d = lookup-insert str_dec ip ip b d ∙ rw (test_holds (str_dec ip ip) refl)

-- A tier is stored in both, and the tables change at most at its address.
pub Follows-retier :
    {l m : Limiter} (now : ℕ) (ip : Str) (tier : RateTier) (d k : Dict Str TokenBucket)
    → Follows now l m
    → Matches tier now (Dict.lookup str_dec ip d) (Dict.lookup str_dec ip k)
    → ((q : Str) → ¬ (ip ≡ q) → Dict.lookup str_dec q d ≡ Dict.lookup str_dec q l.buckets)
    → ((q : Str) → ¬ (ip ≡ q) → Dict.lookup str_dec q k ≡ Dict.lookup str_dec q m.buckets)
    → Follows now
        (record l { ip_tiers = Dict.insert str_dec ip tier l.ip_tiers; buckets = d })
        (record m { ip_tiers = Dict.insert str_dec ip tier m.ip_tiers; buckets = k })
Follows-retier {l} {m} now ip tier d k f here hd hk = record {
  tiers = ap (Dict.insert str_dec ip tier) f.tiers;
  default = f.default;
  patient = f.patient;
  entries = λ q.
      subst (λ t. Matches t now (Dict.lookup str_dec q d) (Dict.lookup str_dec q k))
        (sym (tier_of-insert m ip q tier))
        (elim (str_dec ip q) [
          | yes p ↦ rw (test_holds (str_dec ip q) p) (
              subst (λ s. Matches tier now (Dict.lookup str_dec s d) (Dict.lookup str_dec s k)) p
                here)
          | no n ↦ rw (test_fails (str_dec ip q) n, hd q n, hk q n) (f.entries q)
        ]);
}

pub Follows-set_tier :
    {l m : Limiter} (now : ℕ) (ip : Str) (tier : RateTier)
    → Follows now l m
    → Follows now (set_tier l ip tier now) (set_tier m ip tier now)
unfolding set_tier
Follows-set_tier {l} {m} now ip tier f = elim (f.entries ip) [
  | inl e ↦ elim (Option-cases (Dict.lookup str_dec ip m.buckets)) [
    | inl n ↦
        rw (e ∙ n, n, set_tier)
          (Follows-retier now ip tier l.buckets m.buckets f (inl e) (λ q _. refl) (λ q _. refl))
    | inr (o, k) ↦
        rw (e ∙ k, k, set_tier)
          (elim (Bool-cases (o.max_tokens == max_of tier)) [
            | inl same ↦ rw same (
                Follows-retier now ip tier l.buckets m.buckets f (inl e) (λ q _. refl)
                  (λ q _. refl))
            | inr other ↦ rw other (
                let new = tier_bucket tier now in
                Follows-retier now ip tier _ _ f
                  (inl (
                    lookup-insert_self ip new l.buckets
                    ∙ sym (lookup-insert_self ip new m.buckets)))
                  (λ q n. lookup-insert_ne ip q new l.buckets n)
                  (λ q n. lookup-insert_ne ip q new m.buckets n))
          ])
  ]
  | inr (e, b, k, full) ↦
      rw (e, k, set_tier)
        (elim (Bool-cases (b.max_tokens == max_of tier)) [
          | inl same ↦
              let asked : tier_of m ip ≡ tier =
                max_of-injective _ _ (sym full.size ∙ ground arith) in
              rw same (
                Follows-retier now ip tier l.buckets m.buckets f
                  (inr (e, b, k, subst (λ t. IsFull t now b) asked full)) (λ q _. refl)
                  (λ q _. refl))
          | inr other ↦
              let new = tier_bucket tier now in
              rw other (
                Follows-retier now ip tier l.buckets _ f
                  (inr
                    (e, new, lookup-insert_self ip new m.buckets, tier_bucket-IsFull tier now now))
                  (λ q _. refl) (λ q n. lookup-insert_ne ip q new m.buckets n))
        ])
]

-- The tables change at most at one address, and agree there.
pub Follows-write :
    {l m : Limiter} (now : ℕ) (ip : Str) (d k : Dict Str TokenBucket)
    → Follows now l m
    → Dict.lookup str_dec ip d ≡ Dict.lookup str_dec ip k
    → ((q : Str) → ¬ (ip ≡ q) → Dict.lookup str_dec q d ≡ Dict.lookup str_dec q l.buckets)
    → ((q : Str) → ¬ (ip ≡ q) → Dict.lookup str_dec q k ≡ Dict.lookup str_dec q m.buckets)
    → Follows now (record l { buckets = d }) (record m { buckets = k })
Follows-write {l} {m} now ip d k f here hd hk = record {
  tiers = f.tiers;
  default = f.default;
  patient = f.patient;
  entries = λ q. elim (str_dec ip q) [
    | yes p ↦
        inl (ap (λ s. Dict.lookup str_dec s d) (sym p) ∙ here ∙ ap (λ s. Dict.lookup str_dec s k) p)
    | no n ↦ rw (hd q n, hk q n) (f.entries q)
  ];
}

-- The table after the bucket of an address was fetched and written back
abbrev pub written : Limiter → Str → ℕ → TokenBucket → Limiter
written l ip created used =
    let found = (get_bucket l ip created).0 in
    record found { buckets = Dict.insert str_dec ip used found.buckets }

pub written_others :
    (l : Limiter) (ip q : Str) (created : ℕ) (used : TokenBucket)
    → ¬ (ip ≡ q)
    → Dict.lookup str_dec q (written l ip created used).buckets ≡ Dict.lookup str_dec q l.buckets
unfolding get_bucket
written_others l ip q created used n = elim (Option-cases (Dict.lookup str_dec ip l.buckets)) [
  | inl e ↦
      rw (e, get_bucket) (lookup-insert_ne ip q used _ n ∙ lookup-insert_ne ip q _ l.buckets n)
  | inr (b, e) ↦ rw (e, get_bucket) (lookup-insert_ne ip q used l.buckets n)
]

-- Only the table changes.
pub written_lem :
    (l : Limiter) (ip : Str) (created : ℕ) (used : TokenBucket)
    → record l { buckets = (written l ip created used).buckets } ≡ written l ip created used
unfolding get_bucket
written_lem l ip created used = elim (Option-cases (Dict.lookup str_dec ip l.buckets)) [
  | inl e ↦ rw (e, get_bucket)
  | inr (b, e) ↦ rw (e, get_bucket)
]

pub Follows-written :
    {l m : Limiter} (now : ℕ) (ip : Str) (created : ℕ) (used : TokenBucket)
    → Follows now l m
    → Follows now (written l ip created used) (written m ip created used)
Follows-written {l} {m} now ip created used f =
    let d = (written l ip created used).buckets in
    let k = (written m ip created used).buckets in
    let w =
      Follows-write now ip d k f (lookup-insert_self ip used _ ∙ sym (lookup-insert_self ip used _))
        (λ q n. written_others l ip q created used n)
        (λ q n. written_others m ip q created used n) in
    subst₂ (Follows now) (written_lem l ip created used) (written_lem m ip created used) w

pub get_bucket-tier_of :
    (l : Limiter) (ip : Str) (created : ℕ) → tier_of (get_bucket l ip created).0 ip ≡ tier_of l ip
unfolding get_bucket
get_bucket-tier_of l ip created = elim (Option-cases (Dict.lookup str_dec ip l.buckets)) [
  | inl e ↦ rw (e, get_bucket)
  | inr (b, e) ↦ rw (e, get_bucket)
]

pub consume-Follows :
    {l m : Limiter} (now : ℕ) (ip : Str) (created t : ℕ)
    → Follows now l m
    → now ≤ t
    → consume (get_bucket l ip created).1 t ≡ consume (get_bucket m ip created).1 t
unfolding get_bucket
consume-Follows {l} {m} now ip created t f h = elim (f.entries ip) [
  | inl e ↦ elim (Option-cases (Dict.lookup str_dec ip m.buckets)) [
    | inl n ↦ rw (e ∙ n, n, get_bucket, tier_of-Follows ip f)
    | inr (b, k) ↦ rw (e ∙ k, k, get_bucket)
  ]
  | inr (e, b, k, full) ↦
      rw (e, k, get_bucket, tier_of-Follows ip f)
        (consume-IsFull (tier_of m ip) now _ b t (tier_bucket-IsFull (tier_of m ip) created now)
          full h)
]
