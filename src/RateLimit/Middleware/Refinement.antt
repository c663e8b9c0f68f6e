-- ===== src/RateLimit/Middleware/Refinement.antt =====
-- Deleting stale buckets is invisible: the middleware answers as one that never deletes a bucket.
use ax_server.Prelude.{ℕ, ◌*◌, ◌≤◌, ◌≡◌, refl, List, [], ◌∷◌, arith, Option-cases, inl, inr}
use ax_server.RateLimit.Middleware.Invariant.{
  init-IsValid, IsValid, cleanup_stale-IsValid, serve-IsValid,
}
use mathlib.Core.Path.{ap₂, subst}
use ax_server.Prelude.Text.{Str}
use ax_server.Prelude.Error.{Result}
use ax_server.Auth.Tokens.{TokenPayload}
use ax_server.RateLimit.{RateTier, unit}
use ax_server.RateLimit.Middleware.{
  Limiter, Request, Clock, Verdict, init, get_client_ip, token_tier, upgrade, serve, dispatch,
}
use ax_server.RateLimit.Middleware.Cleanup.{Follows, Follows-later, Follows-cleanup_stale}
use ax_server.RateLimit.Middleware.Follow.{
  tier_of-Follows, Follows-set_tier, written, Follows-written, get_bucket-tier_of, consume-Follows,
}

-- The clock does not run backwards, from `since` and within the request.
pub record Advances (since : ℕ) (t : Clock) : Type 0 where
  pub cleanup : since ≤ t.at_cleanup
  pub upgrade : t.at_cleanup ≤ t.at_upgrade
  pub create : t.at_upgrade ≤ t.at_create
  pub consume : t.at_create ≤ t.at_consume

module _ (verify_access : Str → Result Str TokenPayload) where
  Follows-upgrade :
      {l m : Limiter} (now : ℕ) (ip header : Str)
      → Follows now l m
      → Follows now (upgrade verify_access l ip header now) (upgrade verify_access m ip header now)
  unfolding upgrade
  Follows-upgrade now ip header f = elim (Option-cases (token_tier verify_access header)) [
    | inl e ↦ rw (e, upgrade) f
    | inr (tier, e) ↦ rw (e, upgrade) (Follows-set_tier now ip tier f)
  ]

  serve-Follows :
      {l m : Limiter} (since : ℕ) (r : Request) (t : Clock)
      → Follows t.at_cleanup l m
      → Advances since t
      → ((serve verify_access l r t).1 ≡ (serve verify_access m r t).1)
        × Follows t.at_consume (serve verify_access l r t).0 (serve verify_access m r t).0
  unfolding serve
  serve-Follows {l} {m} since r t f a =
      let ip = get_client_ip r in
      let up =
        Follows-upgrade t.at_upgrade ip r.authorization
          (Follows-later t.at_cleanup t.at_upgrade a.upgrade f) in
      let same = consume-Follows t.at_upgrade ip t.at_create t.at_consume up (omega arith) in
      let mine = upgrade verify_access l ip r.authorization t.at_upgrade in
      let kept = upgrade verify_access m ip r.authorization t.at_upgrade in
      (
        cc (
          same,
          get_bucket-tier_of mine ip t.at_create,
          get_bucket-tier_of kept ip t.at_create,
          tier_of-Follows ip up,
        ),
        subst
            (λ c.
              Follows t.at_consume (serve verify_access l r t).0 (written kept ip t.at_create c.0))
            same
            (Follows-later t.at_upgrade t.at_consume (omega arith)
              (Follows-written t.at_upgrade ip t.at_create _ up)),
      )

  -- The verdicts on a sequence of requests
  unfoldable pub answers :
      (Limiter → Request → Clock → Limiter × Verdict)
      → Limiter
      → List (Request × Clock)
      → List Verdict
  answers step l [] = []
  answers step l ((r, t) ∷ more) = let (l', v) = step l r t in v ∷ answers step l' more

  abbrev pub AllAdvance : ℕ → List (Request × Clock) → Type 0
  AllAdvance since [] = Unit
  AllAdvance since ((r, t) ∷ more) = Advances since t × AllAdvance t.at_consume more

  answers-Follows :
      (since : ℕ) {l m : Limiter} (requests : List (Request × Clock))
      → IsValid l
      → IsValid m
      → Follows since l m
      → AllAdvance since requests
      → answers (dispatch verify_access) l requests ≡ answers (serve verify_access) m requests
  unfolding answers dispatch
  answers-Follows since [] v w f a = refl
  answers-Follows since {l} {m} ((r, t) ∷ more) v w f a =
      let cleaned =
        Follows-cleanup_stale t.at_cleanup (Follows-later since t.at_cleanup a.0.cleanup f) v w in
      let vc = cleanup_stale-IsValid t.at_cleanup v in
      let (same, next) = serve-Follows since r t cleaned a.0 in
      ap₂ ◌∷◌ same (
        answers-Follows t.at_consume more (serve-IsValid verify_access r t vc)
          (serve-IsValid verify_access r t w) next a.1)

  -- From the start of the server on, whatever requests arrive while the clock does not run
  -- backwards, the middleware answers every one of them as a middleware that never deletes a
  -- bucket does, if its cleanup interval is ten seconds or more.
  pub dispatch-serve :
      (tier : RateTier) (interval now : ℕ) (requests : List (Request × Clock))
      → 10 * unit ≤ interval
      → AllAdvance now requests
      → answers (dispatch verify_access) (init tier interval now) requests
        ≡ answers (serve verify_access) (init tier interval now) requests
  dispatch-serve tier interval now requests long a =
      answers-Follows now requests (init-IsValid tier interval now) (init-IsValid tier interval now)
        (record {
          tiers = refl;
          default = refl;
          patient = unfold init in long;
          entries = λ ip. inl refl;
        })
        a
