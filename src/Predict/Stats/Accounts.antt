-- ===== src/Predict/Stats/Accounts.antt =====
-- The ranking of the senders' accounts behind the leaderboard of app/api/v1/predict.py.
use ax_server.Prelude.{
  ◌++◌, map, Option, ℕ, ◌≡◌, refl, sym, ap, ◌∙◌, some, List, [], ◌∷◌, inl, inr, keep_if, take,
  of_test, test_holds, test_fails, true, false, Bool-cases,
}
use ax_server.Prelude.Dict.{Dict}
use ax_server.Prelude.Int.{parse_int}
use ax_server.Prelude.Text.{Str, str_dec}
use ax_server.Prelude.Error.{
  ok, >>=-ok, ok-injective, Result-cases, some-injective, none≢some, or_raise, Result, err, ok≢err,
  err-injective,
}
use ax_server.Predict.Stats.{
  Floats, Swap, Trader, Outside, float_of, count_swap, sender_of, aggregate, sort_traders, values,
  date_trader,
}
use ax_server.Predict.Stats.Totals.{sent_by, account_of, lookup-aggregate, aggregate-Distinct}
use ax_server.Predict.Stats.Ranking.{IsRanked, each-cons, sort_traders-IsRanked}
use ax_server.History.{each}
use ax_server.Predict.Stats.Wallets.{
  find_wallet, IsOnce, IsKeyed, lookup-IsKeyed, find_wallet-values, values-IsOnce,
  sort_traders-IsOnce,
}

module _ {A B : Type 0} (f : A → Result Str B) where
  -- Where a comprehension raises, an element of its list makes it raise.
  pub each-err :
      (xs : List A) (e : Str)
      → each f xs ≡ err e
      → (before : List A) × (x : A) × (after : List A) × (xs ≡ before ++ x ∷ after) × (f x ≡ err e)
  unfolding each
  each-err [] e h = absurd (ok≢err h)
  each-err (x ∷ xs) e h = elim (Result-cases (f x)) [
    | inr (y, failed) ↦ ([], x, xs, refl, failed ∙ ap err (err-injective (rw failed at h)))
    | inl (b, made) ↦ elim (Result-cases (each f xs)) [
      | inl (bs, rest) ↦ absurd (ok≢err (rw (made, rest) at h))
      | inr (y, rest) ↦
          let (before, z, after, split, failed) =
            each-err xs e (rest ∙ ap err (err-injective (rw (made, rest) at h))) in
          (x ∷ before, z, after, ap (λ r. x ∷ r) split, failed)
    ]
  ]

module _ {F : Type 0} (floats : Floats F) where
  account_of-wallet :
      (q : Str) (swaps : List Swap) (t : Trader F)
      → account_of floats (keep_if (sent_by floats q) swaps) ≡ some t
      → q ≡ t.wallet
  unfolding account_of
  account_of-wallet q [] t h = absurd (none≢some t h)
  account_of-wallet q (s ∷ swaps) t h = elim (Bool-cases (sent_by floats q s)) [
    | inl e ↦
        sym (of_test (str_dec (sender_of s) q) e)
        ∙ ap (λ t. t.wallet) (some-injective (rw (e, account_of) at h))
    | inr e ↦ account_of-wallet q swaps t (rw e at h)
  ]

  pub aggregate-err :
      (swaps : List Swap) (d : Dict Str (Trader F)) (e : Str)
      → aggregate floats swaps d ≡ err e
      → (before : List Swap) × (s : Swap) × (after : List Swap) × (swaps ≡ before ++ s ∷ after)
        × (float_of floats s.amount_usd ≡ err e)
  unfolding aggregate
  aggregate-err [] d e h = absurd (ok≢err h)
  aggregate-err (s ∷ swaps) d e h = elim (Result-cases (float_of floats s.amount_usd)) [
    | inr (y, failed) ↦ ([], s, swaps, refl, failed ∙ ap err (err-injective (rw failed at h)))
    | inl (v, made) ↦
        let (before, z, after, split, failed) =
          aggregate-err swaps (count_swap floats d s v) e (rw made at h) in
        (s ∷ before, z, after, ap (λ r. s ∷ r) split, failed)
  ]

  -- A row without the time of the last trade
  abbrev pub entry_of : Trader F → Str × F × ℕ
  entry_of t = (t.wallet, t.total_volume, t.trade_count)

  date_trader-entry :
      (outside : Outside) (t u : Trader F)
      → date_trader floats outside t ≡ ok u
      → entry_of u ≡ entry_of t
  unfolding date_trader
  date_trader-entry outside t u h =
      let (ts, e1, h1) = >>=-ok (or_raise (parse_int t.last_trade) _) _ u h in
      let (date, e2, h2) = >>=-ok (outside.isoformat ts) _ u h1 in
      ap entry_of (sym (ok-injective h2))

  pub date_trader-entries :
      (outside : Outside) (ts us : List (Trader F))
      → each (date_trader floats outside) ts ≡ ok us
      → map entry_of us ≡ map entry_of ts
  unfolding each
  date_trader-entries outside [] us h = ap (map entry_of) (sym (ok-injective h))
  date_trader-entries outside (t ∷ ts) us h =
      let (w, ws, e1, e2, is) = each-cons (date_trader floats outside) t ts us h in
      ap (map entry_of) (sym is)
      ∙ ap (λ x. x ∷ map entry_of ws) (date_trader-entry outside t w e1)
      ∙ ap (λ r. entry_of t ∷ r) (date_trader-entries outside ts ws e2)

  -- The account of a wallet's own swaps
  abbrev pub own_account : List Swap → Str → Option (Trader F)
  own_account swaps wallet = account_of floats (keep_if (sent_by floats wallet) swaps)

  -- A ranking of all senders of some swaps: each once, with the account of the sender's own swaps, and
  -- no one else; no volume is above the one before.
  pub record IsRanking (swaps : List Swap) (ranking : List (Trader F)) : Type 0 where
    pub ranked : IsRanked floats ranking
    pub once : IsOnce ranking
    pub accounts : (wallet : Str) → find_wallet wallet ranking ≡ own_account swaps wallet

  -- The first rows of such a ranking, with their times written out
  pub record IsLeaderboard (limit : ℕ) (swaps : List Swap) (rows : List (Trader F)) : Type 0 where
    pub ranking : List (Trader F)
    pub is_ranking : IsRanking swaps ranking
    pub top : map entry_of rows ≡ map entry_of (take limit ranking)

  abbrev pub ranking_of : Dict Str (Trader F) → List (Trader F)
  ranking_of traders = sort_traders floats (values floats traders)

  pub aggregate-IsRanking :
      ((a b : F) → floats.lt a b ≡ true → floats.lt b a ≡ false)
      → (swaps : List Swap) (traders : Dict Str (Trader F)) → aggregate floats swaps [] ≡ ok traders
      → IsRanking swaps (ranking_of traders)
  aggregate-IsRanking asym swaps traders h =
      let apart = aggregate-Distinct floats swaps [] traders tt h in
      let keyed : IsKeyed traders = lookup-IsKeyed floats traders apart (λ k t found.
        account_of-wallet k swaps t (sym (lookup-aggregate floats swaps traders k h) ∙ found)) in
      let sorted =
        sort_traders-IsOnce floats (values floats traders)
          (values-IsOnce floats traders keyed apart) in
      record {
        ranked = sort_traders-IsRanked floats asym (values floats traders);
        once = sorted.0;
        accounts = λ w.
            sorted.1 w
            ∙ find_wallet-values floats traders w keyed
            ∙ lookup-aggregate floats swaps traders w h;
      }

  pub find_wallet-split :
      (before after : List (Trader F)) (t : Trader F)
      → IsOnce (before ++ t ∷ after)
      → find_wallet t.wallet (before ++ t ∷ after) ≡ some t
  unfolding find_wallet
  find_wallet-split [] after t once = rw (test_holds (str_dec t.wallet t.wallet) refl) refl
  find_wallet-split (u ∷ before) after t once =
      let found = find_wallet-split before after t once.1 in
      elim (str_dec u.wallet t.wallet) [
        | yes y ↦
            absurd
              (none≢some t (sym once.0 ∙ ap (λ w. find_wallet w (before ++ t ∷ after)) y ∙ found))
        | no n ↦ rw (test_fails (str_dec u.wallet t.wallet) n) found
      ]
