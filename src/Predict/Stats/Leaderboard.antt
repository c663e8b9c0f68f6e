-- ===== src/Predict/Stats/Leaderboard.antt =====
-- What the leaderboard of app/api/v1/predict.py shows: the top of the ranking of its senders' accounts.
use ax_server.Prelude.{
  zero, suc, drop, ◌++◌, Option, append_assoc, ℕ, ◌≡◌, ◌⊎◌, refl, sym, ap, ◌∙◌, some, none, List,
  [], ◌∷◌, inl, inr, take, true, false, List-cases,
}
use mathlib.Core.Path.{subst}
use ax_server.Prelude.Text.{Str, text}
use ax_server.Prelude.Error.{ok, >>=-ok, Result-cases, Result, err}
use ax_server.Predict.Registry.{RegistryFile, RegisteredMarket}
use ax_server.Predict.Stats.{
  Floats, Swap, Trader, Outside, float_of, aggregate, date_trader, leaders, with_swaps, or_error,
  load_markets, pair_addresses, get_prediction_leaderboard,
}
use ax_server.Predict.Stats.Accounts.{
  each-err, aggregate-err, own_account, IsLeaderboard, ranking_of, aggregate-IsRanking,
  find_wallet-split, date_trader-entries,
}
use ax_server.Predict.Stats.Wallets.{find_wallet, IsOnce}

module _ {F : Type 0} (floats : Floats F) where
  -- Why the swaps of an answer cannot be shown: an amount that is no number, or a sender's account
  -- whose time cannot be written out
  pub data Unreadable (outside : Outside) (swaps : List Swap) : Type 0 where
    bad_amount :
        (before : List Swap) (s : Swap) (after : List Swap) (e : Str)
        → swaps ≡ before ++ s ∷ after
        → float_of floats s.amount_usd ≡ err e
        → Unreadable outside swaps
    bad_time :
        (t : Trader F) (e : Str)
        → own_account floats swaps t.wallet ≡ some t
        → date_trader floats outside t ≡ err e
        → Unreadable outside swaps

  take-drop : (n : ℕ) (ts : List (Trader F)) → take n ts ++ drop n ts ≡ ts
  take-drop zero ts = refl
  take-drop (suc n) [] = refl
  take-drop (suc n) (t ∷ ts) = ap (λ r. t ∷ r) (take-drop n ts)

  split-take :
      (n : ℕ) (ts before after : List (Trader F)) (t : Trader F)
      → take n ts ≡ before ++ t ∷ after
      → (rest : List (Trader F)) × (ts ≡ before ++ t ∷ rest)
  split-take n ts before after t h = (
    after ++ drop n ts,
    sym (take-drop n ts) ∙ ap (λ r. r ++ drop n ts) h ∙ append_assoc before (t ∷ after) (drop n ts),
  )

  leaders-err :
      ((a b : F) → floats.lt a b ≡ true → floats.lt b a ≡ false)
      → (outside : Outside) (limit : ℕ) (swaps : List Swap) (e : Str)
      → leaders floats outside limit swaps ≡ err e
      → Unreadable outside swaps
  unfolding leaders
  leaders-err asym outside limit swaps e h = elim (Result-cases (aggregate floats swaps [])) [
    | inr (x, failed) ↦
        let (before, s, after, split, bad) = aggregate-err floats swaps [] x failed in
        bad_amount before s after x split bad
    | inl (traders, made) ↦
        let sorted = ranking_of floats traders in
        let (before, t, after, split, bad) =
          each-err (date_trader floats outside) (take limit sorted) e (rw (made, leaders) at h) in
        let (rest, whole) = split-take limit sorted before after t split in
        let all = aggregate-IsRanking floats asym swaps traders made in
        bad_time t e
          (sym (all.accounts t.wallet)
            ∙ ap (find_wallet t.wallet) whole
            ∙ find_wallet-split floats before rest t (subst IsOnce whole all.once))
          bad
  ]

  leaders-IsLeaderboard :
      ((a b : F) → floats.lt a b ≡ true → floats.lt b a ≡ false)
      → (outside : Outside) (limit : ℕ) (swaps : List Swap) (rows : List (Trader F))
      → leaders floats outside limit swaps ≡ ok rows
      → IsLeaderboard floats limit swaps rows
  unfolding leaders
  leaders-IsLeaderboard asym outside limit swaps rows h =
      let (traders, e1, h1) = >>=-ok (aggregate floats swaps []) _ rows h in
      record {
        ranking = ranking_of floats traders;
        is_ranking = aggregate-IsRanking floats asym swaps traders e1;
        top = date_trader-entries floats outside (take limit (ranking_of floats traders)) rows h1;
      }

  -- Why a leaderboard has no rows, and the source that is named for it
  pub data NoRows (outside : Outside) (file : RegistryFile) : Str → Type 0 where
    unreadable_file : (x : Str) → load_markets file ≡ err x → NoRows outside file (text "error")
    no_markets : load_markets file ≡ ok [] → NoRows outside file (text "empty")
    no_pairs :
        (m : RegisteredMarket) (ms : List RegisteredMarket)
        → load_markets file ≡ ok (m ∷ ms)
        → pair_addresses (m ∷ ms) ≡ []
        → NoRows outside file (text "no_pairs")
    query_raised :
        (registry : List RegisteredMarket) (x : Str)
        → load_markets file ≡ ok registry
        → outside.post (pair_addresses registry) 500 ≡ err x
        → NoRows outside file (text "error")
    query_failed :
        (registry : List RegisteredMarket)
        → load_markets file ≡ ok registry
        → outside.post (pair_addresses registry) 500 ≡ ok none
        → NoRows outside file (text "subgraph_error")
    unreadable_swaps :
        (registry : List RegisteredMarket) (swaps : List Swap)
        → load_markets file ≡ ok registry
        → outside.post (pair_addresses registry) 500 ≡ ok (some swaps)
        → Unreadable outside swaps
        → NoRows outside file (text "error")

  -- With an order of volumes that is asymmetric, a leaderboard shows the first rows, as many as asked
  -- for, of a ranking by volume of all senders of one answer of the subgraph, each once and with the
  -- account of all its own swaps. It is empty instead, with a source that names the reason, only where
  -- the registry cannot be read or has no market or no pair, the query fails, or an amount or a time of
  -- the answer cannot be read.
  pub get_prediction_leaderboard-IsLeaderboard :
      ((a b : F) → floats.lt a b ≡ true → floats.lt b a ≡ false)
      → (outside : Outside) (file : RegistryFile) (limit : ℕ)
      → let answer = get_prediction_leaderboard floats outside file limit in
        ((answer.rows ≡ []) × NoRows outside file answer.source)
        ⊎ ((registry : List RegisteredMarket) × (swaps : List Swap) × (load_markets file
              ≡ ok registry)
            × (outside.post (pair_addresses registry) 500 ≡ ok (some swaps))
            × (answer.source ≡ text "subgraph")
            × IsLeaderboard floats limit swaps answer.rows)
  unfolding get_prediction_leaderboard with_swaps or_error
  get_prediction_leaderboard-IsLeaderboard asym outside file limit =
      elim (Result-cases (load_markets file)) [
        | inr (x, e) ↦
            inl
              (rw (e, get_prediction_leaderboard, with_swaps, or_error) (refl, unreadable_file x e))
        | inl ([], e) ↦
            inl (rw (e, get_prediction_leaderboard, with_swaps, or_error) (refl, no_markets e))
        | inl (m ∷ ms, e) ↦ elim (List-cases (pair_addresses (m ∷ ms))) [
          | inl q ↦ inl (
              rw (e, q, get_prediction_leaderboard, with_swaps, or_error) (refl, no_pairs m ms e q))
          | inr (p, ps, q) ↦
              let asked : (r : Result Str (Option (List Swap)))
                  → outside.post (p ∷ ps) 500 ≡ r
                  → outside.post (pair_addresses (m ∷ ms)) 500 ≡ r =
                λ r posted. ap (λ pairs. outside.post pairs 500) q ∙ posted in
              elim (Result-cases (outside.post (p ∷ ps) 500)) [
                | inr (x, r) ↦ inl (
                    rw (e, q, r, get_prediction_leaderboard, with_swaps, or_error)
                      (refl, query_raised (m ∷ ms) x e (asked _ r)))
                | inl (none, r) ↦ inl (
                    rw (e, q, r, get_prediction_leaderboard, with_swaps, or_error)
                      (refl, query_failed (m ∷ ms) e (asked _ r)))
                | inl (some swaps, r) ↦ elim (Result-cases (leaders floats outside limit swaps)) [
                  | inr (x, l) ↦ inl (
                      rw (e, q, r, l, get_prediction_leaderboard, with_swaps, or_error)
                        (
                          refl,
                          unreadable_swaps (m ∷ ms) swaps e (asked _ r)
                              (leaders-err asym outside limit swaps x l),
                        ))
                  | inl (rows, l) ↦ inr (
                    m ∷ ms,
                    swaps,
                    e,
                    asked _ r,
                    rw (e, q, r, l, get_prediction_leaderboard, with_swaps, or_error) refl,
                    rw (e, q, r, l, get_prediction_leaderboard, with_swaps, or_error)
                        (leaders-IsLeaderboard asym outside limit swaps rows l),
                  )
                ]
              ]
        ]
      ]
