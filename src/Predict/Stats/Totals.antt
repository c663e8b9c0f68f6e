-- ===== src/Predict/Stats/Totals.antt =====
-- The aggregation of the leaderboard against its description: what each sender's own swaps add up to.
use ax_server.Prelude.{
  ◌+◌, ◌≡◌, refl, sym, ap, ◌∙◌, Option, some, none, List, [], ◌∷◌, arith, keep_if, length,
  if◌then◌else◌, test_holds, test_fails, Bool,
}
use mathlib.Core.Path.{subst}
use ax_server.Prelude.Dict.{Dict, lookup-insert}
use ax_server.Prelude.Dict.Laws.{Distinct, insert-Distinct}
use ax_server.Prelude.Text.{Str, text, str_dec, str_eq}
use ax_server.Prelude.Error.{ok, err, >>=-ok, ok-injective}
use ax_server.Predict.Stats.{
  Floats, Swap, Trader, sender_of, float_of, new_trader, counted, count_swap, aggregate,
}
use mathlib.Core.Option
use ax_server.Prelude.Dict

module _ {F : Type 0} (floats : Floats F) where
  -- The value of a swap, and the sum over a list of swaps, from the left
  unfoldable pub volume_of : Swap → F
  volume_of s = elim (float_of floats s.amount_usd) [ ok v ↦ v | err e ↦ floats.zero ]

  unfoldable pub sum_volumes : F → List Swap → F
  sum_volumes acc [] = acc
  sum_volumes acc (s ∷ swaps) = sum_volumes (floats.add acc (volume_of s)) swaps

  abbrev pub sent_by : Str → Swap → Bool
  sent_by wallet s = str_eq (sender_of s) wallet

  -- The account of one sender's swaps: none without a swap.
  unfoldable pub account_of : List Swap → Option (Trader F)
  account_of [] = none
  account_of (s ∷ swaps) = some (record {
    wallet = sender_of s;
    total_volume = sum_volumes floats.zero (s ∷ swaps);
    trade_count = length (s ∷ swaps);
    last_trade = Option.get_or s.timestamp (text "0");
  })

  -- One sender's swaps counted one by one
  count_all : Option (Trader F) → List Swap → Option (Trader F)
  count_all o [] = o
  count_all o (s ∷ swaps) =
      count_all (some (counted floats (volume_of s) (Option.get_or o (new_trader floats s)))) swaps

  count_all-some :
      (t : Trader F) (swaps : List Swap)
      → count_all (some t) swaps
        ≡ some (record t {
          total_volume = sum_volumes t.total_volume swaps;
          trade_count = t.trade_count + length swaps;
        })
  unfolding count_all sum_volumes
  count_all-some t [] = ap (λ n. some (record t { trade_count = n })) (omega arith)
  count_all-some t (s ∷ swaps) =
      count_all-some (counted floats (volume_of s) t) swaps
      ∙ ap
          (λ n. some (record t {
            total_volume = sum_volumes (floats.add t.total_volume (volume_of s)) swaps;
            trade_count = n;
          }))
          (omega arith)

  volume_of-ok : (s : Swap) (v : F) → float_of floats s.amount_usd ≡ ok v → volume_of s ≡ v
  unfolding volume_of
  volume_of-ok s v e = rw (volume_of, e) refl

  lookup-aggregate_from :
      (swaps : List Swap) (d d' : Dict Str (Trader F)) (q : Str)
      → aggregate floats swaps d ≡ ok d'
      → Dict.lookup str_dec q d' ≡ count_all (Dict.lookup str_dec q d) (keep_if (sent_by q) swaps)
  unfolding aggregate count_all
  lookup-aggregate_from [] d d' q h = ap (Dict.lookup str_dec q) (sym (ok-injective h))
  lookup-aggregate_from (s ∷ swaps) d d' q h =
      let (v, e, h') = >>=-ok (float_of floats s.amount_usd) _ d' h in
      let ih = lookup-aggregate_from swaps (count_swap floats d s v) d' q h' in
      let known : Str → Trader F =
        λ k. Option.get_or (Dict.lookup str_dec k d) (new_trader floats s) in
      let step = lookup-insert str_dec (sender_of s) q (counted floats v (known (sender_of s))) d in
      let pick : Bool → Option (Trader F) =
        λ b. if b then some (counted floats v (known (sender_of s))) else Dict.lookup str_dec q d in
      elim (str_dec (sender_of s) q) [
        | yes p ↦
            let own = test_holds (str_dec (sender_of s) q) p in
            let same : counted floats v (known (sender_of s))
                ≡ counted floats (volume_of s) (known q) =
              ap (λ k. counted floats v (known k)) p
              ∙ ap (λ w. counted floats w (known q)) (sym (volume_of-ok s v e)) in
            rw own (
              ih
              ∙ ap (λ o. count_all o (keep_if (sent_by q) swaps))
                  (step ∙ ap pick own ∙ ap some same))
        | no n ↦
            let other = test_fails (str_dec (sender_of s) q) n in
            rw other (ih ∙ ap (λ o. count_all o (keep_if (sent_by q) swaps)) (step ∙ ap pick other))
      ]

  count_all-none : (swaps : List Swap) → count_all none swaps ≡ account_of swaps
  unfolding count_all account_of sum_volumes
  count_all-none [] = refl
  count_all-none (s ∷ swaps) =
      count_all-some (counted floats (volume_of s) (new_trader floats s)) swaps
      ∙ ap
          (λ n. some (record {
            wallet = sender_of s;
            total_volume = sum_volumes (floats.add floats.zero (volume_of s)) swaps;
            trade_count = n;
            last_trade = Option.get_or s.timestamp (text "0");
          }))
          (omega arith)

  -- After the aggregation each sender's entry is the account of the sender's own swaps: their sum from
  -- the left, their number, and the time of the first; a sender without a swap has no entry.
  pub lookup-aggregate :
      (swaps : List Swap) (traders : Dict Str (Trader F)) (wallet : Str)
      → aggregate floats swaps [] ≡ ok traders
      → Dict.lookup str_dec wallet traders ≡ account_of (keep_if (sent_by wallet) swaps)
  lookup-aggregate swaps traders wallet h =
      lookup-aggregate_from swaps [] traders wallet h
      ∙ count_all-none (keep_if (sent_by wallet) swaps)

  pub aggregate-Distinct :
      (swaps : List Swap) (d d' : Dict Str (Trader F))
      → Distinct str_dec d
      → aggregate floats swaps d ≡ ok d'
      → Distinct str_dec d'
  unfolding aggregate
  aggregate-Distinct [] d d' h e = subst (Distinct str_dec) (ok-injective e) h
  aggregate-Distinct (s ∷ swaps) d d' h e =
      let (v, q, e') = >>=-ok (float_of floats s.amount_usd) _ d' e in
      aggregate-Distinct swaps (count_swap floats d s v) d'
        (insert-Distinct str_dec (sender_of s) _ d h) e'
