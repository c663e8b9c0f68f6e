-- ===== src/Predict/Stats/Wallets.antt =====
-- One row for each wallet, before and after the sorting of the leaderboard of app/api/v1/predict.py.
use ax_server.Prelude.{
  ◌≡◌, test_holds, ap, ◌∙◌, Bool-cases, if◌then◌else◌, [], test_fails, sym, inr, refl, inl, false,
}
use ax_server.Prelude.Dict.{Dict}
use ax_server.Prelude.Dict.Laws.{Distinct}
use ax_server.Prelude.Text.{Str, str_dec, str_eq}
use ax_server.Prelude.Error.{none≢some}
use ax_server.Predict.Stats.{
  Floats, Trader, insert_trader, sort_traders, values, List, some, Option, ◌∷◌, none,
}
use ax_server.Prelude.Dict

module _ {F : Type 0} where
  -- The first row of a wallet
  unfoldable pub find_wallet : Str → List (Trader F) → Option (Trader F)
  find_wallet w [] = none
  find_wallet w (t ∷ ts) = if str_eq t.wallet w then some t else find_wallet w ts

  -- No wallet has two rows.
  abbrev pub IsOnce : List (Trader F) → Type 0
  IsOnce [] = Unit
  IsOnce (t ∷ ts) = (find_wallet t.wallet ts ≡ none) × IsOnce ts

  -- Each entry is kept under its wallet.
  abbrev pub IsKeyed : Dict Str (Trader F) → Type 0
  IsKeyed [] = Unit
  IsKeyed ((k, t) ∷ d) = (k ≡ t.wallet) × IsKeyed d

module _ {F : Type 0} (floats : Floats F) where
  pub lookup-IsKeyed :
      (d : Dict Str (Trader F))
      → Distinct str_dec d
      → ((k : Str) (t : Trader F) → Dict.lookup str_dec k d ≡ some t → k ≡ t.wallet)
      → IsKeyed d
  lookup-IsKeyed [] h each_one = tt
  lookup-IsKeyed ((k, t) ∷ d) h each_one = (
    each_one k t (rw (test_holds (str_dec k k) refl) refl),
    lookup-IsKeyed d h.1 (λ q u found. each_one q u (
        rw
          (test_fails (str_dec k q)
            (λ e. none≢some u (sym h.0 ∙ ap (λ x. Dict.lookup str_dec x d) e ∙ found)))
          found)),
  )

  pub find_wallet-values :
      (d : Dict Str (Trader F)) (w : Str)
      → IsKeyed d
      → find_wallet w (values floats d) ≡ Dict.lookup str_dec w d
  unfolding values find_wallet
  find_wallet-values [] w h = refl
  find_wallet-values ((k, t) ∷ d) w h =
      let ih = find_wallet-values d w h.1 in
      ap (λ x. if str_eq x w then some t else find_wallet w (values floats d)) (sym h.0)
      ∙ ap (λ o. if str_eq k w then some t else o) ih

  pub values-IsOnce :
      (d : Dict Str (Trader F)) → IsKeyed d → Distinct str_dec d → IsOnce (values floats d)
  unfolding values
  values-IsOnce [] h apart = tt
  values-IsOnce ((k, t) ∷ d) h apart = (
    find_wallet-values d t.wallet h.1 ∙ ap (λ x. Dict.lookup str_dec x d) (sym h.0) ∙ apart.0,
    values-IsOnce d h.1 apart.1,
  )

  find_wallet-insert_trader :
      (t : Trader F) (us : List (Trader F)) (w : Str)
      → find_wallet t.wallet us ≡ none
      → find_wallet w (insert_trader floats t us)
        ≡ (if str_eq t.wallet w then some t else find_wallet w us)
  unfolding insert_trader find_wallet
  find_wallet-insert_trader t [] w h = refl
  find_wallet-insert_trader t (u ∷ us) w h =
      elim (Bool-cases (floats.lt t.total_volume u.total_volume)) [
        | inr e ↦ rw e refl
        | inl e ↦ rw e (elim (Bool-cases (str_eq u.wallet t.wallet)) [
          | inl same ↦ absurd (none≢some u (sym h ∙ rw same refl))
          | inr other ↦
              let ih = find_wallet-insert_trader t us w (rw other at h) in
              elim (str_dec u.wallet w) [
                | no n ↦ rw (test_fails (str_dec u.wallet w) n) ih
                | yes y ↦
                    let mine = test_holds (str_dec u.wallet w) y in
                    let differs : str_eq t.wallet w ≡ false =
                      test_fails (str_dec t.wallet w)
                        (λ z. cc (test_holds (str_dec u.wallet t.wallet) (y ∙ sym z), other)) in
                    rw (mine, differs) refl
              ]
        ])
      ]

  insert_trader-IsOnce :
      (t : Trader F) (us : List (Trader F))
      → find_wallet t.wallet us ≡ none
      → IsOnce us
      → IsOnce (insert_trader floats t us)
  unfolding insert_trader find_wallet
  insert_trader-IsOnce t [] h once = (refl, tt)
  insert_trader-IsOnce t (u ∷ us) h once =
      elim (Bool-cases (floats.lt t.total_volume u.total_volume)) [
        | inr e ↦ rw e (h, once)
        | inl e ↦ rw e (elim (str_dec u.wallet t.wallet) [
          | yes y ↦
              absurd (none≢some u (sym h ∙ rw (test_holds (str_dec u.wallet t.wallet) y) refl))
          | no n ↦
              let gone : find_wallet t.wallet us ≡ none =
                rw (test_fails (str_dec u.wallet t.wallet) n) at h in
              (
                find_wallet-insert_trader t us u.wallet gone
                    ∙ rw (test_fails (str_dec t.wallet u.wallet) (λ z. n (sym z))) once.0,
                insert_trader-IsOnce t us gone once.1,
              )
        ])
      ]

  -- The sorting keeps the row of every wallet.
  pub sort_traders-IsOnce :
      (ts : List (Trader F))
      → IsOnce ts
      → IsOnce (sort_traders floats ts)
        × ((w : Str) → find_wallet w (sort_traders floats ts) ≡ find_wallet w ts)
  unfolding sort_traders find_wallet
  sort_traders-IsOnce [] h = (tt, λ w. refl)
  sort_traders-IsOnce (t ∷ ts) h =
      let (once, same) = sort_traders-IsOnce ts h.1 in
      let gone = same t.wallet ∙ h.0 in
      (
        insert_trader-IsOnce t (sort_traders floats ts) gone once,
        λ w.
            find_wallet-insert_trader t (sort_traders floats ts) w gone
            ∙ ap (λ o. if str_eq t.wallet w then some t else o) (same w),
      )
