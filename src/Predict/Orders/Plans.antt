-- ===== src/Predict/Orders/Plans.antt =====
-- What the answers of the order builders hold: at most one approval, of the amount at hand, and a
-- swap with the bound that the slippage gives.
use ax_server.Prelude.{ℕ, ◌≤◌, ◌≡◌, List, [], ◌∷◌, ◌++◌, ltb, if◌then◌else◌, true, le→ltb, sym, ap}
use mathlib.Core.Path.{subst}
use ax_server.Prelude.Int.{ℤ}
use ax_server.Prelude.Text.{Str, text}
use ax_server.Predict.Orders.Checks.{
  SwapChecked, Addresses, swap_checks-ok, with_market-ok, swap_addresses-ok,
}
use ax_server.Prelude.Error.{>>=-ok, ok-injective, map_err-ok, Result, ok, ◌>>=◌}
use ax_server.Predict.Registry.{RegisteredMarket, RegistryFile}
use ax_server.Predict.Orders.{
  Cache, Tx, UnsignedTxPayload, lookup_market, apply_slippage, swap_deadline, build_tx_payload,
}
use ax_server.Predict.Orders.Builders.{
  Chain, Settings, SwapRequest, BuildTxResponse, approve_if_needed, swap_transactions,
  swap_addresses, build_predict_buy, build_predict_sell,
}

-- The transactions of a swap of `amount` of one token for another
pub record SwapPlan (chain : Chain) (wallet : Str) (amount : ℕ) (router token_in token_out : Str)
    (slippage_bps : ℤ) (now : ℕ) (transactions : List UnsignedTxPayload) : Type 0 where
  pub allowance : ℕ
  pub first_quoted : ℕ
  pub quoted : ℕ
  pub approvals : List UnsignedTxPayload
  pub swap : Tx
  pub description : Str
  pub allowed : chain.allowance token_in wallet router ≡ ok allowance
  pub enough : amount ≤ allowance → approvals ≡ []
  pub short :
      ltb allowance amount ≡ true
      → (tx : Tx) × (what : Str) × (chain.approve wallet token_in router amount ≡ ok tx)
        × (approvals ≡ build_tx_payload chain.estimate_gas tx wallet what ∷ [])
  pub quote_is :
      chain.get_amounts_out router amount (token_in ∷ token_out ∷ []) ≡ ok (first_quoted, quoted)
  pub swap_is :
      chain.swap router amount
        (apply_slippage quoted slippage_bps)
        (token_in ∷ token_out ∷ [])
        wallet
        (swap_deadline now)
      ≡ ok swap
  pub all_of :
      transactions ≡ approvals ++ build_tx_payload chain.estimate_gas swap wallet description ∷ []

approval_of :
    (m : Result Str Tx) (f : Tx → UnsignedTxPayload) (allowance amount : ℕ)
    (approvals : List UnsignedTxPayload)
    → (if ltb allowance amount then (do tx ← m; ok (f tx ∷ [])) else ok []) ≡ ok approvals
    → (amount ≤ allowance → approvals ≡ [])
      × (ltb allowance amount ≡ true → (tx : Tx) × (m ≡ ok tx) × (approvals ≡ f tx ∷ []))
approval_of m f allowance amount approvals h = (
  λ k.
      let done : Path (Result Str (List UnsignedTxPayload)) (ok []) (ok approvals) =
        rw (le→ltb allowance amount k) at h in
      sym (ok-injective done),
  λ k.
      let run : (do tx ← m; ok (f tx ∷ [])) ≡ ok approvals = rw k at h in
      let (tx, built, same) = >>=-ok m _ approvals run in (tx, built, sym (ok-injective same)),
)

swap_transactions-ok :
    (chain : Chain) (settings : Settings) (wallet : Str) (amount : ℕ)
    (router token_in token_out : Str) (slippage_bps : ℤ) (approving swapping : Str) (now : ℕ)
    (txs : List UnsignedTxPayload)
    → swap_transactions chain settings wallet amount router token_in token_out slippage_bps
        approving swapping now
      ≡ ok txs
    → SwapPlan chain wallet amount router token_in token_out slippage_bps now txs
unfolding swap_transactions approve_if_needed
swap_transactions-ok chain settings wallet amount router token_in token_out bps approving swapping
      now txs h =
    let (approvals, got, h1) = >>=-ok _ _ txs h in
    let (allowance, asked, h0) = >>=-ok _ _ approvals got in
    let approved =
      approval_of (chain.approve wallet token_in router amount)
        (λ tx. build_tx_payload chain.estimate_gas tx wallet approving) allowance amount approvals
        h0 in
    let (both, quoted, h2) = >>=-ok _ _ txs h1 in
    let (swap, built, h3) = >>=-ok _ _ txs h2 in
    record {
      allowance = allowance;
      first_quoted = both.0;
      quoted = both.1;
      approvals = approvals;
      swap = swap;
      description = swapping;
      allowed = asked;
      enough = approved.0;
      short = λ k. let (tx, made, same) = approved.1 k in (tx, approving, made, same);
      quote_is = quoted;
      swap_is = built;
      all_of = sym (ok-injective h3);
    }

-- An answer to a buy order is for the checked wallet, for a positive amount and for a market of
-- the registry; its transactions swap axUSD for the outcome's token at the configured router, with
-- the quote less the slippage as the least amount, after an approval of just that amount where the
-- allowance falls short, and with none where it does not.
pub build_predict_buy-ok :
    (chain : Chain) (settings : Settings) (cache : Cache) (file : RegistryFile) (body : SwapRequest)
    (now : ℕ) (r : BuildTxResponse)
    → (build_predict_buy chain settings cache file body now).1 ≡ ok r
    → (c : Str × ℕ × Str) × (market : RegisteredMarket) × (a : Str × Str × Str) × SwapChecked chain
        body c.0 c.1 c.2
      × ((lookup_market chain.checksum cache file body.market_id).1 ≡ ok market)
      × Addresses chain settings market c.2 a.0 a.1 a.2
      × SwapPlan chain c.0 c.1 a.0 a.1 a.2 body.slippage_bps now r.transactions
      × (r.chain_id ≡ settings.default_chain_id)
unfolding build_predict_buy
build_predict_buy-ok chain settings cache file body now r h =
    let (c, market, checked, found, done) =
      with_market-ok chain cache file body.market_id _ _ r h in
    let (a, configured, h1) = >>=-ok (swap_addresses chain settings market c.2) _ r done in
    let (txs, planned, h2) = >>=-ok _ _ r h1 in
    let same = ok-injective h2 in
    (
      c,
      market,
      a,
      swap_checks-ok chain settings body (text "axusd_amount") c checked,
      found,
      swap_addresses-ok chain settings market c.2 a configured,
      subst (λ x. SwapPlan chain c.0 c.1 a.0 a.1 a.2 body.slippage_bps now x.transactions) same
          (swap_transactions-ok chain settings c.0 c.1 a.0 a.1 a.2 body.slippage_bps _ _ now txs
            (map_err-ok _ _ txs planned)),
      ap (λ x. x.chain_id) (sym same),
    )

-- An answer to a sell order is the same with the tokens exchanged: the outcome's token is approved
-- and swapped for axUSD.
pub build_predict_sell-ok :
    (chain : Chain) (settings : Settings) (cache : Cache) (file : RegistryFile) (body : SwapRequest)
    (now : ℕ) (r : BuildTxResponse)
    → (build_predict_sell chain settings cache file body now).1 ≡ ok r
    → (c : Str × ℕ × Str) × (market : RegisteredMarket) × (a : Str × Str × Str) × SwapChecked chain
        body c.0 c.1 c.2
      × ((lookup_market chain.checksum cache file body.market_id).1 ≡ ok market)
      × Addresses chain settings market c.2 a.0 a.1 a.2
      × SwapPlan chain c.0 c.1 a.0 a.2 a.1 body.slippage_bps now r.transactions
      × (r.chain_id ≡ settings.default_chain_id)
unfolding build_predict_sell
build_predict_sell-ok chain settings cache file body now r h =
    let (c, market, checked, found, done) =
      with_market-ok chain cache file body.market_id _ _ r h in
    let (a, configured, h1) = >>=-ok (swap_addresses chain settings market c.2) _ r done in
    let (txs, planned, h2) = >>=-ok _ _ r h1 in
    let same = ok-injective h2 in
    (
      c,
      market,
      a,
      swap_checks-ok chain settings body (text "token_amount") c checked,
      found,
      swap_addresses-ok chain settings market c.2 a configured,
      subst (λ x. SwapPlan chain c.0 c.1 a.0 a.2 a.1 body.slippage_bps now x.transactions) same
          (swap_transactions-ok chain settings c.0 c.1 a.0 a.2 a.1 body.slippage_bps _ _ now txs
            (map_err-ok _ _ txs planned)),
      ap (λ x. x.chain_id) (sym same),
    )
