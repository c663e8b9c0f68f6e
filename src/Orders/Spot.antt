-- ===== src/Orders/Spot.antt =====
-- What the answers to buy and sell orders of app/api/v1/orders.py hold.
use ax_server.Prelude.{ℕ, ◌≡◌, ◌≤◌, ◌⊎◌, inl, inr, refl, sym, ap, ◌∙◌, some, none, ◌++◌}
use mathlib.Core.Path.{subst}
use ax_server.Prelude.Int.{ℤ, pos, parse_int, signed, magnitude, plain}
use ax_server.Prelude.Text.Search.{int_of, decimal}
use ax_server.Prelude.Text.{Str, text, strip, is_digit}
use ax_server.Prelude.Error.{
  Result, ok, err, Raised, >>=-ok, ok-injective, map_err-ok, Result-cases, map_err, ◌>>=◌,
  some-injective, ok≢err,
}
use ax_server.Chain.Synthetix.{
  Contracts, SpotCall, buy, sell, TxData, spot_tx, build_buy_tx, build_sell_tx,
}
use ax_server.Chain.Eip7412.{ChainError, Oracle, try_resolve_eip7412, int_str, plus_int, pyth_fee}
use ax_server.Chain.Eip7412.Calls.{CallsBoth, try_resolve_eip7412-some}
use ax_server.Predict.Orders.{validate_address, validate_amount}
use ax_server.Predict.Orders.Checks.{validate_amount-ok}
use ax_server.Orders.{
  answer_resolved, Node, SpotRequest, UnsignedTransaction, gas_query, answer_of, least_received,
  estimate_resolved, estimate_or_resolve, spot_checks, build_buy_transaction,
  build_sell_transaction, Option, revert_error, decimal,
}

-- The two endpoints
pub data Side : Type 0 where
  buying : Side
  selling : Side

unfoldable pub build_spot : Side → Node → SpotRequest → Result Raised UnsignedTransaction
unfolding build_buy_transaction build_sell_transaction
build_spot buying node body = build_buy_transaction node body
build_spot selling node body = build_sell_transaction node body

abbrev pub call_of : Side → ℤ → ℤ → ℤ → Str → SpotCall
call_of buying = buy
call_of selling = sell

-- A transaction of the spot market proxy with the calldata of a call, sending nothing
pub record IsSpotTx (contracts : Contracts) (call : SpotCall) (tx : TxData) : Type 0 where
  pub target_is : tx.to ≡ contracts.spot_market_proxy
  pub encoded : contracts.encode_spot call ≡ ok tx.calldata
  pub sends_nothing : tx.value ≡ text "0"
  pub chain_is : contracts.chain_id ≡ ok tx.chain_id

spot_tx-ok :
    (contracts : Contracts) (call : SpotCall) (tx : TxData)
    → spot_tx contracts call ≡ ok tx
    → IsSpotTx contracts call tx
unfolding spot_tx
spot_tx-ok contracts call tx h =
    let (encoded, e1, h1) = >>=-ok (contracts.encode_spot call) _ tx h in
    let (id, e2, h2) = >>=-ok contracts.chain_id _ tx h1 in
    subst (IsSpotTx contracts call) (ok-injective h2)
      (record { target_is = refl; encoded = e1; sends_nothing = refl; chain_is = e2 })

-- The transaction of an answer, without the estimate
pub record Sends (tx : TxData) (answer : UnsignedTransaction) : Type 0 where
  pub target_is : answer.to ≡ tx.to
  pub calldata_is : answer.calldata ≡ tx.calldata
  pub value_is : answer.value ≡ tx.value
  pub chain_is : answer.chain_id ≡ tx.chain_id

answer_of-Sends : (tx : TxData) (gas : Option ℕ) → Sends tx (answer_of tx tx.value gas)
unfolding answer_of
answer_of-Sends tx gas = record {
  target_is = refl;
  calldata_is = refl;
  value_is = refl;
  chain_is = refl;
}

-- The transaction of an answer is the one that was built, or the one that gives the oracle its data
-- where the estimate of the gas failed and asked for it.
pub data SendsOneOf (node : Node) (wallet : Str) (tx : TxData) (answer : UnsignedTransaction)
    : Type 0 where
  own : Sends tx answer → SendsOneOf node wallet tx answer
  with_oracle :
      (e : ChainError) (resolved : TxData)
      → node.estimate_gas (gas_query wallet tx (pos 0)) ≡ err e
      → CallsBoth node.oracle e tx resolved
      → Sends resolved answer
      → SendsOneOf node wallet tx answer

estimate_or_resolve-Sends :
    (node : Node) (wallet : Str) (tx : TxData) (answer : UnsignedTransaction)
    → estimate_or_resolve node wallet tx ≡ ok answer
    → SendsOneOf node wallet tx answer
unfolding estimate_or_resolve answer_resolved
estimate_or_resolve-Sends node wallet tx answer h =
    elim (Result-cases (node.estimate_gas (gas_query wallet tx (pos 0)))) [
      | inl (gas, e) ↦ own (
          subst (Sends tx) (ok-injective (rw (e, estimate_or_resolve) at h))
            (answer_of-Sends tx (some gas)))
      | inr (x, e) ↦ elim (Result-cases (try_resolve_eip7412 node.oracle x tx)) [
        | inr (y, r) ↦ absurd (ok≢err (sym (rw (e, r, estimate_or_resolve) at h)))
        | inl (none, r) ↦ own (
            subst (Sends tx) (ok-injective (rw (e, r, estimate_or_resolve) at h))
              (answer_of-Sends tx none))
        | inl (some resolved, r) ↦
            with_oracle x resolved e (try_resolve_eip7412-some node.oracle x tx resolved r) (
              subst (Sends resolved) (ok-injective (rw (e, r, estimate_or_resolve) at h))
                (answer_of-Sends resolved (estimate_resolved node wallet resolved)))
      ]
    ]

-- The checked parts of a request
pub record SpotChecked (contracts : Contracts) (body : SpotRequest) (wallet : Str) (amount : ℕ)
    (min_received : ℤ) : Type 0 where
  pub wallet_is : validate_address contracts.checksum body.wallet (text "wallet") ≡ ok wallet
  pub amount_is : parse_int body.amount ≡ some (pos amount)
  pub positive : 1 ≤ amount
  pub least_is : least_received body.min_received ≡ ok min_received

spot_checks-ok :
    (node : Node) (body : SpotRequest) (field : Str) (c : Str × ℕ × ℤ)
    → spot_checks node body field ≡ ok c
    → SpotChecked node.contracts body c.0 c.1 c.2
unfolding spot_checks
spot_checks-ok node body field c h =
    let (w, e1, h1) =
      >>=-ok (validate_address node.contracts.checksum body.wallet (text "wallet")) _ c h in
    let (n, e2, h2) = >>=-ok (validate_amount body.amount field) _ c h1 in
    let (m, e3, h3) = >>=-ok (least_received body.min_received) _ c h2 in
    let parsed = validate_amount-ok body.amount field n e2 in
    subst (λ x. SpotChecked node.contracts body x.0 x.1 x.2) (ok-injective h3)
      (record { wallet_is = e1; amount_is = parsed.0; positive = parsed.1; least_is = e3 })

-- An answer to a buy or sell order
pub record SpotAnswer (side : Side) (node : Node) (body : SpotRequest)
    (answer : UnsignedTransaction) : Type 0 where
  pub wallet : Str
  pub referrer : Str
  pub amount : ℕ
  pub min_received : ℤ
  pub tx : TxData
  pub checked : SpotChecked node.contracts body wallet amount min_received
  pub referrer_is : node.contracts.checksum wallet ≡ ok referrer
  pub spot_call :
      IsSpotTx node.contracts (call_of side body.market_id (pos amount) min_received referrer) tx
  pub sent : SendsOneOf node wallet tx answer

unfoldable pub build_spot_tx : Side → Contracts → ℤ → ℤ → ℤ → Str → Result Str TxData
build_spot_tx buying = build_buy_tx
build_spot_tx selling = build_sell_tx

build_spot_tx-ok :
    (side : Side) (contracts : Contracts) (market_id amount least : ℤ) (wallet : Str) (tx : TxData)
    → build_spot_tx side contracts market_id amount least wallet ≡ ok tx
    → (r : Str) × (contracts.checksum wallet ≡ ok r)
      × IsSpotTx contracts (call_of side market_id amount least r) tx
unfolding build_spot_tx build_buy_tx build_sell_tx
build_spot_tx-ok buying contracts market_id amount least wallet tx h =
    let (r, e, h1) = >>=-ok (contracts.checksum wallet) _ tx h in
    (r, e, spot_tx-ok contracts (buy market_id amount least r) tx h1)
build_spot_tx-ok selling contracts market_id amount least wallet tx h =
    let (r, e, h1) = >>=-ok (contracts.checksum wallet) _ tx h in
    (r, e, spot_tx-ok contracts (sell market_id amount least r) tx h1)

pub amount_field : Side → Str
amount_field buying = text "usd_amount"
amount_field selling = text "synth_amount"

pub message_of : Side → ℤ → Str
message_of buying m = text "Failed to build buy transaction for market " ++ int_str m
message_of selling m = text "Failed to build sell transaction for market " ++ int_str m

-- Both handlers are the same block for their side.
pub build_spot-block :
    (side : Side) (node : Node) (body : SpotRequest)
    → build_spot side node body ≡ (
        spot_checks node body (amount_field side) >>= λ c.
        map_err (revert_error (message_of side body.market_id)) (
          build_spot_tx side node.contracts body.market_id (pos (c.1)) (c.2) (c.0) >>= λ tx.
          estimate_or_resolve node (c.0) tx))
unfolding build_spot build_buy_transaction build_sell_transaction amount_field message_of
    build_spot_tx
build_spot-block buying node body = refl
build_spot-block selling node body = refl

-- An answer to a buy or sell order has a checked wallet, amount and least amount, and the amount is
-- above zero. It is the call of the spot market with just these, sending nothing, or, where the
-- estimate of its gas failed and the revert asked for it, the transaction that gives the oracle of the
-- revert the update of its price feed, for one wei, and then makes that call.
pub build_spot-ok :
    (side : Side) (node : Node) (body : SpotRequest) (answer : UnsignedTransaction)
    → build_spot side node body ≡ ok answer
    → SpotAnswer side node body answer
build_spot-ok side node body answer h =
    let ((wallet, amount, least), e1, h1) =
      >>=-ok (spot_checks node body (amount_field side)) _ answer
        (sym (build_spot-block side node body) ∙ h) in
    let (tx, e2, h2) =
      >>=-ok (build_spot_tx side node.contracts body.market_id (pos amount) least wallet) _ answer
        (map_err-ok _ _ answer h1) in
    let (r, referrer_is, spot_call) =
      build_spot_tx-ok side node.contracts body.market_id (pos amount) least wallet tx e2 in
    record {
      wallet = wallet;
      referrer = r;
      amount = amount;
      min_received = least;
      tx = tx;
      checked = spot_checks-ok node body (amount_field side) (wallet, amount, least) e1;
      referrer_is = referrer_is;
      spot_call = spot_call;
      sent = estimate_or_resolve-Sends node wallet tx answer h2;
    }

one_wei : int_str (plus_int pyth_fee (pos 0)) ≡ text "1"
unfolding int_str plus_int text decimal
one_wei = refl

zero_parsed : parse_int (text "0") ≡ some (pos 0)
unfolding parse_int text strip signed magnitude plain int_of is_digit
zero_parsed = refl

resolved_value :
    (oracle : Oracle) (e : ChainError) (tx resolved : TxData)
    → tx.value ≡ text "0"
    → CallsBoth oracle e tx resolved
    → resolved.value ≡ text "1"
resolved_value oracle e tx resolved h calls =
    calls.total
    ∙ ap (λ n. int_str (plus_int pyth_fee n))
        (some-injective (sym calls.own_value ∙ ap parse_int h ∙ zero_parsed))
    ∙ one_wei

-- Whatever the node and the oracle answer, a buy or sell order has its wallet send no wei or one.
pub build_spot-value :
    (side : Side) (node : Node) (body : SpotRequest) (answer : UnsignedTransaction)
    → build_spot side node body ≡ ok answer
    → (answer.value ≡ text "0") ⊎ (answer.value ≡ text "1")
build_spot-value side node body answer h =
    let a = build_spot-ok side node body answer h in
    elim a.sent [
      | own s ↦ inl (s.value_is ∙ a.spot_call.sends_nothing)
      | with_oracle e resolved failed calls s ↦
          inr (
            s.value_is ∙ resolved_value node.oracle e a.tx resolved a.spot_call.sends_nothing calls)
    ]
