-- ===== src/Predict/Deploy/Steps.antt =====
-- Which transactions the deployer of app/chain/prediction_deployer.py leaves on the chain, also when
-- it fails half way.
use ax_server.Prelude.{
  ◌≡◌, refl, List, [], ◌∷◌, ◌++◌, ap, sym, ◌∙◌, append_assoc, append_nil, arith, ℕ, none, Option,
  some, ◌+◌,
}
use ax_server.Prelude.Text.{Str}
use ax_server.Prelude.Error.{Result, ok, err}
use ax_server.Predict.Deploy.{Addresses, LpPools, approve_token, create_pool, create_lp_pools}
use ax_server.Chain.Uniswap.{
  ◌>>=◌, Action, Transaction, ContractCall, continue_with, lift, ask, Network, build_transaction,
  submit, sign_and_send, transact, Receipt, approve, add_liquidity_of, get_pair, add_liquidity,
  router,
}
use mathlib.Core.Path.{subst}

-- A contract and the call of it
abbrev pub Step : Type 0
Step = Str × ContractCall

abbrev pub steps : List Transaction → List Step
steps [] = []
steps (tx ∷ txs) = (tx.to, tx.call) ∷ steps txs

steps-append : (xs ys : List Transaction) → steps (xs ++ ys) ≡ steps xs ++ steps ys
steps-append [] ys = refl
steps-append (x ∷ xs) ys = ap (λ l. (x.to, x.call) ∷ l) (steps-append xs ys)

-- What is left of a plan after an action: all may be, and nothing is if it succeeded.
abbrev pub Left : {A : Type 0} → Result Str A → List Step → Type 0
Left (ok a) rest = rest ≡ []
Left (err e) rest = Unit

-- From some transactions on, an action sends the front of a plan, and all of it if it succeeds.
pub record Follows (A : Type 0) (m : List Transaction × Result Str A) (sent : List Transaction)
    (plan : List Step) : Type 0 where
  pub added : List Transaction
  pub rest : List Step
  pub extends : m.0 ≡ sent ++ added
  pub front : steps added ++ rest ≡ plan
  pub complete : Left m.1 rest

-- Every run of an action does.
abbrev pub Sends : (A : Type 0) → Action A → List Step → Type 0
Sends A m plan = (sent : List Transaction) → Follows A (m sent) sent plan

quiet : {A : Type 0} (r : Result Str A) (sent : List Transaction) → Follows A (sent, r) sent []
quiet (ok a) sent = record {
  added = [];
  rest = [];
  extends = sym (append_nil sent);
  front = refl;
  complete = refl;
}
quiet (err e) sent = record {
  added = [];
  rest = [];
  extends = sym (append_nil sent);
  front = refl;
  complete = tt;
}

-- The plans of two actions one after the other are joined.
then_follow :
    {A B : Type 0} (r : List Transaction × Result Str A) (f : A → Action B)
    (sent : List Transaction) (cs ds : List Step)
    → Follows A r sent cs
    → ((a : A) → r.1 ≡ ok a → Sends B (f a) ds)
    → Follows B (continue_with r.0 r.1 f) sent (cs ++ ds)
then_follow (later, err e) f sent cs ds h k = record {
  added = h.added;
  rest = h.rest ++ ds;
  extends = h.extends;
  front = sym (append_assoc (steps h.added) h.rest ds) ∙ ap (λ l. l ++ ds) h.front;
  complete = tt;
}
then_follow (later, ok a) f sent cs ds h k =
    let g = k a refl later in
    let all_sent : steps h.added ≡ cs =
      sym (append_nil (steps h.added)) ∙ ap (λ l. steps h.added ++ l) (sym h.complete) ∙ h.front in
    record {
      added = h.added ++ g.added;
      rest = g.rest;
      extends = g.extends ∙ ap (λ l. l ++ g.added) h.extends ∙ append_assoc sent h.added g.added;
      front =
          ap (λ l. l ++ g.rest) (steps-append h.added g.added)
          ∙ append_assoc (steps h.added) (steps g.added) g.rest
          ∙ ap (λ l. steps h.added ++ l) g.front
          ∙ ap (λ l. l ++ ds) all_sent;
      complete = g.complete;
    }

module _ {A B : Type 0} (f : A → Action B) (ds : List Step) where
  bind-Sends :
      (m : Action A) (cs : List Step)
      → Sends A m cs
      → ((a : A) → Sends B (f a) ds)
      → Sends B (m >>= f) (cs ++ ds)
  bind-Sends m cs h k sent = then_follow (m sent) f sent cs ds (h sent) (λ a e. k a)

  lift-Sends :
      (r : Result Str A) → ((a : A) → r ≡ ok a → Sends B (f a) ds) → Sends B (lift r >>= f) ds
  lift-Sends r k sent = then_follow (sent, r) f sent [] ds (quiet r sent) k

  ask-Sends :
      (g : List Transaction → Result Str A)
      → ((a : A) → Sends B (f a) ds)
      → Sends B (ask g >>= f) ds
  ask-Sends g k sent = then_follow (sent, g sent) f sent [] ds (quiet (g sent) sent) (λ a e. k a)

module _ (net : Network) where
  build_transaction-ok :
      (to : Str) (call : ContractCall) (sent : List Transaction) (tx : Transaction)
      → (build_transaction net to call sent).1 ≡ ok tx
      → (tx.to ≡ to) × (tx.call ≡ call)
  unfolding build_transaction
  build_transaction-ok to call sent tx h = ground arith

  build_transaction-Sends :
      (to : Str) (call : ContractCall) → Sends Transaction (build_transaction net to call) []
  unfolding build_transaction
  build_transaction-Sends to call =
      ask-Sends {A = ℕ} _ [] (λ sent. net.transaction_count sent net.agent)
        λ nonce.
          ask-Sends {A = Unit {0}} _ []
            (λ sent. net.fill_in sent (record {
              to = to;
              call = call;
              sender = net.agent;
              chain_id = 137;
              nonce = nonce;
              gas = none;
            }))
            λ filled. quiet (ok _)

  taken-Follows :
      (tx : Transaction) (sent : List Transaction) (r : Result Str Str)
      → Follows Str
          (elim r [ err e ↦ (sent, err e) | ok hash ↦ (sent ++ tx ∷ [], ok hash) ])
          sent
          ((tx.to, tx.call) ∷ [])
  taken-Follows tx sent (err e) = record {
    added = [];
    rest = (tx.to, tx.call) ∷ [];
    extends = sym (append_nil sent);
    front = refl;
    complete = tt;
  }
  taken-Follows tx sent (ok hash) = record {
    added = tx ∷ [];
    rest = [];
    extends = refl;
    front = refl;
    complete = refl;
  }

  submit-Sends : (tx : Transaction) → Sends Str (submit net tx) ((tx.to, tx.call) ∷ [])
  unfolding submit
  submit-Sends tx sent = taken-Follows tx sent (net.send_raw sent tx)

  sign_and_send-Sends :
      (tx : Transaction) → Sends (Str × Receipt) (sign_and_send net tx) ((tx.to, tx.call) ∷ [])
  unfolding sign_and_send
  sign_and_send-Sends tx = ask-Sends _ ((tx.to, tx.call) ∷ []) _ λ gas.
      bind-Sends _ [] _ ((tx.to, tx.call) ∷ []) (submit-Sends _) λ hash.
        ask-Sends {A = Receipt} _ [] (λ sent. net.receipt_of sent hash)
          λ receipt. quiet (ok (hash, receipt))

  transact-Sends :
      (to : Str) (call : ContractCall)
      → Sends (Str × Receipt) (transact net to call) ((to, call) ∷ [])
  unfolding transact
  transact-Sends to call sent =
      then_follow (build_transaction net to call sent) (sign_and_send net) sent [] ((to, call) ∷ [])
        (build_transaction-Sends to call sent)
        λ tx e.
          let (same_to, same_call) = build_transaction-ok to call sent tx e in
          subst (λ p. Sends (Str × Receipt) (sign_and_send net tx) (p ∷ []))
            (λ i. (same_to i, same_call i)) (sign_and_send-Sends tx)

  -- The checksum form of an address that has one, and the router
  abbrev pub checksummed : Str → Str
  checksummed a = elim (net.checksum a) [ err e ↦ [] | ok t ↦ t ]

  abbrev pub router_of : Option Str → Str
  router_of none = []
  router_of (some a) = checksummed a

  module _ {B : Type 0} (f : Str → Action B) (ds : List Step) where
    checksum-Sends :
        (a : Str) → Sends B (f (checksummed a)) ds → Sends B (lift (net.checksum a) >>= f) ds
    checksum-Sends a h = lift-Sends f ds (net.checksum a) λ t e.
        subst (λ x. Sends B (f x) ds)
          (ap (λ (r : Result Str Str). elim r [ err e ↦ [] | ok t ↦ t ]) e) h

    router-Sends :
        (message : Str) (o : Option Str)
        → Sends B (f (router_of o)) ds
        → Sends B
            ((elim o as (λ o. Action Str) [
              | none ↦ lift (err message)
              | some a ↦ lift (net.checksum a)
            ])
              >>= f)
            ds
    router-Sends message none h = lift-Sends f ds (err message) λ a e. absurd (ground arith)
    router-Sends message (some a) h = checksum-Sends a h

  module _ (addresses : Addresses) where
    abbrev usd : Str
    usd = checksummed addresses.usd_proxy

    abbrev apt_router : Str
    apt_router = checksummed addresses.apt_router

    approve_token-Sends :
        (token spender : Str) (amount : ℕ)
        → Sends Str
            (approve_token net addresses token spender amount)
            ((checksummed token, approve (checksummed spender) amount) ∷ [])
    unfolding approve_token
    approve_token-Sends token spender amount = checksum-Sends _ _ token (
        checksum-Sends _ _ spender (
          bind-Sends _ [] (transact net (checksummed token) (approve (checksummed spender) amount))
            ((checksummed token, approve (checksummed spender) amount) ∷ [])
            (transact-Sends (checksummed token) (approve (checksummed spender) amount))
            λ done. quiet (ok done.0)))

    -- The transactions of one pool, and of the first tokens of a market
    abbrev pub pool_steps : Str → ℕ → ℕ → List Step
    pool_steps token amount deadline =
        (checksummed token, approve apt_router amount)
        ∷ (usd, approve apt_router amount)
        ∷ (
          router_of addresses.dex.router_address,
          add_liquidity (checksummed token) usd amount amount 1 1 (checksummed net.agent) deadline,
        )
        ∷ []

    add_liquidity_of-Sends :
        (token : Str) (amount deadline : ℕ)
        → Sends Receipt
            (add_liquidity_of net addresses.dex token addresses.usd_proxy amount amount 1 1
              net.agent deadline)
            ((
              router_of addresses.dex.router_address,
              add_liquidity
                  (checksummed token)
                  usd
                  amount
                  amount
                  1
                  1
                  (checksummed net.agent)
                  deadline,
            )
              ∷ [])
    unfolding add_liquidity_of router
    add_liquidity_of-Sends token amount deadline = router-Sends _ _ _ addresses.dex.router_address (
        checksum-Sends _ _ token (
          checksum-Sends _ _ addresses.usd_proxy (
            checksum-Sends _ _ net.agent (
              bind-Sends _ []
                (transact net (router_of addresses.dex.router_address) (
                  add_liquidity (checksummed token) usd amount amount 1 1 (checksummed net.agent)
                    deadline))
                _ (transact-Sends _ _) λ done. quiet (ok done.1)))))

    create_pool-Sends :
        (token : Str) (amount deadline : ℕ)
        → Sends Receipt
            (create_pool net addresses token amount deadline)
            (pool_steps token amount deadline)
    unfolding create_pool
    create_pool-Sends token amount deadline =
        bind-Sends _ _ (approve_token net addresses token addresses.apt_router amount) _
          (approve_token-Sends token addresses.apt_router amount)
          λ first.
            bind-Sends _ _
              (approve_token net addresses addresses.usd_proxy addresses.apt_router amount) _
              (approve_token-Sends addresses.usd_proxy addresses.apt_router amount)
              λ second. add_liquidity_of-Sends token amount deadline

    get_pair-Sends :
        (factory : Option Str) (a b : Str)
        → Sends
            (Option Str)
            (get_pair net (record addresses.dex { factory_address = factory }) a b)
            []
    unfolding get_pair
    get_pair-Sends none a b = quiet (ok none)
    get_pair-Sends (some factory) a b = checksum-Sends _ [] factory (
        checksum-Sends _ [] a (
          checksum-Sends _ [] b (
            ask-Sends {A = Str} _ [] (λ sent. net.pair_of sent (checksummed a) (checksummed b))
              λ pair. quiet (ok _))))

    -- Whatever the node answers, the transactions that creating the two pools leaves on the chain are
    -- the front of one fixed plan, and the whole plan if it succeeds: for the token YES and then for
    -- NO an approval of the token and one of axUSD for the router, and the addition of both amounts
    -- to the pool for the agent.
    pub create_lp_pools-Follows :
        (yes_token no_token : Str) (amount now : ℕ) (sent : List Transaction)
        → Follows LpPools
            (create_lp_pools net addresses yes_token no_token amount now sent)
            sent
            (pool_steps yes_token amount (now + 600) ++ pool_steps no_token amount (now + 600))
    unfolding create_lp_pools
    create_lp_pools-Follows yes_token no_token amount now =
        let usd_proxy = addresses.usd_proxy in
        let factory = addresses.dex.factory_address in
        let yes_steps = pool_steps yes_token amount (now + 600) in
        let no_steps = pool_steps no_token amount (now + 600) in
        bind-Sends _ no_steps (create_pool net addresses yes_token amount (now + 600)) yes_steps
          (create_pool-Sends yes_token amount (now + 600))
          λ yes_receipt.
            bind-Sends _ [] (create_pool net addresses no_token amount (now + 600)) no_steps
              (create_pool-Sends no_token amount (now + 600))
              λ no_receipt.
                bind-Sends _ [] (get_pair net addresses.dex yes_token usd_proxy) []
                  (get_pair-Sends factory yes_token usd_proxy)
                  λ yes_pair.
                    bind-Sends _ [] (get_pair net addresses.dex no_token usd_proxy) []
                      (get_pair-Sends factory no_token usd_proxy) λ no_pair. quiet (ok _)
