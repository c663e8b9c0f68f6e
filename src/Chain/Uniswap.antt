-- ===== src/Chain/Uniswap.antt =====
-- The Uniswap client of app/chain/uniswap_v2.py and the transactions that the agent's account signs
-- and sends. The node is a parameter: what it answers may depend on what was sent before, and each
-- request may fail.
use ax_server.Prelude.{ℕ, ◌*◌, ◌/◌, Option, none, some, List, [], ◌∷◌, ◌++◌, if◌then◌else◌}
use ax_server.Prelude.Text.{Str, text, str_eq}
use ax_server.Prelude.Error.{Result, ok, err}

-- The calls, with the arguments in the contracts' order
pub data ContractCall : Type 0 where
  approve : Str → ℕ → ContractCall
  create : ℕ → ContractCall
  add_liquidity : Str → Str → ℕ → ℕ → ℕ → ℕ → Str → ℕ → ContractCall
  swap_exact_tokens : ℕ → ℕ → List Str → Str → ℕ → ContractCall

-- A transaction with the parameters of `_build_tx_params`, and with its gas when it is sent
pub record Transaction : Type 0 where
  pub to : Str
  pub call : ContractCall
  pub sender : Str
  pub chain_id : ℕ
  pub nonce : ℕ
  pub gas : Option ℕ

pub record Receipt : Type 0 where
  pub transaction_hash : Str
  pub status : ℕ

-- The node and the signing account. `fill_in` stands for what `build_transaction` adds by itself,
-- which may fail. A receipt may be missing although the transaction was sent.
pub record Network : Type 0 where
  pub agent : Str
  pub checksum : Str → Result Str Str
  pub transaction_count : List Transaction → Str → Result Str ℕ
  pub fill_in : List Transaction → Transaction → Result Str (Unit {0})
  pub estimate_gas : List Transaction → Transaction → Result Str ℕ
  pub send_raw : List Transaction → Transaction → Result Str Str
  pub receipt_of : List Transaction → Str → Result Str Receipt
  pub pair_of : List Transaction → Str → Str → Result Str Str

-- The addresses of the client; none is not configured.
pub record Dex : Type 0 where
  pub router_address : Option Str
  pub factory_address : Option Str

-- An action on the chain: the transactions sent so far, and afterwards
abbrev pub Action : Type 0 → Type 0
Action A = List Transaction → List Transaction × Result Str A

abbrev pub lift : {A : Type 0} → Result Str A → Action A
lift r sent = (sent, r)

abbrev pub ask : {A : Type 0} → (List Transaction → Result Str A) → Action A
ask f sent = (sent, f sent)

abbrev pub continue_with :
    {A B : Type 0}
    → List Transaction
    → Result Str A
    → (A → Action B)
    → List Transaction × Result Str B
continue_with sent (err e) f = (sent, err e)
continue_with sent (ok a) f = f a sent

infixl 5 ◌>>=◌ ◌>>◌
abbrev pub ◌>>=◌ : {A B : Type 0} → Action A → (A → Action B) → Action B
◌>>=◌ m f sent = continue_with (m sent).0 (m sent).1 f

abbrev pub ◌>>◌ : {A B : Type 0} → Action A → Action B → Action B
m >> k = m >>= λ done. k

-- `int(gas * GAS_BUFFER)`: the floats agree with this below 2 ^ 50.
abbrev pub with_buffer : ℕ → ℕ
with_buffer gas = gas * 6 / 5

abbrev pub zero_address : Str
zero_address = text "0x0000000000000000000000000000000000000000"

module _ (net : Network) where
  -- A call's `build_transaction(self._build_tx_params())`
  unfoldable pub build_transaction : Str → ContractCall → Action Transaction
  build_transaction to call = do
    nonce ← ask (λ sent. net.transaction_count sent net.agent)
    let tx : Transaction = record {
      to = to;
      call = call;
      sender = net.agent;
      chain_id = 137;
      nonce = nonce;
      gas = none;
    }
    ask (λ sent. net.fill_in sent tx)
    lift (ok tx)

  -- The transaction is out as soon as the node takes it.
  unfoldable pub submit : Transaction → Action Str
  submit tx sent = elim (net.send_raw sent tx) [
    | err e ↦ (sent, err e)
    | ok hash ↦ (sent ++ tx ∷ [], ok hash)
  ]

  -- Both versions of `_sign_and_send`: the client's answers with the receipt, the deployer's with the
  -- hash.
  unfoldable pub sign_and_send : Transaction → Action (Str × Receipt)
  sign_and_send tx = do
    gas ← ask (λ sent. net.estimate_gas sent tx)
    hash ← submit (record tx { gas = some (with_buffer gas) })
    receipt ← ask (λ sent. net.receipt_of sent hash)
    lift (ok (hash, receipt))

  -- A call of a contract, built and sent
  unfoldable pub transact : Str → ContractCall → Action (Str × Receipt)
  transact to call = do tx ← build_transaction to call; sign_and_send tx

  -- The `router` property with the test for it, and the `factory` property
  unfoldable pub router : Dex → Str → Action Str
  router dex message = elim dex.router_address [
    | none ↦ lift (err message)
    | some a ↦ lift (net.checksum a)
  ]

  -- `get_pair`
  unfoldable pub get_pair : Dex → Str → Str → Action (Option Str)
  get_pair dex token_a token_b = elim dex.factory_address [
    | none ↦ lift (ok none)
    | some factory ↦ do
      contract ← lift (net.checksum factory)
      addr_a ← lift (net.checksum token_a)
      addr_b ← lift (net.checksum token_b)
      pair ← ask (λ sent. net.pair_of sent addr_a addr_b)
      lift (ok (if str_eq pair zero_address then none else some pair))
  ]

  checksum_all : List Str → Action (List Str)
  checksum_all [] = lift (ok [])
  checksum_all (t ∷ ts) = do a ← lift (net.checksum t); rest ← checksum_all ts; lift (ok (a ∷ rest))

  -- `swap_exact_tokens`
  unfoldable pub swap_tokens : Dex → ℕ → ℕ → List Str → Str → ℕ → Action Receipt
  unfolding checksum_all
  swap_tokens dex amount_in amount_out_min path to deadline = do
    contract ← router dex (text "Router and account required for swap")
    checksummed_path ← checksum_all path
    recipient ← lift (net.checksum to)
    done ←
        transact contract
          (swap_exact_tokens amount_in amount_out_min checksummed_path recipient deadline)
    lift (ok done.1)

  -- `add_liquidity`
  unfoldable pub add_liquidity_of : Dex → Str → Str → ℕ → ℕ → ℕ → ℕ → Str → ℕ → Action Receipt
  add_liquidity_of dex token_a token_b a_desired b_desired a_min b_min to deadline = do
    contract ← router dex (text "Router and account required for addLiquidity")
    a ← lift (net.checksum token_a)
    b ← lift (net.checksum token_b)
    recipient ← lift (net.checksum to)
    done ← transact contract (add_liquidity a b a_desired b_desired a_min b_min recipient deadline)
    lift (ok done.1)
