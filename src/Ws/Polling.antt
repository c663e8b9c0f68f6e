-- ===== src/Ws/Polling.antt =====
-- The rounds of `MarketPoller` in app/api/ws/events.py: the reads of the node, the messages and the
-- order of their broadcasts. The node is a parameter whose reads return or raise. A round is one step:
-- clients that come or go while a send of it is awaited are not modelled.
pub mod Inbox
use ax_server.Prelude.{
  ℕ, zero, suc, ◌+◌, ◌%◌, ◌==◌, Bool, Option, none, some, List, [], ◌∷◌, ◌++◌, if◌then◌else◌,
}
use ax_server.Prelude.Int.{ℤ}
use ax_server.Prelude.Text.{Str, text, str_eq}
use ax_server.Prelude.Error.{Result, ok, err, ◌>>=◌}
use ax_server.Ws.Manager.{ChannelManager, client_count, broadcast}

-- The reads of the poller. A block number comes with the measured latency; the supply is in units
-- of 10^-18.
pub record PollNode : Type 0 where
  pub chain_id : ℕ
  pub spot_market_proxy : Str
  pub core_proxy : Str
  pub ax_token : Str
  pub checksum : Str → Result Str Str
  pub block_number : Result Str (ℕ × ℕ)
  pub get_synth : ℕ → Result Str Str
  pub get_name : ℕ → Result Str Str
  pub symbol : Str → Result Str Str
  pub total_supply : Str → Result Str ℕ
  pub vault_collateral : ℕ → Str → Result Str (ℕ × ℕ)
  pub vault_debt : ℕ → Str → Result Str ℤ

-- The events, without their times. A heartbeat has no block where the node did not answer.
pub record Heartbeat : Type 0 where
  pub exchange_active : Bool
  pub trading_active : Bool
  pub chain_id : ℕ
  pub block : Option (ℕ × ℕ)
  pub connected_clients : ℕ

pub record Snapshot : Type 0 where
  pub market_id : ℕ
  pub name : Str
  pub symbol : Str
  pub synth_address : Str
  pub total_supply : ℕ

pub record AmmState : Type 0 where
  pub pool_id : ℕ
  pub collateral_amount : ℕ
  pub collateral_value_usd : ℕ
  pub vault_debt : ℤ

pub data Message : Type 0 where
  heartbeat : Heartbeat → Message
  snapshot : Snapshot → Message
  amm_state : AmmState → Message

-- The channel of a message, and its market
abbrev pub channel_of : Message → Str
channel_of (heartbeat h) = text "exchange_status"
channel_of (snapshot s) = text "market"
channel_of (amm_state a) = text "orderbook"

abbrev pub market_of : Message → Option ℕ
market_of (heartbeat h) = none
market_of (snapshot s) = some s.market_id
market_of (amm_state a) = none

-- The manager, and the messages that were sent with the sockets that got them
pub record Stream : Type 0 where
  pub manager : ChannelManager
  pub sent : List (Message × List ℕ)

-- `_MAX_MARKET_SCAN` and `_ZERO_ADDRESS`
abbrev pub max_market_scan : ℕ
max_market_scan = 20

abbrev pub zero_address : Str
zero_address = text "0x0000000000000000000000000000000000000000"

abbrev or_fallback : {A : Type 0} → Result Str A → A → A
or_fallback (ok a) b = a
or_fallback (err e) b = b

module _ (node : PollNode) where
  -- Both heartbeats of `_poll_exchange_status`
  unfoldable pub heartbeat_of : ℕ → Heartbeat
  heartbeat_of clients = elim node.block_number [
    | ok block ↦ record {
      exchange_active = Bool.true;
      trading_active = Bool.true;
      chain_id = node.chain_id;
      block = some block;
      connected_clients = clients;
    }
    | err e ↦ record {
      exchange_active = Bool.false;
      trading_active = Bool.false;
      chain_id = node.chain_id;
      block = none;
      connected_clients = clients;
    }
  ]

  -- The symbol and the supply of a synth: a symbol that was read stays where the supply fails.
  unfoldable pub token_of : Str → Str → Str × ℕ
  token_of market_name synth_addr = elim (node.checksum synth_addr) [
    | err e ↦ (market_name, 0)
    | ok token ↦ elim (node.symbol token) [
      | err e ↦ (market_name, 0)
      | ok symbol ↦ (symbol, or_fallback (node.total_supply token) 0)
    ]
  ]

  -- The `try` of one id: `none` where the loop continues with no event
  unfoldable pub snapshot_of : ℕ → Option Snapshot
  snapshot_of mid = elim (node.get_synth mid) [
    | err e ↦ none
    | ok synth_addr ↦
        let market_name = or_fallback (node.get_name mid) (text "unknown") in
        let (symbol, supply) = token_of market_name synth_addr in
        if str_eq synth_addr zero_address
        then none
        else some (record {
          market_id = mid;
          name = market_name;
          symbol = symbol;
          synth_address = synth_addr;
          total_supply = supply;
        })
  ]

  -- The `try` after the loop
  unfoldable pub amm_state_of : Result Str AmmState
  amm_state_of = do
    core ← node.checksum node.core_proxy
    ax_addr ← node.checksum node.ax_token
    coll ← node.vault_collateral 1 ax_addr
    debt ← node.vault_debt 1 ax_addr
    ok (record {
      pool_id = 1;
      collateral_amount = coll.0;
      collateral_value_usd = coll.1;
      vault_debt = debt;
    })

  -- Whether the send of a message to a socket succeeds
  module _ (reaches : Message → ℕ → Bool) where
    unfoldable pub emit : Stream → Message → Stream
    emit s m =
        let r = broadcast s.manager (reaches m) (channel_of m) (market_of m) in
        record { manager = r.0; sent = s.sent ++ (m, r.1) ∷ [] }

    -- `_poll_exchange_status`
    unfoldable pub poll_exchange_status : Stream → Stream
    poll_exchange_status s =
        if client_count s.manager == 0
        then s
        else emit s (heartbeat (heartbeat_of (client_count s.manager)))

    -- The loop of `_poll_markets`, with some ids left from one on
    unfoldable pub poll_ids : ℕ → ℕ → Stream → Stream
    poll_ids zero mid s = s
    poll_ids (suc n) mid s =
        poll_ids n (mid + 1)
          (elim (snapshot_of mid) [ none ↦ s | some snap ↦ emit s (snapshot snap) ])

    -- `_poll_markets`: the checksum of the proxy's address may raise, before anything is sent.
    unfoldable pub poll_markets : Stream → Result Str Stream
    poll_markets s = if client_count s.manager == 0 then ok s else do
      spot ← node.checksum node.spot_market_proxy
      let scanned = poll_ids max_market_scan 1 s
      ok (elim amm_state_of [ err e ↦ scanned | ok state ↦ emit scanned (amm_state state) ])

    -- A round of `_run`: the markets are read in every second one, and an exception is logged.
    unfoldable pub poll_round : ℕ → Stream → Stream
    poll_round cycle s =
        let t = poll_exchange_status s in
        if cycle % 2 == 0 then elim (poll_markets t) [ ok u ↦ u | err e ↦ t ] else t
