-- ===== src/Ws/Manager.antt =====
-- `ChannelManager` and the commands of the endpoint: app/api/ws/events.py. A socket is a number, and
-- whether a send to it raises is an argument.
use ax_server.Prelude.{
  ℕ, Bool, true, ◌&&◌, ◌||◌, not, Option, none, some, List, [], ◌∷◌, ◌++◌, keep_if, contains,
  length, if◌then◌else◌, ℕ_discrete,
}
use ax_server.Prelude.Dict.{Dict}
use ax_server.Prelude.Text.{Str, text, lower, str_dec, str_eq, is_empty}
use ax_server.Prelude.Dict

-- `class ClientState`; the sets are lists
pub record ClientState : Type 0 where
  pub channels : List Str
  pub market_ids : List ℕ

pub record ChannelManager : Type 0 where
  pub clients : Dict ℕ ClientState

-- `ALL_CHANNELS`
unfoldable pub all_channels : List Str
all_channels = text "exchange_status" ∷ text "market" ∷ text "orderbook" ∷ text "trades" ∷ []

-- `connect` and `disconnect`
unfoldable pub connect : ChannelManager → ℕ → ChannelManager
connect m ws = record m {
  clients = Dict.insert ℕ_discrete ws (record { channels = []; market_ids = [] }) m.clients;
}

unfoldable pub disconnect : ChannelManager → ℕ → ChannelManager
disconnect m ws = record m { clients = Dict.erase ℕ_discrete ws m.clients }

-- The client after `subscribe`: the valid channels and the market ids are added to its sets.
unfoldable pub subscribed : List Str → Option (List ℕ) → ClientState → ClientState
subscribed channels market_ids c = record {
  channels = c.channels ++ keep_if (λ ch. contains str_dec ch all_channels) channels;
  market_ids = elim market_ids [ none ↦ c.market_ids | some ids ↦ c.market_ids ++ ids ];
}

-- `subscribe`
unfoldable pub subscribe : ChannelManager → ℕ → List Str → Option (List ℕ) → ChannelManager
subscribe m ws channels market_ids = elim (Dict.lookup ℕ_discrete ws m.clients) [
  | none ↦ m
  | some c ↦ record m {
    clients = Dict.insert ℕ_discrete ws (subscribed channels market_ids c) m.clients;
  }
]

-- `unsubscribe`
unfoldable pub unsubscribe : ChannelManager → ℕ → List Str → ChannelManager
unsubscribe m ws channels = elim (Dict.lookup ℕ_discrete ws m.clients) [
  | none ↦ m
  | some c ↦ record m {
    clients =
        Dict.insert ℕ_discrete ws
          (record c { channels = keep_if (λ ch. not (contains str_dec ch channels)) c.channels })
          m.clients;
  }
]

-- The two `continue`s of `broadcast`: whether a client is sent the event
unfoldable pub wants : Str → Option ℕ → ClientState → Bool
wants channel market_id c = contains str_dec channel c.channels && (elim market_id [
  | none ↦ true
  | some id ↦ is_empty c.market_ids || contains ℕ_discrete id c.market_ids
])

-- The sockets that the loop of `broadcast` sends to, and those whose send raised
unfoldable pub targets : Str → Option ℕ → Dict ℕ ClientState → List ℕ
targets channel market_id [] = []
targets channel market_id ((ws, c) ∷ clients) =
    if wants channel market_id c
    then ws ∷ targets channel market_id clients
    else targets channel market_id clients

abbrev pub erase_all : List ℕ → Dict ℕ ClientState → Dict ℕ ClientState
erase_all [] clients = clients
erase_all (ws ∷ dead) clients = erase_all dead (Dict.erase ℕ_discrete ws clients)

-- `broadcast`, with whether a send succeeds: the manager afterwards and who got the event
unfoldable pub broadcast : ChannelManager → (ℕ → Bool) → Str → Option ℕ → ChannelManager × List ℕ
broadcast m alive channel market_id =
    let sent = targets channel market_id m.clients in
    (
      record m { clients = erase_all (keep_if (λ ws. not (alive ws)) sent) m.clients },
      keep_if alive sent,
    )

-- `client_count`
unfoldable pub client_count : ChannelManager → ℕ
client_count m = length m.clients

-- A parsed command; `market_ids` is `none` where the key is missing or null
pub record Command : Type 0 where
  pub cmd : Str
  pub channels : List Str
  pub market_ids : Option (List ℕ)

pub data Reply : Type 0 where
  missing_channels : Reply
  subscribed_to : List Str → Option (List ℕ) → List Str → Reply
  unsubscribed_from : List Str → Reply
  pong : Reply
  info : Reply
  unknown_command : Str → Reply

-- `market_ids or "all"`: `none` is "all"
abbrev ids_or_all : Option (List ℕ) → Option (List ℕ)
ids_or_all none = none
ids_or_all (some ids) = if is_empty ids then none else some ids

-- One round of the endpoint's loop
unfoldable pub handle_command : ChannelManager → ℕ → Command → ChannelManager × Reply
handle_command m ws msg =
    let cmd = lower msg.cmd in
    let valid = keep_if (λ c. contains str_dec c all_channels) msg.channels in
    let invalid = keep_if (λ c. not (contains str_dec c all_channels)) msg.channels in
    if str_eq cmd (text "subscribe")
    then (if is_empty msg.channels then (m, missing_channels) else (
      subscribe m ws valid msg.market_ids,
      subscribed_to valid (ids_or_all msg.market_ids) invalid,
    ))
    else if str_eq cmd (text "unsubscribe")
    then (unsubscribe m ws msg.channels, unsubscribed_from msg.channels)
    else if str_eq cmd (text "ping")
    then (m, pong)
    else if str_eq cmd (text "info")
    then (m, info)
    else (m, unknown_command cmd)
