-- ===== src/Ws/Polling/Inbox.antt =====
-- What a client receives in a round of the poller in app/api/ws/events.py.
use ax_server.Prelude.{
  ℕ, zero, suc, ◌+◌, ◌%◌, ◌==◌, ◌≡◌, Option, none, some, List, [], ◌∷◌, ◌++◌, contains, ℕ_discrete,
  if◌then◌else◌,
}
use ax_server.Prelude.Dict.{Dict}
use ax_server.Prelude.Dict.Laws.{Distinct}
use ax_server.Prelude.Error.{ok, err}
use ax_server.Ws.Manager.{ClientState, wants}
use ax_server.Ws.Polling.{
  PollNode, Message, Snapshot, heartbeat, snapshot, amm_state, channel_of, market_of, Stream,
  heartbeat_of, snapshot_of, amm_state_of, max_market_scan,
}
use ax_server.Prelude.Dict

-- The messages that a socket got, in order
abbrev pub inbox : ℕ → List (Message × List ℕ) → List Message
inbox ws [] = []
inbox ws ((m, got) ∷ sent) = if contains ℕ_discrete ws got then m ∷ inbox ws sent else inbox ws sent

-- The messages of a list that a client wants
abbrev pub wanted : ClientState → List Message → List Message
wanted c [] = []
wanted c (m ∷ ms) = if wants (channel_of m) (market_of m) c then m ∷ wanted c ms else wanted c ms

abbrev event_of : Option Snapshot → List Message
event_of none = []
event_of (some snap) = snapshot snap ∷ []

-- The snapshots of the markets that exist among some ids, in order
abbrev pub snapshots : PollNode → ℕ → ℕ → List Message
snapshots node zero mid = []
snapshots node (suc n) mid = event_of (snapshot_of node mid) ++ snapshots node n (mid + 1)

-- What a round sends, where there is a client
abbrev pub scan_messages : PollNode → List Message
scan_messages node =
    snapshots node max_market_scan 1
    ++ elim (amm_state_of node) [ err e ↦ [] | ok state ↦ amm_state state ∷ [] ]

abbrev pub market_messages : PollNode → List Message
market_messages node = elim (node.checksum node.spot_market_proxy) [
  | err e ↦ []
  | ok spot ↦ scan_messages node
]

abbrev pub poll_messages : PollNode → ℕ → ℕ → List Message
poll_messages node clients cycle =
    heartbeat (heartbeat_of node clients) ∷ (if cycle % 2 == 0 then market_messages node else [])

-- A socket of the manager with its state
pub record Present (ws : ℕ) (c : ClientState) (s : Stream) : Type 0 where
  pub apart : Distinct ℕ_discrete s.manager.clients
  pub known : Dict.lookup ℕ_discrete ws s.manager.clients ≡ some c

-- From one stream to another a client stays and gets the messages of a list that it wants.
record Got (ws : ℕ) (c : ClientState) (s : Stream) (ms : List Message) (t : Stream) : Type 0 where
  present : Present ws c t
  received : inbox ws t.sent ≡ inbox ws s.sent ++ wanted c ms
