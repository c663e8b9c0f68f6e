-- ===== src/Ws/Poller.antt =====
-- The poller's task and the clients: `MarketPoller.start` and `stop`, and the endpoint that calls
-- them, in app/api/ws/events.py. A task is a number, and `live` holds the tasks that were created
-- and not cancelled.
pub mod Clients
pub mod OneTask
use ax_server.Prelude.{
  contains, sym, test_holds, ◌≢◌, Bool-cases, ℕ, suc, ◌==◌, ◌≡◌, ◌⊎◌, refl, inl, inr, Bool, true,
  false, not, Option, none, some, List, [], ◌∷◌, keep_if, length, if◌then◌else◌, ℕ_discrete, arith,
  test, ◌≤◌, Option-cases, ◌∙◌, ap,
}
use ax_server.Prelude.Dict.{Dict}
use ax_server.Prelude.Dict.Laws.{Distinct, insert-Distinct, erase-Distinct, length-insert}
use mathlib.Core.Path.{subst}
use ax_server.Prelude.Text.{str_dec, Str}
use ax_server.Ws.Manager.{
  all_channels, subscribe, unsubscribe, ClientState, ChannelManager, connect, disconnect,
  client_count, broadcast, wants, targets, Command, handle_command, erase_all,
}
use ax_server.Prelude.Dict

-- `class MarketPoller`: `_running`, `_task`, and the tasks of the event loop
pub record MarketPoller : Type 0 where
  pub running : Bool
  pub task : Option ℕ
  pub live : List ℕ
  pub next_task : ℕ

-- `start`
unfoldable pub start : MarketPoller → MarketPoller
start p = record {
  running = true;
  task = some p.next_task;
  live = p.next_task ∷ p.live;
  next_task = suc p.next_task;
}

-- `stop`: the task of the last start is cancelled.
unfoldable pub stop : MarketPoller → MarketPoller
stop p = record p {
  running = false;
  live = elim p.task [ none ↦ p.live | some t ↦ keep_if (λ u. not (test (ℕ_discrete u t))) p.live ];
}

-- The two singletons
pub record Server : Type 0 where
  pub manager : ChannelManager
  pub poller : MarketPoller

-- The start of `websocket_endpoint`, and its `finally`
unfoldable pub join : Server → ℕ → Server
join s ws =
    let m = connect s.manager ws in
    record { manager = m; poller = if client_count m == 1 then start s.poller else s.poller }

unfoldable pub leave : Server → ℕ → Server
leave s ws =
    let m = disconnect s.manager ws in
    record { manager = m; poller = if client_count m == 0 then stop s.poller else s.poller }

-- What happens to the server: a client comes, goes or sends a command, or an event is published,
-- with whether each send succeeds
pub data Event : Type 0 where
  joins : ℕ → Event
  leaves : ℕ → Event
  sends : ℕ → Command → Event
  publishes : (ℕ → Bool) → Str → Option ℕ → Event

unfoldable pub step : Server → Event → Server
step s (joins ws) = join s ws
step s (leaves ws) = leave s ws
step s (sends ws msg) = record s { manager = (handle_command s.manager ws msg).0 }
step s (publishes alive channel market_id) = record s {
  manager = (broadcast s.manager alive channel market_id).0;
}
