-- ===== src/Ws/Tests.antt =====
-- The event stream at concrete inputs.
use ax_server.Prelude.{
  ℕ, ◌≡◌, ◌↔◌, refl, true, false, Bool, none, some, List, [], ◌∷◌, contains, ℕ_discrete, ◌==◌, not,
  inl, if◌then◌else◌,
}
use ax_server.Prelude.Text.{text}
use ax_server.Ws.Manager.{ClientState, ChannelManager, broadcast, Command}
use ax_server.Ws.Delivery.{IsReached, broadcast-reaches}
use ax_server.Ws.Poller.{Server, Event, joins, leaves, sends, publishes}
use ax_server.Ws.Poller.Clients.{IsValid}
use ax_server.Ws.Poller.OneTask.{run, run-IsValid}
use ax_server.Prelude.Error.{ok, err}
use ax_server.Ws.Polling.{PollNode, Stream}

abbrev client : ClientState
client = record { channels = text "trades" ∷ []; market_ids = 1 ∷ [] }

abbrev manager : ChannelManager
manager = record { clients = (7, client) ∷ [] }

abbrev all_but : ℕ → ℕ → Bool
all_but dead ws = not (ws == dead)

broadcast-reaches_example :
    (contains ℕ_discrete 7 (broadcast manager (all_but 8) (text "trades") (some 1)).1 ≡ true)
    ↔ IsReached manager (all_but 8) (text "trades") (some 1) 7
broadcast-reaches_example =
    broadcast-reaches manager (all_but 8) (text "trades") (some 1) 7 (refl, tt)

abbrev again : Command
again = record { cmd = text "Subscribe"; channels = text "market" ∷ []; market_ids = none }

abbrev idle : Server
idle = record {
  manager = record { clients = [] };
  poller = record { running = false; task = none; live = []; next_task = 0 };
}

abbrev events : List Event
events = joins 7 ∷ sends 7 again ∷ publishes (λ ws. true) (text "market") none ∷ leaves 7 ∷ []

run-IsValid_example : IsValid (run idle events)
run-IsValid_example =
    run-IsValid idle events (refl, (tt, ((λ ws. refl), (tt, tt))))
      (record { apart = tt; one_task = inl (refl, refl) })

-- A node with two markets, the second without a readable supply, and no vault
abbrev node : PollNode
node = record {
  chain_id = 137;
  spot_market_proxy = text "spot";
  core_proxy = text "core";
  ax_token = text "ax";
  checksum = λ a. ok a;
  block_number = err (text "timeout");
  get_synth = λ mid. if mid == 2 then err (text "no synth") else ok (text "synth");
  get_name = λ mid. ok (text "axJOKIC");
  symbol = λ a. ok (text "AXJ");
  total_supply = λ a. err (text "no supply");
  vault_collateral = λ pool a. err (text "no vault");
  vault_debt = λ pool a. err (text "no vault");
}

abbrev market_client : ClientState
market_client = record { channels = text "market" ∷ []; market_ids = 3 ∷ [] }

abbrev stream : Stream
stream = record { manager = record { clients = (7, market_client) ∷ [] }; sent = [] }
