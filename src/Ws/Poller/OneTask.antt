-- ===== src/Ws/Poller/OneTask.antt =====
-- How many poller tasks run.
use ax_server.Prelude.{
  contains, sym, test_holds, ℕ, ◌≡◌, refl, inl, inr, Bool, true, false, not, Option, none, some,
  List, [], ◌∷◌, keep_if, length, ℕ_discrete, arith, Option-cases, ◌∙◌, ap,
}
use ax_server.Prelude.Dict.{Dict}
use ax_server.Prelude.Dict.Laws.{Distinct, insert-Distinct, length-insert}
use mathlib.Core.Path.{subst}
use ax_server.Prelude.Text.{str_dec, Str}
use ax_server.Ws.Manager.{
  all_channels, subscribe, unsubscribe, ClientState, ChannelManager, broadcast, wants, targets,
  Command, handle_command, erase_all,
}
use ax_server.Ws.Poller.{start, Server, join, Event, joins, leaves, sends, publishes, step}
use ax_server.Ws.Poller.Clients.{
  IsValid, Calm, empty_of_length, newcomer, clients-join, poller-join, eq_true, joins-IsValid,
  leaves-IsValid,
}
use ax_server.Prelude.Dict

-- A command keeps the clients.
same_clients :
    (s : Server) (m : ChannelManager)
    → Distinct ℕ_discrete m.clients
    → length m.clients ≡ length s.manager.clients
    → IsValid s
    → IsValid (record s { manager = m })
same_clients s m d h v = record {
  apart = d;
  one_task = elim v.one_task [
    | inl (e, f) ↦ inl (empty_of_length m.clients (h ∙ ap length e), f)
    | inr (t, e, f, g) ↦ inr (t, omega (arith, h, e), f, g)
  ];
}

-- What the three operations on a client have in common
abbrev Kept : ChannelManager → ChannelManager → Type 0
Kept m m' = Distinct ℕ_discrete m'.clients × (length m'.clients ≡ length m.clients)

insert-Kept :
    (m : ChannelManager) (ws : ℕ) (c c' : ClientState)
    → Distinct ℕ_discrete m.clients
    → Dict.lookup ℕ_discrete ws m.clients ≡ some c
    → Kept m (record m { clients = Dict.insert ℕ_discrete ws c' m.clients })
insert-Kept m ws c c' d h = (
  insert-Distinct ℕ_discrete ws c' m.clients d,
  length-insert ℕ_discrete ws c' m.clients ∙ rw h refl,
)

subscribe-Kept :
    (m : ChannelManager) (ws : ℕ) (channels : List Str) (ids : Option (List ℕ))
    → Distinct ℕ_discrete m.clients
    → Kept m (subscribe m ws channels ids)
unfolding subscribe
subscribe-Kept m ws channels ids d = elim (Option-cases (Dict.lookup ℕ_discrete ws m.clients)) [
  | inl e ↦ rw (subscribe, e) (d, refl)
  | inr (c, e) ↦ rw (subscribe, e) (insert-Kept m ws c _ d e)
]

unsubscribe-Kept :
    (m : ChannelManager) (ws : ℕ) (channels : List Str)
    → Distinct ℕ_discrete m.clients
    → Kept m (unsubscribe m ws channels)
unfolding unsubscribe
unsubscribe-Kept m ws channels d = elim (Option-cases (Dict.lookup ℕ_discrete ws m.clients)) [
  | inl e ↦ rw (unsubscribe, e) (d, refl)
  | inr (c, e) ↦ rw (unsubscribe, e) (insert-Kept m ws c _ d e)
]

handle_command-Kept :
    (m : ChannelManager) (ws : ℕ) (msg : Command)
    → Distinct ℕ_discrete m.clients
    → Kept m (handle_command m ws msg).0
unfolding handle_command
handle_command-Kept m ws msg d =
    let valid = keep_if (λ c. contains str_dec c all_channels) msg.channels in
    ground
      (arith, d, subscribe-Kept m ws valid msg.market_ids d, unsubscribe-Kept m ws msg.channels d)

none_dead :
    (alive : ℕ → Bool) (xs : List ℕ)
    → ((ws : ℕ) → alive ws ≡ true)
    → keep_if (λ ws. not (alive ws)) xs ≡ []
none_dead alive [] h = refl
none_dead alive (x ∷ xs) h = rw (h x) (none_dead alive xs h)

broadcast-calm :
    (m : ChannelManager) (alive : ℕ → Bool) (channel : Str) (market_id : Option ℕ)
    → ((ws : ℕ) → alive ws ≡ true)
    → (broadcast m alive channel market_id).0 ≡ m
unfolding broadcast
broadcast-calm m alive channel market_id h =
    ap (λ dead. record m { clients = erase_all dead m.clients })
      (none_dead alive (targets channel market_id m.clients) h)

step-IsValid : (s : Server) (e : Event) → Calm s e → IsValid s → IsValid (step s e)
unfolding step
step-IsValid s (joins ws) h v = joins-IsValid s ws h v
step-IsValid s (leaves ws) h v = leaves-IsValid s ws v
step-IsValid s (sends ws msg) h v =
    let k = handle_command-Kept s.manager ws msg v.apart in same_clients s _ k.0 k.1 v
step-IsValid s (publishes alive channel market_id) h v =
    let same = broadcast-calm s.manager alive channel market_id h in
    subst (λ m. IsValid (record s { manager = m })) (sym same) v

unfoldable pub run : Server → List Event → Server
run s [] = s
run s (e ∷ es) = run (step s e) es

abbrev pub AllCalm : Server → List Event → Type 0
AllCalm s [] = Unit
AllCalm s (e ∷ es) = Calm s e × AllCalm (step s e) es

-- While each client comes with a socket of its own and no send fails, just one poller task runs
-- when there are clients and none when there are not, however clients come, go, send commands and
-- get events.
pub run-IsValid : (s : Server) (es : List Event) → AllCalm s es → IsValid s → IsValid (run s es)
unfolding run
run-IsValid s [] h v = v
run-IsValid s (e ∷ es) h v = run-IsValid (step s e) es h.1 (step-IsValid s e h.0 v)

lost_in_broadcast :
    (m : ChannelManager) (ws : ℕ) (c : ClientState) (alive : ℕ → Bool) (channel : Str)
    → m.clients ≡ (ws, c) ∷ []
    → wants channel none c ≡ true
    → alive ws ≡ false
    → (broadcast m alive channel none).0.clients ≡ []
unfolding broadcast targets
lost_in_broadcast m ws c alive channel h w dead =
    rw (h, w, dead) (rw (test_holds (ℕ_discrete ws ws) refl) refl)

-- When the only client is lost in a broadcast and another comes before the endpoint of the first
-- notices, a second task starts beside the first.
pub lost_client-two_tasks :
    (s : Server) (ws new_ws t : ℕ) (c : ClientState) (alive : ℕ → Bool) (channel : Str)
    → s.manager.clients ≡ (ws, c) ∷ []
    → s.poller.live ≡ t ∷ []
    → wants channel none c ≡ true
    → alive ws ≡ false
    → (run s (publishes alive channel none ∷ joins new_ws ∷ [])).poller.live
      ≡ s.poller.next_task ∷ t ∷ []
unfolding run step
lost_client-two_tasks s ws new_ws t c alive channel h k w dead =
    let s' : Server = record s { manager = (broadcast s.manager alive channel none).0 } in
    let alone : length (join s' new_ws).manager.clients ≡ 1 = ap length (
      clients-join s' new_ws
      ∙ ap (Dict.insert ℕ_discrete new_ws newcomer)
          (lost_in_broadcast s.manager ws c alive channel h w dead)) in
    let started : (join s' new_ws).poller ≡ start s.poller =
      poller-join s' new_ws ∙ rw (eq_true _ 1 alone) refl in
    ap (λ p. p.live) started ∙ unfold start in ap (◌∷◌ s.poller.next_task) k
