-- ===== src/Ws/Subscriptions.antt =====
-- Who gets an event after a subscription: app/api/ws/events.py.
use ax_server.Prelude.{
  ℕ, ◌≡◌, Bool, true, false, ◌&&◌, not, Option, none, some, List, keep_if, contains,
  contains-append, contains-keep_if, ℕ_discrete, arith, refl, ◌∙◌, test_holds,
}
use ax_server.Prelude.Dict.{Dict, lookup-insert}
use ax_server.Prelude.Dict.Laws.{insert-Distinct, Distinct}
use ax_server.Prelude.Text.{text, lower, str_eq, Str, str_dec, is_empty}
use ax_server.Ws.Manager.{
  Command, subscribed_to, handle_command, ClientState, ChannelManager, all_channels, subscribe,
  subscribed, wants, broadcast,
}
use ax_server.Ws.Delivery.{contains-broadcast}
use ax_server.Prelude.Dict

clients-subscribe :
    (m : ChannelManager) (ws : ℕ) (c : ClientState) (channels : List Str) (ids : Option (List ℕ))
    → Dict.lookup ℕ_discrete ws m.clients ≡ some c
    → (subscribe m ws channels ids).clients
      ≡ Dict.insert ℕ_discrete ws (subscribed channels ids c) m.clients
unfolding subscribe
clients-subscribe m ws c channels ids h = rw (subscribe, h) refl

-- The reach of an event right after a subscription
reaches-subscribe :
    (m : ChannelManager) (alive : ℕ → Bool) (ws : ℕ) (c : ClientState) (channels : List Str)
    (ids : Option (List ℕ)) (channel : Str) (market_id : Option ℕ)
    → Distinct ℕ_discrete m.clients
    → Dict.lookup ℕ_discrete ws m.clients ≡ some c
    → contains ℕ_discrete ws (broadcast (subscribe m ws channels ids) alive channel market_id).1
      ≡ wants channel market_id (subscribed channels ids c) && alive ws
reaches-subscribe m alive ws c channels ids channel market_id d h =
    let same = clients-subscribe m ws c channels ids h in
    let apart : Distinct ℕ_discrete (subscribe m ws channels ids).clients =
      rw same (insert-Distinct ℕ_discrete ws (subscribed channels ids c) m.clients d) in
    contains-broadcast (subscribe m ws channels ids) alive channel market_id ws apart
    ∙ rw same (
        rw (lookup-insert ℕ_discrete ws ws (subscribed channels ids c) m.clients)
          (rw (test_holds (ℕ_discrete ws ws) refl) refl))

wants-subscribed :
    (c : ClientState) (channels : List Str) (ids : List ℕ) (channel : Str) (id : ℕ)
    → contains str_dec channel channels ≡ true
    → contains str_dec channel all_channels ≡ true
    → contains ℕ_discrete id ids ≡ true
    → wants channel (some id) (subscribed channels (some ids) c) ≡ true
unfolding wants subscribed
wants-subscribed c channels ids channel id inside known listed = ground (
  arith,
  contains-append str_dec channel c.channels
      (keep_if (λ ch. contains str_dec ch all_channels) channels),
  contains-keep_if str_dec (λ ch. contains str_dec ch all_channels) channel channels,
  contains-append ℕ_discrete id c.market_ids ids,
)

-- After a client subscribes to a channel of the server with a market among the ids it gives, the
-- next event of that market on the channel reaches it, if the send succeeds.
pub subscribe-broadcast :
    (m : ChannelManager) (alive : ℕ → Bool) (ws : ℕ) (c : ClientState) (channels : List Str)
    (ids : List ℕ) (channel : Str) (id : ℕ)
    → Distinct ℕ_discrete m.clients
    → Dict.lookup ℕ_discrete ws m.clients ≡ some c
    → contains str_dec channel channels ≡ true
    → contains str_dec channel all_channels ≡ true
    → contains ℕ_discrete id ids ≡ true
    → contains ℕ_discrete ws
        (broadcast (subscribe m ws channels (some ids)) alive channel (some id)).1
      ≡ alive ws
subscribe-broadcast m alive ws c channels ids channel id d h inside known listed =
    reaches-subscribe m alive ws c channels (some ids) channel (some id) d h
    ∙ rw (wants-subscribed c channels ids channel id inside known listed) refl

handle_command-subscribe :
    (m : ChannelManager) (ws : ℕ) (msg : Command)
    → str_eq (lower msg.cmd) (text "subscribe") ≡ true
    → is_empty msg.channels ≡ false
    → msg.market_ids ≡ none
    → let valid = keep_if (λ ch. contains str_dec ch all_channels) msg.channels in
      let invalid = keep_if (λ ch. not (contains str_dec ch all_channels)) msg.channels in
      handle_command m ws msg ≡ (subscribe m ws valid none, subscribed_to valid none invalid)
unfolding handle_command
handle_command-subscribe m ws msg cmd ne no_ids = rw (handle_command, cmd, ne, no_ids) refl

not_wanted :
    (c : ClientState) (channels : List Str) (channel : Str) (id : ℕ)
    → is_empty c.market_ids ≡ false
    → contains ℕ_discrete id c.market_ids ≡ false
    → wants channel (some id) (subscribed channels none c) ≡ false
unfolding wants subscribed
not_wanted c channels channel id filter outside = ground arith

-- A client that has a market filter and subscribes again without one is told that it gets all
-- markets, and still gets no event of a market outside its old filter.
pub handle_command-keeps_filter :
    (m : ChannelManager) (alive : ℕ → Bool) (ws : ℕ) (c : ClientState) (msg : Command)
    (channel : Str) (id : ℕ)
    → Distinct ℕ_discrete m.clients
    → Dict.lookup ℕ_discrete ws m.clients ≡ some c
    → str_eq (lower msg.cmd) (text "subscribe") ≡ true
    → is_empty msg.channels ≡ false
    → msg.market_ids ≡ none
    → is_empty c.market_ids ≡ false
    → contains ℕ_discrete id c.market_ids ≡ false
    → let r = handle_command m ws msg in
      ((valid : List Str) × (invalid : List Str) × (r.1 ≡ subscribed_to valid none invalid))
      × (contains ℕ_discrete ws (broadcast r.0 alive channel (some id)).1 ≡ false)
unfolding handle_command
handle_command-keeps_filter m alive ws c msg channel id d h cmd ne no_ids filter outside =
    let valid = keep_if (λ ch. contains str_dec ch all_channels) msg.channels in
    rw (handle_command-subscribe m ws msg cmd ne no_ids) (
      (valid, keep_if (λ ch. not (contains str_dec ch all_channels)) msg.channels, refl),
      reaches-subscribe m alive ws c valid none channel (some id) d h
          ∙ rw (not_wanted c valid channel id filter outside) refl,
    )
